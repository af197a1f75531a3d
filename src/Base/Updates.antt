-- ===== src/Base/Updates.antt =====
-- Functions that are changed in one place.
use ipm_nci.Base.{
  ℕ, zero, suc, ◌+◌, ◌≤◌, ◌<◌, ◌≡◌, refl, if◌then◌else◌, ◌==◌, ℕ_discrete, ==_refl, ==_of_ne, arith,
}

abbrev pub update {ℓ} : {A : Type ℓ} → (ℕ → A) → ℕ → A → ℕ → A
update f i v j = if i == j then v else f j

pub update_all {ℓ κ} :
    {A : Type ℓ} (P : ℕ → A → Type κ) (f : ℕ → A) (i : ℕ) (v : A)
    → ((j : ℕ) → P j (f j))
    → P i v
    → (j : ℕ) → P j (update f i v j)
update_all P f i v all at j = elim (ℕ_discrete i j) [
  | yes e ↦ rw (← e) (rw (==_refl i) at)
  | no ne ↦ rw (==_of_ne i j ne) (all j)
]

-- The sum of x over the first n values.
unfoldable pub sum_to {ℓ} : {A : Type ℓ} → (A → ℕ) → (ℕ → A) → ℕ → ℕ
sum_to x f zero = 0
sum_to x f (suc n) = sum_to x f n + x (f n)

pub sum_to-above {ℓ} :
    {A : Type ℓ} (x : A → ℕ) (f : ℕ → A) (i : ℕ) (v : A) (n : ℕ)
    → n ≤ i
    → sum_to x (update f i v) n ≡ sum_to x f n
unfolding sum_to
sum_to-above x f i v zero h = refl
sum_to-above x f i v (suc n) h =
    rw (sum_to-above x f i v n (omega arith), ==_of_ne i n (omega arith)) refl

pub sum_to-update {ℓ} :
    {A : Type ℓ} (x : A → ℕ) (f : ℕ → A) (i : ℕ) (v : A) (n : ℕ)
    → i < n
    → sum_to x (update f i v) n + x (f i) ≡ sum_to x f n + x v
unfolding sum_to
sum_to-update x f i v zero h = absurd (omega arith)
sum_to-update x f i v (suc n) h = elim (ℕ_discrete i n) [
  | yes e ↦ rw (← e, ==_refl i) (omega (arith, sum_to-above x f i v i (omega arith)))
  | no ne ↦ rw (==_of_ne i n ne) (omega (arith, sum_to-update x f i v n (omega arith)))
]
