-- ===== src/Hash/Sums.antt =====
-- Sums over the keys of the table, up to multiples of a number.
use native.Mathlib.Nat.{mod-add-mod}
use ipm_nci.Base.{
  ℕ, zero, suc, ◌+◌, ◌%◌, ◌≤◌, ◌≡◌, ◌≢◌, refl, sym, ◌∙◌, ap, if◌then◌else◌, ◌==◌, not, List, [],
  ◌∷◌, ==_of_ne, replicate, get_or, set, arith,
}
use ipm_nci.Hash.Slots.{key_at}
use ipm_nci.Hash.{Entry, cleared, commtime}
use ipm_nci.Key.{key_call}

-- The sum of a field over the slots that hold a key.
unfoldable pub total : (Entry → ℕ) → List Entry → ℕ
total w [] = 0
total w (e ∷ es) = (if not (e.key == 0) then w e else 0) + total w es

pub commtime-total : (es : List Entry) → commtime es ≡ total (λ e. e.t_tot) es
unfolding commtime total
commtime-total [] = refl
commtime-total (e ∷ es) = rw (commtime-total es)

module _ (w : Entry → ℕ) where
  -- A free slot that is taken by an entry that weighs nothing.
  pub total-set_claim :
      (es : List Entry) (i : ℕ) (v : Entry)
      → key_at es i ≡ 0
      → w v ≡ 0
      → total w (set es i v) ≡ total w es
  unfolding total
  total-set_claim [] i v e h = refl
  total-set_claim (x ∷ es) zero v e h = ground arith
  total-set_claim (x ∷ es) (suc i) v e h = omega (arith, total-set_claim es i v e h)

  -- A slot that keeps its key.
  pub total-set_same :
      (es : List Entry) (i : ℕ) (v : Entry)
      → key_at es i ≢ 0
      → v.key ≡ key_at es i
      → total w (set es i v) + w (get_or es i cleared) ≡ total w es + w v
  unfolding total
  total-set_same [] i v h e = absurd (h refl)
  total-set_same (x ∷ es) zero v h e = ground arith
  total-set_same (x ∷ es) (suc i) v h e = omega (arith, total-set_same es i v h e)

-- Every key of the table is of a call from 1 on.
abbrev pub HasCalls : List Entry → Type 0
HasCalls es = (j : ℕ) → key_at es j ≢ 0 → 1 ≤ key_call (key_at es j)

pub HasCalls-set :
    (es : List Entry) (i : ℕ) (v : Entry) → 1 ≤ key_call v.key → HasCalls es → HasCalls (set es i v)
HasCalls-set [] i v h all j = all j
HasCalls-set (x ∷ es) zero v h all zero = λ ne. h
HasCalls-set (x ∷ es) zero v h all (suc j) = all (suc j)
HasCalls-set (x ∷ es) (suc i) v h all zero = all 0
HasCalls-set (x ∷ es) (suc i) v h all (suc j) = HasCalls-set es i v h (λ j. all (suc j)) j

-- Equality up to multiples of m; for m = 0 it is equality.
abbrev pub Same : ℕ → ℕ → ℕ → Type 0
Same m a b = a % m ≡ b % m

pub Same-add : (m a b c : ℕ) → Same m a b → Same m (a + c) (b + c)
Same-add m a b c e = sym (mod-add-mod a m c) ∙ ap (λ t. (t + c) % m) e ∙ mod-add-mod b m c

-- A change f of the entry of a key, by which its field grows by d.
pub total-set_adds :
    (m : ℕ) (w : Entry → ℕ) (f : Entry → Entry) (d : ℕ)
    → ((e : Entry) → (f e).key ≡ e.key)
    → ((e : Entry) → Same m (w (f e)) (w e + d))
    → (es : List Entry) (i : ℕ) → key_at es i ≢ 0
    → Same m (total w (set es i (f (get_or es i cleared)))) (total w es + d)
unfolding total
total-set_adds m w f d same adds [] i taken = absurd (taken refl)
total-set_adds m w f d same adds (e ∷ es) zero taken =
    rw (==_of_ne (f e).key 0 (λ p. taken (sym (same e) ∙ p)), ==_of_ne e.key 0 taken)
      (Same-add m (w (f e)) (w e + d) (total w es) (adds e) ∙ ap (λ (t : ℕ). t % m) (omega arith))
total-set_adds m w f d same adds (e ∷ es) (suc i) taken =
    let head : ℕ = if not (e.key == 0) then w e else 0 in
    let tail = total w (set es i (f (get_or es i cleared))) in
    ap (λ (t : ℕ). t % m) (let p : head + tail ≡ tail + head = omega arith in p)
    ∙ Same-add m tail (total w es + d) head (total-set_adds m w f d same adds es i taken)
    ∙ ap (λ (t : ℕ). t % m) (omega arith)

-- A table without keys.
pub total-cleared : (w : Entry → ℕ) (n : ℕ) → total w (replicate n cleared) ≡ 0
unfolding total
total-cleared w zero = refl
total-cleared w (suc n) = omega (arith, total-cleared w n)

pub HasCalls-cleared : (n : ℕ) → HasCalls (replicate n cleared)
HasCalls-cleared zero j taken = absurd (taken refl)
HasCalls-cleared (suc n) zero taken = absurd (taken refl)
HasCalls-cleared (suc n) (suc j) taken = HasCalls-cleared n j taken
