-- ===== src/Report/Format/Listing.antt =====
-- src/ipm_report_internal.c: the calls that a report lists.
use ipm_nci.Base.{
  ℕ, zero, suc, ◌+◌, ◌≤◌, ◌<◌, ◌≡◌, ◌≢◌, refl, sym, ap, ◌∙◌, if◌then◌else◌, ◌==◌, ltb, List, [],
  ◌∷◌, ◌++◌, length, get_or, arith, ℕ_discrete, ==_of_ne,
}
use ipm_nci.Base.Swaps.{count}
use ipm_nci.Layout.{identity}
use ipm_nci.Layout.Bounds.{length-identity}
use ipm_nci.Order.Descends.{value, index_doubles-Descends}
use ipm_nci.Order.{index_doubles, index_doubles-IsReordered}
use ipm_nci.Report.Format.{Line, call_row, call_rows}
use ipm_nci.Report.{CallSums}

count-append : (x : ℕ) (ys zs : List ℕ) → count x (ys ++ zs) ≡ count x ys + count x zs
unfolding count
count-append x [] zs = omega arith
count-append x (y ∷ ys) zs = omega (arith, count-append x ys zs)

count-identity : (n x : ℕ) → count x (identity n) ≡ (if ltb x n then 1 else 0)
unfolding count identity
count-identity zero x = ground arith
count-identity (suc n) x = ground (arith, count-append x (identity n) (n ∷ []), count-identity n x)

-- The call of a row by call, and the calls of the rows among some lines.
unfoldable pub called : Line → List ℕ
called (call_row c t n) = c ∷ []
called _ = []

unfoldable pub calls_of : List Line → List ℕ
unfolding called
calls_of [] = []
calls_of (l ∷ ls) = called l ++ calls_of ls

-- The order of the list form: no value rises.
abbrev pub Falls : List ℕ → List ℕ → Type 0
Falls times idx = (k l : ℕ) → k < l → l < length idx → value times idx l ≤ value times idx k

all_zero :
    (times idx : List ℕ) (c : ℕ)
    → ((k : ℕ) → k < length idx → value times idx k ≡ 0)
    → get_or times c 0 ≢ 0
    → count c idx ≡ 0
unfolding count value
all_zero times [] c zeros pos = refl
all_zero times (j ∷ idx) c zeros pos = elim (ℕ_discrete j c) [
  | yes same ↦ absurd (pos (ap (λ x. get_or times x 0) (sym same) ∙ zeros 0 (omega arith)))
  | no other ↦ ground (arith, other, all_zero times idx c (λ k h. zeros (suc k) (omega arith)) pos)
]

module _ (g : CallSums) (c : ℕ) where
  listed :
      (idx : List ℕ)
      → Falls g.times idx
      → get_or g.times c 0 ≢ 0
      → count c (calls_of (call_rows g idx)) ≡ count c idx
  unfolding call_rows count calls_of value
  listed [] falls pos = refl
  listed (j ∷ idx) falls pos = elim (ℕ_discrete (get_or g.times j 0) 0) [
    | yes none_left ↦ rw none_left (sym (all_zero g.times (j ∷ idx) c (later none_left) pos))
    | no some_time ↦ rw (==_of_ne (get_or g.times j 0) 0 some_time) (
        ap (λ (n : ℕ). (if j == c then 1 else 0) + n)
          (listed idx (λ k l kl h. falls (suc k) (suc l) (omega arith) (omega arith)) pos))
  ]
    where
      later :
          get_or g.times j 0 ≡ 0 → (k : ℕ) → k < length (j ∷ idx) → value g.times (j ∷ idx) k ≡ 0
      later none_left zero h = none_left
      later none_left (suc k) h = omega (arith, falls 0 (suc k) (omega arith) h, none_left)

  unlisted : (idx : List ℕ) → get_or g.times c 0 ≡ 0 → count c (calls_of (call_rows g idx)) ≡ 0
  unfolding call_rows count calls_of
  unlisted [] free = refl
  unlisted (j ∷ idx) free = elim (ℕ_discrete (get_or g.times j 0) 0) [
    | yes none_left ↦ rw none_left refl
    | no some_time ↦
        rw (==_of_ne (get_or g.times j 0) 0 some_time)
          (ground (arith, unlisted idx free, some_time, free))
  ]

-- The rows are a beginning of the ordered calls.
pub data IsPrefix : List ℕ → List ℕ → Type 0 where
  stop : (ys : List ℕ) → IsPrefix [] ys
  same : (x : ℕ) {xs ys : List ℕ} → IsPrefix xs ys → IsPrefix (x ∷ xs) (x ∷ ys)

call_rows-IsPrefix : (g : CallSums) (idx : List ℕ) → IsPrefix (calls_of (call_rows g idx)) idx
unfolding call_rows calls_of
call_rows-IsPrefix g [] = stop []
call_rows-IsPrefix g (j ∷ idx) = elim (ℕ_discrete (get_or g.times j 0) 0) [
  | yes none_left ↦ rw none_left (stop (j ∷ idx))
  | no some_time ↦
      rw (==_of_ne (get_or g.times j 0) 0 some_time) (same j (call_rows-IsPrefix g idx))
]

prefix_at :
    {xs ys : List ℕ}
    → IsPrefix xs ys
    → (k : ℕ) → k < length xs
    → (get_or xs k 0 ≡ get_or ys k 0) × (k < length ys)
prefix_at (stop ys) k h = elim h [ ]
prefix_at (same x p) zero h = (refl, omega arith)
prefix_at (same x p) (suc k) h = let (at, inside) = prefix_at p k (omega arith) in (at, omega arith)

-- The rows of the calls that index_doubles orders: each call with time once, no other, and no time
-- rises from one row to the next.
module _ (g : CallSums) (n : ℕ) where
  length-idx : length (index_doubles n g.times) ≡ n
  length-idx = (index_doubles-IsReordered n g.times).0 ∙ length-identity n

  idx-Falls : Falls g.times (index_doubles n g.times)
  idx-Falls k l kl h = index_doubles-Descends n g.times k l kl (omega (arith, length-idx))

  pub count-rows :
      (c : ℕ)
      → c < n
      → count c (calls_of (call_rows g (index_doubles n g.times)))
        ≡ (if get_or g.times c 0 == 0 then 0 else 1)
  count-rows c h = elim (ℕ_discrete (get_or g.times c 0) 0) [
    | yes free ↦ rw free (unlisted g c (index_doubles n g.times) free)
    | no pos ↦ rw (==_of_ne (get_or g.times c 0) 0 pos) (
        listed g c (index_doubles n g.times) idx-Falls pos
        ∙ (index_doubles-IsReordered n g.times).1 c
        ∙ count-identity n c
        ∙ ground (arith, h))
  ]

  pub rows-Falls : Falls g.times (calls_of (call_rows g (index_doubles n g.times)))
  unfolding value
  rows-Falls k l kl h =
      let prefix = call_rows-IsPrefix g (index_doubles n g.times) in
      let (at_l, inside) = prefix_at prefix l h in
      let (at_k, _) = prefix_at prefix k (omega arith) in rw (at_l, at_k) (idx-Falls k l kl inside)
