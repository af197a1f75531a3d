-- ===== src/Layout/Bounds.antt =====
-- The search keeps a permutation, and its cost does not rise.
use ipm_nci.Base.{
  ℕ, zero, suc, ◌≡◌, ◌<◌, ◌≤◌, refl, ap, ◌∙◌, ltb, List, [], ◌∷◌, length, Bool-cases, inl, inr,
  arith, length-append, ltb→lt,
}
use ipm_nci.Base.Swaps.{swap, count, count-swap, length-swap}
use ipm_nci.Layout.{comm_cost, Climb, identity, climb_start, climb_turn, climb}

-- The state between two turns: a permutation of 0 to n - 1, with its cost.
pub record IsValid (rows : List (List ℕ)) (b n : ℕ) (s : Climb) : Type 0 where
  pub size : length s.operm ≡ n
  pub counts : (x : ℕ) → count x s.operm ≡ count x (identity n)
  pub same : s.perm ≡ s.operm
  pub costs : s.ocost ≡ comm_cost rows b n s.operm

-- The random places are in range.
abbrev pub InRange : ℕ → List (ℕ × ℕ) → Type 0
InRange n [] = 0 ≤ 0
InRange n (at ∷ ats) = ((at.0 < n) × (at.1 < n)) × InRange n ats

pub length-identity : (n : ℕ) → length (identity n) ≡ n
unfolding identity
length-identity zero = refl
length-identity (suc n) = omega (arith, length-append (identity n) (n ∷ []), length-identity n)

module _ (rows : List (List ℕ)) (b n : ℕ) where
  turn-IsValid :
      (at : ℕ × ℕ) (s : Climb)
      → at.0 < n
      → at.1 < n
      → IsValid rows b n s
      → IsValid rows b n (climb_turn rows b n at s) × ((climb_turn rows b n at s).ocost ≤ s.ocost)
  unfolding climb_turn
  turn-IsValid at s hi hj valid =
      elim (Bool-cases (ltb (comm_cost rows b n (swap s.perm (at.0) (at.1))) s.ocost)) [
        | inl better ↦ rw better (
          record {
            size = length-swap s.perm (at.0) (at.1) ∙ ap length valid.same ∙ valid.size;
            counts = λ x.
                count-swap x s.perm (at.0) (at.1) (inside hi) (inside hj)
                ∙ ap (count x) valid.same
                ∙ valid.counts x;
            same = refl;
            costs = refl;
          },
          omega (arith, ltb→lt _ _ better),
        )
        | inr worse ↦ rw worse (
          record { size = valid.size; counts = valid.counts; same = refl; costs = valid.costs },
          omega arith,
        )
      ]
    where
      inside : {i : ℕ} → i < n → i < length s.perm
      inside h = omega (arith, ap length valid.same, valid.size, h)

  climb-IsValid_from :
      (ats : List (ℕ × ℕ)) (s : Climb)
      → InRange n ats
      → IsValid rows b n s
      → IsValid rows b n (climb rows b n ats s) × ((climb rows b n ats s).ocost ≤ s.ocost)
  unfolding climb
  climb-IsValid_from [] s range valid = (valid, omega arith)
  climb-IsValid_from (at ∷ ats) s range valid =
      let (valid', less) = turn-IsValid at s (range.0).0 (range.0).1 valid in
      let (valid'', less') = climb-IsValid_from ats (climb_turn rows b n at s) range.1 valid' in
      (valid'', omega (arith, less, less'))

  -- Whatever places below n are drawn, the layout kept is a permutation of 0 to n - 1, each number
  -- occurring as often as in the identity, its cost is the one kept with it, and that is at most
  -- the cost of the identity, with which the search starts.
  pub climb-IsValid :
      (ats : List (ℕ × ℕ))
      → InRange n ats
      → let s = climb rows b n ats (climb_start rows b n) in
        IsValid rows b n s × (s.ocost ≤ comm_cost rows b n (identity n))
  unfolding climb_start
  climb-IsValid ats range =
      climb-IsValid_from ats (climb_start rows b n) range
        (record { size = length-identity n; counts = λ x. refl; same = refl; costs = refl })
