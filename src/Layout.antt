-- ===== src/Layout.antt =====
-- src/bwr.c: a program that looks for a layout of the ranks on blocks of b with little traffic between
-- different places of a block, by random exchanges. The random numbers are a parameter; the cost is
-- a whole number.
pub mod Bounds
use ipm_nci.Base.{
  ℕ, zero, suc, ◌+◌, ◌%◌, ◌&&◌, not, if◌then◌else◌, ◌==◌, ltb, List, [], ◌∷◌, ◌++◌, get_or,
}
use ipm_nci.Base.Swaps.{swap}

-- `perm[i] = i`
unfoldable pub identity : ℕ → List ℕ
identity zero = []
identity (suc n) = identity n ++ n ∷ []

-- data[perm[i]][perm[j]]
abbrev pub traffic : List (List ℕ) → List ℕ → ℕ → ℕ → ℕ
traffic rows perm i j = get_or (get_or rows (get_or perm i 0) []) (get_or perm j 0) 0

-- The inner loop of comm_cost, after m turns.
unfoldable pub row_cost : List (List ℕ) → ℕ → List ℕ → ℕ → ℕ → ℕ
row_cost rows b perm i zero = 0
row_cost rows b perm i (suc j) =
    row_cost rows b perm i j
    + (if ltb 0 (traffic rows perm i j) && not (i % b == j % b) then traffic rows perm i j else 0)

-- The outer loop, after m turns, for n ranks.
unfoldable pub rows_cost : List (List ℕ) → ℕ → List ℕ → ℕ → ℕ → ℕ
rows_cost rows b perm n zero = 0
rows_cost rows b perm n (suc i) = rows_cost rows b perm n i + row_cost rows b perm i n

-- comm_cost
unfoldable pub comm_cost : List (List ℕ) → ℕ → ℕ → List ℕ → ℕ
comm_cost rows b n perm = rows_cost rows b perm n n

pub record Climb : Type 0 where
  pub perm : List ℕ
  pub operm : List ℕ
  pub ocost : ℕ

-- What main sets before its loop.
unfoldable pub climb_start : List (List ℕ) → ℕ → ℕ → Climb
climb_start rows b n = record {
  perm = identity n;
  operm = identity n;
  ocost = comm_cost rows b n (identity n);
}

-- One turn of `while(1)`, for the two random places.
unfoldable pub climb_turn : List (List ℕ) → ℕ → ℕ → ℕ × ℕ → Climb → Climb
climb_turn rows b n at s =
    let perm = swap s.perm (at.0) (at.1) in
    let cost = comm_cost rows b n perm in
    if ltb cost s.ocost
    then record { perm = perm; operm = perm; ocost = cost }
    else record { perm = s.operm; operm = s.operm; ocost = s.ocost }

unfoldable pub climb : List (List ℕ) → ℕ → ℕ → List (ℕ × ℕ) → Climb → Climb
climb rows b n [] s = s
climb rows b n (at ∷ ats) s = climb rows b n ats (climb_turn rows b n at s)
