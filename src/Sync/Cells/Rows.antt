-- ===== src/Sync/Cells/Rows.antt =====
-- src/ipm_api.c, ipm_sync: buckets in rows and columns, set to 0 and added to.
use ipm_nci.Base.{
  ℕ, zero, suc, ◌+◌, ◌%◌, ◌^◌, ◌<◌, ◌≤◌, ◌≡◌, refl, ap, ◌∙◌, Bool, true, false, ◌&&◌, if◌then◌else◌,
  ◌==◌, List, [], ◌∷◌, map, length, get_or, set, length-set, length-map, get_or-set_self,
  get_or-set_ne, arith, ℕ_discrete, ==_refl, ==_of_ne,
}
use ipm_nci.Hash.{add64}
use ipm_nci.Sync.{clear_row, add_cell, add_count}

-- `a[r][c]`
abbrev pub cell : List (List ℕ) → ℕ → ℕ → ℕ
cell rows r c = get_or (get_or rows r []) c 0

-- m rows of n columns
abbrev pub HasShape : ℕ → ℕ → List (List ℕ) → Type 0
HasShape m n rows = (length rows ≡ m) × ((r : ℕ) → r < m → length (get_or rows r []) ≡ n)

cell-set :
    (rows : List (List ℕ)) (i j v r c : ℕ)
    → i < length rows
    → j < length (get_or rows i [])
    → cell (set rows i (set (get_or rows i []) j v)) r c
      ≡ (if (i == r) && (j == c) then v else cell rows r c)
cell-set rows i j v r c hi hj = elim (ℕ_discrete i r) [
  | yes e ↦
      rw (← e, ==_refl i, get_or-set_self rows i (set (get_or rows i []) j v) [] hi)
        (elim (ℕ_discrete j c) [
          | yes f ↦ rw (← f, ==_refl j) (get_or-set_self (get_or rows i []) j v 0 hj)
          | no g ↦ rw (==_of_ne j c g) (get_or-set_ne (get_or rows i []) j c v 0 g)
        ])
  | no f ↦ rw (==_of_ne i r f, get_or-set_ne rows i r (set (get_or rows i []) j v) [] f) refl
]

pub set-HasShape :
    (m n : ℕ) (rows : List (List ℕ)) (i j v : ℕ)
    → HasShape m n rows
    → HasShape m n (set rows i (set (get_or rows i []) j v))
set-HasShape m n rows i j v (size, widths) = (
  length-set rows i (set (get_or rows i []) j v) ∙ size,
  λ r h. elim (ℕ_discrete i r) [
    | yes e ↦
        rw (← e, get_or-set_self rows i (set (get_or rows i []) j v) [] (omega (arith, size)))
          (length-set (get_or rows i []) j v ∙ widths i (omega arith))
    | no f ↦ rw (get_or-set_ne rows i r (set (get_or rows i []) j v) [] f) (widths r h)
  ],
)

zeros : (xs : List ℕ) (c : ℕ) → get_or (map {B = ℕ} (λ _. 0) xs) c 0 ≡ 0
zeros [] c = refl
zeros (x ∷ xs) zero = refl
zeros (x ∷ xs) (suc c) = zeros xs c

get_or-clear :
    (rows : List (List ℕ)) (r : ℕ) → get_or (map clear_row rows) r [] ≡ clear_row (get_or rows r [])
get_or-clear [] r = refl
get_or-clear (x ∷ xs) zero = refl
get_or-clear (x ∷ xs) (suc r) = get_or-clear xs r

pub cell-clear : (rows : List (List ℕ)) (r c : ℕ) → 1 ≤ c → cell (map clear_row rows) r c ≡ 0
cell-clear rows r c h = rw (get_or-clear rows r) (of_row (get_or rows r []) c h)
  where
    of_row : (xs : List ℕ) (c : ℕ) → 1 ≤ c → get_or (clear_row xs) c 0 ≡ 0
    of_row [] c h = refl
    of_row (x ∷ xs) zero h = absurd (omega arith)
    of_row (x ∷ xs) (suc c) h = zeros xs c

length-clear_row : (xs : List ℕ) → length (clear_row xs) ≡ length xs
length-clear_row [] = refl
length-clear_row (x ∷ xs) = ap suc (length-map xs (λ _. 0))

pub clear-HasShape :
    (m n : ℕ) (rows : List (List ℕ)) → HasShape m n rows → HasShape m n (map clear_row rows)
clear-HasShape m n rows (size, widths) = (
  length-map rows clear_row ∙ size,
  λ r h. rw (get_or-clear rows r) (length-clear_row (get_or rows r []) ∙ widths r h),
)

at_cell :
    (f : ℕ → ℕ → ℕ) (i j r c x : ℕ)
    → (if (i == r) && (j == c) then f i j + x else f r c)
      ≡ f r c + (if (i == r) && (j == c) then x else 0)
at_cell f i j r c x = elim (ℕ_discrete i r) [
  | yes e ↦ elim (ℕ_discrete j c) [
    | yes g ↦ rw (e, g, ==_refl r, ==_refl c) refl
    | no g ↦ rw (==_of_ne j c g) (ground arith)
  ]
  | no g ↦ rw (==_of_ne i r g) (omega arith)
]

-- Adding to a bucket, seen from the bucket r, c.
module _ (m n i j r c x : ℕ) (rows : List (List ℕ)) (shape : HasShape m n rows) (hi : i < m)
    (hj : j < n) where
  cell-put :
      (v : ℕ)
      → cell (set rows i (set (get_or rows i []) j v)) r c
        ≡ (if (i == r) && (j == c) then v else cell rows r c)
  cell-put v = cell-set rows i j v r c (omega (arith, shape.0)) (omega (arith, shape.1 i hi))

  pub cell-add :
      cell (add_cell rows i j x) r c ≡ cell rows r c + (if (i == r) && (j == c) then x else 0)
  cell-add = cell-put (cell rows i j + x) ∙ at_cell (cell rows) i j r c x

  pub cell-count :
      cell rows r c < 2 ^ 64
      → cell (add_count rows i j x) r c
        ≡ (cell rows r c + (if (i == r) && (j == c) then x else 0)) % 2 ^ 64
  cell-count small =
      cell-put (add64 (cell rows i j) x)
      ∙ wrapped ((i == r) && (j == c)) (at_cell (cell rows) i j r c x)
    where
      wrapped :
          (b : Bool)
          → (if b then cell rows i j + x else cell rows r c) ≡ cell rows r c + (if b then x else 0)
          → (if b then add64 (cell rows i j) x else cell rows r c)
            ≡ (cell rows r c + (if b then x else 0)) % 2 ^ 64
      wrapped true e = ap (λ (k : ℕ). k % 2 ^ 64) e
      wrapped false e = omega (arith, small)
