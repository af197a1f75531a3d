-- ===== src/Order.antt =====
-- src/ipm_util.c: index_doubles, which orders indices by the values they have, the largest first; the
-- values are whole numbers.
pub mod Descends
use ipm_nci.Base.{
  ℕ, zero, suc, ◌≡◌, ◌<◌, ◌≤◌, refl, sym, ◌∙◌, Bool, true, false, if◌then◌else◌, ltb, List, length,
  get_or, arith,
}
use ipm_nci.Base.Swaps.{swap, count, count-swap, length-swap}
use ipm_nci.Layout.{identity}
use ipm_nci.Layout.Bounds.{length-identity}

-- The test and the exchange.
unfoldable pub order_turn : List ℕ → ℕ → ℕ → List ℕ → List ℕ
order_turn val i j idx =
    if ltb (get_or val (get_or idx j 0) 0) (get_or val (get_or idx i 0) 0)
    then swap idx i j
    else idx

-- The inner loop after m turns.
unfoldable pub order_row : List ℕ → ℕ → ℕ → List ℕ → List ℕ
order_row val i zero idx = idx
order_row val i (suc j) idx = order_turn val i j (order_row val i j idx)

-- The outer loop after m turns.
unfoldable pub order_rows : List ℕ → ℕ → ℕ → List ℕ → List ℕ
order_rows val n zero idx = idx
order_rows val n (suc i) idx = order_row val i n (order_rows val n i idx)

-- index_doubles
unfoldable pub index_doubles : ℕ → List ℕ → List ℕ
index_doubles n val = order_rows val n n (identity n)

-- The same numbers in another order.
abbrev pub IsReordered : List ℕ → List ℕ → Type 0
IsReordered xs ys = (length ys ≡ length xs) × ((x : ℕ) → count x ys ≡ count x xs)

turn-IsReordered :
    (val : List ℕ) (i j : ℕ) (idx : List ℕ)
    → i < length idx
    → j < length idx
    → IsReordered idx (order_turn val i j idx)
unfolding order_turn
turn-IsReordered val i j idx hi hj =
    by_test (ltb (get_or val (get_or idx j 0) 0) (get_or val (get_or idx i 0) 0))
  where
    by_test : (b : Bool) → IsReordered idx (if b then swap idx i j else idx)
    by_test true = (length-swap idx i j, λ x. count-swap x idx i j hi hj)
    by_test false = (refl, λ x. refl)

row-IsReordered :
    (val : List ℕ) (i m : ℕ) (idx : List ℕ)
    → i < length idx
    → m ≤ length idx
    → IsReordered idx (order_row val i m idx)
unfolding order_row
row-IsReordered val i zero idx hi hm = (refl, λ x. refl)
row-IsReordered val i (suc j) idx hi hm =
    let (size, counts) = row-IsReordered val i j idx hi (omega arith) in
    let (size', counts') =
      turn-IsReordered val i j (order_row val i j idx) (omega (arith, size))
        (omega (arith, size)) in
    (size' ∙ size, λ x. counts' x ∙ counts x)

rows-IsReordered :
    (val : List ℕ) (n m : ℕ) (idx : List ℕ)
    → n ≡ length idx
    → m ≤ n
    → IsReordered idx (order_rows val n m idx)
unfolding order_rows
rows-IsReordered val n zero idx e hm = (refl, λ x. refl)
rows-IsReordered val n (suc i) idx e hm =
    let (size, counts) = rows-IsReordered val n i idx e (omega arith) in
    let (size', counts') =
      row-IsReordered val i n (order_rows val n i idx) (omega (arith, size))
        (omega (arith, size)) in
    (size' ∙ size, λ x. counts' x ∙ counts x)

-- index_doubles gives the numbers from 0 to n - 1 in some order: each occurs in the result as often
-- as in the identity, and the result has length n.
pub index_doubles-IsReordered :
    (n : ℕ) (val : List ℕ) → IsReordered (identity n) (index_doubles n val)
unfolding index_doubles
index_doubles-IsReordered n val =
    rows-IsReordered val n n (identity n) (sym (length-identity n)) (omega arith)
