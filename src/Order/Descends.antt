-- ===== src/Order/Descends.antt =====
-- src/ipm_util.c, index_doubles: its order. The outer loop inserts one index into the ordered ones
-- before it, though its inner loop runs over the whole array.
use ipm_nci.Base.{
  ℕ, zero, suc, ◌≤◌, ◌<◌, ◌≡◌, inl, inr, Bool-cases, if◌then◌else◌, ltb, List, length, get_or,
  arith, refl, ◌==◌, ◌∙◌, ℕ_discrete,
}
use ipm_nci.Base.Swaps.{swap, get_or-swap, length-swap}
use ipm_nci.Layout.{identity}
use ipm_nci.Layout.Bounds.{length-identity}
use ipm_nci.Order.{
  IsReordered, index_doubles-IsReordered, order_turn, order_row, order_rows, index_doubles,
}

-- The value of the index at the place k.
unfoldable pub value : List ℕ → List ℕ → ℕ → ℕ
value val idx k = get_or val (get_or idx k 0) 0

-- The first n places have falling values.
abbrev Descends : List ℕ → List ℕ → ℕ → Type 0
Descends val idx n = (k l : ℕ) → k < l → l < n → value val idx l ≤ value val idx k

value-swap :
    (val idx : List ℕ) (i j k : ℕ)
    → i < length idx
    → j < length idx
    → value val (swap idx i j) k
      ≡ (if j == k then value val idx i else if i == k then value val idx j else value val idx k)
unfolding value
value-swap val idx i j k hi hj = ground (arith, get_or-swap idx i j k)

-- What holds in the inner loop for i after j turns.
record Inserts (val : List ℕ) (i j : ℕ) (idx : List ℕ) : Type 0 where
  inside : i < length idx
  before : Descends val idx i
  least : (k : ℕ) → k < j → value val idx i ≤ value val idx k

module _ (val : List ℕ) (i j : ℕ) (idx : List ℕ) (v : Inserts val i j idx) (hj : j < length idx)
    (less : value val idx j < value val idx i) where
  swapped : Inserts val i (suc j) (swap idx i j)
  swapped = record {
    inside = omega (arith, length-swap idx i j, v.inside);
    before = λ k l kl li. ground (
      arith,
      less,
      v.inside,
      value-swap val idx i j k,
      value-swap val idx i j l,
      v.before k l,
      v.before j l,
      v.before k j,
      v.least k,
    );
    least = λ k kj.
        ground
          (arith, less, v.inside, value-swap val idx i j k, value-swap val idx i j i, v.least k);
  }

length-turn : (val : List ℕ) (i j : ℕ) (idx : List ℕ) → length (order_turn val i j idx) ≡ length idx
unfolding order_turn
length-turn val i j idx = ground (arith, length-swap idx i j)

turn-Inserts :
    (val : List ℕ) (i j : ℕ) (idx : List ℕ)
    → Inserts val i j idx
    → j < length idx
    → Inserts val i (suc j) (order_turn val i j idx)
unfolding order_turn value
turn-Inserts val i j idx v hj = elim (Bool-cases (ltb (value val idx j) (value val idx i))) [
  | inl less ↦ rw less (swapped val i j idx v hj (ground (arith, less)))
  | inr more ↦ rw more (record {
    inside = v.inside;
    before = v.before;
    least = λ k kj. ground (arith, more, v.least k);
  })
]

row-Inserts :
    (val : List ℕ) (i m : ℕ) (idx : List ℕ)
    → i < length idx
    → m ≤ length idx
    → Descends val idx i
    → Inserts val i m (order_row val i m idx) × (length (order_row val i m idx) ≡ length idx)
unfolding order_row
row-Inserts val i zero idx hi hm d =
    (record { inside = hi; before = d; least = λ k h. elim h [ ] }, refl)
row-Inserts val i (suc j) idx hi hm d =
    let (v, size) = row-Inserts val i j idx hi (omega arith) d in
    (
      turn-Inserts val i j (order_row val i j idx) v (omega (arith, size)),
      length-turn val i j (order_row val i j idx) ∙ size,
    )

rows-Descends :
    (val : List ℕ) (n m : ℕ) (idx : List ℕ)
    → length idx ≡ n
    → m ≤ n
    → Descends val (order_rows val n m idx) m × (length (order_rows val n m idx) ≡ n)
unfolding order_rows
rows-Descends val n zero idx size hm = (λ k l kl h. elim h [ ], size)
rows-Descends val n (suc i) idx size hm =
    let (d, size') = rows-Descends val n i idx size (omega arith) in
    let (v, size'') =
      row-Inserts val i n (order_rows val n i idx) (omega (arith, size')) (omega (arith, size'))
        d in
    (
      λ k l kl h. elim (ℕ_discrete l i) [
        | yes last ↦ rw last (v.least k (omega arith))
        | no other ↦ v.before k l kl (omega arith)
      ],
      size'' ∙ size',
    )

-- The values of the indices that index_doubles gives never rise: of two places the earlier has the
-- larger value, or the same.
pub index_doubles-Descends :
    (n : ℕ) (val : List ℕ) (k l : ℕ)
    → k < l
    → l < n
    → value val (index_doubles n val) l ≤ value val (index_doubles n val) k
unfolding index_doubles
index_doubles-Descends n val =
    (rows-Descends val n n (identity n) (length-identity n) (omega arith)).0

-- index_doubles gives the numbers from 0 to n - 1 in an order in which their values never rise: each
-- number occurs as often as in the identity, the result has length n, and of two places the earlier
-- has the larger value, or the same.
pub index_doubles-sorts :
    (n : ℕ) (val : List ℕ) (k l : ℕ)
    → k < l
    → l < n
    → IsReordered (identity n) (index_doubles n val)
      × (value val (index_doubles n val) l ≤ value val (index_doubles n val) k)
index_doubles-sorts n val k l h m =
    (index_doubles-IsReordered n val, index_doubles-Descends n val k l h m)
