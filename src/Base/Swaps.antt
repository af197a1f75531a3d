-- ===== src/Base/Swaps.antt =====
-- Exchanging two elements of an array, and what that keeps.
use Prim.Native.Nat.{ℕ, zero, suc, ◌+◌, ◌<◌}
use mathlib.Core.Path.{◌≡◌, refl}
use mathlib.Core.List.{List, [], ◌∷◌}
use native.Mathlib.Omega.{arith}
use ipm_nci.Base.Lists.{length, get_or, set, length-set, get_or-set}
use ipm_nci.Base.Tests.{◌==◌, if◌then◌else◌}

-- `p = a[i]; a[i] = a[j]; a[j] = p`
unfoldable pub swap : List ℕ → ℕ → ℕ → List ℕ
swap a i j = set (set a i (get_or a j 0)) j (get_or a i 0)

-- How often a number occurs.
unfoldable pub count : ℕ → List ℕ → ℕ
count x [] = 0
count x (y ∷ ys) = (if y == x then 1 else 0) + count x ys

abbrev one_if : ℕ → ℕ → ℕ
one_if y x = if y == x then 1 else 0

count-set :
    (x : ℕ) (ys : List ℕ) (i v : ℕ)
    → i < length ys
    → count x (set ys i v) + one_if (get_or ys i 0) x ≡ count x ys + one_if v x
unfolding count
count-set x [] i v h = elim h [ ]
count-set x (y ∷ ys) zero v h = omega arith
count-set x (y ∷ ys) (suc i) v h = omega (arith, count-set x ys i v (omega arith))

get_or-set_at :
    (ys : List ℕ) (i j : ℕ) → i < length ys → get_or (set ys i (get_or ys j 0)) j 0 ≡ get_or ys j 0
get_or-set_at [] i j h = elim h [ ]
get_or-set_at (y ∷ ys) zero zero h = refl
get_or-set_at (y ∷ ys) zero (suc j) h = refl
get_or-set_at (y ∷ ys) (suc i) zero h = refl
get_or-set_at (y ∷ ys) (suc i) (suc j) h = get_or-set_at ys i j (omega arith)

pub length-swap : (ys : List ℕ) (i j : ℕ) → length (swap ys i j) ≡ length ys
unfolding swap
length-swap ys i j = omega (
  arith,
  length-set (set ys i (get_or ys j 0)) j (get_or ys i 0),
  length-set ys i (get_or ys j 0),
)

pub count-swap :
    (x : ℕ) (ys : List ℕ) (i j : ℕ)
    → i < length ys
    → j < length ys
    → count x (swap ys i j) ≡ count x ys
unfolding swap
count-swap x ys i j hi hj =
    let inner = set ys i (get_or ys j 0) in
    let here : one_if (get_or inner j 0) x ≡ one_if (get_or ys j 0) x =
      rw (get_or-set_at ys i j hi) refl in
    omega (
      arith,
      count-set x ys i (get_or ys j 0) hi,
      count-set x inner j (get_or ys i 0) (omega (arith, length-set ys i (get_or ys j 0))),
      here,
    )

pub get_or-swap :
    (ys : List ℕ) (i j k : ℕ)
    → i < length ys
    → j < length ys
    → get_or (swap ys i j) k 0
      ≡ (if j == k then get_or ys i 0 else if i == k then get_or ys j 0 else get_or ys k 0)
unfolding swap
get_or-swap ys i j k hi hj = ground (
  arith,
  get_or-set (set ys i (get_or ys j 0)) j k (get_or ys i 0) 0,
  length-set ys i (get_or ys j 0),
  get_or-set ys i k (get_or ys j 0) 0,
)
