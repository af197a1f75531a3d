-- ===== src/Report/Tally.antt =====
-- src/ipm_mpi_report.c: the loop over the table, as sums over its entries.
use ipm_nci.Base.{
  ℕ, suc, ◌+◌, ◌≤◌, ◌≡◌, ◌≢◌, refl, ap, ◌∙◌, Bool, true, false, not, ◌&&◌, if◌then◌else◌, ◌==◌,
  List, [], ◌∷◌, length, get_or, set, length-set, get_or-set, arith, ℕ_discrete, ==_of_ne,
}
use ipm_nci.Hash.{Entry}
use ipm_nci.Key.{key_call}
use ipm_nci.Region.Step.{sum, sum-set}
use ipm_nci.Report.{CallSums, tally_entry, tally}

-- Every key is of a call that the arrays have an element for.
abbrev pub HasCallsTo : ℕ → List Entry → Type 0
HasCallsTo n [] = 0 ≤ 0
HasCallsTo n (e ∷ es) = (e.key ≢ 0 → key_call e.key ≤ n) × HasCallsTo n es

abbrev pub taken : (ℕ → Bool) → Entry → Bool
taken select e = not (e.key == 0) && select e.key

-- The loop over the table on one of the two arrays.
pub sum_up : (Entry → ℕ) → (ℕ → Bool) → List Entry → List ℕ → List ℕ
sum_up w select [] xs = xs
sum_up w select (e ∷ es) xs =
    sum_up w select es
      (if taken select e then set xs (key_call e.key) (get_or xs (key_call e.key) 0 + w e) else xs)

if_ap {ℓ κ} :
    {A : Type ℓ} {B : Type κ} (f : A → B) (b : Bool) (x y : A)
    → f (if b then x else y) ≡ (if b then f x else f y)
if_ap f true x y = refl
if_ap f false x y = refl

pub times-tally :
    (select : ℕ → Bool) (es : List Entry) (s : CallSums)
    → (tally select es s).times ≡ sum_up (λ e. e.t_tot) select es s.times
unfolding tally tally_entry sum_up
times-tally select [] s = refl
times-tally select (e ∷ es) s =
    times-tally select es (if taken select e then tally_entry e s else s)
    ∙ ap (sum_up (λ e. e.t_tot) select es)
        (if_ap (λ (r : CallSums). r.times) (taken select e) (tally_entry e s) s)

pub counts-tally :
    (select : ℕ → Bool) (es : List Entry) (s : CallSums)
    → (tally select es s).counts ≡ sum_up (λ e. e.count) select es s.counts
unfolding tally tally_entry sum_up
counts-tally select [] s = refl
counts-tally select (e ∷ es) s =
    counts-tally select es (if taken select e then tally_entry e s else s)
    ∙ ap (sum_up (λ e. e.count) select es)
        (if_ap (λ (r : CallSums). r.counts) (taken select e) (tally_entry e s) s)

-- What the taken entries weigh.
unfoldable pub weight : (Entry → ℕ) → (ℕ → Bool) → List Entry → ℕ
weight w select [] = 0
weight w select (e ∷ es) = (if taken select e then w e else 0) + weight w select es

pub sum-sum_up :
    (w : Entry → ℕ) (select : ℕ → Bool) (es : List Entry) (xs : List ℕ) (n : ℕ)
    → length xs ≡ suc n
    → HasCallsTo n es
    → sum (sum_up w select es xs) ≡ sum xs + weight w select es
unfolding sum_up weight
sum-sum_up w select [] xs n size all = omega arith
sum-sum_up w select (e ∷ es) xs n size all = elim (ℕ_discrete e.key 0) [
  | yes free ↦ rw free (ground (arith, sum-sum_up w select es xs n size all.1))
  | no key ↦ rw (==_of_ne e.key 0 key) (
      ground (
        arith,
        all.0 key,
        sum-sum_up w select es xs n size all.1,
        sum-sum_up w select es (set xs (key_call e.key) (get_or xs (key_call e.key) 0 + w e)) n
            (length-set xs (key_call e.key) _ ∙ size) all.1,
        sum-set xs (key_call e.key) (w e),
      ))
]

-- What they weigh for one call.
abbrev pub of_call : (ℕ → Bool) → ℕ → ℕ → Bool
of_call select c key = select key && (key_call key == c)

pub get_or-sum_up :
    (w : Entry → ℕ) (select : ℕ → Bool) (c : ℕ) (es : List Entry) (xs : List ℕ) (n : ℕ)
    → length xs ≡ suc n
    → HasCallsTo n es
    → get_or (sum_up w select es xs) c 0 ≡ get_or xs c 0 + weight w (of_call select c) es
unfolding sum_up weight
get_or-sum_up w select c [] xs n size all = omega arith
get_or-sum_up w select c (e ∷ es) xs n size all = elim (ℕ_discrete e.key 0) [
  | yes free ↦ rw free (ground (arith, get_or-sum_up w select c es xs n size all.1))
  | no key ↦ rw (==_of_ne e.key 0 key) (
      ground (
        arith,
        all.0 key,
        get_or-sum_up w select c es xs n size all.1,
        get_or-sum_up w select c es (set xs (key_call e.key) (get_or xs (key_call e.key) 0 + w e)) n
            (length-set xs (key_call e.key) _ ∙ size) all.1,
        get_or-set xs (key_call e.key) c (get_or xs (key_call e.key) 0 + w e) 0,
      ))
]
