-- ===== src/Report/Calls.antt =====
-- src/ipm_mpi_report.c: the sums by call that a task puts into the reductions.
use ipm_nci.Base.{
  ℕ, zero, suc, ◌+◌, ◌≡◌, refl, sym, ap, ◌∙◌, Bool, true, if◌then◌else◌, ◌==◌, List, [], ◌∷◌,
  length, get_or, replicate, length-replicate, get_or-replicate, arith, ℕ_discrete, ltb,
}
use ipm_nci.Hash.{Entry, commtime, commtime_region}
use ipm_nci.Key.{key_region}
use ipm_nci.Region.Step.{sum}
use ipm_nci.Report.{Build, Profile, no_calls, tally, all_locals, region_locals}
use ipm_nci.Sync.Buckets.{HasRegions}
use ipm_nci.Report.Tally.{
  HasCallsTo, taken, times-tally, counts-tally, weight, sum-sum_up, of_call, get_or-sum_up,
}

-- Over the selections of the first n regions.
unfoldable pub sum_regions : ℕ → (ℕ → ℕ) → ℕ
sum_regions zero f = 0
sum_regions (suc n) f = sum_regions n f + f n

abbrev in_region : ℕ → ℕ → Bool
in_region j key = key_region key == j

abbrev every : ℕ → Bool
every _ = true

-- Only its own region has an entry.
one_region : (w r n : ℕ) → sum_regions n (λ j. if r == j then w else 0) ≡ (if ltb r n then w else 0)
unfolding sum_regions
one_region w r zero = ground arith
one_region w r (suc n) = ground (arith, one_region w r n)

sum_regions-add :
    (n : ℕ) (f g : ℕ → ℕ) → sum_regions n (λ j. f j + g j) ≡ sum_regions n f + sum_regions n g
unfolding sum_regions
sum_regions-add zero f g = refl
sum_regions-add (suc n) f g = omega (arith, sum_regions-add n f g)

sum_regions-zero : (n : ℕ) → sum_regions n (λ j. 0) ≡ 0
unfolding sum_regions
sum_regions-zero zero = refl
sum_regions-zero (suc n) = omega (arith, sum_regions-zero n)

sum_regions-eq : (n : ℕ) (f g : ℕ → ℕ) → ((j : ℕ) → f j ≡ g j) → sum_regions n f ≡ sum_regions n g
unfolding sum_regions
sum_regions-eq zero f g e = refl
sum_regions-eq (suc n) f g e = omega (arith, e n, sum_regions-eq n f g e)

weight-regions :
    (w : Entry → ℕ) (c n : ℕ) (es : List Entry)
    → HasRegions n es
    → sum_regions n (λ j. weight w (of_call (in_region j) c) es) ≡ weight w (of_call every c) es
unfolding weight
weight-regions w c n [] all = sum_regions-zero n
weight-regions w c n (e ∷ es) all =
    sum_regions-add n (λ j. if taken (of_call (in_region j) c) e then w e else 0)
      (λ j. weight w (of_call (in_region j) c) es)
    ∙ both (head (ℕ_discrete e.key 0)) (weight-regions w c n es all.1)
  where
    own : ℕ
    own = if taken (of_call every c) e then w e else 0

    both : {a b x y : ℕ} → a ≡ x → b ≡ y → a + b ≡ x + y
    both p q = omega arith

    head :
        Dec (e.key ≡ 0)
        → sum_regions n (λ j. if taken (of_call (in_region j) c) e then w e else 0) ≡ own
    head (yes free) =
        sum_regions-eq n _ (λ _. 0) (λ j. ground (arith, free))
        ∙ sum_regions-zero n
        ∙ ground (arith, free)
    head (no key) =
        sum_regions-eq n _ (λ j. if key_region e.key == j then own else 0)
          (λ j. ground (arith, key))
        ∙ one_region own (key_region e.key) n
        ∙ ground (arith, all.0 key)

times_no_calls : (b : Build) → length (no_calls b.max_calls).times ≡ suc b.max_calls
unfolding no_calls
times_no_calls b = length-replicate (suc b.max_calls) 0

counts_no_calls : (b : Build) → length (no_calls b.max_calls).counts ≡ suc b.max_calls
unfolding no_calls
counts_no_calls b = length-replicate (suc b.max_calls) 0

no_calls_times : (b : Build) (c : ℕ) → get_or (no_calls b.max_calls).times c 0 ≡ 0
unfolding no_calls
no_calls_times b c = get_or-replicate (suc b.max_calls) c 0

no_calls_counts : (b : Build) (c : ℕ) → get_or (no_calls b.max_calls).counts c 0 ≡ 0
unfolding no_calls
no_calls_counts b c = get_or-replicate (suc b.max_calls) c 0

sum-replicate : (n : ℕ) → sum (replicate n 0) ≡ 0
unfolding sum
sum-replicate zero = refl
sum-replicate (suc n) = omega (arith, sum-replicate n)

-- A selection of the table, tallied from nothing.
module _ (b : Build) (select : ℕ → Bool) (es : List Entry)
    (called : HasCallsTo b.max_calls es) where
  sum-tally : sum (tally select es (no_calls b.max_calls)).times ≡ weight (λ e. e.t_tot) select es
  unfolding no_calls
  sum-tally =
      ap sum (times-tally select es (no_calls b.max_calls))
      ∙ sum-sum_up (λ e. e.t_tot) select es (no_calls b.max_calls).times b.max_calls
          (times_no_calls b) called
      ∙ ap (λ (n : ℕ). n + weight (λ e. e.t_tot) select es) (sum-replicate (suc b.max_calls))
      ∙ omega arith

  get_or-times :
      (c : ℕ)
      → get_or (tally select es (no_calls b.max_calls)).times c 0
        ≡ weight (λ e. e.t_tot) (of_call select c) es
  get_or-times c =
      ap (λ xs. get_or xs c 0) (times-tally select es (no_calls b.max_calls))
      ∙ get_or-sum_up (λ e. e.t_tot) select c es (no_calls b.max_calls).times b.max_calls
          (times_no_calls b) called
      ∙ ap (λ (n : ℕ). n + weight (λ e. e.t_tot) (of_call select c) es) (no_calls_times b c)
      ∙ omega arith

  get_or-counts :
      (c : ℕ)
      → get_or (tally select es (no_calls b.max_calls)).counts c 0
        ≡ weight (λ e. e.count) (of_call select c) es
  get_or-counts c =
      ap (λ xs. get_or xs c 0) (counts-tally select es (no_calls b.max_calls))
      ∙ get_or-sum_up (λ e. e.count) select c es (no_calls b.max_calls).counts b.max_calls
          (counts_no_calls b) called
      ∙ ap (λ (n : ℕ). n + weight (λ e. e.count) (of_call select c) es) (no_calls_counts b c)
      ∙ omega arith

weight-commtime : (es : List Entry) → weight (λ e. e.t_tot) every es ≡ commtime es
unfolding weight commtime
weight-commtime [] = refl
weight-commtime (e ∷ es) = ground (arith, weight-commtime es)

weight-commtime_region :
    (r : ℕ) (es : List Entry) → weight (λ e. e.t_tot) (in_region r) es ≡ commtime_region r es
unfolding weight commtime_region
weight-commtime_region r [] = refl
weight-commtime_region r (e ∷ es) = ground (arith, weight-commtime_region r es)

-- If no key is of a call above MAXSIZE_CALLS, the times that ipm_report puts into the reduction by
-- call add up to IPM_HASH_GET_COMMTIME for the whole run, and to IPM_HASH_GET_COMMTIME_REGION for
-- each region.
pub locals-commtime :
    (b : Build) (t : Profile)
    → HasCallsTo b.max_calls t.hash
    → (sum (all_locals b t).mpi.times ≡ commtime t.hash)
      × ((j : ℕ) → sum (region_locals b t j).mpi.times ≡ commtime_region j t.hash)
unfolding all_locals region_locals
locals-commtime b t called = (
  sum-tally b every t.hash called ∙ weight-commtime t.hash,
  λ j. sum-tally b (in_region j) t.hash called ∙ weight-commtime_region j t.hash,
)

-- If every key is of one of the first n regions and of a call up to MAXSIZE_CALLS, then for each
-- call the time and the count that a task reports for the whole run are the sums of those that it
-- reports for the n regions.
pub regions-partition :
    (b : Build) (t : Profile) (n : ℕ)
    → HasRegions n t.hash
    → HasCallsTo b.max_calls t.hash
    → (c : ℕ)
    → (get_or (all_locals b t).mpi.times c 0
        ≡ sum_regions n (λ j. get_or (region_locals b t j).mpi.times c 0))
      × (get_or (all_locals b t).mpi.counts c 0
          ≡ sum_regions n (λ j. get_or (region_locals b t j).mpi.counts c 0))
unfolding all_locals region_locals
regions-partition b t n regions called c = (
  get_or-times b every t.hash called c
      ∙ sym (weight-regions (λ e. e.t_tot) c n t.hash regions)
      ∙ sum_regions-eq n _ _ (λ j. sym (get_or-times b (in_region j) t.hash called c)),
  get_or-counts b every t.hash called c
      ∙ sym (weight-regions (λ e. e.count) c n t.hash regions)
      ∙ sum_regions-eq n _ _ (λ j. sym (get_or-counts b (in_region j) t.hash called c)),
)
