-- ===== src/Report/Rounds.antt =====
-- src/ipm_mpi_report.c: the rounds of ipm_report over the regions that rank 0 announces.
use ipm_nci.Base.{
  ℕ, zero, suc, ◌+◌, ◌*◌, ◌≤◌, ◌<◌, ◌≡◌, ◌≢◌, ◌↔◌, refl, sym, ap, ◌∙◌, false, if◌then◌else◌, ltb,
  List, [], ◌∷◌, map, length, get_or, Option, none, some, arith, ==_of_ne, Bool-cases, inl, inr,
}
use ipm_nci.Base.Bits.Flags.{has}
use ipm_nci.Base.Strings.{Str}
use ipm_nci.Flags.{report_none, ipm_app_interrupted}
use ipm_nci.Hash.{commtime_region}
use ipm_nci.Region.Step.{sum}
use ipm_nci.Report.{
  Build, Profile, Locals, Collective, bcast, reduce, chosen, find_label, round, rounds,
  region_locals, ipm_report,
}
use ipm_nci.Report.Calls.{locals-commtime}
use ipm_nci.Report.Tally.{HasCallsTo}

-- The times by call that a task puts into its reductions, added up, and the wall-clock times.
pub contributed : List Collective → ℕ
contributed [] = 0
contributed (bcast ∷ cs) = contributed cs
contributed (reduce s ∷ cs) = sum s.mpi.times + contributed cs

pub walls : List Collective → ℕ
walls [] = 0
walls (bcast ∷ cs) = walls cs
walls (reduce s ∷ cs) = s.rbuf.wtime + walls cs

-- The label that is broadcast in the round i, as the task knows it.
abbrev pub known_as : (ℕ → Str) → Profile → ℕ → Option ℕ
known_as heard t i = find_label (heard i) t.region_label t.region_nregion 0

module _ (b : Build) (heard : ℕ → Str) (t : Profile) (other : t.mpi_rank ≢ 0) where
  chosen-known : (i : ℕ) → chosen heard t i ≡ known_as heard t i
  unfolding chosen
  chosen-known i = rw (==_of_ne t.mpi_rank 0 other) refl

  unknown_rounds :
      (n i : ℕ) (s : Locals)
      → ((k : ℕ) → i ≤ k → k < i + n → known_as heard t k ≡ none)
      → (contributed (rounds b heard t n i s) ≡ n * sum s.mpi.times)
        × (walls (rounds b heard t n i s) ≡ 0)
  unfolding rounds contributed walls round
  unknown_rounds zero i s h = (omega arith, refl)
  unknown_rounds (suc n) i s h =
      let unknown : chosen heard t i ≡ none = chosen-known i ∙ h i (omega arith) (omega arith) in
      let (times, none_wall) =
        unknown_rounds n (suc i) (round b t none s) (λ k le lt. h k (omega arith) (omega arith)) in
      rw unknown (omega (arith, times), omega (arith, none_wall))

region_wall :
    (b : Build) (t : Profile) (j : ℕ) → (region_locals b t j).rbuf.wtime ≡ get_or t.region_wtime j 0
unfolding region_locals
region_wall b t j = refl

-- A task above 0 that knows the label of the round p, as its region j, and none of the n labels that
-- follow: it puts the region's communication time into the reductions by call n + 1 times, while
-- it puts the region's wall-clock time in once. The buffers by call are not set back in a round
-- whose region the task did not enter.
pub rounds-stale :
    (b : Build) (heard : ℕ → Str) (t : Profile) (n p j : ℕ) (s : Locals)
    → t.mpi_rank ≢ 0
    → HasCallsTo b.max_calls t.hash
    → known_as heard t p ≡ some j
    → ((k : ℕ) → p < k → k ≤ p + n → known_as heard t k ≡ none)
    → (contributed (rounds b heard t (suc n) p s) ≡ (n + 1) * commtime_region j t.hash)
      × (walls (rounds b heard t (suc n) p s) ≡ get_or t.region_wtime j 0)
unfolding rounds contributed walls round
rounds-stale b heard t n p j s other called known unknown =
    let chooses : chosen heard t p ≡ some j = chosen-known b heard t other p ∙ known in
    let (times, wall) =
      unknown_rounds b heard t other n (suc p) (region_locals b t j)
        (λ k le lt. unknown k (omega arith) (omega arith)) in
    rw chooses (
      omega (
        arith,
        times,
        (locals-commtime b t called).1 j,
        ap (λ (m : ℕ). n * m) ((locals-commtime b t called).1 j),
      ),
      omega (arith, wall, region_wall b t j),
    )

-- The order of broadcasts and reductions.
pub data Kind : Type 0 where
  broadcast reduction : Kind

pub kind : Collective → Kind
kind bcast = broadcast
kind (reduce s) = reduction

-- The kinds of n rounds.
turns : ℕ → List Kind
turns zero = []
turns (suc n) = broadcast ∷ reduction ∷ turns n

kind-rounds :
    (b : Build) (heard : ℕ → Str) (t : Profile) (n i : ℕ) (s : Locals)
    → map kind (rounds b heard t n i s) ≡ turns n
unfolding rounds kind turns
kind-rounds b heard t zero i s = refl
kind-rounds b heard t (suc n) i s =
    ap (λ ks. broadcast ∷ reduction ∷ ks)
      (kind-rounds b heard t n (suc i) (round b t (chosen heard t i) s))

-- The kinds of a report for n regions.
plan : ℕ → List Kind
plan n = if ltb 1 n then reduction ∷ turns n else reduction ∷ []

kind-report :
    (b : Build) (heard : ℕ → Str) (t : Profile)
    → has t.flags report_none ≡ false
    → has t.flags ipm_app_interrupted ≡ false
    → map kind (ipm_report b heard t) ≡ plan t.region_nregion
unfolding ipm_report kind plan
kind-report b heard t reports runs = elim (Bool-cases (ltb 1 t.region_nregion)) [
  | inl several ↦
      rw (reports, runs, several)
        (ap (λ ks. reduction ∷ ks) (kind-rounds b heard t t.region_nregion 0 _))
  | inr one ↦ rw (reports, runs, one) refl
]

length-turns : (n : ℕ) → length (turns n) ≡ 2 * n
unfolding turns
length-turns zero = refl
length-turns (suc n) = omega (arith, length-turns n)

plan-injective : (n m : ℕ) → 1 ≤ n → 1 ≤ m → plan n ≡ plan m → n ≡ m
unfolding plan
plan-injective n m hn hm e =
    ground (arith, ap (length {A = Kind}) e, length-turns n, length-turns m)

-- Two tasks that report, of at least one region each, make the same sequence of broadcasts and
-- reductions in ipm_report just when they have the same number of regions; otherwise their
-- collective calls do not match.
pub report-match :
    (b : Build) (heard heard' : ℕ → Str) (t u : Profile)
    → has t.flags report_none ≡ false
    → has t.flags ipm_app_interrupted ≡ false
    → has u.flags report_none ≡ false
    → has u.flags ipm_app_interrupted ≡ false
    → 1 ≤ t.region_nregion
    → 1 ≤ u.region_nregion
    → (map kind (ipm_report b heard t) ≡ map kind (ipm_report b heard' u))
      ↔ (t.region_nregion ≡ u.region_nregion)
report-match b heard heard' t u reports runs reports' runs' ht hu =
    let here = kind-report b heard t reports runs in
    let there = kind-report b heard' u reports' runs' in
    (
      λ e. plan-injective t.region_nregion u.region_nregion ht hu (sym here ∙ e ∙ there),
      λ e. here ∙ ap plan e ∙ sym there,
    )
