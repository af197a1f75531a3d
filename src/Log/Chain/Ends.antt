-- ===== src/Log/Chain/Ends.antt =====
-- src/ipm_mpi_log.c: the exchange of the offsets comes to its end.
use ipm_nci.Base.{
  ℕ, zero, suc, ◌+◌, ◌*◌, ◌≤◌, ◌<◌, ◌≡◌, ◌⊎◌, inl, inr, refl, subst, true, Option, none, some,
  arith, ℕ_discrete,
}
use ipm_nci.Base.Updates.{sum_to, sum_to-update}
use ipm_nci.Log.Chain.Places.{before, Holds, IsRight, is_some, Reach-Holds}
use ipm_nci.Log.Chain.{
  Progress, idle, summed, placed, Net, start, Step, alone, first, send, receive, last, Reach, here,
  next,
}

-- The steps that a rank has left.
abbrev left : Progress → ℕ
left idle = 2
left (summed offset sum) = 1
left (placed offset) = 0

all_left : (ℕ → Progress) → ℕ → ℕ
all_left ranks n = sum_to left ranks n

left-start : (n : ℕ) → all_left start.ranks n ≡ 2 * n
unfolding all_left sum_to
left-start zero = refl
left-start (suc n) = omega (arith, left-start n)

-- Each step is one of those that are left.
Step-left :
    (size : ℕ) (sizes : ℕ → ℕ) {s t : Net}
    → 1 ≤ size
    → Step size sizes s t
    → all_left t.ranks size + 1 ≤ all_left s.ranks size
unfolding all_left
Step-left size sizes {s} pos (alone n e) =
    ground (arith, e, sum_to-update left s.ranks 0 (placed 0) size)
Step-left size sizes {s} pos (first n e) =
    ground (arith, e, sum_to-update left s.ranks 0 (summed 0 (sizes 0)) size)
Step-left size sizes {s} pos (send i offset sum n e) =
    ground (arith, n, e, sum_to-update left s.ranks i (placed offset) size)
Step-left size sizes {s} pos (receive i sum n e f) =
    ground (arith, n, f, sum_to-update left s.ranks (suc i) (summed sum (sum + sizes (suc i))) size)
Step-left size sizes {s} pos (last i sum n e f) =
    ground (arith, n, f, sum_to-update left s.ranks (suc i) (placed sum) size)

Reach-left :
    (size : ℕ) (sizes : ℕ → ℕ) {k : ℕ} {s : Net}
    → 1 ≤ size
    → Reach size sizes k s
    → k + all_left s.ranks size ≤ 2 * size
Reach-left size sizes pos here = omega (arith, left-start size)
Reach-left size sizes pos (next r st) =
    omega (arith, Reach-left size sizes pos r, Step-left size sizes pos st)

-- The first n ranks have their offsets.
abbrev pub AllPlaced : ℕ → (ℕ → ℕ) → Net → Type 0
AllPlaced zero sizes s = Unit
AllPlaced (suc n) sizes s = AllPlaced n sizes s × (s.ranks n ≡ placed (before sizes n))

-- A state with all ranks placed, or one that has a step.
abbrev pub GoesOn : ℕ → (ℕ → ℕ) → Net → Type 0
GoesOn size sizes s = AllPlaced size sizes s ⊎ ((t : Net) × Step size sizes s t)

module _ (size : ℕ) (sizes : ℕ → ℕ) (s : Net) (v : Holds size sizes s) where
  -- The rank i is idle, and those below it are placed.
  idle_goes :
      (i : ℕ) → i < size → AllPlaced i sizes s → s.ranks i ≡ idle → (t : Net) × Step size sizes s t
  idle_goes zero inside below e = elim (ℕ_discrete size 1) [
    | yes one ↦ (_, alone one e)
    | no more ↦ (_, first (omega arith) e)
  ]
  idle_goes (suc i) inside below e =
      waiting (s.mail i) refl (v.flow i (ground (arith, below.1)) inside (ground (arith, e)))
    where
      waiting :
          (o : Option ℕ)
          → s.mail i ≡ o
          → is_some (s.mail i) ≡ true
          → (t : Net) × Step size sizes s t
      waiting none m h = cc
      waiting (some sum) m h = elim (ℕ_discrete (suc (suc i)) size) [
        | yes e' ↦ (_, last i sum e' m e)
        | no ne ↦ (_, receive i sum (omega arith) m e)
      ]

  scan : (d i : ℕ) → i + d ≡ size → AllPlaced i sizes s → GoesOn size sizes s
  scan zero i e below =
      let all : i ≡ size = omega arith in inl (subst (λ (n : ℕ). AllPlaced n sizes s) all below)
  scan (suc d) i e below = at (scan d (suc i) (omega arith)) (s.ranks i) refl
    where
      at :
          (AllPlaced (suc i) sizes s → GoesOn size sizes s)
          → (p : Progress) → s.ranks i ≡ p
          → GoesOn size sizes s
      at rest idle f = inr (idle_goes i (omega arith) below f)
      at rest (summed offset sum) f = inr (_, send i offset sum (v.sending i (ground (arith, f))) f)
      at rest (placed offset) f = rest (below, ground (arith, f, v.right i))

-- However the ranks' steps are interleaved, there are at most two for each rank; until every rank has
-- its offset, which is the sum of the sizes of the ranks below it, some rank can go on; and no rank
-- ever has another offset.
pub chain-ends :
    (size : ℕ) (sizes : ℕ → ℕ) (k : ℕ) (s : Net) (i : ℕ)
    → 1 ≤ size
    → Reach size sizes k s
    → (k ≤ 2 * size) × GoesOn size sizes s × IsRight sizes i (s.ranks i)
chain-ends size sizes k s i pos r =
    let v = Reach-Holds size sizes r in
    (
      omega (arith, Reach-left size sizes pos r),
      scan size sizes s v size 0 (omega arith) tt,
      v.right i,
    )
