-- ===== src/Finish/Checkpoint/Spacing.antt =====
-- src/checkpoints/ipm_checkpoints.c: how often checkpoints are made.
use ipm_nci.Base.{
  ℕ, ◌+◌, ◌-◌, ◌*◌, ◌≤◌, ◌<◌, ◌≡◌, refl, Bool, true, false, if◌then◌else◌, ◌==◌, ltb, List, [], ◌∷◌,
  arith, Bool-cases, inl, inr, ==_of_ne,
}
use ipm_nci.Finish.Checkpoint.{Outcome, early, made, Settings, since, checkpoint_gate}

abbrev is_made : Outcome → Bool
is_made made = true
is_made _ = false

-- The checkpoints made in calls of ipm_mpi_checkpoint at the given stamps.
unfoldable pub checkpoints : Settings → ℕ → List ℕ → ℕ
checkpoints c prev [] = 0
checkpoints c prev (final ∷ fs) =
    (if is_made (checkpoint_gate c final prev).0 then 1 else 0)
    + checkpoints c (checkpoint_gate c final prev).1 fs

-- No stamp is after the stamp `now`.
abbrev pub UpTo : ℕ → List ℕ → Type 0
UpTo now [] = 0 ≤ 0
UpTo now (f ∷ fs) = (f ≤ now) × UpTo now fs

module _ (c : Settings) (on : c.checkpoint ≡ true) (some_interval : 0 < c.interval)
    (started : 0 < c.stamp_init) where
  interval_ne_zero : (c.interval == 0) ≡ false
  interval_ne_zero = ==_of_ne c.interval 0 (λ e. omega arith)

  gate_early :
      (final prev : ℕ)
      → ltb (final - since c prev) c.interval ≡ true
      → checkpoint_gate c final prev ≡ (early, since c prev)
  unfolding checkpoint_gate
  gate_early final prev less = rw (on, interval_ne_zero, less) refl

  gate_made :
      (final prev : ℕ)
      → ltb (final - since c prev) c.interval ≡ false
      → checkpoint_gate c final prev ≡ (made, final)
  unfolding checkpoint_gate
  gate_made final prev more = rw (on, interval_ne_zero, more) refl

  spaced :
      (now prev : ℕ) (fs : List ℕ)
      → since c prev ≤ now
      → UpTo now fs
      → checkpoints c prev fs * c.interval + since c prev ≤ now
  unfolding checkpoints
  spaced now prev [] h up = omega arith
  spaced now prev (final ∷ fs) h up = elim (Bool-cases (ltb (final - since c prev) c.interval)) [
    | inl less ↦
        let same : since c (since c prev) ≡ since c prev = ground arith in
        rw (gate_early final prev less)
          (omega (arith, same, spaced now (since c prev) fs (omega (arith, same)) (up.1)))
    | inr more ↦
        let here : since c final ≡ final = ground (arith, more) in
        let over : since c prev + c.interval ≤ final = ground (arith, more) in
        rw (gate_made final prev more) (
          one_more (checkpoints c final fs) c.interval (since c prev) now
            (spaced now final fs (omega (arith, here, up.0)) (up.1)) here over)
  ]
    where
      one_more :
          (k interval p now : ℕ)
          → k * interval + since c final ≤ now
          → since c final ≡ final
          → p + interval ≤ final
          → (1 + k) * interval + p ≤ now
      one_more k interval p now rest here over = grind arith

-- With IPM_CHECKPOINT, a positive interval and a positive stamp_init: calls of ipm_mpi_checkpoint at
-- stamps up to `now` in any order, from prev_cp_stamp = 0, make so many checkpoints that these, times
-- the interval, fit between stamp_init and `now`. A call whose stamp is an interval after the last
-- checkpoint makes one, and takes its stamp for the next.
pub checkpoints-spaced :
    (c : Settings) (now final prev : ℕ) (fs : List ℕ)
    → c.checkpoint ≡ true
    → 0 < c.interval
    → 0 < c.stamp_init
    → c.stamp_init ≤ now
    → UpTo now fs
    → since c prev + c.interval ≤ final
    → (checkpoints c 0 fs * c.interval + c.stamp_init ≤ now)
      × (checkpoint_gate c final prev ≡ (made, final))
checkpoints-spaced c now final prev fs on some_interval started begun up over = (
  spaced c on some_interval started now 0 fs begun up,
  gate_made c on some_interval started final prev (ground (arith, over)),
)
