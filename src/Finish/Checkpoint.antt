-- ===== src/Finish/Checkpoint.antt =====
-- src/checkpoints/ipm_checkpoints.c, ipm_mpi_checkpoint, and src/checkpoints/ipm_external.c,
-- ipm_external_entry with ipm_pbs_share_mmap: work that is done when an interval has passed since the
-- last time. Stamps are whole numbers, an interval of 0 stands for one that is not positive.
pub mod Spacing
use ipm_nci.Base.{
  ℕ, ◌+◌, ◌-◌, Bool, not, if◌then◌else◌, ◌==◌, ltb, List, [], ◌∷◌, ◌++◌, Option, some,
}
use ipm_nci.Base.Bits.Flags.{has}
use ipm_nci.Base.Int.{pos}
use ipm_nci.Base.Options.{◌>>=◌}
use ipm_nci.Flags.{ipm_mpi_initialized}
use ipm_nci.Finish.{
  Call, Readings, leave_region, called_if, dump_calls, ended, get_switchbytes, sync, chkpt_log,
  ipm_noregion,
}
use ipm_nci.Hash.{Entry, commtime}
use ipm_nci.Region.{Regions, Stray, ipm_region}

-- The results 0 without IPM_CHECKPOINT, -1, 0 before the interval is over, and 1.
pub data Outcome : Type 0 where
  off invalid early made : Outcome

-- IPM_CHECKPOINT, CHKPT_INTERVAL and task.stamp_init
pub record Settings : Type 0 where
  pub checkpoint : Bool
  pub interval : ℕ
  pub stamp_init : ℕ

-- prev_cp_stamp, when it is 0 at first
abbrev pub since : Settings → ℕ → ℕ
since c prev = if prev == 0 then c.stamp_init else prev

-- The first half of ipm_mpi_checkpoint: its outcome, and prev_cp_stamp.
unfoldable pub checkpoint_gate : Settings → ℕ → ℕ → Outcome × ℕ
checkpoint_gate c final prev =
    if not c.checkpoint
    then (off, prev)
    else if c.interval == 0
    then (invalid, prev)
    else if ltb (final - since c prev) c.interval
    then (early, since c prev)
    else (made, final)

-- The second half.
unfoldable pub checkpoint_work : Stray → Readings → ℕ → Regions → Option (Regions × List Call)
checkpoint_work y r n s = do
  s1 ← ipm_region y (pos 1) ipm_noregion r.enter_final r.enter_init s
  s2 ← leave_region y r s1
  some (
    s2,
    called_if (not (has s1.flags ipm_mpi_initialized)) (ended ∷ [])
        ++ (get_switchbytes ∷ sync ∷ [])
        ++ dump_calls s2.flags chkpt_log n,
  )

-- ipm_mpi_checkpoint
unfoldable pub ipm_mpi_checkpoint :
    Settings → Stray → Readings → ℕ → ℕ → ℕ → Regions → Option (Outcome × ℕ × Regions × List Call)
ipm_mpi_checkpoint c y r n final prev s =
    let (outcome, prev') = checkpoint_gate c final prev in
    elim outcome [
      | made ↦ checkpoint_work y r n s >>= λ w. some (made, prev', w.0, w.1)
      | other ↦ some (other, prev', s, [])
    ]

-- ipm_external_entry: prev_share_stamp starts with the first call.
unfoldable pub share_gate : ℕ → ℕ → ℕ → Outcome × ℕ
share_gate interval ctime prev =
    let p = if prev == 0 then ctime else prev in
    if interval == 0
    then (invalid, prev)
    else if ltb (ctime - p) interval
    then (early, p)
    else (made, ctime)

-- The sum that ipm_pbs_share_mmap writes: `mtime` is not initialized, and starts as `junk`.
unfoldable pub share_mtime : ℕ → List Entry → ℕ
share_mtime junk es = junk + commtime es
