-- ===== src/Finish.antt =====
-- src/ipm_mpi_finalize.c, ipm_mpi_finalize, and src/checkpoints/ipm_checkpoints.c,
-- ipm_mpi_checkpoint: what a task does at its end and at a checkpoint, as its regions and flags with
-- the calls of other parts that it makes, in their order. Stamps are whole numbers; the debug prints
-- are left out.
pub mod Ended
pub mod Checkpoint
use ipm_nci.Base.{ℕ, ◌+◌, Bool, not, if◌then◌else◌, ◌==◌, List, [], ◌∷◌, ◌++◌, Option, none, some}
use ipm_nci.Base.Bits.Flags.{has, set_flag, clear_flag}
use ipm_nci.Base.Int.{pos, negsuc}
use ipm_nci.Base.Options.{◌>>=◌}
use ipm_nci.Base.Strings.{Str}
use ipm_nci.Flags.{
  log_none, ipm_regionalized, ipm_mpi_initialized, ipm_mpi_finalizing, ipm_mpi_finalized,
  ipm_hpm_active, ipm_app_running, ipm_app_completed, ipm_wrotelog,
}
use ipm_nci.Region.{Regions, Reading, Stray, ipm_region, label_at}

-- "ipm_noregion"
abbrev pub ipm_noregion : Str
ipm_noregion = 105 ∷ 112 ∷ 109 ∷ 95 ∷ 110 ∷ 111 ∷ 114 ∷ 101 ∷ 103 ∷ 105 ∷ 111 ∷ 110 ∷ []

-- The calls, and the message that IPM has already ended.
pub data Call : Type 0 where
  hpm_stop ended get_switchbytes sync report barrier trc_dump log chkpt_log finalize : Call

-- What the clocks read in the two calls of ipm_region.
pub record Readings : Type 0 where
  pub enter_final : Reading
  pub enter_init : Reading
  pub leave_final : Reading
  pub leave_init : Reading

-- `if(task.flags & IPM_REGIONALIZED) ipm_region(-1, ...)`, and then region 0.
unfoldable pub leave_region : Stray → Readings → Regions → Option Regions
leave_region y r s =
    (if has s.flags ipm_regionalized
      then ipm_region y (negsuc 0) (label_at y s.region_label s.region_current) r.leave_final
          r.leave_init s
      else some s)
    >>= λ t. some (record t { region_current = pos 0 })

abbrev pub called_if : Bool → List Call → List Call
called_if b cs = if b then cs else []

-- The trace and the log, without IPM_DISABLE_LOG; `n` is task.ipm_trc_count.
unfoldable pub dump_calls : ℕ → Call → ℕ → List Call
dump_calls flags last n =
    called_if (not (n == 0)) (barrier ∷ trc_dump ∷ [])
    ++ called_if (not (has flags log_none)) (last ∷ [])

-- What the calls of ipm_log leave in `task`: the log is written once; on rank 0 the serial log
-- receives the tasks of the other ranks into it, of which `received` is the last, if there is one.
unfoldable pub log_task : Option Regions → Regions → Regions
log_task received s = if has s.flags ipm_wrotelog then s else last received
  where
    last : Option Regions → Regions
    last none = record s { flags = set_flag s.flags ipm_wrotelog }
    last (some t) = t

-- What is left in `task` after the log, which LOG_NONE leaves out.
unfoldable pub logged : Option Regions → Regions → Regions
logged received s = if has s.flags log_none then s else log_task received s

-- ipm_mpi_finalize
unfoldable pub ipm_mpi_finalize :
    Stray → Readings → ℕ → Option Regions → Regions → Option (Regions × List Call)
ipm_mpi_finalize y r n received s = do
  let begun = record s { flags = set_flag (clear_flag s.flags ipm_app_running) ipm_app_completed }
  s1 ← ipm_region y (pos 1) ipm_noregion r.enter_final r.enter_init begun
  let finalizing = record s1 { flags = set_flag s1.flags ipm_mpi_finalizing }
  s2 ← leave_region y r finalizing
  let s3 = logged received s2
  some (
    record s3 { flags = clear_flag (set_flag s3.flags ipm_mpi_finalized) ipm_app_running },
    called_if (has s1.flags ipm_hpm_active) (hpm_stop ∷ [])
        ++ called_if (not (has finalizing.flags ipm_mpi_initialized)) (ended ∷ [])
        ++ (get_switchbytes ∷ sync ∷ report ∷ [])
        ++ dump_calls s2.flags log n
        ++ (finalize ∷ []),
  )
