-- ===== src/Trace.antt =====
-- src/ipm_mpi_trace.c and src/ipm_trace.c: the trace buffer, and the alarms that switch the trace
-- on and off.
pub mod Record
use ipm_nci.Base.{ℕ, ◌+◌, leb, if◌then◌else◌, List, set}
use ipm_nci.Base.Bits.Flags.{set_flag, clear_flag}
use ipm_nci.Flags.{ipm_trc_active}

-- ipm_trc_ent; a time is a whole number.
pub record TraceEntry : Type 0 where
  pub key : ℕ
  pub t : ℕ
  pub hpm : List ℕ

-- The fields of ipm_taskdata that tracing uses.
pub record Tracer : Type 0 where
  pub flags : ℕ
  pub trc_count : ℕ
  pub trc_count_max : ℕ
  pub trc_buf : List TraceEntry

-- ipm_mpi_trace(key, T), and ipm_trace, with the counters that ipm_hpm_read gives.
unfoldable pub trace : TraceEntry → Tracer → Tracer
trace e s =
    if leb s.trc_count_max s.trc_count
    then record s { flags = clear_flag s.flags ipm_trc_active }
    else record s { trc_buf = set s.trc_buf s.trc_count e; trc_count = s.trc_count + 1 }

-- The handler of SIGALRM.
pub data Handler : Type 0 where
  handler_default : Handler
  handler_tron : Handler
  handler_troff : Handler

-- What the alarms work on; `alarm` is the argument of the last call of alarm(). The double
-- ipm_trc_mask_time_final is the whole seconds that alarm() takes of it, from 0 on, as the option
-- `time:` requires.
pub record Timer : Type 0 where
  pub flags : ℕ
  pub handler : Handler
  pub alarm : ℕ
  pub mask_time_final : ℕ

-- ipm_trc_mask_time_tron
unfoldable pub mask_time_tron : Timer → Timer
mask_time_tron s = record s {
  flags = set_flag s.flags ipm_trc_active;
  handler = handler_troff;
  alarm = s.mask_time_final;
}

-- ipm_trc_mask_time_troff
unfoldable pub mask_time_troff : Timer → Timer
mask_time_troff s = record s { flags = clear_flag s.flags ipm_trc_active }

-- The delivery of SIGALRM; the default handler ends the program, which no state stands for.
unfoldable pub deliver : Timer → Timer
deliver s = elim s.handler [
  | handler_default ↦ s
  | handler_tron ↦ mask_time_tron s
  | handler_troff ↦ mask_time_troff s
]
