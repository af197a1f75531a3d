-- ===== src/Init.antt =====
-- src/ipm_init.c: ipm_init_task, which clears the task, and ipm_init, which sets the flags, reads
-- the environment, tries the counters and prepares the trace buffer.
pub mod Start
use ipm_nci.Base.{ℕ, ◌+◌, Bool, if◌then◌else◌, ◌==◌, List, [], replicate, Option, none, some}
use ipm_nci.Base.Bits.Flags.{has, set_flag, clear_flag}
use ipm_nci.Base.Int.{pos}
use ipm_nci.Base.Strings.{Str}
use ipm_nci.Flags.{
  report_full, log_full, ipm_hpm_active, ipm_hpm_canceled, ipm_app_running, ipm_trc_active,
  parallel_io_log,
}
use ipm_nci.Hash.{Sizes, Task, hash_clear}
use ipm_nci.Key.{call_mask_bprec}
use ipm_nci.Region.{Regions, max_region}
use ipm_nci.Trace.{TraceEntry, Handler, handler_default, handler_tron}

-- ipm_init_task, on the table: task.hash is static data and still 0.
unfoldable pub init_task_hash : Sizes → Task
init_task_hash z = record {
  hash = hash_clear z;
  hash_nkey = 0;
  hash_nlog = 0;
  collisions = 0;
  call_mask = replicate (z.max_calls + 1) call_mask_bprec;
  call_mcount = replicate max_region (replicate (z.max_calls + 1) 0);
  call_mtime = replicate max_region (replicate (z.max_calls + 1) 0);
}

-- ipm_init_task, on the regions; the labels are left as they are.
unfoldable pub init_task_regions : ℕ → List Str → Regions
init_task_regions counters labels = record {
  flags = 0;
  region_current = pos 0;
  region_nregion = 0;
  region_label = labels;
  region_count = replicate max_region 0;
  region_wtime = replicate max_region 0;
  region_utime = replicate max_region 0;
  region_stime = replicate max_region 0;
  hpm_count = replicate max_region (replicate counters 0);
  trace_masks = [];
  wtime_init = 0;
  utime_init = 0;
  stime_init = 0;
  hpm_init = replicate counters 0;
  hpm_final = replicate counters 0;
}

-- The flags before the environment is read.
unfoldable pub first_flags : ℕ
first_flags =
    clear_flag
      (set_flag
        (set_flag (set_flag (set_flag (set_flag 0 ipm_app_running) report_full) log_full)
          parallel_io_log)
        ipm_hpm_active)
      ipm_trc_active

-- The counters are tried, as ipm_hpm_test finds them, unless they are cancelled.
unfoldable pub try_hpm : Bool → ℕ → ℕ
try_hpm works flags =
    if has flags ipm_hpm_canceled
    then flags
    else if works
    then flags
    else clear_flag (set_flag flags ipm_hpm_canceled) ipm_hpm_active

-- What the preparation of the trace leaves; `none` is the null pointer.
pub record Prepared : Type 0 where
  pub flags : ℕ
  pub trc_count : ℕ
  pub trc_count_max : ℕ
  pub trc_buf : Option (List TraceEntry)
  pub handler : Handler
  pub alarm : ℕ

-- IPM_CLEAR_TRCENT
abbrev pub cleared_entry : ℕ → TraceEntry
cleared_entry counters = record { key = 0; t = 0; hpm = replicate counters 0 }

-- The buffer, when IPM_TRC_ACTIVE is set; `default_max` is what MAXSIZE_TRACEMEM holds.
unfoldable pub prepare_buffer : ℕ → ℕ → ℕ → ℕ → Prepared
prepare_buffer default_max counters flags count_max =
    if has flags ipm_trc_active
    then (let m = if count_max == 0 then default_max else count_max in
        record {
          flags = flags;
          trc_count = 0;
          trc_count_max = m;
          trc_buf = some (replicate m (cleared_entry counters));
          handler = handler_default;
          alarm = 0;
        })
    else record {
      flags = flags;
      trc_count = 0;
      trc_count_max = count_max;
      trc_buf = none;
      handler = handler_default;
      alarm = 0;
    }

-- The trace waits for an alarm, when ipm_trc_mask_time_init is not negative.
unfoldable pub arm : Option ℕ → Prepared → Prepared
arm none p = p
arm (some time_init) p = record p {
  flags = clear_flag p.flags ipm_trc_active;
  handler = handler_tron;
  alarm = time_init;
}

-- What the environment gives: its flags, and the trace settings.
pub record Given : Type 0 where
  pub flags : ℕ
  pub trc_count_max : ℕ
  pub mask_time_init : Option ℕ

-- ipm_init, with ipm_get_env and ipm_hpm_test as parameters.
unfoldable pub ipm_init : (ℕ → Given) → Bool → ℕ → ℕ → Prepared
ipm_init get_env works default_max counters =
    let given = get_env first_flags in
    arm given.mask_time_init
      (prepare_buffer default_max counters (try_hpm works given.flags) given.trc_count_max)
