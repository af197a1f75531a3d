-- ===== src/Log.antt =====
-- src/ipm_mpi_log.c, ipm_log, and src/checkpoints/ipm_chkpt_log.c, ipm_chkpt_log: which file a task
-- writes its profile to and in which way. The default build, IPM_LOG_USEMPI. How a number is printed
-- by %d, the status of the directory, and what MPI answers are parameters.
pub mod Write
pub mod Buffer
pub mod Chain
pub mod Names
pub mod Volley
use ipm_nci.Base.{ℕ, Bool, if◌then◌else◌, ◌==◌, [], ◌∷◌, ◌++◌, Option, none, some}
use ipm_nci.Base.Bits.Flags.{has, set_flag}
use ipm_nci.Base.Strings.{Str, str_eq}
use ipm_nci.Flags.{ipm_wrotelog, parallel_io_log}

-- "/dev/null"
abbrev pub dev_null : Str
dev_null = 47 ∷ 100 ∷ 101 ∷ 118 ∷ 47 ∷ 110 ∷ 117 ∷ 108 ∷ 108 ∷ []

-- "unset"
abbrev pub unset : Str
unset = 117 ∷ 110 ∷ 115 ∷ 101 ∷ 116 ∷ []

-- "chkpt"
abbrev pub chkpt : Str
chkpt = 99 ∷ 104 ∷ 107 ∷ 112 ∷ 116 ∷ []

-- The fields of ipm_jobdata that name files.
pub record LogJob : Type 0 where
  pub log_dir : Str
  pub log_fname : Str
  pub username : Str
  pub cookie : Str

-- What the surroundings answer: whether stat fails on log_dir, whether this task's malloc succeeds in
-- the sum over all tasks, and the result of PMPI_File_open.
pub record Answers : Type 0 where
  pub no_dir : Bool
  pub malloc_sum : ℕ
  pub open_rv : ℕ

-- How the log is written.
pub data Way : Type 0 where
  skipped refused parallel open_failed serial : Way

-- "%s/%s"
abbrev pub join_path : Str → Str → Str
join_path dir name = dir ++ 47 ∷ name

-- "%s.%s"
abbrev pub join_dot : Str → Str → Str
join_dot a b = a ++ 46 ∷ b

-- `sprintf(job.log_dir, "./")`
unfoldable pub find_dir : Bool → LogJob → LogJob
find_dir no_dir j = record j { log_dir = if no_dir then 46 ∷ 47 ∷ [] else j.log_dir }

-- The name of the one log file.
unfoldable pub log_name : (ℕ → Str) → LogJob → Str
log_name decimal j = join_path j.log_dir (
    if str_eq j.log_fname unset
    then join_dot j.username (join_dot j.cookie (decimal 0))
    else j.log_fname)

-- PARALLEL_IO_LOG, when all tasks have a buffer; otherwise rank 0 writes.
unfoldable pub choose_way : ℕ → ℕ → Answers → Way
choose_way flags mpi_size a =
    if has flags parallel_io_log
    then if a.malloc_sum == mpi_size
      then if a.open_rv == 0 then parallel else open_failed
      else serial
    else serial

-- ipm_log: the flags, the names and the way.
unfoldable pub ipm_log : (ℕ → Str) → ℕ → Answers → ℕ → LogJob → ℕ × LogJob × Way
ipm_log decimal mpi_size a flags j =
    let marked = set_flag flags ipm_wrotelog in
    if has flags ipm_wrotelog
    then (flags, j, skipped)
    else if str_eq j.log_dir dev_null
    then (marked, j, refused)
    else let j' = find_dir a.no_dir j in
      (marked, record j' { log_fname = log_name decimal j' }, choose_way marked mpi_size a)

-- chkpt_fname, in the build that the file itself chooses by defining IPM_LOG_USEMULTI.
unfoldable pub chkpt_name : (ℕ → Str) → ℕ → LogJob → Str
chkpt_name decimal mpi_rank j =
    join_path j.log_dir
      (join_dot j.username (join_dot j.cookie (join_dot chkpt (decimal mpi_rank))))

-- ipm_chkpt_log: the file that the task opens, if any, and the directory.
unfoldable pub ipm_chkpt_log : (ℕ → Str) → ℕ → Bool → LogJob → Option Str × LogJob
ipm_chkpt_log decimal mpi_rank no_dir j =
    if str_eq j.log_dir dev_null
    then (none, j)
    else let j' = find_dir no_dir j in (some (chkpt_name decimal mpi_rank j'), j')
