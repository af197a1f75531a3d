-- ===== src/Flags.antt =====
-- include/ipm_flags.h: the bits of task.flags, by their places.
use ipm_nci.Base.{ℕ}

abbrev pub debug : ℕ
debug = 0

abbrev pub report_terse : ℕ
report_terse = 2

abbrev pub report_full : ℕ
report_full = 3

abbrev pub report_none : ℕ
report_none = 4

abbrev pub report_labelio : ℕ
report_labelio = 5

abbrev pub log_terse : ℕ
log_terse = 6

abbrev pub log_full : ℕ
log_full = 7

abbrev pub log_none : ℕ
log_none = 8

abbrev pub ipm_preload : ℕ
ipm_preload = 9

abbrev pub ipm_regionalized : ℕ
ipm_regionalized = 15

abbrev pub ipm_mpi_initialized : ℕ
ipm_mpi_initialized = 16

abbrev pub ipm_mpi_finalizing : ℕ
ipm_mpi_finalizing = 17

abbrev pub ipm_mpi_finalized : ℕ
ipm_mpi_finalized = 18

abbrev pub ipm_mpi_breakwait : ℕ
ipm_mpi_breakwait = 22

abbrev pub ipm_mpi_prebarfsync : ℕ
ipm_mpi_prebarfsync = 23

abbrev pub ipm_hpm_active : ℕ
ipm_hpm_active = 24

abbrev pub ipm_hpm_canceled : ℕ
ipm_hpm_canceled = 25

abbrev pub ipm_app_running : ℕ
ipm_app_running = 26

abbrev pub ipm_app_completed : ℕ
ipm_app_completed = 27

abbrev pub ipm_app_interrupted : ℕ
ipm_app_interrupted = 28

abbrev pub ipm_wrotelog : ℕ
ipm_wrotelog = 29

abbrev pub ipm_trc_active : ℕ
ipm_trc_active = 31

abbrev pub ipm_trc_canceled : ℕ
ipm_trc_canceled = 32

abbrev pub parallel_io_log : ℕ
parallel_io_log = 33
