-- ===== src/Lib.antt =====
-- IPM, an MPI profiling library: the code that every profiled task runs.
--
-- A wrapper of an MPI call times it and hands region, call, rank and bytes to IPM_LOG_MPIEVENT
-- (include/ipm.h), which packs them into a 64-bit key and adds the time to the key's entry in a hash
-- table of fixed size. When the table has MAXSIZE_HASHLIMIT keys and a probe collides,
-- ipm_hash_cull (src/ipm_util.c) lowers the precision of the size field of the call with the most
-- keys and rebuilds the table.
--
-- Region is src/ipm_api.c: ipm_region(1, tag) enters a region and ipm_region(-1, tag) leaves it; what has
-- passed since the last call is charged to the region that was current. Topology is
-- src/ipm_mpi_machtopo.c, by which the ranks of a job find the ranks on their host. Trace is the trace
-- buffer of src/ipm_mpi_trace.c. Environment is src/ipm_env.c, which sets flags, call masks and trace
-- selections from the variables IPM_*.
-- Control is src/ipm_mpi_pcontrol.c, by which a program names its regions. Init is the start of a task
-- in src/ipm_init.c, Sync the settling of the totals before a report in ipm_sync. Two helpers stand alone:
-- Order, index_doubles of src/ipm_util.c, and Layout, the search of src/bwr.c.
-- Report is the end of a run: src/ipm_mpi_report.c, in which the tasks reduce their totals to rank 0, and
-- src/ipm_report_internal.c, which prints them. Log is the file that is left of a run: src/ipm_mpi_log.c,
-- in which the tasks write their parts of it, src/checkpoints/ipm_chkpt_log.c, which writes one for each
-- task, and src/ipm_log_write.c, which prints a part. Finish is src/ipm_mpi_finalize.c, which calls the
-- last three, and the checkpoints of src/checkpoints/ipm_checkpoints.c. Threads is src/ipm_pthreads.c, by
-- which the threads of a task are numbered and counted. Session puts a run of a task together.
-- Files stands alone: src/files.c, a tool that sums up the files below a directory by their types.
--
-- Files:
--   Base: what the parts share (lists, options, signed integers, bits of 64-bit words).
--   Flags: include/ipm_flags.h, the bits of task.flags.
--   Key: include/ipm.h, the keys (IPM_MPI_KEY, IPM_IO_KEY, KEY_BYTE, KEY_RANK, KEY_CALL, KEY_REGION)
--     and the call masks (CALL_BUF_PRECISION and its UP and DOWN). Key/Fields: what is read back.
--     Key/Precision: what lowering the precision does.
--   Hash: include/ipm.h, the table (IPM_HASH_HKEY, IPM_LOG_MPIEVENT, IPM_HASH_CLEAR, and the sums of
--     IPM_HASH_GET_COMMTIME). Hash/Cull: ipm_hash_cull. Hash/Probe, Slots, Insert, Log, Sums,
--     Totals and Rebuild: the proofs, on the probe sequence, the slots as a list, the search for a slot,
--     the logging of an event, sums over the table, and the rebuilding of the table.
--   Region: ipm_region. Region/Valid: well-formed tables. Region/Step: what a call charges.
--     Region/Enter: entering and leaving.
--   Topology: ipm_get_machtopo. Topology/Gather: what rank 0 sends to the ranks. Topology/Rings: the
--     neighbours.
--   Trace: ipm_mpi_trace and the alarms. Trace/Record: what the buffer holds.
--   Environment: the words of single variables. Environment/Words: the words themselves.
--     Environment/Select: ipm_trc_select. Environment/Select/Picks: what it picks. Environment/Loop:
--     the loop of ipm_get_env.
--   Init: ipm_init_task and ipm_init. Init/Start: the task that they leave.
--   Sync: ipm_sync. Sync/Buckets: what it adds. Sync/Cells: the buckets by region and call. Sync/Settled:
--     the times and flops at its end.
--   Control: ipm_control and MPI_Pcontrol. Control/Commands: the commands that name a region.
--   Layout: comm_cost and the loop of main. Layout/Bounds: what the search keeps. Order: index_doubles.
--     Order/Descends: its order.
--   Report: ipm_report. Report/Tally and Calls: the sums by call. Report/Rounds: the rounds over the
--     regions. Report/Format: ipm_report_internal. Report/Format/Listing and Calls: the calls listed.
--   Log: ipm_log and ipm_chkpt_log. Log/Names: the files. Log/Write: ipm_log_write. Log/Write/Nesting
--     and Job: the elements of the log. Log/Write/Entries: the times in it. Log/Buffer: ipmprintf and
--     the buffer of a task. Log/Chain: how the ranks pass their offsets on. Log/Chain/Places and Ends:
--     the invariant and the end of this. Log/Volley: how rank 0 collects the log without parallel
--     output. Log/Volley/Talk, Holds and Order: where two ranks can stand, the invariant, and the order
--     of the log.
--   Finish: ipm_mpi_finalize. Finish/Ended: the task after it. Finish/Checkpoint: ipm_mpi_checkpoint and
--     ipm_external_entry. Finish/Checkpoint/Spacing: how often.
--   Threads: ipm_pthread_get_tid. Threads/Numbers: the numbers. Threads/Turns: that all threads get
--     theirs. Threads/Counters: what is done around a thread's function.
--   Files: pfile and strhash. Files/Types: the types of files. Files/Slots, Search, Insert and Filed: the
--     buckets, where the search ends, what counting a file does. Files/Profile: a walk over files.
--     Files/Sums: the numbers of a type. Files/Total: the first pass of main. Files/Total/Followed and
--     Row: the types after the first, and the row that adds them up.
--   Session: a run of a task, from ipm_init_task on, with all its events and culls. Session/Totals: the
--     sums. Session/Profile: the table as a function of the events.
--   Tests: runs on concrete data, and an instance of each theorem that has hypotheses.
--
-- State is passed explicitly: Hash.Task has the fields of `ipm_taskdata` that the table's operations
-- use. Integers are natural numbers with the wrap-around of their C type written out; signed ones
-- are Base.Int.ℤ. Times, doubles in C, are whole numbers of nanoseconds, so that rounding is not
-- modelled. Compile-time sizes are a record (Hash.Sizes) and IsSized states what ipm_sizes.h asks of
-- them.
--
-- Fuel: the loop of IPM_HASH_HKEY runs on fuel, and two rounds more than the table has keys are enough;
-- the nested culls run on a second fuel, of which one suffices when the table has no more keys than
-- the limit. Both bounds are among the theorems.
-- The loop over the environment runs on fuel too, and one round more than there are variables is
-- enough when no key is too long. The search for the bucket of a type needs as many rounds as there are
-- buckets.
--
-- Undefined behaviour that is modelled is an outcome: of a walk over files, when the type of a file is
-- NULL or too long for its buffer, and of a command with too many commas for the array of its arguments.
-- What the serial log receives into the task of rank 0 is a parameter of ipm_mpi_finalize.
--
-- Reports and logs are lists of lines or pieces with the numbers in them; how numbers are printed is left
-- out, or a parameter. The exchange of the offsets, the serial log and the numbering of threads go by
-- steps, which ranks and threads take in any order.
--
-- Not modelled: floating-point rounding, banners and debug prints, the reading of hardware counters and
-- of clocks, signals, system calls, and MPI itself; the log in the builds with locks or with /tmp, the tool
-- src/ipm.c, and the options, the sorting and the reports of src/files.c.
pub mod Base
pub mod Files
pub mod Flags
pub mod Key
pub mod Hash
pub mod Region
pub mod Sync
pub mod Topology
pub mod Trace
pub mod Environment
pub mod Init
pub mod Control
pub mod Layout
pub mod Order
pub mod Report
pub mod Log
pub mod Finish
pub mod Threads
pub mod Session
pub mod Tests
