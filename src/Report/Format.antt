-- ===== src/Report/Format.antt =====
-- src/ipm_report_internal.c: the lines that rank 0 prints of the reduced numbers. A line keeps its
-- kind and the numbers that go into it; averages, percentages and rates are computed from these
-- alone and are left out, as are dates and the names of the host and the counters.
pub mod Listing
pub mod Calls
use ipm_nci.Base.{
  ℕ, suc, ◌+◌, Bool, true, false, ◌&&◌, if◌then◌else◌, ◌==◌, ltb, List, [], ◌∷◌, ◌++◌, get_or,
  Option, none, some,
}
use ipm_nci.Base.Bits.Flags.{has}
use ipm_nci.Base.Strings.{Str}
use ipm_nci.Flags.{
  debug, report_terse, report_full, ipm_hpm_canceled, ipm_app_running, ipm_app_completed,
  ipm_app_interrupted,
}
use ipm_nci.Layout.{identity}
use ipm_nci.Order.{index_doubles}
use ipm_nci.Report.{Build, Rbuf, CallSums}

-- state_buf
pub data AppState : Type 0 where
  running interrupted completed unknown : AppState

pub data Statistic : Type 0 where
  entries wallclock user system mpi gflops gbytes : Statistic

-- The lines; a statistic has its total, its minimum and its maximum.
pub data Line : Type 0 where
  banner blank region_columns rule columns call_columns : Line
  command : AppState → Line
  host : ℕ → ℕ → Line
  start : ℕ → Line
  stop : ℕ → Line
  volume : ℕ → Option ℕ → Line
  region_row : Str → ℕ → ℕ → ℕ → Option ℕ → Line
  region_name : Str → ℕ → Line
  stat : Statistic → ℕ → ℕ → ℕ → Line
  percent_comm : ℕ → ℕ × ℕ → ℕ × ℕ → Line
  counter : ℕ → ℕ → ℕ → ℕ → ℕ → Line
  call_row : ℕ → ℕ → ℕ → Line
  total_time : ℕ → Line

-- What the reductions bring: g_rbuf, g_cbuf and their tables, g_cpop, g_mpi_time and g_mpi_count.
pub record Reduced : Type 0 where
  pub total : Rbuf
  pub least : Rbuf
  pub most : Rbuf
  pub count_total : List (List ℕ)
  pub count_least : List (List ℕ)
  pub count_most : List (List ℕ)
  pub cpop : List ℕ
  pub mpi : CallSums

-- The job and the region that is reported; no region is the -1 of the whole run.
pub record Subject : Type 0 where
  pub flags : ℕ
  pub ntasks : ℕ
  pub nhosts : ℕ
  pub nregion : ℕ
  pub jreg : Option ℕ
  pub region_label : Str

unfoldable pub app_state : ℕ → AppState
app_state flags =
    if has flags ipm_app_running
    then running
    else if has flags ipm_app_interrupted
    then interrupted
    else if has flags ipm_app_completed
    then completed
    else unknown

abbrev pub is_whole : Option ℕ → Bool
is_whole none = true
is_whole (some j) = false

-- A number that is printed as NA if the counters are off.
abbrev counted : ℕ → ℕ → Option ℕ
counted flags n = if has flags ipm_hpm_canceled then none else some n

-- "if(jreg==-1)", the head of the report
unfoldable pub head_lines : Subject → Reduced → List Line
unfolding app_state
head_lines s g =
    banner
    ∷ blank
    ∷ command (app_state s.flags)
    ∷ host s.ntasks s.nhosts
    ∷ start g.most.wtime
    ∷ stop g.total.mtime
    ∷ volume g.total.bytes (counted s.flags g.total.flops)
    ∷ blank
    ∷ []

-- "if(flags & REPORT_TERSE)"
unfoldable pub terse_lines : Subject → Reduced → List Line
terse_lines s g =
    if ltb 1 s.nregion
    then if is_whole s.jreg
      then region_columns ∷ []
      else region_row s.region_label g.total.population g.total.wtime g.total.mtime
          (counted s.flags g.total.flops)
        ∷ []
    else []

-- The statistics of a full report.
unfoldable pub stat_lines : Subject → Reduced → List Line
stat_lines s g =
    (stat entries g.total.entries g.least.entries g.most.entries
      ∷ stat wallclock g.total.wtime g.least.wtime g.most.wtime
      ∷ stat user g.total.utime g.least.utime g.most.utime
      ∷ stat system g.total.stime g.least.stime g.most.stime
      ∷ stat mpi g.total.mtime g.least.mtime g.most.mtime
      ∷ percent_comm g.total.mtime g.least.share g.most.share
      ∷ [])
    ++ (if has s.flags ipm_hpm_canceled
        then []
        else stat gflops g.total.flops g.least.flops g.most.flops ∷ [])
    ++ (if is_whole s.jreg then stat gbytes g.total.bytes g.least.bytes g.most.bytes ∷ [] else [])

abbrev cell : List (List ℕ) → ℕ → ℕ → ℕ
cell rows j ii = get_or (get_or rows j []) ii 0

-- The counters of the event set j, in the order ipm_hpm_eorder[j].
unfoldable pub set_lines : (ℕ → ℕ → ℕ) → Reduced → ℕ → List ℕ → List Line
set_lines eorder g j [] = []
set_lines eorder g j (i ∷ is) =
    let ii = eorder j i in
    (if ltb 0 (cell g.count_total j ii)
      then counter j ii (cell g.count_total j ii) (cell g.count_least j ii) (cell g.count_most j ii)
        ∷ []
      else [])
    ++ set_lines eorder g j is

unfoldable pub counter_lines : Build → (ℕ → ℕ → ℕ) → Reduced → List ℕ → List Line
counter_lines b eorder g [] = []
counter_lines b eorder g (j ∷ js) =
    (if ltb 0 (get_or g.cpop j 0) then set_lines eorder g j (identity b.counters) else [])
    ++ counter_lines b eorder g js

-- The loop over the ordered calls, which a call without time ends.
unfoldable pub call_rows : CallSums → List ℕ → List Line
call_rows g [] = []
call_rows g (jcall ∷ idx) =
    let rest = call_rows g idx in
    if get_or g.times jcall 0 == 0
    then []
    else call_row jcall (get_or g.times jcall 0) (get_or g.counts jcall 0) ∷ rest

-- mtime_tot
unfoldable pub mtime_tot : CallSums → List ℕ → ℕ
mtime_tot g [] = 0
mtime_tot g (jcall ∷ idx) =
    let rest = mtime_tot g idx in
    if get_or g.times jcall 0 == 0 then 0 else get_or g.times jcall 0 + rest

-- "if(g_rbuf[0][3] != 0.0)"
unfoldable pub call_lines : Build → Subject → Reduced → List Line
call_lines b s g =
    if g.total.mtime == 0
    then []
    else let idx = index_doubles (suc b.max_calls) g.mpi.times in
      call_columns ∷ call_rows g.mpi idx
      ++ (if ltb 0 (mtime_tot g.mpi idx) && has s.flags debug
          then total_time (mtime_tot g.mpi idx) ∷ []
          else [])

-- ipm_report_internal, with its result
unfoldable pub ipm_report_internal : Build → (ℕ → ℕ → ℕ) → Subject → Reduced → List Line × ℕ
ipm_report_internal b eorder s g =
    let head = if is_whole s.jreg then head_lines s g else [] in
    if has s.flags report_terse then (head ++ terse_lines s g, 1) else (
      head
          ++ (if has s.flags report_full
              then rule ∷ region_name s.region_label g.total.population ∷ []
              else [])
          ++ (blank ∷ columns ∷ stat_lines s g)
          ++ (if has s.flags ipm_hpm_canceled
              then []
              else blank ∷ counter_lines b eorder g (identity b.event_sets))
          ++ blank ∷ call_lines b s g,
      0,
    )
