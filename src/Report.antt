-- ===== src/Report.antt =====
-- src/ipm_mpi_report.c: ipm_report on one task, as the collective calls that it makes and the numbers
-- that it puts into them. Each block of nine PMPI_Reduce is one step. The quotient of doubles in
-- rbuf[4] is kept as its dividend and its divisor; flops of -1.0 are `none`. The debug prints, and
-- the parsing of the log of an interrupted job, are left out.
pub mod Tally
pub mod Calls
pub mod Rounds
pub mod Format
use ipm_nci.Base.{
  ℕ, zero, suc, ◌+◌, Bool, true, not, ◌&&◌, if◌then◌else◌, ◌==◌, ltb, List, [], ◌∷◌, map, get_or,
  set, replicate, Option, none, some,
}
use ipm_nci.Base.Bits.Flags.{has}
use ipm_nci.Base.Strings.{Str, strn_eq}
use ipm_nci.Flags.{report_none, ipm_app_interrupted}
use ipm_nci.Hash.{Entry}
use ipm_nci.Key.{key_call, key_region}
use ipm_nci.Layout.{identity}
use ipm_nci.Order.{index_doubles}
use ipm_nci.Region.{max_label, max_region}

-- What the build fixes: MAXSIZE_CALLS, MAXSIZE_NEVENTSETS, MAXSIZE_HPMCOUNTERS, and
-- IPM_HPM_CALC_FLOPS, whose result depends on the machine.
pub record Build : Type 0 where
  pub max_calls : ℕ
  pub event_sets : ℕ
  pub counters : ℕ
  pub calc_flops : List ℕ → Option ℕ

-- The fields of ipm_taskdata that a report reads; hpm_count is indexed by region, event set and
-- counter.
pub record Profile : Type 0 where
  pub flags : ℕ
  pub mpi_rank : ℕ
  pub wtime : ℕ
  pub utime : ℕ
  pub stime : ℕ
  pub mtime : ℕ
  pub flops : Option ℕ
  pub bytes : ℕ
  pub hash : List Entry
  pub hpm_eventset : ℕ
  pub hpm_count : List (List (List ℕ))
  pub region_nregion : ℕ
  pub region_label : List Str
  pub region_wtime : List ℕ
  pub region_utime : List ℕ
  pub region_stime : List ℕ
  pub region_mtime : List ℕ
  pub region_count : List ℕ

-- rbuf[0] to rbuf[9]
pub record Rbuf : Type 0 where
  pub wtime : ℕ
  pub utime : ℕ
  pub stime : ℕ
  pub mtime : ℕ
  pub share : ℕ × ℕ
  pub flop_tasks : ℕ
  pub flops : ℕ
  pub bytes : ℕ
  pub population : ℕ
  pub entries : ℕ

-- mpi_time and mpi_count
pub record CallSums : Type 0 where
  pub times : List ℕ
  pub counts : List ℕ

-- The local variables that are reduced.
pub record Locals : Type 0 where
  pub rbuf : Rbuf
  pub mpi : CallSums
  pub cpop : List ℕ
  pub cbuf : List (List ℕ)

-- A collective call: PMPI_Bcast, or the reductions with what the task puts in.
pub data Collective : Type 0 where
  bcast : Collective
  reduce : Locals → Collective

-- `for(i=0;i<=MAXSIZE_CALLS;i++)`
unfoldable pub no_calls : ℕ → CallSums
no_calls calls = record { times = replicate (suc calls) 0; counts = replicate (suc calls) 0 }

-- One entry of the table.
unfoldable pub tally_entry : Entry → CallSums → CallSums
tally_entry e s = record {
  times = set s.times (key_call e.key) (get_or s.times (key_call e.key) 0 + e.t_tot);
  counts = set s.counts (key_call e.key) (get_or s.counts (key_call e.key) 0 + e.count);
}

-- The loop over the table, for the keys that `select` takes.
unfoldable pub tally : (ℕ → Bool) → List Entry → CallSums → CallSums
tally select [] s = s
tally select (e ∷ es) s =
    tally select es (if not (e.key == 0) && select e.key then tally_entry e s else s)

-- hpm_count[k][i][j]
abbrev pub hpm_at : List (List (List ℕ)) → ℕ → ℕ → ℕ → ℕ
hpm_at counts k i j = get_or (get_or (get_or counts k []) i []) j 0

-- The sum over the first k regions.
unfoldable pub hpm_sum : List (List (List ℕ)) → ℕ → ℕ → ℕ → ℕ
hpm_sum counts zero i j = 0
hpm_sum counts (suc k) i j = hpm_sum counts k i j + hpm_at counts k i j

-- An array with the rows and columns of cbuf.
abbrev pub cells : Build → (ℕ → ℕ → ℕ) → List (List ℕ)
cells b f = map (λ i. map (f i) (identity b.counters)) (identity b.event_sets)

-- cpop
unfoldable pub eventset_mark : Build → Profile → List ℕ
eventset_mark b t = set (replicate b.event_sets 0) t.hpm_eventset 1

abbrev pub flop_fields : Option ℕ → ℕ × ℕ
flop_fields none = (0, 0)
flop_fields (some f) = (1, f)

-- "local totals", which are reduced for the whole run.
unfoldable pub all_locals : Build → Profile → Locals
all_locals b t = record {
  rbuf = record {
    wtime = t.wtime;
    utime = t.utime;
    stime = t.stime;
    mtime = t.mtime;
    share = (t.mtime, t.wtime);
    flop_tasks = (flop_fields t.flops).0;
    flops = (flop_fields t.flops).1;
    bytes = t.bytes;
    population = 1;
    entries = 1;
  };
  mpi = tally (λ _. true) t.hash (no_calls b.max_calls);
  cpop = eventset_mark b t;
  cbuf = cells b (hpm_sum t.hpm_count max_region);
}

-- The search for a broadcast label, from the region i on with n regions left.
unfoldable pub find_label : Str → List Str → ℕ → ℕ → Option ℕ
find_label label labels zero i = none
find_label label labels (suc n) i =
    let rest = find_label label labels n (suc i) in
    if strn_eq max_label label (get_or labels i []) then some i else rest

-- jreg of the round i; `heard` is what the broadcast from rank 0 brings.
unfoldable pub chosen : (ℕ → Str) → Profile → ℕ → Option ℕ
chosen heard t i =
    if t.mpi_rank == 0
    then some (get_or (index_doubles max_region t.region_wtime) i 0)
    else find_label (heard i) t.region_label t.region_nregion 0

-- "this is some other region"
unfoldable pub region_locals : Build → Profile → ℕ → Locals
region_locals b t j =
    let flops = b.calc_flops (get_or (get_or t.hpm_count j []) t.hpm_eventset []) in
    record {
      rbuf = record {
        wtime = get_or t.region_wtime j 0;
        utime = get_or t.region_utime j 0;
        stime = get_or t.region_stime j 0;
        mtime = get_or t.region_mtime j 0;
        share = (get_or t.region_mtime j 0, get_or t.region_wtime j 0);
        flop_tasks = (flop_fields flops).0;
        flops = (flop_fields flops).1;
        bytes = get_or t.region_count j 0;
        population = 1;
        entries = get_or t.region_count j 0;
      };
      mpi = tally (λ k. key_region k == j) t.hash (no_calls b.max_calls);
      cpop = eventset_mark b t;
      cbuf = cells b (hpm_at t.hpm_count j);
    }

abbrev pub no_rbuf : Rbuf
no_rbuf = record {
  wtime = 0;
  utime = 0;
  stime = 0;
  mtime = 0;
  share = (0, 1);
  flop_tasks = 0;
  flops = 0;
  bytes = 0;
  population = 0;
  entries = 0;
}

-- One round: "this task did not enter the region" clears rbuf, and no other buffer.
unfoldable pub round : Build → Profile → Option ℕ → Locals → Locals
round b t none s = record s { rbuf = no_rbuf; cpop = eventset_mark b t }
round b t (some j) s = region_locals b t j

-- The loop over the regions, from the round i on with n rounds left.
unfoldable pub rounds : Build → (ℕ → Str) → Profile → ℕ → ℕ → Locals → List Collective
rounds b heard t zero i s = []
rounds b heard t (suc n) i s =
    let s' = round b t (chosen heard t i) s in bcast ∷ reduce s' ∷ rounds b heard t n (suc i) s'

-- ipm_report
unfoldable pub ipm_report : Build → (ℕ → Str) → Profile → List Collective
ipm_report b heard t =
    if has t.flags report_none
    then []
    else if has t.flags ipm_app_interrupted
    then []
    else if ltb 1 t.region_nregion
    then reduce (all_locals b t) ∷ rounds b heard t t.region_nregion 0 (all_locals b t)
    else reduce (all_locals b t) ∷ []
