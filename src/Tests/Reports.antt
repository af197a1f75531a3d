-- ===== src/Tests/Reports.antt =====
-- A report of a task with three keys in two regions.
use ipm_nci.Base.{
  ℕ, zero, suc, ◌<◌, ◌+◌, ◌*◌, ◌^◌, ◌≤◌, ◌≡◌, ◌↔◌, refl, if◌then◌else◌, ◌==◌, List, [], ◌∷◌, map,
  get_or, none, some, arith,
}
use ipm_nci.Base.Bits.Flags.{has-zero}
use ipm_nci.Base.Strings.{Str}
use ipm_nci.Base.Swaps.{count, swap}
use ipm_nci.Hash.{Entry, cleared, commtime_region}
use ipm_nci.Key.{key_call, key_region}
use ipm_nci.Layout.{identity}
use ipm_nci.Order.Descends.{value, index_doubles-sorts}
use ipm_nci.Order.{IsReordered, index_doubles, order_rows, order_row, order_turn}
use ipm_nci.Report.Calls.{regions-partition, sum_regions}
use ipm_nci.Report.Format.{Subject, Reduced}
use ipm_nci.Report.Rounds.{known_as, contributed, walls, kind, rounds-stale, report-match}
use ipm_nci.Report.{
  Build, Profile, all_locals, region_locals, rounds, ipm_report, no_rbuf, find_label, tally,
  tally_entry, no_calls,
}

abbrev build : Build
build = record { max_calls = 5; event_sets = 1; counters = 1; calc_flops = λ _. none }

abbrev entry : ℕ → ℕ → ℕ → Entry
entry region call time = record {
  key = region * 2 ^ 56 + call * 2 ^ 48;
  count = 1;
  t_tot = time;
  t_min = 0;
  t_max = 0;
}

abbrev table : List Entry
table = entry 0 1 10 ∷ cleared ∷ entry 1 1 5 ∷ entry 1 3 7 ∷ []

-- Task 1; its regions are "a" and "b".
abbrev profile : Profile
profile = record {
  flags = 0;
  mpi_rank = 1;
  wtime = 100;
  utime = 90;
  stime = 1;
  mtime = 22;
  flops = none;
  bytes = 0;
  hash = table;
  hpm_eventset = 0;
  hpm_count = [];
  region_nregion = 2;
  region_label = (97 ∷ []) ∷ (98 ∷ []) ∷ [];
  region_wtime = 60 ∷ 40 ∷ [];
  region_utime = 50 ∷ 40 ∷ [];
  region_stime = 1 ∷ 0 ∷ [];
  region_mtime = 10 ∷ 12 ∷ [];
  region_count = 1 ∷ 1 ∷ [];
}

-- Rank 0 announces the regions "b" and "c".
abbrev heard : ℕ → Str
heard i = if i == 0 then 98 ∷ [] else 99 ∷ []

known_b : known_as heard profile 0 ≡ some 1
unfolding find_label
known_b = refl

unknown_c : known_as heard profile 1 ≡ none
unfolding find_label
unknown_c = refl

regions-partition_example :
    (get_or (all_locals build profile).mpi.times 1 0
      ≡ sum_regions 2 (λ j. get_or (region_locals build profile j).mpi.times 1 0))
    × (get_or (all_locals build profile).mpi.counts 1 0
        ≡ sum_regions 2 (λ j. get_or (region_locals build profile j).mpi.counts 1 0))
unfolding key_call key_region
regions-partition_example = regions-partition build profile 2 (omega arith) (omega arith) 1

by_call :
    (all_locals build profile).mpi
    ≡ record { times = 0 ∷ 15 ∷ 0 ∷ 7 ∷ 0 ∷ 0 ∷ []; counts = 0 ∷ 2 ∷ 0 ∷ 1 ∷ 0 ∷ 0 ∷ [] }
unfolding all_locals tally tally_entry no_calls key_call
by_call = refl

rounds-stale_example :
    (contributed (rounds build heard profile 2 0 (all_locals build profile))
      ≡ 2 * commtime_region 1 table)
    × (walls (rounds build heard profile 2 0 (all_locals build profile)) ≡ 40)
unfolding key_call
rounds-stale_example =
    rounds-stale build heard profile 1 0 1 (all_locals build profile) (omega arith) (omega arith)
      known_b later
  where
    later : (k : ℕ) → 0 < k → k ≤ 0 + 1 → known_as heard profile k ≡ none
    later zero le lt = absurd (omega arith)
    later (suc zero) le lt = unknown_c
    later (suc (suc k)) le lt = absurd (omega arith)

-- The same with three regions does not match.
report-match_example :
    (map kind (ipm_report build heard profile)
      ≡ map kind (ipm_report build heard (record profile { region_nregion = 3 })))
    ↔ (◌≡◌ {A = ℕ} 2 3)
report-match_example =
    report-match build heard heard profile (record profile { region_nregion = 3 }) (has-zero 4)
      (has-zero 28) (has-zero 4) (has-zero 28) (omega arith) (omega arith)

index_doubles-sorts_example :
    IsReordered (identity 3) (index_doubles 3 (3 ∷ 8 ∷ 5 ∷ []))
    × (value (3 ∷ 8 ∷ 5 ∷ []) (index_doubles 3 (3 ∷ 8 ∷ 5 ∷ [])) 2
        ≤ value (3 ∷ 8 ∷ 5 ∷ []) (index_doubles 3 (3 ∷ 8 ∷ 5 ∷ [])) 1)
index_doubles-sorts_example = index_doubles-sorts 3 (3 ∷ 8 ∷ 5 ∷ []) 1 2 (omega arith) (omega arith)

ordered : index_doubles 3 (3 ∷ 8 ∷ 5 ∷ []) ≡ 1 ∷ 2 ∷ 0 ∷ []
unfolding index_doubles order_rows order_row order_turn identity swap
ordered = refl

-- The reductions of a job of this one task.
abbrev reduced : Reduced
reduced = record {
  total = record no_rbuf { mtime = 22 };
  least = no_rbuf;
  most = no_rbuf;
  count_total = [];
  count_least = [];
  count_most = [];
  cpop = 1 ∷ [];
  mpi = record { times = 0 ∷ 15 ∷ 0 ∷ 7 ∷ 0 ∷ 0 ∷ []; counts = 0 ∷ 2 ∷ 0 ∷ 1 ∷ 0 ∷ 0 ∷ [] };
}

abbrev whole : Subject
whole = record {
  flags = 0;
  ntasks = 1;
  nhosts = 1;
  nregion = 2;
  jreg = none;
  region_label = 42 ∷ [];
}
