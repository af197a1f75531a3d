-- ===== src/Tests/Starts.antt =====
-- The start of a task, its totals, and the two searches.
use ipm_nci.Base.{
  ℕ, ◌+◌, ◌-◌, ◌≡◌, ◌≤◌, min, max, refl, true, false, List, [], ◌∷◌, replicate, Option, none, some,
  zero, suc, ◌<◌, ◌%◌, ◌^◌, length, get_or, arith,
}
use ipm_nci.Base.Bits.Flags.{set_flag}
use ipm_nci.Base.Swaps.{swap}
use ipm_nci.Hash.{Entry, cleared, commtime}
use ipm_nci.Init.{Given}
use ipm_nci.Key.{key_region, key_call}
use ipm_nci.Layout.Bounds.{climb-IsValid}
use ipm_nci.Layout.Bounds
use ipm_nci.Layout.{comm_cost, identity, climb, climb_start}
use ipm_nci.Order.{index_doubles, order_rows, order_row, order_turn}
use ipm_nci.Sync.Cells.{cell, time_of, count_of, sync_buckets-cell}
use ipm_nci.Sync.Settled.{ipm_sync-settles, any_flops, all_flops}
use ipm_nci.Sync.{Totals, sync_buckets, Clocks, ipm_sync}

-- An environment that leaves the flags and asks for a trace of 9 entries.
abbrev traced : ℕ → Given
traced f = record { flags = set_flag f 31; trc_count_max = 9; mask_time_init = none }

abbrev one_time : List Entry
one_time =
    cleared
    ∷ record { key = 0x0201_0000_0000_0008; count = 3; t_tot = 30; t_min = 5; t_max = 20 }
    ∷ []

abbrev no_totals : Totals
no_totals = record {
  call_mtime = replicate 4 (replicate 2 0);
  call_mcount = replicate 4 (replicate 2 0);
  region_mtime = replicate 4 0;
  mtime = 0;
}

sync_buckets-cell_example :
    (cell (sync_buckets one_time no_totals).call_mtime 2 1 ≡ time_of 2 1 one_time)
    × (cell (sync_buckets one_time no_totals).call_mcount 2 1 ≡ count_of 2 1 one_time % 2 ^ 64)
unfolding key_region key_call
sync_buckets-cell_example =
    sync_buckets-cell 4 2 2 1 one_time no_totals (omega arith) (refl, rows_of_2) (refl, rows_of_2)
      (λ ne. absurd (ne refl), (λ ne. (omega arith, omega arith), tt))
  where
    rows_of_2 : (r : ℕ) → r < 4 → length (get_or no_totals.call_mtime r []) ≡ 2
    rows_of_2 zero h = refl
    rows_of_2 (suc zero) h = refl
    rows_of_2 (suc (suc zero)) h = refl
    rows_of_2 (suc (suc (suc zero))) h = refl
    rows_of_2 (suc (suc (suc (suc r)))) h = absurd (omega arith)

time_of_both : time_of 2 1 one_time ≡ 30
unfolding time_of key_region key_call
time_of_both = refl

-- Of two regions only the second has flops.
abbrev second_has : List ℕ → Option ℕ
second_has [] = none
second_has (x ∷ xs) = some x

abbrev suspended_job : Clocks
suspended_job = record {
  stamp_init = 10;
  stamp_final = 30;
  suspended = true;
  lost = 5;
  utime = 3;
  stime = 2;
}

ipm_sync-settles_example :
    let t = ipm_sync second_has false ([] ∷ (7 ∷ []) ∷ []) suspended_job one_time no_totals in
    (t.wtime ≡ max (30 - 10 - 5) (3 + 2))
    × (t.totals.mtime ≡ min (0 + commtime one_time) t.wtime)
    × (t.flops ≡ some 7)
unfolding key_region any_flops all_flops
ipm_sync-settles_example =
    ipm_sync-settles second_has false ([] ∷ (7 ∷ []) ∷ []) suspended_job one_time no_totals
      (λ ne. absurd (ne refl), (λ ne. omega arith, omega arith))

-- Two ranks on blocks of one, and two draws.
abbrev rows_of_two : List (List ℕ)
rows_of_two = (0 ∷ 7 ∷ []) ∷ (1 ∷ 0 ∷ []) ∷ []

climb-IsValid_example :
    Bounds.IsValid rows_of_two 2 2
      (climb rows_of_two 2 2 ((0, 1) ∷ (1, 1) ∷ []) (climb_start rows_of_two 2 2))
    × ((climb rows_of_two 2 2 ((0, 1) ∷ (1, 1) ∷ []) (climb_start rows_of_two 2 2)).ocost
        ≤ comm_cost rows_of_two 2 2 (identity 2))
climb-IsValid_example =
    climb-IsValid rows_of_two 2 2 ((0, 1) ∷ (1, 1) ∷ [])
      ((omega arith, omega arith), ((omega arith, omega arith), omega arith))

orders : index_doubles 3 (5 ∷ 9 ∷ 7 ∷ []) ≡ 1 ∷ 2 ∷ 0 ∷ []
unfolding index_doubles order_rows order_row order_turn swap identity
orders = refl
