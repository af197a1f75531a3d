-- ===== src/Sync.antt =====
-- src/ipm_api.c: ipm_sync, which sorts the table's times into buckets by region and call, and settles
-- the task's wall-clock and communication times. The adjustment for a suspended job, by
-- duration_adjust, is a parameter; so is IPM_HPM_CALC_FLOPS, by which counters make flops.
pub mod Buckets
pub mod Cells
pub mod Settled
use ipm_nci.Base.{
  ℕ, ◌+◌, ◌-◌, Bool, if◌then◌else◌, ◌==◌, ltb, List, [], ◌∷◌, map, get_or, set, Option, none, some,
}
use ipm_nci.Hash.{Entry, add64}
use ipm_nci.Key.{key_call, key_region}

-- The fields of ipm_taskdata that ipm_sync sorts into.
pub record Totals : Type 0 where
  pub call_mtime : List (List ℕ)
  pub call_mcount : List (List ℕ)
  pub region_mtime : List ℕ
  pub mtime : ℕ

-- Columns 1 to MAXSIZE_CALLS of every row are set to 0.
abbrev pub clear_row : List ℕ → List ℕ
clear_row [] = []
clear_row (x ∷ xs) = x ∷ map (λ _. 0) xs

-- `a[r][c] += n`
abbrev pub add_cell : List (List ℕ) → ℕ → ℕ → ℕ → List (List ℕ)
add_cell rows r c n = set rows r (set (get_or rows r []) c (get_or (get_or rows r []) c 0 + n))

-- The same for counts, which wrap.
abbrev pub add_count : List (List ℕ) → ℕ → ℕ → ℕ → List (List ℕ)
add_count rows r c n =
    set rows r (set (get_or rows r []) c (add64 (get_or (get_or rows r []) c 0) n))

-- One slot of the table.
unfoldable pub sync_entry : Entry → Totals → Totals
sync_entry e s = if e.key == 0 then s else record {
  call_mtime = add_cell s.call_mtime (key_region e.key) (key_call e.key) e.t_tot;
  call_mcount = add_count s.call_mcount (key_region e.key) (key_call e.key) e.count;
  region_mtime =
      set s.region_mtime (key_region e.key) (get_or s.region_mtime (key_region e.key) 0 + e.t_tot);
  mtime = s.mtime + e.t_tot;
}

-- The loop over the table.
unfoldable pub sync_entries : List Entry → Totals → Totals
sync_entries [] s = s
sync_entries (e ∷ es) s = sync_entries es (sync_entry e s)

-- "make the call buckets right"
unfoldable pub sync_buckets : List Entry → Totals → Totals
sync_buckets es s = sync_entries es (record s {
  call_mtime = map clear_row s.call_mtime;
  call_mcount = map clear_row s.call_mcount;
})

-- The wall-clock time: `lost` is what the job was suspended, when duration_adjust finds that it was.
unfoldable pub sync_wtime : ℕ → ℕ → Bool → ℕ → ℕ → ℕ → ℕ
sync_wtime stamp_init stamp_final suspended lost utime stime =
    let wtime = if suspended then stamp_final - stamp_init - lost else stamp_final - stamp_init in
    if ltb wtime (utime + stime) then utime + stime else wtime

-- The communication time is cut to the wall-clock time.
unfoldable pub sync_mtime : ℕ → Totals → Totals
sync_mtime wtime s = record s { mtime = if ltb wtime s.mtime then wtime else s.mtime }

-- One region's b_flops, where -1 is `none`.
unfoldable pub add_flops : Option ℕ → Option ℕ → Option ℕ
add_flops none flops = flops
add_flops (some b_flops) none = some b_flops
add_flops (some b_flops) (some n) = some (n + b_flops)

-- The loop over the regions; the rows are those of hpm_count for the event set.
unfoldable pub sync_flops : (List ℕ → Option ℕ) → List (List ℕ) → Option ℕ → Option ℕ
sync_flops calc_flops [] flops = flops
sync_flops calc_flops (row ∷ rows) flops =
    sync_flops calc_flops rows (add_flops (calc_flops row) flops)

-- What the clocks and duration_adjust give.
pub record Clocks : Type 0 where
  pub stamp_init : ℕ
  pub stamp_final : ℕ
  pub suspended : Bool
  pub lost : ℕ
  pub utime : ℕ
  pub stime : ℕ

-- What ipm_sync settles.
pub record Settlement : Type 0 where
  pub totals : Totals
  pub wtime : ℕ
  pub flops : Option ℕ

-- ipm_sync; `canceled` is IPM_MPI_CANCELED.
unfoldable pub ipm_sync :
    (List ℕ → Option ℕ) → Bool → List (List ℕ) → Clocks → List Entry → Totals → Settlement
ipm_sync calc_flops canceled rows c es s =
    let wtime = sync_wtime c.stamp_init c.stamp_final c.suspended c.lost c.utime c.stime in
    record {
      totals = sync_mtime wtime (sync_buckets es s);
      wtime = wtime;
      flops = if canceled then none else sync_flops calc_flops rows none;
    }
