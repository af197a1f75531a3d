-- ===== src/Sync/Cells.antt =====
-- What ipm_sync leaves in the buckets by region and call.
mod Rows
pub use Rows.{cell, HasShape}
use Rows.{cell-add, cell-count, cell-clear, set-HasShape, clear-HasShape}
use ipm_nci.Base.{
  ℕ, ◌+◌, ◌%◌, ◌^◌, ◌<◌, ◌≤◌, ◌≡◌, ◌≢◌, ◌∙◌, Bool, false, not, ◌&&◌, if◌then◌else◌, ◌==◌, List, [],
  ◌∷◌, map, arith, ℕ_discrete, ==_of_ne,
}
use ipm_nci.Hash.{Entry}
use ipm_nci.Key.{key_call, key_region}
use ipm_nci.Sync.{clear_row, Totals, sync_entry, sync_entries, sync_buckets}

-- The entry is of the region r and the call c.
abbrev is_of : ℕ → ℕ → Entry → Bool
is_of r c e = not (e.key == 0) && ((key_region e.key == r) && (key_call e.key == c))

-- The time and the count of the region r and the call c in a table.
unfoldable pub time_of : ℕ → ℕ → List Entry → ℕ
time_of r c [] = 0
time_of r c (e ∷ es) = (if is_of r c e then e.t_tot else 0) + time_of r c es

pub count_of : ℕ → ℕ → List Entry → ℕ
count_of r c [] = 0
count_of r c (e ∷ es) = (if is_of r c e then e.count else 0) + count_of r c es

-- Every key has its bucket.
abbrev pub HasCells : ℕ → ℕ → List Entry → Type 0
HasCells m n [] = Unit
HasCells m n (e ∷ es) =
    (e.key ≢ 0 → (key_region e.key < m) × (key_call e.key < n)) × HasCells m n es

-- One entry, and the whole table.
module _ (m n r c : ℕ) where
  abbrev Fits : Totals → Type 0
  Fits s =
      HasShape m n s.call_mtime × HasShape m n s.call_mcount × (cell s.call_mcount r c < 2 ^ 64)

  abbrev Adds : ℕ → ℕ → Totals → Totals → Type 0
  Adds time count s t =
      (cell t.call_mtime r c ≡ cell s.call_mtime r c + time)
      × (cell t.call_mcount r c ≡ (cell s.call_mcount r c + count) % 2 ^ 64)

  entry-taken :
      (e : Entry) (s : Totals)
      → (e.key == 0) ≡ false
      → (key_region e.key < m) × (key_call e.key < n)
      → Fits s
      → Fits (sync_entry e s)
        × Adds
            (if is_of r c e then e.t_tot else 0)
            (if is_of r c e then e.count else 0)
            s
            (sync_entry e s)
  unfolding sync_entry
  entry-taken e s taken (hr, hc) (times, counts, small) =
      let i = key_region e.key in
      let j = key_call e.key in
      let added = cell-count m n i j r c e.count s.call_mcount counts hr hc small in
      rw taken (
        (
          set-HasShape m n s.call_mtime i j _ times,
          set-HasShape m n s.call_mcount i j _ counts,
          rw added (omega arith),
        ),
        (cell-add m n i j r c e.t_tot s.call_mtime times hr hc, added),
      )

  entry-Adds :
      (e : Entry) (s : Totals)
      → (e.key ≢ 0 → (key_region e.key < m) × (key_call e.key < n))
      → Fits s
      → Fits (sync_entry e s)
        × Adds
            (if is_of r c e then e.t_tot else 0)
            (if is_of r c e then e.count else 0)
            s
            (sync_entry e s)
  unfolding sync_entry
  entry-Adds e s inside fits = elim (ℕ_discrete e.key 0) [
    | yes free ↦ rw free (fits, (omega arith, omega (arith, fits.2)))
    | no taken ↦ entry-taken e s (==_of_ne e.key 0 taken) (inside taken) fits
  ]

  entries-Adds :
      (es : List Entry) (s : Totals)
      → HasCells m n es
      → Fits s
      → Adds (time_of r c es) (count_of r c es) s (sync_entries es s)
  unfolding sync_entries time_of count_of
  entries-Adds [] s all fits = (omega arith, omega (arith, fits.2))
  entries-Adds (e ∷ es) s all fits =
      let (fits', (times, counts)) = entry-Adds e s (all.0) fits in
      let (times', counts') = entries-Adds es (sync_entry e s) (all.1) fits' in
      (omega (arith, times, times'), omega (arith, counts, counts'))

-- When the buckets are m rows of n columns and there is one for every key of the table: ipm_sync
-- leaves in the bucket of a region and a call above 0, whatever was in it, the time of the table's
-- entries of that region and call, and their count modulo 2 ^ 64.
pub sync_buckets-cell :
    (m n r c : ℕ) (es : List Entry) (s : Totals)
    → 1 ≤ c
    → HasShape m n s.call_mtime
    → HasShape m n s.call_mcount
    → HasCells m n es
    → (cell (sync_buckets es s).call_mtime r c ≡ time_of r c es)
      × (cell (sync_buckets es s).call_mcount r c ≡ count_of r c es % 2 ^ 64)
unfolding sync_buckets
sync_buckets-cell m n r c es s pc times counts all =
    let u = record s {
      call_mtime = map clear_row s.call_mtime;
      call_mcount = map clear_row s.call_mcount;
    } in
    let time0 = cell-clear s.call_mtime r c pc in
    let count0 = cell-clear s.call_mcount r c pc in
    let (t, k) = entries-Adds m n r c es u all (
      clear-HasShape m n s.call_mtime times,
      clear-HasShape m n s.call_mcount counts,
      rw count0 (omega arith),
    ) in
    (t ∙ rw time0 (omega arith), k ∙ rw count0 (omega arith))
