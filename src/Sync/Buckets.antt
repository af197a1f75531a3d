-- ===== src/Sync/Buckets.antt =====
-- What ipm_sync adds to the communication times.
use ipm_nci.Base.{
  ℕ, ◌≡◌, ◌≢◌, ◌<◌, ◌≤◌, refl, sym, subst, ◌∙◌, if◌then◌else◌, List, [], ◌∷◌, map, length,
  length-set, arith, ℕ_discrete, ==_of_ne, Bool, min, max, ◌+◌, ◌-◌,
}
use ipm_nci.Hash.{Entry, commtime}
use ipm_nci.Key.{key_region}
use ipm_nci.Region.Step.{sum, sum-set}
use ipm_nci.Sync.{clear_row, Totals, sync_entry, sync_entries, sync_buckets, sync_wtime, sync_mtime}

-- Every key is of a region with a bucket.
abbrev pub HasRegions : ℕ → List Entry → Type 0
HasRegions n [] = 0 ≤ 0
HasRegions n (e ∷ es) = (e.key ≢ 0 → key_region e.key < n) × HasRegions n es

abbrev pub Added : ℕ → Totals → Totals → Type 0
Added n s t =
    (t.mtime ≡ s.mtime + n)
    × (sum t.region_mtime ≡ sum s.region_mtime + n)
    × (length t.region_mtime ≡ length s.region_mtime)

sync_entry-free : (e : Entry) (s : Totals) → e.key ≡ 0 → Added 0 s (sync_entry e s)
unfolding sync_entry
sync_entry-free e s free = rw free (omega arith, omega arith, refl)

sync_entry-taken :
    (e : Entry) (s : Totals)
    → e.key ≢ 0
    → key_region e.key < length s.region_mtime
    → Added e.t_tot s (sync_entry e s)
unfolding sync_entry
sync_entry-taken e s taken inside = rw (==_of_ne e.key 0 taken) (
  refl,
  sum-set s.region_mtime (key_region e.key) e.t_tot inside,
  length-set s.region_mtime (key_region e.key) _,
)

sync_entries-Added :
    (es : List Entry) (s : Totals)
    → HasRegions (length s.region_mtime) es
    → Added (commtime es) s (sync_entries es s)
unfolding sync_entries commtime
sync_entries-Added [] s all = (omega arith, omega arith, refl)
sync_entries-Added (e ∷ es) s all = elim (ℕ_discrete e.key 0) [
  | yes free ↦
      let (a, b, c) = sync_entry-free e s free in
      let (a', b', c') =
        sync_entries-Added es (sync_entry e s) (subst (λ (n : ℕ). HasRegions n es) (sym c) all.1) in
      (ground (arith, a, a', free), ground (arith, b, b', free), c' ∙ c)
  | no taken ↦
      let (a, b, c) = sync_entry-taken e s taken (all.0 taken) in
      let (a', b', c') =
        sync_entries-Added es (sync_entry e s) (subst (λ (n : ℕ). HasRegions n es) (sym c) all.1) in
      (ground (arith, a, a', taken), ground (arith, b, b', taken), c' ∙ c)
]

sync_entries-mtime :
    (es : List Entry) (s : Totals) → (sync_entries es s).mtime ≡ s.mtime + commtime es
unfolding sync_entries sync_entry commtime
sync_entries-mtime [] s = omega arith
sync_entries-mtime (e ∷ es) s = sync_entries-mtime es (sync_entry e s) ∙ ground arith

-- The communication time, whatever the regions of the keys.
pub sync_buckets-mtime :
    (es : List Entry) (s : Totals) → (sync_buckets es s).mtime ≡ s.mtime + commtime es
unfolding sync_buckets
sync_buckets-mtime es s = sync_entries-mtime es _

-- With a bucket for the region of every key, ipm_sync adds what IPM_HASH_GET_COMMTIME gives to
-- task.mtime, and as much in all to the buckets task.region_mtime, to what they had before: neither
-- is set to 0 first, so that each call of ipm_sync adds it once more.
pub sync_buckets-Added :
    (es : List Entry) (s : Totals)
    → HasRegions (length s.region_mtime) es
    → Added (commtime es) s (sync_buckets es s)
unfolding sync_buckets
sync_buckets-Added es s all =
    sync_entries-Added es
      (record s {
        call_mtime = map clear_row s.call_mtime;
        call_mcount = map clear_row s.call_mcount;
      })
      all

-- The wall-clock time that ipm_sync settles on is the larger of the measured one, less what the job
-- was suspended, and the processor time; the communication time is then at most the wall-clock
-- time, and is kept if it was.
pub sync_mtime-min :
    (stamp_init stamp_final lost utime stime : ℕ) (suspended : Bool) (s : Totals)
    → let wtime = sync_wtime stamp_init stamp_final suspended lost utime stime in
      (wtime ≡ max (stamp_final - stamp_init - (if suspended then lost else 0)) (utime + stime))
      × ((sync_mtime wtime s).mtime ≡ min s.mtime wtime)
unfolding sync_wtime sync_mtime
sync_mtime-min stamp_init stamp_final lost utime stime suspended s = ground arith
