-- ===== src/Sync/Settled.antt =====
-- The times and the flops that ipm_sync settles on.
use ipm_nci.Base.{
  ℕ, ◌+◌, ◌-◌, ◌≡◌, refl, ap, ◌∙◌, Bool, true, false, not, if◌then◌else◌, List, [], ◌∷◌, map,
  length, Option, none, some, min, max, arith,
}
use ipm_nci.Hash.{Entry, commtime}
use ipm_nci.Sync.Buckets.{HasRegions, sync_buckets-Added, sync_mtime-min}
use ipm_nci.Sync.{Totals, sync_buckets, sync_flops, add_flops, Clocks, ipm_sync}

-- Whether a region has flops, and what they are in all.
unfoldable pub any_flops : List (Option ℕ) → Bool
any_flops [] = false
any_flops (none ∷ os) = any_flops os
any_flops (some n ∷ os) = true

unfoldable pub all_flops : List (Option ℕ) → ℕ
all_flops [] = 0
all_flops (none ∷ os) = all_flops os
all_flops (some n ∷ os) = n + all_flops os

abbrev flops_of : List (Option ℕ) → Option ℕ
flops_of os = if any_flops os then some (all_flops os) else none

some-flops :
    (calc : List ℕ → Option ℕ) (rows : List (List ℕ)) (a : ℕ)
    → sync_flops calc rows (some a) ≡ some (a + all_flops (map calc rows))
unfolding sync_flops all_flops add_flops
some-flops calc [] a = ap some {x = a} (omega arith)
some-flops calc (row ∷ rows) a = by_row (calc row) (λ k. some-flops calc rows k)
  where
    by_row :
        (o : Option ℕ)
        → ((k : ℕ) → sync_flops calc rows (some k) ≡ some (k + all_flops (map calc rows)))
        → sync_flops calc rows (add_flops o (some a)) ≡ some (a + all_flops (o ∷ map calc rows))
    by_row none rest = rest a
    by_row (some n) rest =
        rest (a + n) ∙ ap some {x = a + n + all_flops (map calc rows)} (omega arith)

none-flops :
    (calc : List ℕ → Option ℕ) (rows : List (List ℕ))
    → sync_flops calc rows none ≡ flops_of (map calc rows)
unfolding sync_flops all_flops any_flops add_flops
none-flops calc [] = refl
none-flops calc (row ∷ rows) = by_row (calc row) (none-flops calc rows)
  where
    by_row :
        (o : Option ℕ)
        → sync_flops calc rows none ≡ flops_of (map calc rows)
        → sync_flops calc rows (add_flops o none) ≡ flops_of (o ∷ map calc rows)
    by_row none rest = rest
    by_row (some n) rest = some-flops calc rows n

-- With a bucket for the region of every key: ipm_sync settles on a wall-clock time that is the larger
-- of the measured one, less what the job was suspended, and the processor time; on a communication
-- time that is what it was and IPM_HASH_GET_COMMTIME together, or the wall-clock time if that is
-- less; and on the sum of the flops of those regions that have any, if there is one and MPI is not
-- cancelled.
pub ipm_sync-settles :
    (calc : List ℕ → Option ℕ) (canceled : Bool) (rows : List (List ℕ)) (c : Clocks)
    (es : List Entry) (s : Totals)
    → HasRegions (length s.region_mtime) es
    → let t = ipm_sync calc canceled rows c es s in
      (t.wtime
        ≡ max
            (c.stamp_final - c.stamp_init - (if c.suspended then c.lost else 0))
            (c.utime + c.stime))
      × (t.totals.mtime ≡ min (s.mtime + commtime es) t.wtime)
      × (t.flops ≡ (if not canceled then flops_of (map calc rows) else none))
unfolding ipm_sync
ipm_sync-settles calc canceled rows c es s all =
    let (wtime, mtime) =
      sync_mtime-min c.stamp_init c.stamp_final c.lost c.utime c.stime c.suspended
        (sync_buckets es s) in
    (wtime, rw mtime (rw (sync_buckets-Added es s all).0 refl), settled canceled)
  where
    settled :
        (b : Bool)
        → (if b then none else sync_flops calc rows none)
          ≡ (if not b then flops_of (map calc rows) else none)
    settled true = refl
    settled false = none-flops calc rows
