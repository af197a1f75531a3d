-- ===== src/Session/Totals.antt =====
-- The communication time of a whole run.
use ipm_nci.Base.{
  ℕ, ◌+◌, ◌%◌, ◌^◌, ◌≤◌, ◌<◌, ◌≡◌, ◌≢◌, refl, sym, ap, ◌∙◌, subst, List, [], ◌∷◌, set, get_or,
  arith, length, Option, Bool, true, min,
}
use ipm_nci.Base.Int.{pos}
use ipm_nci.Hash.Cull.{hash_cull, merge}
use ipm_nci.Hash.Slots.{key_at}
use ipm_nci.Hash.Sums.{
  total-cleared, HasCalls-cleared, total, total-set_adds, commtime-total, HasCalls, HasCalls-set,
  Same, Same-add,
}
use ipm_nci.Hash.Totals.{Keeps, loop-keeps, hash_cull-Keeps}
use ipm_nci.Hash.{
  Sizes, Entry, cleared, fresh_entry, Task, Run, done, >>=-eq-done, done-injective, Event,
  event_key, log_mpievent, hash_clear, record_time, hash_hkey, first_slot, add64, commtime,
}
use ipm_nci.Key.Fields.{fields-mpi_key, mpi_key-ne-zero, InRank}
use ipm_nci.Key.{key_call, buf_precision}
use ipm_nci.Init.{init_task_hash}
use ipm_nci.Base.Bits.Flags.{has}
use ipm_nci.Flags.{log_full}
use ipm_nci.Log.Write.Entries.{hent_time, table_pieces-time}
use ipm_nci.Log.Write.{Written, table_pieces}
use ipm_nci.Session.{Timed, log_all}
use ipm_nci.Sync.Buckets.{sync_buckets-mtime, sync_mtime-min}
use ipm_nci.Sync.{Totals, Clocks, ipm_sync, sync_buckets}

-- The event of a wrapped call: in a region from 0 on, of a call from 1 on, with a rank and a size that
-- fit.
pub record IsEvent (e : Event) : Type 0 where
  pub region : (r : ℕ) × (e.region ≡ pos r) × (r < 2 ^ 8)
  pub called : 1 ≤ e.call
  pub call : e.call < 2 ^ 8
  pub rank : InRank e.rank
  pub bytes : (s : ℕ) × (e.bytes ≡ pos s) × (s < 2 ^ 31)

abbrev pub AreEvents : List Timed → Type 0
AreEvents [] = Unit
AreEvents (x ∷ xs) = IsEvent x.event × AreEvents xs

-- The region and the call of an event have a cell in the arrays of the task.
pub record IsCovered (z : Sizes) (e : Event) : Type 0 where
  pub region : e.region ≢ pos 255
  pub call : e.call ≤ z.max_calls

abbrev pub AreCovered : Sizes → List Timed → Type 0
AreCovered z [] = Unit
AreCovered z (x ∷ xs) = IsCovered z x.event × AreCovered z xs

-- The sum of x over the times of all events.
unfoldable pub all_of : (ℕ → ℕ) → List Timed → ℕ
all_of x [] = 0
all_of x (y ∷ ys) = x y.wall + all_of x ys

-- The time of all events.
abbrev pub all_time : List Timed → ℕ
all_time = all_of (λ n. n)

pub event-called :
    (t : Task) (e : Event) → IsEvent e → (event_key t e ≢ 0) × (1 ≤ key_call (event_key t e))
unfolding event_key
event-called t e v =
    let (r, er, hr) = v.region in
    let (s, es, hs) = v.bytes in
    let prec = buf_precision (get_or t.call_mask e.call 0) in
    rw (er, es)
      (
        mpi_key-ne-zero prec r e.call s e.rank hr v.call v.rank hs v.called,
        omega (arith, (fields-mpi_key prec r e.call s e.rank hr v.call v.rank hs).1, v.called),
      )

-- What an event and a whole run add to the sum of a field, modulo m, whatever is culled.
module _ (m : ℕ) (w : Entry → ℕ) (new : (k : ℕ) → w (fresh_entry k) ≡ 0) (z : Sizes)
    (cull : Task → Run Task) (keeps : Keeps m w new z cull) (fuel : ℕ) (x : ℕ → ℕ)
    (adds : (n : ℕ) (e : Entry) → Same m (w (record_time n e)) (w e + x n)) where
  written :
      (es : List Entry) (i k n before : ℕ)
      → k ≢ 0
      → 1 ≤ key_call k
      → key_at es i ≡ k
      → HasCalls es
      → Same m (total w es) before
      → HasCalls (set es i (record_time n (get_or es i cleared)))
        × Same m (total w (set es i (record_time n (get_or es i cleared)))) (before + x n)
  unfolding record_time
  written es i k n before k_pos called at all kept = (
    HasCalls-set es i (record_time n (get_or es i cleared))
        (subst (λ (q : ℕ). 1 ≤ key_call q) (sym at) called) all,
    total-set_adds m w (record_time n) (x n) (λ e. refl) (adds n) es i
          (λ free. k_pos (sym at ∙ free))
        ∙ Same-add m (total w es) before (x n) kept,
  )

  event-adds :
      (t u : Task) (e : Event) (n : ℕ)
      → HasCalls t.hash
      → IsEvent e
      → log_mpievent z cull fuel t e n ≡ done u
      → HasCalls u.hash × Same m (total w u.hash) (total w t.hash + x n)
  unfolding log_mpievent hash_hkey
  event-adds t u e n calls v run =
      let t' = record t { hash_nlog = add64 t.hash_nlog 1 } in
      let k = event_key t e in
      let (k_pos, called) = event-called t e v in
      let (r, found, last) = >>=-eq-done (hash_hkey z cull fuel t' k) _ run in
      let (at, all, kept) =
        loop-keeps m w new z cull keeps k k_pos called fuel (record t' { collisions = 0 })
          (first_slot z k) (r.0) (r.1) calls found in
      subst (λ (u : Task). HasCalls u.hash × Same m (total w u.hash) (total w t.hash + x n))
        (done-injective last) (written (r.0).hash r.1 k n (total w t.hash) k_pos called at all kept)

-- The same for all events.
module _ (m : ℕ) (w : Entry → ℕ) (new : (k : ℕ) → w (fresh_entry k) ≡ 0) (z : Sizes)
    (rounds fuel : ℕ) (keeps : Keeps m w new z (hash_cull z rounds fuel)) (x : ℕ → ℕ)
    (adds : (n : ℕ) (e : Entry) → Same m (w (record_time n e)) (w e + x n)) where
  log_all-adds :
      (t u : Task) (ys : List Timed)
      → HasCalls t.hash
      → AreEvents ys
      → log_all z rounds fuel t ys ≡ done u
      → HasCalls u.hash × Same m (total w u.hash) (total w t.hash + all_of x ys)
  unfolding log_all all_of
  log_all-adds t u [] calls v run =
      subst (λ (u : Task). HasCalls u.hash × Same m (total w u.hash) (total w t.hash + 0))
        (done-injective run) (calls, ap (λ (n : ℕ). n % m) (omega arith))
  log_all-adds t u (y ∷ ys) calls v run =
      let (s, first, rest) =
        >>=-eq-done (log_mpievent z (hash_cull z rounds fuel) fuel t y.event y.wall) _ run in
      let (calls', kept) =
        event-adds m w new z (hash_cull z rounds fuel) keeps fuel x adds t s y.event y.wall calls
          (v.0) first in
      let (calls'', kept') = log_all-adds s u ys calls' (v.1) rest in
      (
        calls'',
        kept'
            ∙ Same-add m (total w s.hash) (total w t.hash + x y.wall) (all_of x ys) kept
            ∙ ap (λ (n : ℕ). n % m) (omega arith),
      )

all_of-one : (xs : List Timed) → all_of (λ _. 1) xs ≡ length xs
unfolding all_of
all_of-one [] = refl
all_of-one (x ∷ xs) = omega (arith, all_of-one xs)

module _ (z : Sizes) (rounds fuel : ℕ) (u : Task) (xs : List Timed) (events : AreEvents xs)
    (run : log_all z rounds fuel (init_task_hash z) xs ≡ done u) where
  session-time : commtime u.hash ≡ all_time xs
  unfolding init_task_hash hash_clear record_time merge
  session-time =
      let (_, sum) =
        log_all-adds 0 (λ e. e.t_tot) (λ k. refl) z rounds fuel
          (hash_cull-Keeps 0 (λ e. e.t_tot) (λ k. refl) (λ s e. refl) z rounds fuel) (λ n. n)
          (λ n e. refl) (init_task_hash z) u xs (HasCalls-cleared (z.max_hash + 1)) events run in
      commtime-total u.hash ∙ omega (arith, sum, total-cleared (λ e. e.t_tot) (z.max_hash + 1))

  session-count : Same (2 ^ 64) (total (λ e. e.count) u.hash) (length xs)
  unfolding init_task_hash hash_clear record_time merge
  session-count =
      let (_, sum) =
        log_all-adds (2 ^ 64) (λ e. e.count) (λ k. refl) z rounds fuel
          (hash_cull-Keeps (2 ^ 64) (λ e. e.count) (λ k. refl) (λ s e. omega arith) z rounds fuel)
          (λ _. 1) (λ n e. omega arith) (init_task_hash z) u xs (HasCalls-cleared (z.max_hash + 1))
          events run in
      omega (arith, sum, total-cleared (λ e. e.count) (z.max_hash + 1), all_of-one xs)

-- A whole run of a task, from ipm_init_task on, through whatever culls, of events with a region from
-- 0 to 254, a call from 1 to MAXSIZE_CALLS, and a rank and a size that fit into the key. Whenever the
-- run comes to its end, that is not in exit(1) and within the rounds and the fuel of the model: the communication time of the table (IPM_HASH_GET_COMMTIME) is the time of all wrapped
-- calls, and the counts add up to their number, modulo 2 ^ 64; ipm_sync settles on that time, added
-- to what mtime was and cut to the wall-clock time; and in a log with LOG_FULL of this table the times
-- of the entries add up to it.
pub session-conserves :
    (z : Sizes) (rounds fuel : ℕ) (u : Task) (xs : List Timed) (calc : List ℕ → Option ℕ)
    (canceled : Bool) (rows : List (List ℕ)) (c : Clocks) (s : Totals) (t : Written)
    → AreEvents xs
    → AreCovered z xs
    → log_all z rounds fuel (init_task_hash z) xs ≡ done u
    → t.hash ≡ u.hash
    → has t.flags log_full ≡ true
    → let settled = ipm_sync calc canceled rows c u.hash s in
      (commtime u.hash ≡ all_time xs)
      × Same (2 ^ 64) (total (λ e. e.count) u.hash) (length xs)
      × (settled.totals.mtime ≡ min (s.mtime + all_time xs) settled.wtime)
      × (hent_time (table_pieces t) ≡ all_time xs)
unfolding ipm_sync
session-conserves z rounds fuel u xs calc canceled rows c s t events covered run same full =
    let time = session-time z rounds fuel u xs events run in
    (
      time,
      session-count z rounds fuel u xs events run,
      (sync_mtime-min c.stamp_init c.stamp_final c.lost c.utime c.stime c.suspended
            (sync_buckets u.hash s)).1
          ∙ rw (sync_buckets-mtime u.hash s, time) refl,
      table_pieces-time t full ∙ ap commtime same ∙ time,
    )
