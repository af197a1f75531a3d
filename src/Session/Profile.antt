-- ===== src/Session/Profile.antt =====
-- What the table of a task says of a run whose keys fit into it: a profile of the events by their keys.
use ipm_nci.Base.{
  ℕ, ◌+◌, ◌%◌, ◌^◌, ◌≤◌, ◌<◌, ◌≡◌, ◌≢◌, refl, sym, ap, ◌∙◌, subst, List, [], ◌∷◌, arith, length,
  length-replicate, replicate, Option, none, some, Bool, true, false, min, max, if◌then◌else◌,
  get_or, ◌==◌, ==_of_ne, ==_iff, ℕ_discrete,
}
use ipm_nci.Hash.Cull.{hash_cull}
use ipm_nci.Hash.Log.{IsValid, Updates, entry_or_fresh, if_none, log_mpievent-Updates}
use ipm_nci.Hash.Probe.{IsSized}
use ipm_nci.Hash.Slots.{lookup}
use ipm_nci.Hash.Rebuild.{lookup-cleared}
use ipm_nci.Region.{max_region}
use ipm_nci.Base.Strings.{Str}
use ipm_nci.Hash.{
  Sizes, Entry, fresh_entry, Task, done, Event, event_key, hash_clear, record_time, add64,
}
use ipm_nci.Key.{mpi_key, buf_precision}
use ipm_nci.Base.Int.{pos}
use ipm_nci.Init.Start.{init_task-IsValid}
use ipm_nci.Init.{init_task_hash}
use ipm_nci.Session.Totals.{AreEvents, event-called}
use ipm_nci.Session.{Timed, log_all}

among : ℕ → List ℕ → Bool
among q [] = false
among q (k ∷ ks) = if q == k then true else among q ks

-- How many keys there are that are not among `seen`.
unfoldable pub distinct_from : List ℕ → List ℕ → ℕ
unfolding among
distinct_from seen [] = 0
distinct_from seen (k ∷ ks) = (if among k seen then 0 else 1) + distinct_from (k ∷ seen) ks

unfoldable pub keys_of : (Event → ℕ) → List Timed → List ℕ
keys_of key [] = []
keys_of key (x ∷ xs) = key x.event ∷ keys_of key xs

-- The times of the events with the key q.
unfoldable pub walls_of : (Event → ℕ) → ℕ → List Timed → List ℕ
walls_of key q [] = []
walls_of key q (x ∷ xs) = if q == key x.event then x.wall ∷ walls_of key q xs else walls_of key q xs

total_of : List ℕ → ℕ
total_of [] = 0
total_of (w ∷ ws) = w + total_of ws

-- The least time, from 1e15 seconds down, and the greatest.
least : List ℕ → ℕ
least [] = 10 ^ 24
least (w ∷ ws) = min w (least ws)

greatest : List ℕ → ℕ
greatest [] = 0
greatest (w ∷ ws) = max w (greatest ws)

-- The entry of a key for the times of its events, none where it has no event.
unfoldable pub profile : ℕ → List ℕ → Option Entry
unfolding total_of least greatest
profile k [] = none
profile k (w ∷ ws) = some (record {
  key = k;
  count = length (w ∷ ws) % 2 ^ 64;
  t_tot = total_of (w ∷ ws);
  t_min = least (w ∷ ws);
  t_max = greatest (w ∷ ws);
})

-- The entry of k, or a new one, with the times recorded one after the other.
extend : ℕ → Option Entry → List ℕ → Option Entry
extend k o [] = o
extend k o (w ∷ ws) = extend k (some (record_time w (entry_or_fresh o k))) ws

extend-some :
    (k n : ℕ) (e : Entry) (ws : List ℕ)
    → e.count ≡ n % 2 ^ 64
    → e.t_min ≤ 10 ^ 24
    → extend k (some e) ws
      ≡ some (record {
        key = e.key;
        count = (n + length ws) % 2 ^ 64;
        t_tot = e.t_tot + total_of ws;
        t_min = min e.t_min (least ws);
        t_max = max e.t_max (greatest ws);
      })
unfolding extend total_of least greatest record_time
extend-some k n e [] counted low = ground arith
extend-some k n e (w ∷ ws) counted low =
    extend-some k (n + 1) (record_time w e) ws (omega arith) (ground arith) ∙ ap some (ground arith)

least-le : (ws : List ℕ) → least ws ≤ 10 ^ 24
unfolding least
least-le [] = omega arith
least-le (w ∷ ws) = omega (arith, least-le ws)

extend-none : (k : ℕ) (ws : List ℕ) → extend k none ws ≡ profile k ws
unfolding extend profile record_time least greatest total_of
extend-none k [] = refl
extend-none k (w ∷ ws) =
    extend-some k 1 (record_time w (fresh_entry k)) ws (omega arith) (ground arith)
    ∙ ap some (ground (arith, least-le ws))

has_entry : Option Entry → Bool
has_entry none = false
has_entry (some e) = true

has_entry-if :
    (b : Bool) (e : Entry) (o : Option Entry)
    → has_entry (if b then some e else o) ≡ (if b then true else has_entry o)
unfolding has_entry
has_entry-if true e o = refl
has_entry-if false e o = refl

if_none-has_entry : (o : Option Entry) → if_none o ≡ (if has_entry o then 0 else 1)
unfolding has_entry
if_none-has_entry none = refl
if_none-has_entry (some e) = refl

event_key-masks : (s t : Task) → s.call_mask ≡ t.call_mask → event_key s ≡ event_key t
unfolding event_key
event_key-masks s t e =
    ap
      (λ (m : List ℕ). λ (e : Event).
        mpi_key (buf_precision (get_or m e.call 0)) e.region (pos e.call) e.rank e.bytes)
      e

-- One recorded event, and the others after it.
extend-step :
    (q k w : ℕ) (o o' old : Option Entry) (ws : List ℕ)
    → o' ≡ (if q == k then some (record_time w (entry_or_fresh old k)) else o)
    → ((q ≡ k) → o ≡ old)
    → extend q o' ws ≡ extend q o (if q == k then w ∷ ws else ws)
unfolding extend
extend-step q k w o o' old ws e there = elim (ℕ_discrete q k) [
  | yes same ↦ rw ((==_iff q k).1 same) (
      ap (λ (o : Option Entry). extend q o ws)
        (subst (λ (b : Bool). o' ≡ (if b then some (record_time w (entry_or_fresh old k)) else o))
            ((==_iff q k).1 same) e
          ∙ rw (there same, same) refl))
  | no other ↦ rw (==_of_ne q k other) (
      ap (λ (o : Option Entry). extend q o ws)
        (subst (λ (b : Bool). o' ≡ (if b then some (record_time w (entry_or_fresh old k)) else o))
          (==_of_ne q k other) e))
]

module _ (z : Sizes) (sized : IsSized z) (rounds fuel : ℕ) (enough : z.hash_limit < fuel)
    (key : Event → ℕ) where
  -- What a run leaves.
  record Recorded (t : Task) (xs : List Timed) (u : Task) : Type 0 where
    valid : IsValid z u
    reads : (q : ℕ) → q ≢ 0 → lookup u.hash q ≡ extend q (lookup t.hash q) (walls_of key q xs)

  log_all-Recorded :
      (t : Task) (xs : List Timed) (seen : List ℕ)
      → IsValid z t
      → AreEvents xs
      → event_key t ≡ key
      → ((q : ℕ) → q ≢ 0 → among q seen ≡ has_entry (lookup t.hash q))
      → t.hash_nkey + distinct_from seen (keys_of key xs) < z.hash_limit
      → (u : Task) × (log_all z rounds fuel t xs ≡ done u) × Recorded t xs u
  unfolding log_all walls_of keys_of distinct_from extend among has_entry
  log_all-Recorded t [] seen valid v keys same room =
      (t, refl, record { valid = valid; reads = λ q q_pos. refl })
  log_all-Recorded t (x ∷ xs) seen valid v keys same room =
      let k = key x.event in
      let at : event_key t x.event ≡ k = ap (λ (f : Event → ℕ). f x.event) keys in
      let (k_pos, _) = event-called t x.event (v.0) in
      let k_pos' : k ≢ 0 = λ p. k_pos (at ∙ p) in
      let (s, first, up) =
        log_mpievent-Updates z (hash_cull z rounds fuel) fuel t x.event x.wall sized valid
          (omega arith) k_pos (omega arith) in
      let up' : Updates z (record t { hash_nlog = add64 t.hash_nlog 1 }) k (record_time x.wall) s =
        subst
          (λ (k : ℕ).
            Updates z (record t { hash_nlog = add64 t.hash_nlog 1 }) k (record_time x.wall) s)
          at up in
      let new : (if among k seen then 0 else 1) ≡ if_none (lookup t.hash k) =
        rw (same k k_pos') (sym (if_none-has_entry (lookup t.hash k))) in
      let (u, rest, recorded) =
        log_all-Recorded s xs (k ∷ seen) up.valid (v.1) (event_key-masks s t up.masks ∙ keys)
          (λ q q_pos. rw (up'.reads q q_pos, same q q_pos) (sym (has_entry-if (q == k) _ _)))
          (subst (λ (n : ℕ). n + distinct_from (k ∷ seen) (keys_of key xs) < z.hash_limit)
            (sym up'.keys) (omega (arith, new, room))) in
      (
        u,
        rw first rest,
        record {
          valid = recorded.valid;
          reads = λ q q_pos.
              recorded.reads q q_pos
              ∙ extend-step q k x.wall (lookup t.hash q) (lookup s.hash q) (lookup t.hash k)
                  (walls_of key q xs) (up'.reads q q_pos) (λ p. rw p refl);
        },
      )

-- A run of a task, from ipm_init_task on, with a prime MAXSIZE_HASH above MAXSIZE_HASHLIMIT, of events
-- with a region from 0 to 255, a call from 1 to 255, and a rank and a size that fit into the key: when
-- they have fewer distinct keys than MAXSIZE_HASHLIMIT, the run ends, with fuel for one round more than
-- that limit. It leaves a valid table, and every key but 0 maps to the profile of its events: none
-- where there is none, and otherwise their number modulo 2 ^ 64, the sum of their times, the least
-- time (1e15 seconds at most) and the greatest.
pub session-profile :
    (z : Sizes) (rounds fuel : ℕ) (xs : List Timed)
    → IsSized z
    → z.hash_limit < fuel
    → AreEvents xs
    → distinct_from [] (keys_of (event_key (init_task_hash z)) xs) < z.hash_limit
    → (u : Task) × (log_all z rounds fuel (init_task_hash z) xs ≡ done u)
      × IsValid z u
      × ((q : ℕ)
          → q ≢ 0
          → lookup u.hash q ≡ profile q (walls_of (event_key (init_task_hash z)) q xs))
unfolding init_task_hash hash_clear among has_entry
session-profile z rounds fuel xs sized enough events few =
    let key = event_key (init_task_hash z) in
    let empty : (q : ℕ) → q ≢ 0 → lookup (init_task_hash z).hash q ≡ none =
      lookup-cleared (z.max_hash + 1) in
    let (valid, _) =
      init_task-IsValid z 0 (replicate max_region []) (length-replicate {A = Str} max_region []) in
    let (u, run, recorded) =
      log_all-Recorded z sized rounds fuel enough key (init_task_hash z) xs [] valid events refl
        (λ q q_pos. rw (empty q q_pos) refl) (omega (arith, few)) in
    (
      u,
      run,
      recorded.valid,
      λ q q_pos. recorded.reads q q_pos ∙ rw (empty q q_pos) (extend-none q (walls_of key q xs)),
    )
