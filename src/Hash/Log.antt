-- ===== src/Hash/Log.antt =====
-- IPM_LOG_MPIEVENT below the limit of keys: the table behaves as a map from keys to entries, and
-- stays well formed.
use ipm_nci.Base.{
  ℕ, ◌+◌, ◌<◌, ◌≡◌, ◌≢◌, refl, sym, ◌∙◌, ap, subst, if◌then◌else◌, ◌==◌, List, Option, none, some,
  length, get_or, set, get_or-set, get_or-set_self, get_or-set_ne, length-set, set-set, ℕ_discrete,
  arith, ◌⊎◌, inl, inr, ==_iff, ==_of_ne,
}
use ipm_nci.Hash.Insert.{Missed, IsReached, IsPlaced, Found, hit, miss, only_slot, hash_hkey-Found}
use ipm_nci.Hash.Probe.{IsSized, probe-lt}
use ipm_nci.Hash.Slots.{
  occupied, key_at, lookup, lookup-here, lookup-none, lookup-set_self, lookup-set_other,
  occupied-set_claim, occupied-set_same,
}
use ipm_nci.Hash.{
  Sizes, Entry, cleared, fresh_entry, Task, Run, done, probe, slot, claim, add64, record_time,
  Event, ◌>>=◌, event_key, log_mpievent,
}

-- The entry that the abstract table has for a key, or a new one.
abbrev pub entry_or_fresh : Option Entry → ℕ → Entry
entry_or_fresh none k = fresh_entry k
entry_or_fresh (some e) k = e

-- 1 for a key that is new
abbrev pub if_none : Option Entry → ℕ
if_none none = 1
if_none (some e) = 0

module _ (z : Sizes) where
  -- A table with the same key in every slot is as well placed.
  IsPlaced-congr :
      (es fs : List Entry)
      → length fs ≡ length es
      → ((j : ℕ) → key_at fs j ≡ key_at es j)
      → IsPlaced z es
      → IsPlaced z fs
  IsPlaced-congr es fs len same placed = record {
    size = len ∙ placed.size;
    reached = λ j ne.
        let (c, lt, at, missed) = placed.reached j (λ e. ne (same j ∙ e)) in
        subst (λ q. (c : ℕ) × (c < z.max_hash) × (probe z q c ≡ j) × Missed z fs q c) (sym (same j))
          (
            c,
            lt,
            at,
            λ d l. (λ e. (missed d l).0 (sym (same _) ∙ e), λ e. (missed d l).1 (sym (same _) ∙ e)),
          );
  }

  module _ (es : List Entry) (i : ℕ) (v : Entry) (h : i < length es) where
    key_at-set : (j : ℕ) → key_at (set es i v) j ≡ (if i == j then v.key else key_at es j)
    key_at-set j = ground (arith, get_or-set es i j v cleared h)

    -- A slot that keeps its key.
    pub update-IsPlaced : v.key ≡ key_at es i → IsPlaced z es → IsPlaced z (set es i v)
    update-IsPlaced e placed = IsPlaced-congr es (set es i v) (length-set es i v) same placed
      where
        same : (j : ℕ) → key_at (set es i v) j ≡ key_at es j
        same j = ground (arith, key_at-set j)

    -- Probes that miss pass over a slot that is taken later.
    Missed-set : (q c : ℕ) → key_at es i ≡ 0 → Missed z es q c → Missed z (set es i v) q c
    Missed-set q c free missed d l =
        let kept : key_at (set es i v) (probe z q d) ≡ key_at es (probe z q d) =
          ap (λ (e : Entry). e.key)
            (get_or-set_ne es i (probe z q d) v cleared
              (λ e. (missed d l).0 (ap (key_at es) (sym e) ∙ free))) in
        rw kept (missed d l)

    -- A free slot that takes the key whose probes end there.
    pub claim-IsPlaced :
        (c : ℕ)
        → c < z.max_hash
        → probe z v.key c ≡ i
        → Missed z es v.key c
        → key_at es i ≡ 0
        → IsPlaced z es
        → IsPlaced z (set es i v)
    claim-IsPlaced c lt at missed free placed = record {
      size = length-set es i v ∙ placed.size;
      reached = λ j ne. elim (ℕ_discrete i j) [
        | yes same ↦
            by_key j v.key (ground (arith, key_at-set j))
              (c, lt, at ∙ same, Missed-set v.key c free missed)
        | no other ↦
            let kept : key_at (set es i v) j ≡ key_at es j = ground (arith, key_at-set j) in
            let (d, less, there, before) = placed.reached j (λ e. ne (kept ∙ e)) in
            by_key j (key_at es j) kept (d, less, there, Missed-set (key_at es j) d free before)
      ];
    }
      where
        by_key :
            (j q : ℕ)
            → key_at (set es i v) j ≡ q
            → (d : ℕ) × (d < z.max_hash) × (probe z q d ≡ j) × Missed z (set es i v) q d
            → IsReached z (set es i v) j
        by_key j q e r =
            subst (λ q. (d : ℕ) × (d < z.max_hash) × (probe z q d ≡ j) × Missed z (set es i v) q d)
              (sym e) r

  -- The table is well placed, and hash_nkey counts its keys.
  pub record IsValid (t : Task) : Type 0 where
    pub placed : IsPlaced z t.hash
    pub counted : occupied t.hash ≡ t.hash_nkey

  -- What an update of the entry of k leaves: the other keys keep their entries.
  pub record Updates (t : Task) (k : ℕ) (f : Entry → Entry) (u : Task) : Type 0 where
    pub valid : IsValid u
    pub reads :
        (q : ℕ)
        → q ≢ 0
        → lookup u.hash q
          ≡ (if q == k then some (f (entry_or_fresh (lookup t.hash k) k)) else lookup t.hash q)
    pub keys : u.hash_nkey ≡ t.hash_nkey + (if_none (lookup t.hash k))
    pub masks : u.call_mask ≡ t.call_mask
    pub logged : u.hash_nlog ≡ t.hash_nlog

  -- Finding the slot of a key and writing its entry, as IPM_LOG_MPIEVENT and ipm_hash_cull do.
  module _ (sized : IsSized z) (cull : Task → Run Task) (fuel k : ℕ) (t : Task) (valid : IsValid t)
      (k_pos : k ≢ 0) (f : Entry → Entry) (same_key : (e : Entry) → (f e).key ≡ e.key) where
    abbrev pub write : Task × ℕ → Task
    write r = record (r.0) { hash = set (r.0).hash r.1 (f (slot r.0 r.1)) }

    inside : (c : ℕ) → probe z k c < length t.hash
    inside c = omega (arith, valid.placed.size, probe-lt z sized k c)

    module _ (c : ℕ) (missed : Missed z t.hash k c)
        (ends : (key_at t.hash (probe z k c) ≡ 0) ⊎ (key_at t.hash (probe z k c) ≡ k)) where
      only : (j : ℕ) → j ≢ probe z k c → key_at t.hash j ≢ k
      only j ne e = ne (only_slot z t.hash k c valid.placed k_pos missed ends j e)

      -- The table with the entry v of k written at the slot where the probes end.
      written :
          (v : Entry)
          → v.key ≡ k
          → (q : ℕ) → q ≢ 0
          → lookup (set t.hash (probe z k c) v) q ≡ (if q == k then some v else lookup t.hash q)
      written v e q q_pos = elim (ℕ_discrete q k) [
        | yes same ↦
            subst
              (λ q.
                lookup (set t.hash (probe z k c) v) q
                ≡ (if q == k then some v else lookup t.hash q))
              (sym same)
              (rw ((==_iff k k).1 refl)
                (lookup-set_self t.hash (probe z k c) k v (inside c) only e))
        | no other ↦
            rw (==_of_ne q k other)
              (lookup-set_other t.hash (probe z k c) q v (away other ends) (λ p. other (sym p ∙ e)))
      ]
        where
          away :
              q ≢ k
              → (key_at t.hash (probe z k c) ≡ 0) ⊎ (key_at t.hash (probe z k c) ≡ k)
              → key_at t.hash (probe z k c) ≢ q
          away other (inl free) p = q_pos (sym p ∙ free)
          away other (inr found) p = other (sym p ∙ found)

    pub Found-Updates :
        t.hash_nkey < z.hash_limit
        → (out : Run (Task × ℕ)) → Found z cull t k out
        → (u : Task) × ((out >>= λ r. done (write r)) ≡ done u) × Updates t k f u
    unfolding claim
    Found-Updates room out (hit c e missed found) =
        let i = probe z k c in
        let old = get_or t.hash i cleared in
        let known = lookup-here t.hash i k (inside c) (only c missed (inr found)) found in
        (
          record t { collisions = c; hash = set t.hash i (f old) },
          rw e,
          record {
            valid = record {
              placed = update-IsPlaced t.hash i (f old) (inside c) (same_key old) valid.placed;
              counted = occupied-set_same t.hash i (f old) (same_key old) ∙ valid.counted;
            };
            reads = rw known (written c missed (inr found) (f old) (same_key old ∙ found));
            keys = rw known (omega arith);
            masks = refl;
            logged = refl;
          },
        )
    Found-Updates room out (miss c lt e missed free) =
        let i = probe z k c in
        let new = fresh_entry k in
        let absent = lookup-none t.hash k (nowhere c missed free) in
        (
          record t { collisions = c; hash = set t.hash i (f new); hash_nkey = add64 t.hash_nkey 1 },
          rw (e, get_or-set_self t.hash i new cleared (inside c), set-set t.hash i new (f new)),
          record {
            valid = record {
              placed =
                  claim-IsPlaced t.hash i (f new) (inside c) c lt
                    (ap (λ q. probe z q c) (same_key new))
                    (subst (λ q. Missed z t.hash q c) (sym (same_key new)) missed) free
                    valid.placed;
              counted =
                  occupied-set_claim t.hash i (f new) (inside c) free
                    (λ p. k_pos (sym (same_key new) ∙ p))
                  ∙ grown;
            };
            reads = rw absent (written c missed (inl free) (f new) (same_key new));
            keys = rw absent (sym grown');
            masks = refl;
            logged = refl;
          },
        )
      where
        nowhere :
            (c : ℕ)
            → Missed z t.hash k c
            → key_at t.hash (probe z k c) ≡ 0
            → (j : ℕ) → key_at t.hash j ≢ k
        nowhere c missed free j e = k_pos (
            sym e
            ∙ ap (key_at t.hash) (only_slot z t.hash k c valid.placed k_pos missed (inl free) j e)
            ∙ free)

        grown : occupied t.hash + 1 ≡ add64 t.hash_nkey 1
        grown = omega (arith, valid.counted, sized.at_most, sized.limited)

        grown' : t.hash_nkey + 1 ≡ add64 t.hash_nkey 1
        grown' = omega (arith, sized.at_most, sized.limited)

  -- What IPM_LOG_MPIEVENT promises. On a valid table with fewer keys than MAXSIZE_HASHLIMIT, for an
  -- event whose key is not 0 and with fuel for two rounds more than there are keys, it ends without
  -- culling and counts the event in hash_nlog; the table stays valid; the event's key maps to its
  -- former entry, or a new one, with the event recorded; every other key but 0 keeps its entry;
  -- hash_nkey grows by one for a new key; the masks stay.
  pub log_mpievent-Updates :
      (cull : Task → Run Task) (fuel : ℕ) (t : Task) (e : Event) (wall : ℕ)
      → IsSized z
      → IsValid t
      → t.hash_nkey < z.hash_limit
      → event_key t e ≢ 0
      → t.hash_nkey + 1 < fuel
      → (u : Task) × (log_mpievent z cull fuel t e wall ≡ done u)
        × Updates
            (record t { hash_nlog = add64 t.hash_nlog 1 })
            (event_key t e)
            (record_time wall)
            u
  unfolding log_mpievent
  log_mpievent-Updates cull fuel t e wall sized valid room k_pos enough =
      let t' = record t { hash_nlog = add64 t.hash_nlog 1 } in
      let valid' : IsValid t' = record { placed = valid.placed; counted = valid.counted } in
      Found-Updates sized cull fuel (event_key t e) t' valid' k_pos (record_time wall) (λ e. refl)
        room _
        (hash_hkey-Found z cull fuel (event_key t e) t' sized valid.placed valid.counted room k_pos
          enough)
