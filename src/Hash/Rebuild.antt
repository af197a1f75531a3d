-- ===== src/Hash/Rebuild.antt =====
-- The loop of ipm_hash_cull over the saved table ends, in a well-formed table with the entries that
-- a plain map from keys to entries would get.
use ipm_nci.Base.{
  ℕ, zero, suc, ◌+◌, ◌<◌, ◌≤◌, ◌≡◌, ◌≢◌, refl, ◌∙◌, ap, if◌then◌else◌, ◌==◌, List, [], ◌∷◌, Option,
  none, some, get_or, replicate, length-replicate, ℕ_discrete, arith, ==_of_ne, ◌⊎◌, inl, inr,
}
use ipm_nci.Hash.Insert.{hash_hkey-Found}
use ipm_nci.Hash.Log.{IsValid, entry_or_fresh, if_none, Updates, Found-Updates}
use ipm_nci.Hash.Probe.{IsSized}
use ipm_nci.Hash.Slots.{occupied, key_at, lookup}
use ipm_nci.Hash.Sums.{HasCalls}
use ipm_nci.Hash.Totals.{rekey-ne-zero}
use ipm_nci.Hash.{Sizes, Entry, cleared, Task, Run, done, exited, hash_clear}
use ipm_nci.Hash.Cull.{merge, rekey, reinsert_one, reinsert, lowered, hash_cull, most_dense_call}
use ipm_nci.Key.{buf_precision, key_call}

-- The saved entries put one by one into a map, each merged into what its new key has.
unfoldable pub absorb : List ℕ → List Entry → (ℕ → Option Entry) → ℕ → Option Entry
absorb masks [] m q = m q
absorb masks (s ∷ ss) m q =
    if s.key == 0
    then absorb masks ss m q
    else absorb masks ss
        (λ p.
          if p == rekey masks s.key
          then some (merge s (entry_or_fresh (m (rekey masks s.key)) (rekey masks s.key)))
          else m p)
        q

-- Maps that agree but at 0 agree afterwards.
absorb_congr :
    (masks : List ℕ) (ss : List Entry) (m n : ℕ → Option Entry)
    → HasCalls ss
    → ((q : ℕ) → q ≢ 0 → m q ≡ n q)
    → (q : ℕ) → q ≢ 0
    → absorb masks ss m q ≡ absorb masks ss n q
unfolding absorb
absorb_congr masks [] m n calls same q q_pos = same q q_pos
absorb_congr masks (s ∷ ss) m n calls same q q_pos = elim (ℕ_discrete s.key 0) [
  | yes free ↦ rw free (absorb_congr masks ss m n (λ j. calls (suc j)) same q q_pos)
  | no taken ↦ rw (==_of_ne s.key 0 taken) (
      absorb_congr masks ss _ _ (λ j. calls (suc j))
        (λ p p_pos.
          rw (same (rekey masks s.key) (rekey-ne-zero masks s.key (calls 0 taken)), same p p_pos)
            refl)
        q q_pos)
]

-- The cleared table.
pub occupied-cleared : (n : ℕ) → occupied (replicate n cleared) ≡ 0
unfolding occupied
occupied-cleared zero = refl
occupied-cleared (suc n) = omega (arith, occupied-cleared n)

pub key_at-cleared : (n j : ℕ) → key_at (replicate n cleared) j ≡ 0
key_at-cleared zero j = refl
key_at-cleared (suc n) zero = refl
key_at-cleared (suc n) (suc j) = key_at-cleared n j

pub lookup-cleared : (n q : ℕ) → q ≢ 0 → lookup (replicate n cleared) q ≡ none
unfolding lookup
lookup-cleared zero q q_pos = refl
lookup-cleared (suc n) q q_pos = ground (arith, lookup-cleared n q q_pos)

module _ (z : Sizes) (sized : IsSized z) (cull : Task → Run Task) (fuel : ℕ) where
  reinsert_one-Updates :
      (t : Task) (s : Entry)
      → IsValid z t
      → t.hash_nkey < z.hash_limit
      → t.hash_nkey + 1 < fuel
      → rekey t.call_mask s.key ≢ 0
      → (u : Task) × (reinsert_one z cull fuel t s ≡ done u)
        × Updates z t (rekey t.call_mask s.key) (merge s) u
  unfolding reinsert_one merge
  reinsert_one-Updates t s valid room enough k_pos =
      let k = rekey t.call_mask s.key in
      Found-Updates z sized cull fuel k t valid k_pos (merge s) (λ e. refl) room _
        (hash_hkey-Found z cull fuel k t sized valid.placed valid.counted room k_pos enough)

  -- What the loop leaves.
  record Rebuilt (ss : List Entry) (t u : Task) : Type 0 where
    valid : IsValid z u
    reads : (q : ℕ) → q ≢ 0 → lookup u.hash q ≡ absorb t.call_mask ss (lookup t.hash) q
    keys : u.hash_nkey ≤ t.hash_nkey + occupied ss
    masks : u.call_mask ≡ t.call_mask

  if_none_le : (o : Option Entry) → if_none o ≤ 1
  if_none_le none = omega arith
  if_none_le (some e) = omega arith

  Rebuilt-cons :
      (s : Entry) (ss : List Entry) (t v u : Task)
      → 1 ≤ key_call s.key
      → HasCalls ss
      → s.key ≢ 0
      → reinsert_one z cull fuel t s ≡ done v
      → reinsert z cull fuel ss v ≡ done u
      → Updates z t (rekey t.call_mask s.key) (merge s) v
      → Rebuilt ss v u
      → (reinsert z cull fuel (s ∷ ss) t ≡ done u) × Rebuilt (s ∷ ss) t u
  unfolding reinsert occupied absorb
  Rebuilt-cons s ss t v u called calls taken step run one r = (
    ground (arith, step, run, taken),
    record {
      valid = r.valid;
      reads = λ q ne. rw (==_of_ne s.key 0 taken) (
          r.reads q ne
          ∙ ap (λ masks. absorb masks ss (lookup v.hash) q) one.masks
          ∙ absorb_congr t.call_mask ss (lookup v.hash) _ calls one.reads q ne);
      keys =
          rw (==_of_ne s.key 0 taken)
            (omega (arith, r.keys, one.keys, if_none_le (lookup t.hash (rekey t.call_mask s.key))));
      masks = r.masks ∙ one.masks;
    },
  )

  reinsert-Rebuilt :
      (ss : List Entry) (t : Task)
      → HasCalls ss
      → IsValid z t
      → t.hash_nkey + occupied ss ≤ z.hash_limit
      → z.hash_limit < fuel
      → (u : Task) × (reinsert z cull fuel ss t ≡ done u) × Rebuilt ss t u
  unfolding reinsert occupied absorb
  reinsert-Rebuilt [] t calls valid room enough =
      (t, refl, record { valid = valid; reads = λ q ne. refl; keys = omega arith; masks = refl })
  reinsert-Rebuilt (s ∷ ss) t calls valid room enough = elim (ℕ_discrete s.key 0) [
    | yes free ↦
        let (u, run, r) =
          reinsert-Rebuilt ss t (λ j. calls (suc j)) valid (ground (arith, free, room)) enough in
        (
          u,
          ground (arith, run, free),
          record {
            valid = r.valid;
            reads = λ q ne. rw free (r.reads q ne);
            keys = ground (arith, free, r.keys);
            masks = r.masks;
          },
        )
    | no taken ↦
        let k = rekey t.call_mask s.key in
        let more : occupied (s ∷ ss) ≡ suc (occupied ss) = ground (arith, taken) in
        let k_pos = rekey-ne-zero t.call_mask s.key (calls 0 taken) in
        let (v, step, one) =
          reinsert_one-Updates t s valid (omega (arith, room, more))
            (omega (arith, room, more, enough)) k_pos in
        let few : v.hash_nkey ≤ t.hash_nkey + 1 =
          omega (arith, one.keys, if_none_le (lookup t.hash k)) in
        let (u, run, r) =
          reinsert-Rebuilt ss v (λ j. calls (suc j)) one.valid (omega (arith, few, more, room))
            enough in
        let (runs, all) =
          Rebuilt-cons s ss t v u (calls 0 taken) (λ j. calls (suc j)) taken step run one r in
        (u, runs, all)
  ]

module _ (z : Sizes) where
  lowered-IsValid : (t : Task) → IsValid z (lowered z t)
  unfolding lowered hash_clear
  lowered-IsValid t = record {
    placed = record {
      size = length-replicate (z.max_hash + 1) cleared;
      reached = λ j taken. absurd (taken (key_at-cleared (z.max_hash + 1) j));
    };
    counted = occupied-cleared (z.max_hash + 1);
  }

  -- The precision that is left to the densest call.
  abbrev pub new_precision : Task → ℕ
  new_precision t = buf_precision (get_or (lowered z t).call_mask (most_dense_call z t) 0)

  -- What the table holds after a cull.
  pub record Culled (t u : Task) : Type 0 where
    pub valid : IsValid z u
    pub reads :
        (q : ℕ) → q ≢ 0 → lookup u.hash q ≡ absorb (lowered z t).call_mask t.hash (λ p. none) q
    pub keys : u.hash_nkey ≤ t.hash_nkey
    pub masks : u.call_mask ≡ (lowered z t).call_mask

  empty : (t : Task) → (lowered z t).hash_nkey ≡ 0
  unfolding lowered
  empty t = refl

  Culled-of :
      (t u : Task) (sized : IsSized z) (cull : Task → Run Task) (fuel : ℕ)
      → HasCalls t.hash
      → IsValid z t
      → Rebuilt z sized cull fuel t.hash (lowered z t) u
      → Culled t u
  unfolding lowered hash_clear
  Culled-of t u sized cull fuel calls valid r = record {
    valid = r.valid;
    reads = λ q ne.
        r.reads q ne
        ∙ absorb_congr (lowered z t).call_mask t.hash _ (λ p. none) calls
            (lookup-cleared (z.max_hash + 1)) q ne;
    keys = omega (arith, r.keys, empty t, valid.counted);
    masks = r.masks;
  }

  -- On a valid table with at most MAXSIZE_HASHLIMIT keys, all of a call, ipm_hash_cull ends, without
  -- a further cull and with fuel for more rounds than the limit: in exit(1) just when the densest
  -- call has no precision left, and otherwise in a valid table that has no more keys than before,
  -- and for each key but 0 what a plain map has in which the saved entries are put one after the
  -- other, under their keys by the lowered masks.
  pub hash_cull-Culled :
      (rounds fuel : ℕ) (t : Task)
      → IsSized z
      → HasCalls t.hash
      → IsValid z t
      → t.hash_nkey ≤ z.hash_limit
      → z.hash_limit < fuel
      → ((new_precision t ≡ 0) × (hash_cull z (suc rounds) fuel t ≡ exited))
        ⊎ ((new_precision t ≢ 0)
            × ((u : Task) × (hash_cull z (suc rounds) fuel t ≡ done u) × Culled t u))
  unfolding hash_cull
  hash_cull-Culled rounds fuel t sized calls valid room enough =
      elim (ℕ_discrete (new_precision t) 0) [
        | yes gone ↦ inl (gone, ground (arith, gone))
        | no left ↦
            let (u, run, r) =
              reinsert-Rebuilt z sized (hash_cull z rounds fuel) fuel t.hash (lowered z t) calls
                (lowered-IsValid t) (omega (arith, empty t, valid.counted)) enough in
            inr (
              left,
              (
                u,
                ground (arith, left, run),
                Culled-of t u sized (hash_cull z rounds fuel) fuel calls valid r,
              ),
            )
      ]
