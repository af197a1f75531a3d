-- ===== src/Hash/Totals.antt =====
-- Sums over the keys of the table, and that finding the slot of a key and merging an entry into it
-- add to them exactly what they should, whatever ipm_hash_cull does on the way.
use ipm_nci.Base.{
  ℕ, zero, suc, ◌+◌, ◌%◌, ◌^◌, ◌≤◌, ◌≡◌, ◌≢◌, refl, sym, ◌∙◌, ap, if◌then◌else◌, List, [], ◌∷◌,
  ==_of_ne, ◌<◌, get_or, set, ℕ_discrete, arith, subst, true, false, leb, Bool-cases, ◌⊎◌, inl, inr,
}
use ipm_nci.Hash.Insert.{loop_finds, loop_claims, loop_goes_on}
use ipm_nci.Hash.Slots.{key_at}
use ipm_nci.Hash.Sums.{
  total, commtime-total, total-set_claim, HasCalls, HasCalls-set, Same, Same-add, total-set_adds,
  total-cleared, HasCalls-cleared,
}
use ipm_nci.Hash.{
  Sizes, Entry, cleared, fresh_entry, Task, Run, done, ◌>>=◌, probe, claim, collide, hkey_loop,
  hash_hkey, commtime, add64, >>=-eq-done, done-injective, first_slot, hash_clear,
}
use ipm_nci.Hash.Cull.{merge, rekey, reinsert_one, reinsert, lowered, hash_cull}
use ipm_nci.Key.Fields.{
  fields-mpi_key, mpi_key-ne-zero, key_region-div, key_call-div, key_byte-mod, key_rank-InRank,
}
use ipm_nci.Key.{key_region, key_call, key_rank, key_byte, buf_precision}

module _ (m : ℕ) (w : Entry → ℕ) (new : (k : ℕ) → w (fresh_entry k) ≡ 0) (z : Sizes) where
  -- What is required of the cull that a collision may call.
  abbrev pub Keeps : (Task → Run Task) → Type 0
  Keeps cull =
      (t u : Task)
      → HasCalls t.hash
      → cull t ≡ done u
      → HasCalls u.hash × Same m (total w u.hash) (total w t.hash)

  module _ (cull : Task → Run Task) (keeps : Keeps cull) (k : ℕ) (k_pos : k ≢ 0)
      (called : 1 ≤ key_call k) where
    collide-keeps :
        (t u : Task)
        → HasCalls t.hash
        → collide z cull t ≡ done u
        → HasCalls u.hash × Same m (total w u.hash) (total w t.hash)
    unfolding collide
    collide-keeps t u calls e =
        let (v, run, last) =
          >>=-eq-done (if leb z.hash_limit t.hash_nkey then cull t else done t) _ e in
        let same : record v { collisions = add64 v.collisions 1 } ≡ u = cc in
        subst (λ u. HasCalls u.hash × Same m (total w u.hash) (total w t.hash)) same
          (culled v (Bool-cases (leb z.hash_limit t.hash_nkey)) run)
      where
        culled :
            (v : Task)
            → (leb z.hash_limit t.hash_nkey ≡ true) ⊎ (leb z.hash_limit t.hash_nkey ≡ false)
            → (if leb z.hash_limit t.hash_nkey then cull t else done t) ≡ done v
            → HasCalls v.hash × Same m (total w v.hash) (total w t.hash)
        culled v (inl full) run = keeps t v calls (rw full at run)
        culled v (inr room) run =
            let same : t ≡ v = cc (rw room at run) in
            subst (λ v. HasCalls v.hash × Same m (total w v.hash) (total w t.hash)) same
              (calls, refl)

    -- When the loop ends, the slot has the key, and the sum is what it was.
    pub loop-keeps :
        (fuel : ℕ) (t : Task) (h : ℕ) (u : Task) (i : ℕ)
        → HasCalls t.hash
        → hkey_loop z cull fuel t k h ≡ done (u, i)
        → (key_at u.hash i ≡ k) × HasCalls u.hash × Same m (total w u.hash) (total w t.hash)
    unfolding hkey_loop claim
    loop-keeps zero t h u i calls e = cc
    loop-keeps (suc fuel) t h u i calls e = elim (ℕ_discrete (key_at t.hash h) k) [
      | yes found ↦
          subst
            (λ (r : Task × ℕ).
              (key_at (r.0).hash r.1 ≡ k)
              × HasCalls (r.0).hash
              × Same m (total w (r.0).hash) (total w t.hash))
            (done-injective {a = (t, h)} {b = (u, i)}
              (sym (loop_finds z cull fuel t k h found) ∙ e))
            (found, calls, refl)
      | no other ↦ elim (ℕ_discrete (key_at t.hash h) 0) [
        | yes free ↦
            let (at, all, kept) =
              loop-keeps fuel (claim t k h) h u i
                (HasCalls-set t.hash h (fresh_entry k) called calls)
                (sym (loop_claims z cull fuel t k h k_pos free) ∙ e) in
            (
              at,
              all,
              kept
                  ∙ ap (λ (x : ℕ). x % m) (total-set_claim w t.hash h (fresh_entry k) free (new k)),
            )
        | no taken ↦
            let (v, run, rest) =
              >>=-eq-done (collide z cull t) _
                (sym (loop_goes_on z cull fuel t k h other taken) ∙ e) in
            let (all, kept) = collide-keeps t v calls run in
            let (at, all', kept') = loop-keeps fuel v (probe z k v.collisions) u i all rest in
            (at, all', kept' ∙ kept)
      ]
    ]

-- The key that a saved entry gets is of the same call, and so not 0.
module _ (masks : List ℕ) (key : ℕ) (called : 1 ≤ key_call key) where
  region_lt : key_region key < 2 ^ 8
  region_lt = omega (arith, key_region-div key)

  call_lt : key_call key < 2 ^ 8
  call_lt = omega (arith, key_call-div key)

  byte_lt : key_byte key < 2 ^ 31
  byte_lt = omega (arith, key_byte-mod key)

  key_call-rekey : key_call (rekey masks key) ≡ key_call key
  unfolding rekey
  key_call-rekey =
      (fields-mpi_key (buf_precision (get_or masks (key_call key) 0)) (key_region key)
        (key_call key) (key_byte key) (key_rank key) region_lt call_lt (key_rank-InRank key)
        byte_lt).1

  pub rekey-ne-zero : rekey masks key ≢ 0
  unfolding rekey
  rekey-ne-zero =
      mpi_key-ne-zero (buf_precision (get_or masks (key_call key) 0)) (key_region key)
        (key_call key) (key_byte key) (key_rank key) region_lt call_lt (key_rank-InRank key) byte_lt
        called

-- Merging the entry s into the slot of a key.
module _ (m : ℕ) (w : Entry → ℕ) (new : (k : ℕ) → w (fresh_entry k) ≡ 0)
    (adds : (s e : Entry) → Same m (w (merge s e)) (w e + w s)) (z : Sizes) where
  merged :
      (es : List Entry) (i : ℕ) (s : Entry)
      → key_at es i ≢ 0
      → Same m (total w (set es i (merge s (get_or es i cleared)))) (total w es + w s)
  unfolding merge
  merged es i s = total-set_adds m w (merge s) (w s) (λ e. refl) (adds s) es i

  -- One entry, and the whole loop over the saved table.
  module _ (cull : Task → Run Task) (keeps : Keeps m w new z cull) (fuel : ℕ) where
    reinsert_one-adds :
        (t u : Task) (s : Entry)
        → HasCalls t.hash
        → 1 ≤ key_call s.key
        → reinsert_one z cull fuel t s ≡ done u
        → HasCalls u.hash × Same m (total w u.hash) (total w t.hash + w s)
    unfolding reinsert_one hash_hkey merge
    reinsert_one-adds t u s calls called e =
        let k = rekey t.call_mask s.key in
        let called' : 1 ≤ key_call k = omega (arith, key_call-rekey t.call_mask s.key called) in
        let (r, run, last) = >>=-eq-done (hash_hkey z cull fuel t k) _ e in
        let (at, all, kept) =
          loop-keeps m w new z cull keeps k (rekey-ne-zero t.call_mask s.key called) called' fuel
            (record t { collisions = 0 }) (first_slot z k) (r.0) (r.1) calls run in
        subst (λ (u : Task). HasCalls u.hash × Same m (total w u.hash) (total w t.hash + w s))
          (done-injective last)
          (written t (r.0).hash r.1 k (rekey-ne-zero t.call_mask s.key called) at called' all kept)
      where
        written :
            (t : Task) (es : List Entry) (i k : ℕ)
            → k ≢ 0
            → key_at es i ≡ k
            → 1 ≤ key_call k
            → HasCalls es
            → Same m (total w es) (total w t.hash)
            → HasCalls (set es i (merge s (get_or es i cleared)))
              × Same m (total w (set es i (merge s (get_or es i cleared)))) (total w t.hash + w s)
        written t es i k k_pos at called' all kept = (
          HasCalls-set es i (merge s (get_or es i cleared))
              (subst (λ (q : ℕ). 1 ≤ key_call q) (sym at) called') all,
          merged es i s (λ free. k_pos (sym at ∙ free))
              ∙ Same-add m (total w es) (total w t.hash) (w s) kept,
        )

    reinsert-adds :
        (ss : List Entry) (t u : Task)
        → HasCalls ss
        → HasCalls t.hash
        → reinsert z cull fuel ss t ≡ done u
        → HasCalls u.hash × Same m (total w u.hash) (total w t.hash + total w ss)
    unfolding reinsert total
    reinsert-adds [] t u all calls e =
        subst (λ (u : Task). HasCalls u.hash × Same m (total w u.hash) (total w t.hash + 0))
          (done-injective e) (calls, ap (λ (x : ℕ). x % m) (omega arith))
    reinsert-adds (s ∷ ss) t u all calls e = elim (ℕ_discrete s.key 0) [
      | yes free ↦
          let (calls', kept) = reinsert-adds ss t u (λ j. all (suc j)) calls (passes free e) in
          (calls', kept ∙ ap (λ (x : ℕ). (total w t.hash + x) % m) (ground (arith, free)))
      | no taken ↦
          let (v, run, rest) = >>=-eq-done (reinsert_one z cull fuel t s) _ (enters taken e) in
          let (calls', kept) = reinsert_one-adds t v s calls (all 0 taken) run in
          let (calls'', kept') = reinsert-adds ss v u (λ j. all (suc j)) calls' rest in
          rw (==_of_ne s.key 0 taken) (
            calls'',
            kept'
                ∙ Same-add m (total w v.hash) (total w t.hash + w s) (total w ss) kept
                ∙ ap (λ (x : ℕ). x % m) (omega arith),
          )
    ]
      where
        passes :
            s.key ≡ 0
            → reinsert z cull fuel (s ∷ ss) t ≡ done u
            → reinsert z cull fuel ss t ≡ done u
        passes free e = ground (arith, e)

        enters :
            s.key ≢ 0
            → reinsert z cull fuel (s ∷ ss) t ≡ done u
            → reinsert_one z cull fuel t s >>= reinsert z cull fuel ss ≡ done u
        enters taken e = ground (arith, e)

  -- ipm_hash_cull keeps the sum, however deep its calls nest, whenever it ends.
  pub hash_cull-Keeps : (rounds fuel : ℕ) → Keeps m w new z (hash_cull z rounds fuel)
  unfolding hash_cull lowered hash_clear
  hash_cull-Keeps zero fuel t u calls e = cc
  hash_cull-Keeps (suc rounds) fuel t u calls e =
      let (all, kept) =
        reinsert-adds (hash_cull z rounds fuel) (hash_cull-Keeps rounds fuel) fuel t.hash
          (lowered z t) u calls (HasCalls-cleared (z.max_hash + 1)) rebuilt in
      (all, kept ∙ ap (λ (x : ℕ). x % m) (omega (arith, total-cleared w (z.max_hash + 1))))
    where
      rebuilt : reinsert z (hash_cull z rounds fuel) fuel t.hash (lowered z t) ≡ done u
      rebuilt = ground (arith, e)

-- Whenever ipm_hash_cull ends, begun on a table whose keys are all of a call from 1 on, the
-- communication time (IPM_HASH_GET_COMMTIME) is what it was, and the counts have the same sum modulo
-- 2 ^ 64, at whatever depth the culls nest.
pub hash_cull-commtime :
    (z : Sizes) (rounds fuel : ℕ) (t u : Task)
    → HasCalls t.hash
    → hash_cull z rounds fuel t ≡ done u
    → (commtime u.hash ≡ commtime t.hash)
      × Same (2 ^ 64) (total (λ e. e.count) u.hash) (total (λ e. e.count) t.hash)
unfolding merge
hash_cull-commtime z rounds fuel t u calls e =
    let (_, time) =
      hash_cull-Keeps 0 (λ e. e.t_tot) (λ k. refl) (λ s e. refl) z rounds fuel t u calls e in
    let (_, counts) =
      hash_cull-Keeps (2 ^ 64) (λ e. e.count) (λ k. refl) (λ s e. omega arith) z rounds fuel t u
        calls e in
    (commtime-total u.hash ∙ omega (arith, time) ∙ sym (commtime-total t.hash), counts)
