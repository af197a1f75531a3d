-- ===== src/Hash/Insert.antt =====
-- IPM_HASH_HKEY below the limit of keys: it ends, it finds the slot of a key that the table has,
-- and otherwise claims a free slot.
use ipm_nci.Base.{
  ℕ, zero, suc, ◌+◌, ◌<◌, ◌≡◌, ◌≢◌, refl, sym, ◌∙◌, ap, subst, List, length, get_or, set,
  get_or-set_self, get_or-set_ne, ℕ_discrete, arith, ◌⊎◌, inl, inr, dec_lt,
}
use ipm_nci.Hash.Probe.{IsSized, probe-zero, probe-lt, probe-ne}
use ipm_nci.Hash.Slots.{occupied, key_at, occupied-set_clear}
use ipm_nci.Hash.{
  Sizes, Entry, cleared, fresh_entry, Task, Run, done, probe, claim, collide, hkey_loop, hash_hkey,
  add64, ◌>>=◌,
}

-- The branches of the loop.
module _ (z : Sizes) (cull : Task → Run Task) (fuel : ℕ) (t : Task) (k h : ℕ) where
  pub loop_finds : key_at t.hash h ≡ k → hkey_loop z cull (suc fuel) t k h ≡ done (t, h)
  unfolding hkey_loop
  loop_finds e = ground arith

  pub loop_claims :
      k ≢ 0
      → key_at t.hash h ≡ 0
      → hkey_loop z cull (suc fuel) t k h ≡ hkey_loop z cull fuel (claim t k h) k h
  unfolding hkey_loop
  loop_claims ne e = ground arith

  pub loop_collides :
      key_at t.hash h ≢ k
      → key_at t.hash h ≢ 0
      → t.hash_nkey < z.hash_limit
      → hkey_loop z cull (suc fuel) t k h
        ≡ hkey_loop z cull fuel
            (record t { collisions = add64 t.collisions 1 })
            k
            (probe z k (add64 t.collisions 1))
  unfolding hkey_loop collide
  loop_collides other taken room = ground arith

  pub loop_goes_on :
      key_at t.hash h ≢ k
      → key_at t.hash h ≢ 0
      → hkey_loop z cull (suc fuel) t k h
        ≡ (collide z cull t >>= λ u. hkey_loop z cull fuel u k (probe z k u.collisions))
  unfolding hkey_loop
  loop_goes_on other taken = ground arith

module _ (z : Sizes) where
  -- The first c probes for the key k see other keys.
  abbrev pub Missed : List Entry → ℕ → ℕ → Type 0
  Missed es k c = (d : ℕ) → d < c → (key_at es (probe z k d) ≢ 0) × (key_at es (probe z k d) ≢ k)

  -- The slot j is the first that the probes for its key reach or that is free.
  abbrev pub IsReached : List Entry → ℕ → Type 0
  IsReached es j =
      (c : ℕ) × (c < z.max_hash) × (probe z (key_at es j) c ≡ j) × Missed es (key_at es j) c

  pub record IsPlaced (es : List Entry) : Type 0 where
    pub size : length es ≡ z.max_hash + 1
    pub reached : (j : ℕ) → key_at es j ≢ 0 → IsReached es j

  -- Where the probes for k end, at a free slot or at k, is the only slot that can hold k.
  module _ (es : List Entry) (k c : ℕ) (placed : IsPlaced es) (k_pos : k ≢ 0)
      (missed : Missed es k c)
      (ends : (key_at es (probe z k c) ≡ 0) ⊎ (key_at es (probe z k c) ≡ k)) where
    compare_reached :
        (j d : ℕ) → probe z k d ≡ j → Missed es k d → key_at es j ≡ k → j ≡ probe z k c
    compare_reached j d at before e = elim (dec_lt d c) [
      | yes less ↦ absurd ((missed d less).1 (ap (key_at es) at ∙ e))
      | no more ↦ elim (dec_lt c d) [
        | yes less ↦ elim ends [
          | inl free ↦ absurd ((before c less).0 free)
          | inr found ↦ absurd ((before c less).1 found)
        ]
        | no equal ↦ let same : d ≡ c = omega arith in sym at ∙ ap (probe z k) same
      ]
    ]

    pub only_slot : (j : ℕ) → key_at es j ≡ k → j ≡ probe z k c
    only_slot j e =
        let (d, _, at, before) =
          subst (λ q. (d : ℕ) × (d < z.max_hash) × (probe z q d ≡ j) × Missed es q d) e
            (placed.reached j (λ free. k_pos (sym e ∙ free))) in
        compare_reached j d at before e

  -- The two ways in which the loop ends: at the slot of the key, or at a free slot that it claims.
  pub data Found (cull : Task → Run Task) (t : Task) (k : ℕ) (out : Run (Task × ℕ)) : Type 0 where
    hit :
        (c : ℕ)
        → out ≡ done (record t { collisions = c }, probe z k c)
        → Missed t.hash k c
        → key_at t.hash (probe z k c) ≡ k
        → Found cull t k out
    miss :
        (c : ℕ)
        → c < z.max_hash
        → out ≡ done (record (claim t k (probe z k c)) { collisions = c }, probe z k c)
        → Missed t.hash k c
        → key_at t.hash (probe z k c) ≡ 0
        → Found cull t k out

  -- The loop after c collisions; `rest` is the table without the slots that it has seen.
  module _ (sized : IsSized z) (cull : Task → Run Task) (k : ℕ) (k_pos : k ≢ 0) (t : Task)
      (size : length t.hash ≡ z.max_hash + 1) (counted : occupied t.hash ≡ t.hash_nkey)
      (room : t.hash_nkey < z.hash_limit) where
    abbrev after : ℕ → Task
    after c = record t { collisions = c }

    place : ℕ → ℕ
    place c = probe z k c

    inside : (c : ℕ) → probe z k c < length t.hash
    inside c = omega (arith, size, probe-lt z sized k c)

    -- Two rounds claim a free slot and find the key there.
    claims :
        (fuel c : ℕ)
        → key_at t.hash (probe z k c) ≡ 0
        → hkey_loop z cull (suc (suc fuel)) (after c) k (probe z k c)
          ≡ done (record (claim t k (probe z k c)) { collisions = c }, probe z k c)
    unfolding claim
    claims fuel c free = loop_claims z cull (suc fuel) (after c) k (probe z k c) k_pos free ∙ found
      where
        found :
            hkey_loop z cull (suc fuel) (claim (after c) k (probe z k c)) k (probe z k c)
            ≡ done (claim (after c) k (probe z k c), probe z k c)
        found = loop_finds z cull fuel (claim (after c) k (probe z k c)) k (probe z k c) (
            ap (λ e. e.key)
              (get_or-set_self t.hash (probe z k c) (fresh_entry k) cleared (inside c)))

    wrap : (c : ℕ) → c < z.hash_limit → add64 c 1 ≡ suc c
    wrap c h = omega (arith, sized.at_most, sized.limited)

    loop_Found :
        (fuel c : ℕ) (rest : List Entry)
        → occupied rest + c ≡ t.hash_nkey
        → occupied rest + 1 < fuel
        → ((j : ℕ)
            → ((d : ℕ) → d < c → probe z k d ≢ j)
            → get_or rest j cleared ≡ get_or t.hash j cleared)
        → Missed t.hash k c
        → Found cull t k (hkey_loop z cull fuel (after c) k (probe z k c))
    loop_Found zero c rest budget enough same missed = elim enough [ ]
    loop_Found (suc zero) c rest budget enough same missed = absurd (omega arith)
    loop_Found (suc (suc fuel)) c rest budget enough same missed =
        elim (ℕ_discrete (key_at t.hash (probe z k c)) k) [
          | yes found ↦
              hit c (loop_finds z cull (suc fuel) (after c) k (probe z k c) found) missed found
          | no other ↦ elim (ℕ_discrete (key_at t.hash (probe z k c)) 0) [
            | yes free ↦ miss c in_table (claims fuel c free) missed free
            | no taken ↦
                let shorter = occupied-set_clear rest (probe z k c) (λ e. taken (sym here ∙ e)) in
                rw
                  (
                    loop_collides z cull (suc fuel) (after c) k (probe z k c) other taken room,
                    wrap c (omega arith),
                  )
                  (loop_Found (suc fuel) (suc c) (set rest (probe z k c) cleared) (omega arith)
                    (omega arith) (still other taken) (missed_too other taken))
          ]
        ]
      where
        in_table : c < z.max_hash
        in_table = omega (arith, sized.limited)

        here : key_at rest (probe z k c) ≡ key_at t.hash (probe z k c)
        here = ap (λ e. e.key) (same (probe z k c) (λ d l. probe-ne z sized k d c l in_table))

        still :
            key_at t.hash (probe z k c) ≢ k
            → key_at t.hash (probe z k c) ≢ 0
            → (j : ℕ) → ((d : ℕ) → d < suc c → probe z k d ≢ j)
            → get_or (set rest (probe z k c) cleared) j cleared ≡ get_or t.hash j cleared
        still other taken j unseen =
            get_or-set_ne rest (probe z k c) j cleared cleared (unseen c (omega arith))
            ∙ same j (λ d l. unseen d (omega arith))

        missed_too :
            key_at t.hash (probe z k c) ≢ k
            → key_at t.hash (probe z k c) ≢ 0
            → Missed t.hash k (suc c)
        missed_too other taken d l = elim (dec_lt d c) [
          | yes before ↦ missed d before
          | no last ↦
              let same_probe : d ≡ c = omega arith in
              subst (λ x. (key_at t.hash (probe z k x) ≢ 0) × (key_at t.hash (probe z k x) ≢ k))
                (sym same_probe) (taken, other)
        ]

  -- IPM_HASH_HKEY for a key that is not 0, on a well-placed table whose hash_nkey counts its keys and
  -- is below the limit, with fuel for two rounds more than it has keys, ends without culling: at the
  -- first probe that sees the key, where it changes the count of collisions only, or at the first
  -- that sees a free slot, which it claims for the key.
  pub hash_hkey-Found :
      (cull : Task → Run Task) (fuel k : ℕ) (t : Task)
      → IsSized z
      → IsPlaced t.hash
      → occupied t.hash ≡ t.hash_nkey
      → t.hash_nkey < z.hash_limit
      → k ≢ 0
      → t.hash_nkey + 1 < fuel
      → Found cull t k (hash_hkey z cull fuel t k)
  unfolding hash_hkey
  hash_hkey-Found cull fuel k t sized placed counted room k_pos enough =
      rw (← probe-zero z sized k) (
        loop_Found sized cull k k_pos t placed.size counted room fuel 0 t.hash (omega arith)
          (omega arith) (λ j unseen. refl) (λ d l. elim l [ ]))
