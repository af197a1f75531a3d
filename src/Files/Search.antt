-- ===== src/Files/Search.antt =====
-- src/files.c: where the while loop of pfile ends.
use ipm_nci.Base.{
  ℕ, zero, suc, ◌+◌, ◌-◌, ◌%◌, ◌<◌, ◌≤◌, ◌≡◌, ◌≢◌, sym, ap, ◌∙◌, subst, arith, List, true, false,
  length, ==_of_ne, ℕ_discrete, dec_lt,
}
use native.Mathlib.Nat.{mod-lt}
use ipm_nci.Base.Strings.{Str}
use ipm_nci.Files.Slots.{
  nfile_at, type_at, IsShort, free, own, other, see, step, step-lt, step-ne, taken,
  distinct-le-taken,
}
use ipm_nci.Files.{Bucket, cleared, bucket, is_taken, next_key, seek, strhash, done}

-- The probes of a type.
module _ (max : ℕ) where
  abbrev pub home : Str → ℕ
  home q = strhash q % max

  abbrev pub probe : Str → ℕ → ℕ
  probe q c = step max (home q) c

  -- Probes before the c-th that see other types.
  abbrev pub Missed : List Bucket → Str → ℕ → Type 0
  Missed es q c = (d : ℕ) → d < c → (nfile_at es (probe q d) ≢ 0) × (type_at es (probe q d) ≢ q)

  abbrev pub IsReached : List Bucket → ℕ → Type 0
  IsReached es j = (c : ℕ) × (c < max) × (probe (type_at es j) c ≡ j) × Missed es (type_at es j) c

  -- The table is whole, free buckets are cleared, types are not cut, and the probes of each type in
  -- the table come to its bucket.
  pub record IsPlaced (es : List Bucket) : Type 0 where
    pub size : length es ≡ max
    pub free : (j : ℕ) → nfile_at es j ≡ 0 → bucket es j ≡ cleared
    pub short : (j : ℕ) → IsShort (type_at es j)
    pub reached : (j : ℕ) → nfile_at es j ≢ 0 → IsReached es j

  -- Where the probes of q end.
  pub data Ends (es : List Bucket) (q : Str) (c : ℕ) : Type 0 where
    vacant : nfile_at es (probe q c) ≡ 0 → Ends es q c
    found : nfile_at es (probe q c) ≢ 0 → type_at es (probe q c) ≡ q → Ends es q c

  module _ (two : 2 ≤ max) (q : Str) where
    home-lt : home q < max
    home-lt = mod-lt (strhash q) {m = max} (omega (arith, two))

    pub probe-lt : (c : ℕ) → c < max → probe q c < max
    probe-lt c l = step-lt max (home q) c home-lt l

    -- No other bucket holds the type.
    pub only_bucket :
        (es : List Bucket) (c : ℕ)
        → IsPlaced es
        → Missed es q c
        → Ends es q c
        → (j : ℕ) → nfile_at es j ≢ 0
        → type_at es j ≡ q
        → j ≡ probe q c
    only_bucket es c placed missed ends j ne e =
        let (d, lt, at, before) = placed.reached j ne in
        by_order d (subst (λ (r : Str). probe r d ≡ j) e at)
          (subst (λ (r : Str). Missed es r d) e before) ends
      where
        by_order : (d : ℕ) → probe q d ≡ j → Missed es q d → Ends es q c → j ≡ probe q c
        by_order d at before ends = elim (dec_lt d c) [
          | yes lt ↦ absurd ((missed d lt).1 (ap (type_at es) at ∙ e))
          | no ge ↦ elim (dec_lt c d) [
            | yes gt ↦ absurd (met gt ends)
            | no le ↦ let same : d ≡ c = omega (arith, ge, le) in sym at ∙ ap (probe q) same
          ]
        ]
          where
            met : c < d → Ends es q c → ⊥
            met gt (vacant e) = (before c gt).0 e
            met gt (found ne e) = (before c gt).1 e

    stops :
        (es : List Bucket) (fuel key c : ℕ)
        → is_taken es q key ≡ false
        → seek max es q (suc fuel) key c ≡ done key
    unfolding seek
    stops es fuel key c e = ground (arith, e)

    moves :
        (es : List Bucket) (fuel key c : ℕ)
        → is_taken es q key ≡ true
        → c + 2 < max
        → seek max es q (suc fuel) key c ≡ seek max es q fuel (next_key max key) (suc c)
    unfolding seek
    moves es fuel key c e l =
        let same : c + 1 ≡ suc c = omega arith in
        ground (arith, e, ==_of_ne (c + 1) (max - 1) (omega (arith, l)))
        ∙ ap (seek max es q fuel (next_key max key)) same

    -- A bucket of another type leaves room for the next.
    crowded :
        (es : List Bucket) (c : ℕ)
        → taken es + 1 < max
        → c < max
        → Missed es q c
        → nfile_at es (probe q c) ≢ 0
        → c + 2 < max
    crowded es c room lt missed ne = omega (
      arith,
      room,
      distinct-le-taken (suc c) es (probe q)
          (λ d b l less. step-ne max (home q) d b home-lt (omega (arith, l, lt)) less)
          (λ d l. elim (ℕ_discrete d c) [
            | yes e ↦ subst (λ (d : ℕ). nfile_at es (probe q d) ≢ 0) (sym e) ne
            | no differs ↦ (missed d (omega (arith, l, differs))).0
          ]),
    )

    -- The loop ends at a bucket that is free or of the type, when two buckets are free.
    pub seek-Ends :
        (es : List Bucket) (fuel c : ℕ)
        → IsPlaced es
        → IsShort q
        → taken es + 1 < max
        → max ≤ fuel + c
        → c < max
        → Missed es q c
        → (d : ℕ) × (d < max)
          × (seek max es q fuel (probe q c) c ≡ done (probe q d))
          × Missed es q d
          × Ends es q d
    unfolding step
    seek-Ends es zero c placed short room enough less missed = absurd (omega arith)
    seek-Ends es (suc fuel) c placed short room enough less missed =
        elim (see es q (probe q c) short (placed.short (probe q c))) [
          | free e t ↦ (c, less, stops es fuel (probe q c) c t, missed, vacant e)
          | own ne e t ↦ (c, less, stops es fuel (probe q c) c t, missed, found ne e)
          | other ne no_match t ↦
              let more = crowded es c room less missed ne in
              let (d, lt, run, before, ends) =
                seek-Ends es fuel (suc c) placed short room (omega (arith, enough))
                  (omega (arith, more))
                  (λ d l. elim (ℕ_discrete d c) [
                    | yes e ↦
                        subst
                          (λ (d : ℕ). (nfile_at es (probe q d) ≢ 0) × (type_at es (probe q d) ≢ q))
                          (sym e) (ne, no_match)
                    | no differs ↦ missed d (omega (arith, l, differs))
                  ]) in
              (d, lt, moves es fuel (probe q c) c t more ∙ run, before, ends)
        ]
