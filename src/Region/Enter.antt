-- ===== src/Region/Enter.antt =====
-- Entering a region and leaving it again, and leaving one that was never entered.
use ipm_nci.Base.{
  ℕ, zero, suc, ◌+◌, ◌-◌, ◌%◌, ◌^◌, ◌<◌, ◌≤◌, ◌≡◌, refl, sym, ap, ◌∙◌, true, false, if◌then◌else◌,
  ◌&&◌, ◌||◌, List, [], get_or, set, get_or-set_self, get_or-set_ne, some, arith, take, lt→ltb,
}
use ipm_nci.Base.Bits.Flags.{has}
use ipm_nci.Base.Int.{ℤ, pos, negsuc}
use ipm_nci.Base.Strings.{Str, strn_eq, strncpy, str_eq_refl, take-take, strn_eq_trans}
use ipm_nci.Flags.{ipm_hpm_canceled}
use ipm_nci.Region.Valid.{IsValid, label, known-found, known-none, true-ne-false}
use ipm_nci.Region.Step.{ipm_region-Charged}
use ipm_nci.Region.{
  max_label, max_region, Regions, Reading, Stray, known, is_one, is_minus_one, is_positive, is_zero,
  choose, charge, act, mark, ipm_region,
}

abbrev pub IsUnknown : Str → Regions → Type 0
IsUnknown tag s = (i : ℕ) → i < s.region_nregion → strn_eq max_label tag (label s i) ≡ false

known-IsUnknown :
    (tag : Str) (labels : List Str) (n : ℕ)
    → ((i : ℕ) → i < n → strn_eq max_label tag (get_or labels i []) ≡ false)
    → known tag labels n ≡ negsuc 0
unfolding known
known-IsUnknown tag labels zero unknown = refl
known-IsUnknown tag labels (suc n) unknown =
    rw (unknown n (omega arith)) (known-IsUnknown tag labels n (λ i lt. unknown i (omega arith)))

-- In a table of distinct labels the tag of a label is found where it stands.
pub known-label :
    (tag : Str) (s : Regions) (c : ℕ)
    → IsValid s
    → c < s.region_nregion
    → strn_eq max_label tag (label s c) ≡ true
    → known tag s.region_label s.region_nregion ≡ pos c
known-label tag s c valid lt match = by_found (known tag s.region_label s.region_nregion) refl
  where
    by_found :
        (k : ℤ)
        → known tag s.region_label s.region_nregion ≡ k
        → known tag s.region_label s.region_nregion ≡ pos c
    by_found (pos i) e =
        let (less, found) = known-found tag s.region_label s.region_nregion i e in
        let same : i ≡ c =
          valid.distinct i c less lt
            (strn_eq_trans max_label tag (label s i) (label s c) found match) in
        e ∙ ap pos same
    by_found (negsuc m) e =
        absurd
          (true-ne-false (sym match ∙ (known-none tag s.region_label s.region_nregion m e).1 c lt))

-- Leaving a region that is not known sets the current region to -1, for which ipm_sync and the keys
-- have no row, and charges what has passed to the region that was current.
pub ipm_region-exit_unknown :
    (y : Stray) (tag : Str) (f i : Reading) (s : Regions) (c : ℕ)
    → s.region_current ≡ pos c
    → IsUnknown tag s
    → (t : Regions) × (ipm_region y (negsuc 0) tag f i s ≡ some t)
      × (t.region_current ≡ negsuc 0)
      × (t.region_wtime
          ≡ set s.region_wtime c (get_or s.region_wtime c 0 + (f.wtime - s.wtime_init)))
unfolding ipm_region choose act charge mark
ipm_region-exit_unknown y tag f i s c current unknown =
    rw (known-IsUnknown tag s.region_label s.region_nregion unknown, current) (_, refl, refl, refl)

-- The next region from the region c, when the tag's region is r.
abbrev pub next : ℤ → ℤ → ℤ
next io r = if (is_positive r && is_minus_one io) || (is_zero r && is_one io) then pos 0 else r

act-pos :
    (io r : ℤ) (f : Reading) (s : Regions) (c : ℕ)
    → s.region_current ≡ pos c
    → act io r f s ≡ record (charge c f s) { region_current = next io r }
unfolding act
act-pos io r f s c e = rw e refl

pub acting :
    (y : Stray) (io r : ℤ) (tag : Str) (f i : Reading) (s u : Regions) (c : ℕ)
    → choose io tag
        (record s { hpm_final = if has s.flags ipm_hpm_canceled then s.hpm_final else f.hpm })
      ≡ some (r, u)
    → u.region_current ≡ pos c
    → ipm_region y io tag f i s
      ≡ some (mark y i (record (charge c f u) { region_current = next io r }))
unfolding ipm_region
acting y io r tag f i s u c chosen current =
    rw chosen (ap (λ (t : Regions). some (mark y i t)) (act-pos io r f u c current))

entering : (c : ℕ) → next (pos 1) (pos (suc c)) ≡ pos (suc c)
entering c = ground arith

-- The table when the program has just entered the region c from s.
pub record IsInside (tag : Str) (i : Reading) (s t : Regions) (c : ℕ) : Type 0 where
  pub valid : IsValid t
  pub current : t.region_current ≡ pos c
  pub above : 0 < c
  pub below : c < t.region_nregion
  pub tagged : strn_eq max_label tag (label t c) ≡ true
  pub wtime : get_or t.region_wtime c 0 ≡ get_or s.region_wtime c 0
  pub count : get_or t.region_count c 0 ≡ get_or s.region_count c 0
  pub started : t.wtime_init ≡ i.wtime

module _ (y : Stray) (tag : Str) (f i : Reading) (s : Regions) (valid : IsValid s)
    (global : s.region_current ≡ pos 0) (some_known : 0 < s.region_nregion)
    (room : s.region_nregion < max_region) (other : strn_eq max_label tag (label s 0) ≡ false)
    (grows : s.wtime_init ≤ f.wtime) where
  -- The table before the tag's region is current.
  abbrev ready : Regions
  ready = record s { hpm_final = if has s.flags ipm_hpm_canceled then s.hpm_final else f.hpm }

  inside_old : ℕ → Regions
  inside_old c = mark y i (record (charge 0 f ready) { region_current = pos c })

  enter_old :
      (c : ℕ)
      → known tag s.region_label s.region_nregion ≡ pos (suc c)
      → ipm_region y (pos 1) tag f i s ≡ some (inside_old (suc c))
  unfolding inside_old choose
  enter_old c found =
      acting y (pos 1) (pos (suc c)) tag f i s ready 0 (rw found refl) global
      ∙ ap (λ (k : ℤ). some (mark y i (record (charge 0 f ready) { region_current = k })))
          (entering c)

  inside_new : Regions
  inside_new =
      mark y i
        (record (charge 0 f (record ready {
          region_label = set s.region_label s.region_nregion (strncpy max_label tag);
          region_nregion = s.region_nregion + 1;
        })) { region_current = pos s.region_nregion })

  enter_new :
      known tag s.region_label s.region_nregion ≡ negsuc 0
      → ipm_region y (pos 1) tag f i s ≡ some inside_new
  unfolding inside_new choose
  enter_new missing =
      acting y (pos 1) (pos s.region_nregion) tag f i s _ 0
        (rw (missing, lt→ltb s.region_nregion max_region room) refl) global
      ∙ ap
          (λ (k : ℤ). some (
            mark y i
              (record (charge 0 f (record ready {
                region_label = set s.region_label s.region_nregion (strncpy max_label tag);
                region_nregion = s.region_nregion + 1;
              })) { region_current = k })))
          (ground arith)

  enter : (c : ℕ) × (t : Regions) × (ipm_region y (pos 1) tag f i s ≡ some t) × IsInside tag i s t c
  unfolding inside_old inside_new mark charge
  enter = by_known (known tag s.region_label s.region_nregion) refl
    where
      by_known :
          (k : ℤ)
          → known tag s.region_label s.region_nregion ≡ k
          → (c : ℕ) × (t : Regions) × (ipm_region y (pos 1) tag f i s ≡ some t)
            × IsInside tag i s t c
      by_known (pos zero) e =
          absurd
            (true-ne-false (sym (known-found tag s.region_label s.region_nregion 0 e).1 ∙ other))
      by_known (pos (suc c)) e =
          let (lt, found) = known-found tag s.region_label s.region_nregion (suc c) e in
          (
            suc c,
            inside_old (suc c),
            enter_old c e,
            record {
              valid =
                  (ipm_region-Charged y (pos 1) tag f i s (inside_old (suc c))
                    (f.wtime - s.wtime_init) valid (omega (arith, grows)) (enter_old c e)).0.valid;
              current = refl;
              above = omega arith;
              below = lt;
              tagged = found;
              wtime = get_or-set_ne s.region_wtime 0 (suc c) _ 0 (omega arith);
              count = get_or-set_ne s.region_count 0 (suc c) _ 0 (omega arith);
              started = refl;
            },
          )
      by_known (negsuc m) e =
          let (first, _) = known-none tag s.region_label s.region_nregion m e in
          let missing = e ∙ ap negsuc first in
          (
            s.region_nregion,
            inside_new,
            enter_new missing,
            record {
              valid =
                  (ipm_region-Charged y (pos 1) tag f i s inside_new (f.wtime - s.wtime_init) valid
                    (omega (arith, grows)) (enter_new missing)).0.valid;
              current = refl;
              above = some_known;
              below = omega arith;
              tagged =
                  rw
                    (
                      get_or-set_self s.region_label s.region_nregion (strncpy max_label tag) []
                          (omega (arith, valid.labels_size)),
                      take-take max_label tag,
                    )
                    (str_eq_refl (take max_label tag));
              wtime = get_or-set_ne s.region_wtime 0 s.region_nregion _ 0 (omega arith);
              count = get_or-set_ne s.region_count 0 s.region_nregion _ 0 (omega arith);
              started = refl;
            },
          )

-- Leaving the region that the program is in.
exit_inside :
    (y : Stray) (tag : Str) (f i j : Reading) (s t : Regions) (c d : ℕ)
    → IsInside tag i s t c
    → f.wtime ≡ i.wtime + d
    → (u : Regions) × (ipm_region y (negsuc 0) tag f j t ≡ some u)
      × (u.region_current ≡ pos 0)
      × (get_or u.region_wtime c 0 ≡ get_or s.region_wtime c 0 + d)
      × (get_or u.region_count c 0 ≡ (get_or s.region_count c 0 + 1) % 2 ^ 64)
unfolding choose charge mark
exit_inside y tag f i j s t c d inside passed = (
  _,
  acting y (negsuc 0) (pos c) tag f j t
      (record t { hpm_final = if has t.flags ipm_hpm_canceled then t.hpm_final else f.hpm }) c
      (rw (known-label tag t c inside.valid inside.below inside.tagged) refl) inside.current,
  ground (arith, inside.above),
  get_or-set_self t.region_wtime c _ 0
        (omega (arith, inside.valid.wtimes_size, inside.below, inside.valid.few))
      ∙ omega (arith, inside.wtime, inside.started, passed),
  get_or-set_self t.region_count c _ 0
        (omega (arith, inside.valid.counts_size, inside.below, inside.valid.few))
      ∙ rw inside.count refl,
)

-- For a well-formed table in region 0, with at least one region and room for another, and a tag
-- that differs from the label of region 0 in its first 21 bytes: ipm_region(1, tag) succeeds, in a
-- region c above 0 with that tag; ipm_region(-1, tag) then succeeds and is back in region 0, and
-- the region c has one pass more, modulo 2 ^ 64, and the time d from the end of the one call to the
-- start of the other; the clock at the first call reads no less than before.
pub ipm_region-enter_exit :
    (y : Stray) (tag : Str) (f i g j : Reading) (s : Regions) (d : ℕ)
    → IsValid s
    → s.region_current ≡ pos 0
    → 0 < s.region_nregion
    → s.region_nregion < max_region
    → strn_eq max_label tag (label s 0) ≡ false
    → s.wtime_init ≤ f.wtime
    → g.wtime ≡ i.wtime + d
    → (c : ℕ) × (t : Regions) × (u : Regions) × (ipm_region y (pos 1) tag f i s ≡ some t)
      × (t.region_current ≡ pos c)
      × (0 < c)
      × (strn_eq max_label tag (label t c) ≡ true)
      × (ipm_region y (negsuc 0) tag g j t ≡ some u)
      × (u.region_current ≡ pos 0)
      × (get_or u.region_wtime c 0 ≡ get_or s.region_wtime c 0 + d)
      × (get_or u.region_count c 0 ≡ (get_or s.region_count c 0 + 1) % 2 ^ 64)
ipm_region-enter_exit y tag f i g j s d valid global some_known room other grows passed =
    let (c, t, entered, inside) = enter y tag f i s valid global some_known room other grows in
    let (u, left, back, time, count) = exit_inside y tag g i j s t c d inside passed in
    (c, t, u, entered, inside.current, inside.above, inside.tagged, left, back, time, count)
