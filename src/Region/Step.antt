-- ===== src/Region/Step.antt =====
-- What a call of ipm_region does to a well-formed table.
use ipm_nci.Base.{
  ℕ, zero, suc, Bool, ◌+◌, ◌-◌, ◌<◌, ◌≡◌, refl, sym, ap, ◌∙◌, subst, true, false, if◌then◌else◌,
  ◌&&◌, ◌||◌, List, [], ◌∷◌, get_or, set, get_or-set, ◌%◌, ◌^◌, ◌==◌, length, length-set, some,
  Bool-cases, inl, inr, arith,
}
use ipm_nci.Base.Bits.Flags.{has, has-set_flag, has-clear_flag}
use ipm_nci.Base.Int.{ℤ, pos, negsuc}
use ipm_nci.Base.Options.{>>=-eq-some, some-injective}
use ipm_nci.Base.Strings.{Str}
use ipm_nci.Flags.{ipm_regionalized, ipm_hpm_canceled}
use ipm_nci.Region.Valid.{
  IsValid, Chosen, old, new, lost, choose-Chosen, new_distinct, pos-injective, pos-ne-negsuc,
}
use ipm_nci.Region.{
  max_region, Regions, Reading, Stray, is_one, is_minus_one, is_positive, is_zero, choose, charge,
  act, mark, ipm_region,
}

unfoldable pub sum : List ℕ → ℕ
sum [] = 0
sum (x ∷ xs) = x + sum xs

pub sum-set :
    (xs : List ℕ) (i d : ℕ) → i < length xs → sum (set xs i (get_or xs i 0 + d)) ≡ sum xs + d
unfolding sum
sum-set [] i d h = elim h [ ]
sum-set (x ∷ xs) zero d h = omega arith
sum-set (x ∷ xs) (suc i) d h = omega (arith, sum-set xs i d (omega arith))

abbrev pub IsRow : ℤ → Type 0
IsRow k = (c : ℕ) → k ≡ pos c → c < max_region

IsRow-if : (b : Bool) (r : ℤ) → IsRow r → IsRow (if b then pos 0 else r)
IsRow-if true r row c e = omega (arith, pos-injective e)
IsRow-if false r row c e = row c e

-- Choosing the region changes the labels only.
record Kept (s u : Regions) : Type 0 where
  valid : IsValid u
  current : u.region_current ≡ s.region_current
  counts : u.region_count ≡ s.region_count
  wtimes : u.region_wtime ≡ s.region_wtime
  started : u.wtime_init ≡ s.wtime_init

Chosen-Kept :
    (io : ℤ) (tag : Str) (s : Regions) (r : ℤ) (u : Regions)
    → IsValid s
    → Chosen io tag s (r, u)
    → IsRow r × Kept s u
Chosen-Kept io tag s r u valid (old i e lt same) =
    subst (λ (p : ℤ × Regions). IsRow (p.0) × Kept s (p.1)) (sym e)
      (
        λ c k. omega (arith, pos-injective k, valid.few),
        record { valid = valid; current = refl; counts = refl; wtimes = refl; started = refl },
      )
Chosen-Kept io tag s r u valid (new e room unknown entering) =
    subst (λ (p : ℤ × Regions). IsRow (p.0) × Kept s (p.1)) (sym e)
      (
        λ c k. omega (arith, pos-injective k),
        record {
          valid = record {
            labels_size = length-set s.region_label s.region_nregion _ ∙ valid.labels_size;
            counts_size = valid.counts_size;
            wtimes_size = valid.wtimes_size;
            few = omega arith;
            distinct = new_distinct s tag valid room unknown;
            current = valid.current;
          };
          current = refl;
          counts = refl;
          wtimes = refl;
          started = refl;
        },
      )
Chosen-Kept io tag s r u valid (lost e unknown leaving) =
    subst (λ (p : ℤ × Regions). IsRow (p.0) × Kept s (p.1)) (sym e)
      (
        λ c k. absurd (pos-ne-negsuc (sym k)),
        record { valid = valid; current = refl; counts = refl; wtimes = refl; started = refl },
      )

-- What is charged to the region j when k is current.
abbrev pub charged : ℤ → ℕ → ℕ → ℕ
charged (pos c) j d = if c == j then d else 0
charged (negsuc m) j d = 0

-- The passes of the region j, of which there were n.
abbrev pub passes : ℤ → ℕ → ℕ → ℕ
passes (pos c) j n = if c == j then (n + 1) % 2 ^ 64 else n
passes (negsuc m) j n = n

-- The times and the counts of every region after a step, d after the last.
pub record Charged (d : ℕ) (s t : Regions) : Type 0 where
  pub valid : IsValid t
  pub wtimes :
      (j : ℕ) → get_or t.region_wtime j 0 ≡ get_or s.region_wtime j 0 + charged s.region_current j d
  pub counts :
      (j : ℕ) → get_or t.region_count j 0 ≡ passes s.region_current j (get_or s.region_count j 0)

act-Charged :
    (io r : ℤ) (f : Reading) (s : Regions) (d : ℕ)
    → f.wtime ≡ s.wtime_init + d
    → IsRow r
    → IsValid s
    → Charged d s (act io r f s)
unfolding act charge
act-Charged io r f s d passed row valid = by_current s.region_current refl
  where
    by_current : (k : ℤ) → s.region_current ≡ k → Charged d s (act io r f s)
    by_current (negsuc m) e = rw e (record {
      valid = record {
        labels_size = valid.labels_size;
        counts_size = valid.counts_size;
        wtimes_size = valid.wtimes_size;
        few = valid.few;
        distinct = valid.distinct;
        current = row;
      };
      wtimes = λ j. omega arith;
      counts = λ j. refl;
    })
    by_current (pos c) e = rw e (record {
      valid = record {
        labels_size = valid.labels_size;
        counts_size = length-set s.region_count c _ ∙ valid.counts_size;
        wtimes_size = length-set s.region_wtime c _ ∙ valid.wtimes_size;
        few = valid.few;
        distinct = valid.distinct;
        current = IsRow-if ((is_positive r && is_minus_one io) || (is_zero r && is_one io)) r row;
      };
      wtimes = λ j. ground (
        arith,
        passed,
        get_or-set s.region_wtime c j (get_or s.region_wtime c 0 + (f.wtime - s.wtime_init)) 0
            (omega (arith, valid.wtimes_size, valid.current c e)),
      );
      counts = λ j. ground (
        arith,
        get_or-set s.region_count c j ((get_or s.region_count c 0 + 1) % 2 ^ 64) 0
            (omega (arith, valid.counts_size, valid.current c e)),
      );
    })

mark-Charged :
    (y : Stray) (i : Reading) (s t : Regions) (d : ℕ) → Charged d s t → Charged d s (mark y i t)
unfolding mark
mark-Charged y i s t d c = record {
  valid = record {
    labels_size = c.valid.labels_size;
    counts_size = c.valid.counts_size;
    wtimes_size = c.valid.wtimes_size;
    few = c.valid.few;
    distinct = c.valid.distinct;
    current = c.valid.current;
  };
  wtimes = c.wtimes;
  counts = c.counts;
}

mark-regionalized :
    (y : Stray) (i : Reading) (s : Regions)
    → has (mark y i s).flags ipm_regionalized ≡ is_positive s.region_current
unfolding mark
mark-regionalized y i s = elim (Bool-cases (is_positive s.region_current)) [
  | inl e ↦ rw (e, has-set_flag) (ground arith)
  | inr e ↦ rw (e) (
      has-clear_flag _ ipm_regionalized ipm_regionalized (omega arith) (omega arith) ∙ ground arith)
]

mark-starts : (y : Stray) (i : Reading) (s : Regions) → (mark y i s).wtime_init ≡ i.wtime
unfolding mark
mark-starts y i s = refl

pub mark-current :
    (y : Stray) (i : Reading) (s : Regions) → s.region_current ≡ (mark y i s).region_current
unfolding mark
mark-current y i s = refl

pub IsValid-hpm_final :
    (s : Regions) (hpm : List ℕ) → IsValid s → IsValid (record s { hpm_final = hpm })
IsValid-hpm_final s hpm valid = record {
  labels_size = valid.labels_size;
  counts_size = valid.counts_size;
  wtimes_size = valid.wtimes_size;
  few = valid.few;
  distinct = valid.distinct;
  current = valid.current;
}

Charged-Kept :
    (d : ℕ) (s u t : Regions) (hpm : List ℕ)
    → Kept (record s { hpm_final = hpm }) u
    → Charged d u t
    → Charged d s t
Charged-Kept d s u t hpm k c = record {
  valid = c.valid;
  wtimes = λ j. c.wtimes j ∙ rw (k.wtimes, k.current) refl;
  counts = λ j. c.counts j ∙ rw (k.counts, k.current) refl;
}

-- A call of ipm_region on a well-formed table, d after the last one, if it does not exit, leaves a
-- well-formed table. It charges d to the current region and nothing to any other, and counts one pass
-- of the current region, modulo 2 ^ 64, and of no other; when the current region is -1, nothing is
-- charged. Then it takes its new starting time, and IPM_REGIONALIZED is set just when the new region
-- is above 0.
pub ipm_region-Charged :
    (y : Stray) (io : ℤ) (tag : Str) (f i : Reading) (s t : Regions) (d : ℕ)
    → IsValid s
    → f.wtime ≡ s.wtime_init + d
    → ipm_region y io tag f i s ≡ some t
    → Charged d s t
      × (t.wtime_init ≡ i.wtime)
      × (has t.flags ipm_regionalized ≡ is_positive t.region_current)
unfolding ipm_region
ipm_region-Charged y io tag f i s t d valid passed e =
    let hpm = if has s.flags ipm_hpm_canceled then s.hpm_final else f.hpm in
    let (out, chosen, last) = >>=-eq-some (choose io tag (record s { hpm_final = hpm })) _ e in
    subst
      (λ (t : Regions).
        Charged d s t
        × (t.wtime_init ≡ i.wtime)
        × (has t.flags ipm_regionalized ≡ is_positive t.region_current))
      (some-injective last) (marked hpm (out.0) (out.1) (choose-Chosen io tag _ _ chosen))
  where
    marked :
        (hpm : List ℕ) (r : ℤ) (u : Regions)
        → Chosen io tag (record s { hpm_final = hpm }) (r, u)
        → Charged d s (mark y i (act io r f u))
          × ((mark y i (act io r f u)).wtime_init ≡ i.wtime)
          × (has (mark y i (act io r f u)).flags ipm_regionalized
              ≡ is_positive (mark y i (act io r f u)).region_current)
    marked hpm r u chosen =
        let (row, kept) = Chosen-Kept io tag _ r u (IsValid-hpm_final s hpm valid) chosen in
        (
          mark-Charged y i s (act io r f u) d (
              Charged-Kept d s u (act io r f u) hpm kept
                (act-Charged io r f u d (passed ∙ rw kept.started refl) row kept.valid)),
          mark-starts y i (act io r f u),
          mark-regionalized y i (act io r f u) ∙ ap is_positive (mark-current y i (act io r f u)),
        )
