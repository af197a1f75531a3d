-- ===== src/Tests/Regions.antt =====
-- Two regions with concrete times.
use ipm_nci.Base.{
  ℕ, zero, suc, ◌+◌, ◌<◌, ◌≡◌, refl, true, ◌%◌, ◌^◌, [], ◌∷◌, replicate, get_or, some, arith,
}
use ipm_nci.Base.Bits.Flags.{has, set_flag, clear_flag}
use ipm_nci.Base.Int.{pos, negsuc}
use ipm_nci.Base.Strings.{Str, strn_eq}
use ipm_nci.Flags.{ipm_regionalized}
use ipm_nci.Region.Enter.{ipm_region-enter_exit}
use ipm_nci.Region.Step.{Charged, ipm_region-Charged}
use ipm_nci.Region.Valid.{IsValid, label, pos-injective}
use ipm_nci.Region.{
  Regions, Reading, Stray, ipm_region, max_label, is_positive, choose, act, charge, mark, known,
  switch_trace,
}

-- "ipm", "a", and "b"
abbrev ipm_global : Str
ipm_global = 105 ∷ 112 ∷ 109 ∷ []

abbrev tag_a : Str
tag_a = 97 ∷ []

abbrev tag_b : Str
tag_b = 98 ∷ []

-- In region 0, which is called "ipm"; the region 1 is "a".
abbrev two_regions : Regions
two_regions = record {
  flags = 0;
  region_current = pos 0;
  region_nregion = 2;
  region_label = ipm_global ∷ tag_a ∷ replicate 253 [];
  region_count = replicate 255 0;
  region_wtime = replicate 255 0;
  region_utime = replicate 255 0;
  region_stime = replicate 255 0;
  hpm_count = replicate 255 [];
  trace_masks = [];
  wtime_init = 10;
  utime_init = 1;
  stime_init = 1;
  hpm_init = [];
  hpm_final = [];
}

abbrev read_at : ℕ → Reading
read_at n = record { wtime = n; utime = n; stime = n; hpm = [] }

abbrev no_stray : Stray
no_stray = record { label = []; count = 0 }

two_regions-IsValid : IsValid two_regions
two_regions-IsValid = record {
  labels_size = refl;
  counts_size = refl;
  wtimes_size = refl;
  few = omega arith;
  distinct = distinct;
  current = λ c e. omega (arith, pos-injective e);
}
  where
    distinct :
        (i j : ℕ)
        → i < 2
        → j < 2
        → strn_eq max_label (label two_regions i) (label two_regions j) ≡ true
        → i ≡ j
    distinct zero zero hi hj e = refl
    distinct zero (suc zero) hi hj e = cc
    distinct (suc zero) zero hi hj e = cc
    distinct (suc zero) (suc zero) hi hj e = refl
    distinct (suc (suc i)) j hi hj e = absurd (omega arith)
    distinct zero (suc (suc j)) hi hj e = absurd (omega arith)
    distinct (suc zero) (suc (suc j)) hi hj e = absurd (omega arith)

ipm_region-enter_exit_example :
    (c : ℕ) × (t : Regions) × (u : Regions) × (ipm_region no_stray
        (pos 1)
        tag_a
        (read_at 15)
        (read_at 16)
        two_regions
      ≡ some t)
    × (t.region_current ≡ pos c)
    × (0 < c)
    × (strn_eq max_label tag_a (label t c) ≡ true)
    × (ipm_region no_stray (negsuc 0) tag_a (read_at 20) (read_at 21) t ≡ some u)
    × (u.region_current ≡ pos 0)
    × (get_or u.region_wtime c 0 ≡ get_or two_regions.region_wtime c 0 + 4)
    × (get_or u.region_count c 0 ≡ (get_or two_regions.region_count c 0 + 1) % 2 ^ 64)
ipm_region-enter_exit_example =
    ipm_region-enter_exit no_stray tag_a (read_at 15) (read_at 16) (read_at 20) (read_at 21)
      two_regions 4 two_regions-IsValid refl (omega arith) (omega arith) refl (omega arith)
      (omega arith)

-- The region "a" entered at the time 15.
abbrev in_a : Regions
in_a = record two_regions {
  flags = 0x8000;
  region_current = pos 1;
  region_count = 1 ∷ replicate 254 0;
  region_wtime = 5 ∷ replicate 254 0;
  region_utime = 14 ∷ replicate 254 0;
  region_stime = 14 ∷ replicate 254 0;
  wtime_init = 16;
  utime_init = 16;
  stime_init = 16;
}

enters_a : ipm_region no_stray (pos 1) tag_a (read_at 15) (read_at 16) two_regions ≡ some in_a
unfolding ipm_region choose act charge mark known has set_flag clear_flag switch_trace
enters_a = refl

ipm_region-Charged_example :
    Charged 5 two_regions in_a
    × (in_a.wtime_init ≡ 16)
    × (has in_a.flags ipm_regionalized ≡ is_positive in_a.region_current)
ipm_region-Charged_example =
    ipm_region-Charged no_stray (pos 1) tag_a (read_at 15) (read_at 16) two_regions in_a 5
      two_regions-IsValid (omega arith) enters_a
