-- ===== src/Region.antt =====
-- src/ipm_api.c: ipm_region, by which the program enters and leaves named regions, with the times
-- and the counters that are charged to each. Times are whole numbers, and each reading is taken to
-- be no less than the one before it.
pub mod Valid
pub mod Step
pub mod Enter
use ipm_nci.Base.{
  ℕ, zero, suc, ◌+◌, ◌-◌, ◌%◌, ◌^◌, Bool, false, ◌&&◌, ◌||◌, not, if◌then◌else◌, ◌==◌, ltb, leb,
  List, [], ◌∷◌, get_or, set, Option, none, some,
}
use ipm_nci.Base.Bits.Flags.{has, set_flag, clear_flag}
use ipm_nci.Base.Int.{ℤ, pos, negsuc, is_neg, to_u64}
use ipm_nci.Base.Options.{◌>>=◌}
use ipm_nci.Base.Strings.{Str, strn_eq, strncpy}
use ipm_nci.Flags.{ipm_regionalized, ipm_hpm_active, ipm_hpm_canceled, ipm_trc_active}

abbrev pub max_label : ℕ
max_label = 21

abbrev pub max_region : ℕ
max_region = 255

-- A region that is traced: ipm_trc_mask_region, _iti and _itf.
pub record TraceMask : Type 0 where
  pub label : Str
  pub iti : ℤ
  pub itf : ℤ

-- The fields of ipm_taskdata that ipm_region uses, and the static region_*_init; the counters are
-- those of the event set in use.
pub record Regions : Type 0 where
  pub flags : ℕ
  pub region_current : ℤ
  pub region_nregion : ℕ
  pub region_label : List Str
  pub region_count : List ℕ
  pub region_wtime : List ℕ
  pub region_utime : List ℕ
  pub region_stime : List ℕ
  pub hpm_count : List (List ℕ)
  pub trace_masks : List TraceMask
  pub wtime_init : ℕ
  pub utime_init : ℕ
  pub stime_init : ℕ
  pub hpm_init : List ℕ
  pub hpm_final : List ℕ

-- One reading of the clocks, of getrusage and of the counters.
pub record Reading : Type 0 where
  pub wtime : ℕ
  pub utime : ℕ
  pub stime : ℕ
  pub hpm : List ℕ

-- What the memory in front of the arrays reads as, for the region -1.
pub record Stray : Type 0 where
  pub label : Str
  pub count : ℕ

-- The loop that looks for the tag, after n turns: the last match, or -1.
unfoldable pub known : Str → List Str → ℕ → ℤ
known tag labels zero = negsuc 0
known tag labels (suc n) =
    if strn_eq max_label tag (get_or labels n []) then pos n else known tag labels n

abbrev pub is_one : ℤ → Bool
is_one (pos n) = n == 1
is_one (negsuc n) = false

abbrev pub is_minus_one : ℤ → Bool
is_minus_one (pos n) = false
is_minus_one (negsuc n) = n == 0

abbrev pub is_zero : ℤ → Bool
is_zero (pos n) = n == 0
is_zero (negsuc n) = false

abbrev pub is_positive : ℤ → Bool
is_positive (pos n) = ltb 0 n
is_positive (negsuc n) = false

-- The tag's region and the labels with it; `none` is exit(1).
unfoldable pub choose : ℤ → Str → Regions → Option (ℤ × Regions)
choose io tag s =
    let found = known tag s.region_label s.region_nregion in
    if is_neg found && is_one io
    then if ltb s.region_nregion max_region
      then some (
        pos s.region_nregion,
        record s {
          region_label = set s.region_label s.region_nregion (strncpy max_label tag);
          region_nregion = s.region_nregion + 1;
        },
      )
      else none
    else if not (is_one io) && not (is_minus_one io)
    then none
    else some (found, s)

-- `count[i] += final[i] - init[i]` for each counter
abbrev pub add_counts : List ℕ → List ℕ → List ℕ → List ℕ
add_counts [] fs is = []
add_counts (c ∷ cs) [] is = c ∷ cs
add_counts (c ∷ cs) (f ∷ fs) [] = c ∷ cs
add_counts (c ∷ cs) (f ∷ fs) (i ∷ is) = (c + (f - i)) ∷ add_counts cs fs is

-- What has passed since the last call is charged to the region c.
unfoldable pub charge : ℕ → Reading → Regions → Regions
charge c r s = record s {
  region_wtime = set s.region_wtime c (get_or s.region_wtime c 0 + (r.wtime - s.wtime_init));
  region_utime = set s.region_utime c (get_or s.region_utime c 0 + (r.utime - s.utime_init));
  region_stime = set s.region_stime c (get_or s.region_stime c 0 + (r.stime - s.stime_init));
  region_count = set s.region_count c ((get_or s.region_count c 0 + 1) % 2 ^ 64);
  hpm_count =
      if has s.flags ipm_hpm_active
      then set s.hpm_count c (add_counts (get_or s.hpm_count c []) s.hpm_final s.hpm_init)
      else s.hpm_count;
}

-- "act on region_tag"
unfoldable pub act : ℤ → ℤ → Reading → Regions → Regions
act io tag r s = elim s.region_current [
  | negsuc n ↦ record s { region_current = tag }
  | pos c ↦ record (charge c r s) {
    region_current =
        if (is_positive tag && is_minus_one io) || (is_zero tag && is_one io) then pos 0 else tag;
  }
]

abbrev pub label_at : Stray → List Str → ℤ → Str
label_at y labels (pos c) = get_or labels c []
label_at y labels (negsuc n) = y.label

abbrev pub count_at : Stray → List ℕ → ℤ → ℕ
count_at y counts (pos c) = get_or counts c 0
count_at y counts (negsuc n) = y.count

-- "switch on tracing if we are tracing a region"; int is compared with unsigned long long.
unfoldable pub switch_trace : Str → ℕ → List TraceMask → ℕ → ℕ
switch_trace label count [] flags = flags
switch_trace label count (m ∷ ms) flags = switch_trace label count ms (
    if strn_eq max_label label m.label
      && (is_minus_one m.iti || (leb (to_u64 m.iti) count && leb count (to_u64 m.itf)))
    then set_flag flags ipm_trc_active
    else flags)

-- "mark begining of new region"
unfoldable pub mark : Stray → Reading → Regions → Regions
mark y r s =
    let traced =
      switch_trace (label_at y s.region_label s.region_current)
        (count_at y s.region_count s.region_current) s.trace_masks s.flags in
    record s {
      flags =
          if is_positive s.region_current
          then set_flag traced ipm_regionalized
          else clear_flag traced ipm_regionalized;
      wtime_init = r.wtime;
      utime_init = r.utime;
      stime_init = r.stime;
      hpm_init = if has traced ipm_hpm_canceled then s.hpm_init else r.hpm;
    }

-- ipm_region(io, tag), which reads the clocks as `final` when it starts and as `init` when it ends.
unfoldable pub ipm_region : Stray → ℤ → Str → Reading → Reading → Regions → Option Regions
ipm_region y io tag final init s = do
  let s' = record s { hpm_final = if has s.flags ipm_hpm_canceled then s.hpm_final else final.hpm }
  (region_tag, t) ← choose io tag s'
  some (mark y init (act io region_tag final t))
