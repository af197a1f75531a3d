-- ===== src/Finish/Ended.antt =====
-- src/ipm_mpi_finalize.c: the task after ipm_mpi_finalize.
use ipm_nci.Base.{
  ℕ, ◌+◌, ◌<◌, ◌≡◌, refl, sym, ap, ◌∙◌, Bool, true, false, not, ◌&&◌, ◌||◌, if◌then◌else◌, ◌==◌,
  List, [], ◌∷◌, ◌++◌, some, arith, leb, get_or,
}
use ipm_nci.Base.Bits.Flags.{has, set_flag, clear_flag, has-set_flag, has-clear_flag}
use ipm_nci.Base.Int.{ℤ, pos, negsuc, to_u64}
use ipm_nci.Base.Strings.{Str, strn_eq}
use ipm_nci.Flags.{
  ipm_regionalized, ipm_mpi_initialized, ipm_mpi_finalizing, ipm_mpi_finalized, ipm_hpm_active,
  ipm_hpm_canceled, ipm_app_running, ipm_app_completed, ipm_trc_active,
}
use ipm_nci.Finish.{
  Call, dump_calls, called_if, hpm_stop, ended, get_switchbytes, sync, report, log, finalize,
}
use ipm_nci.Region.Enter.{known-label}
use ipm_nci.Region.Step.{charged, passes, mark-current}
use ipm_nci.Region.Valid.{IsValid, label}
use ipm_nci.Region.{
  Regions, Reading, Stray, TraceMask, max_label, ipm_region, choose, act, charge, mark,
  switch_trace, label_at, is_minus_one, is_positive, count_at,
}

-- A flag that a call of ipm_region leaves alone.
abbrev IsOther : ℕ → Type 0
IsOther i = (i < 64) × ((i == ipm_regionalized) ≡ false) × ((i == ipm_trc_active) ≡ false)

switch_trace-keeps :
    (label : Str) (count : ℕ) (masks : List TraceMask) (flags i : ℕ)
    → IsOther i
    → has (switch_trace label count masks flags) i ≡ has flags i
unfolding switch_trace
switch_trace-keeps label count [] flags i other = refl
switch_trace-keeps label count (m ∷ ms) flags i other =
    switch_trace-keeps label count ms _ i other
    ∙ kept (
        strn_eq max_label label m.label
        && (is_minus_one m.iti || (leb (to_u64 m.iti) count && leb count (to_u64 m.itf))))
  where
    kept : (b : Bool) → has (if b then set_flag flags ipm_trc_active else flags) i ≡ has flags i
    kept true = has-set_flag flags ipm_trc_active i ∙ rw (other.2) refl
    kept false = refl

mark-keeps :
    (y : Stray) (r : Reading) (s : Regions) (i : ℕ)
    → IsOther i
    → has (mark y r s).flags i ≡ has s.flags i
unfolding mark
mark-keeps y r s i other =
    either traced (is_positive s.region_current)
    ∙ switch_trace-keeps (label_at y s.region_label s.region_current)
        (count_at y s.region_count s.region_current) s.trace_masks s.flags i other
  where
    traced : ℕ
    traced =
        switch_trace (label_at y s.region_label s.region_current)
          (count_at y s.region_count s.region_current) s.trace_masks s.flags

    either :
        (flags : ℕ) (b : Bool)
        → has (if b then set_flag flags ipm_regionalized else clear_flag flags ipm_regionalized) i
          ≡ has flags i
    either flags true = has-set_flag flags ipm_regionalized i ∙ rw (other.1) refl
    either flags false =
        has-clear_flag flags ipm_regionalized i (omega arith) (other.0) ∙ rw (other.1) refl

-- Entering region 0, by the tag of its label.
module _ (y : Stray) (tag : Str) (f i : Reading) (s : Regions) (valid : IsValid s)
    (some_region : 0 < s.region_nregion) (tagged : strn_eq max_label tag (label s 0) ≡ true) where
  chosen_zero :
      (hpm : List ℕ)
      → choose (pos 1) tag (record s { hpm_final = hpm })
        ≡ some (pos 0, record s { hpm_final = hpm })
  unfolding choose
  chosen_zero hpm = rw (known-label tag s 0 valid some_region tagged) refl

  goes_to_zero : (u : Regions) → (act (pos 1) (pos 0) f u).region_current ≡ pos 0
  unfolding act charge
  goes_to_zero u = by_current u.region_current refl
    where
      by_current : (k : ℤ) → u.region_current ≡ k → (act (pos 1) (pos 0) f u).region_current ≡ pos 0
      by_current (pos c) e = rw e refl
      by_current (negsuc m) e = rw e refl

  act-flags : (u : Regions) → (act (pos 1) (pos 0) f u).flags ≡ u.flags
  unfolding act charge
  act-flags u = by_current u.region_current refl
    where
      by_current : (k : ℤ) → u.region_current ≡ k → (act (pos 1) (pos 0) f u).flags ≡ u.flags
      by_current (pos c) e = rw e refl
      by_current (negsuc m) e = rw e refl

  pub enters_zero :
      (t : Regions) × (ipm_region y (pos 1) tag f i s ≡ some t)
      × (t.region_current ≡ pos 0)
      × ((k : ℕ) → IsOther k → has t.flags k ≡ has s.flags k)
  unfolding ipm_region
  enters_zero =
      let hpm = if has s.flags ipm_hpm_canceled then s.hpm_final else f.hpm in
      let u = record s { hpm_final = hpm } in
      let t = act (pos 1) (pos 0) f u in
      (
        mark y i t,
        rw (chosen_zero hpm) refl,
        sym (mark-current y i t) ∙ goes_to_zero u,
        λ k other. mark-keeps y i t k other ∙ ap (λ n. has n k) (act-flags u),
      )

-- The task that ipm_sync, ipm_report and the log work on, d after the last call of ipm_region.
pub record IsClosed (d : ℕ) (s u : Regions) : Type 0 where
  pub sizes : IsValid u
  pub current : u.region_current ≡ pos 0
  pub wtimes :
      (j : ℕ) → get_or u.region_wtime j 0 ≡ get_or s.region_wtime j 0 + charged s.region_current j d
  pub counts :
      (j : ℕ) → get_or u.region_count j 0 ≡ passes s.region_current j (get_or s.region_count j 0)
  pub finalizing : has u.flags ipm_mpi_finalizing ≡ true
  pub completed : has u.flags ipm_app_completed ≡ true
  pub stopped : has u.flags ipm_app_running ≡ false

-- The task when ipm_mpi_finalize is over: what the log leaves, with two flags changed.
pub record IsEnded (v t : Regions) : Type 0 where
  pub finalized : has t.flags ipm_mpi_finalized ≡ true
  pub stopped : has t.flags ipm_app_running ≡ false
  pub others :
      (i : ℕ)
      → i < 64
      → (i == ipm_mpi_finalized) ≡ false
      → (i == ipm_app_running) ≡ false
      → has t.flags i ≡ has v.flags i
  pub rows : t ≡ record v { flags = t.flags }

-- The calls of ipm_mpi_finalize, by the flags that the task had.
abbrev pub calls_of : ℕ → ℕ → List Call
calls_of flags n =
    called_if (has flags ipm_hpm_active) (hpm_stop ∷ [])
    ++ called_if (not (has flags ipm_mpi_initialized)) (ended ∷ [])
    ++ (get_switchbytes ∷ sync ∷ report ∷ [])
    ++ dump_calls flags log n
    ++ (finalize ∷ [])
