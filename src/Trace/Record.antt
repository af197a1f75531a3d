-- ===== src/Trace/Record.antt =====
-- What the buffer holds after a sequence of events.
use mathlib.Core.List.{append_assoc, append-nil}
use ipm_nci.Base.{
  Bool, ℕ, zero, suc, ◌+◌, ◌-◌, ◌≤◌, ◌<◌, ◌≡◌, refl, sym, subst, ap, ◌∙◌, true, false,
  if◌then◌else◌, ltb, min, List, [], ◌∷◌, ◌++◌, length, length-set, take, set, arith, dec_lt,
}
use ipm_nci.Base.Bits.Flags.{has, has-clear_flag, clear_flag}
use ipm_nci.Flags.{ipm_trc_active}
use ipm_nci.Trace.{TraceEntry, Tracer, trace}

unfoldable pub trace_all : List TraceEntry → Tracer → Tracer
trace_all [] s = s
trace_all (e ∷ es) s = trace_all es (trace e s)

-- The entries recorded so far.
abbrev pub recorded : Tracer → List TraceEntry
recorded s = take s.trc_count s.trc_buf

-- The buffer has room for its maximum.
pub record IsValid (s : Tracer) : Type 0 where
  pub size : length s.trc_buf ≡ s.trc_count_max
  pub counted : s.trc_count ≤ s.trc_count_max

take-set_next :
    (es : List TraceEntry) (n : ℕ) (e : TraceEntry)
    → n < length es
    → take (n + 1) (set es n e) ≡ take n es ++ e ∷ []
take-set_next [] n e h = absurd (omega arith)
take-set_next (x ∷ es) zero e h = refl
take-set_next (x ∷ es) (suc n) e h =
    ap (λ (k : ℕ). take k (x ∷ set es n e)) (let g : suc n + 1 ≡ suc (n + 1) = omega arith in g)
    ∙ ap (λ (r : List TraceEntry). x ∷ r) (take-set_next es n e (omega arith))

module _ (e : TraceEntry) (s : Tracer) where
  trace_full :
      s.trc_count_max ≤ s.trc_count
      → trace e s ≡ record s { flags = clear_flag s.flags ipm_trc_active }
  unfolding trace
  trace_full h = ground arith

  trace_room :
      s.trc_count < s.trc_count_max
      → trace e s ≡ record s { trc_buf = set s.trc_buf s.trc_count e; trc_count = s.trc_count + 1 }
  unfolding trace
  trace_room h = ground arith

abbrev Stopped : List TraceEntry → Tracer → Tracer → Type 0
Stopped es s u =
    (recorded u ≡ recorded s)
    × (u.trc_count ≡ s.trc_count)
    × (has u.flags ipm_trc_active
        ≡ (if ltb 0 (length es) then false else has s.flags ipm_trc_active))

trace_all_full :
    (es : List TraceEntry) (s : Tracer)
    → s.trc_count_max ≤ s.trc_count
    → Stopped es s (trace_all es s)
unfolding trace_all
trace_all_full [] s full = (refl, refl, refl)
trace_all_full (e ∷ es) s full =
    let (a, b, c) =
      trace_all_full es (record s { flags = clear_flag s.flags ipm_trc_active }) full in
    subst (λ (t : Tracer). Stopped (e ∷ es) s (trace_all es t)) (sym (trace_full e s full))
      (a, b, c ∙ cleared (ltb 0 (length es)) ∙ ground arith)
  where
    cleared :
        (b : Bool)
        → (if b then false else has (clear_flag s.flags ipm_trc_active) ipm_trc_active) ≡ false
    cleared true = refl
    cleared false =
        has-clear_flag s.flags ipm_trc_active ipm_trc_active (omega arith) (omega arith)
        ∙ ground arith

take-nil : (n : ℕ) → take {A = TraceEntry} n [] ≡ []
take-nil zero = refl
take-nil (suc n) = refl

-- The events es are recorded in u as far as there is room in s.
abbrev pub Records : List TraceEntry → Tracer → Tracer → Type 0
Records es s u =
    (recorded u ≡ recorded s ++ take (s.trc_count_max - s.trc_count) es)
    × (u.trc_count ≡ min (s.trc_count + length es) s.trc_count_max)
    × (has u.flags ipm_trc_active ≡ (
        if ltb s.trc_count_max (s.trc_count + length es)
        then false
        else has s.flags ipm_trc_active))

-- Tracing the events es with a valid buffer records the first of them, in order, as far as there is
-- room, and no more; IPM_TRC_ACTIVE is cleared just when an event found no room.
pub trace_all-recorded :
    (es : List TraceEntry) (s : Tracer) → IsValid s → Records es s (trace_all es s)
unfolding trace_all
trace_all-recorded [] s valid = (
  sym (append-nil (recorded s))
      ∙ ap (λ (r : List TraceEntry). recorded s ++ r)
          (sym (take-nil (s.trc_count_max - s.trc_count))),
  omega (arith, valid.counted),
  ground (arith, valid.counted),
)
trace_all-recorded (e ∷ es) s valid = elim (dec_lt s.trc_count s.trc_count_max) [
  | no full ↦
      let (a, b, c) = trace_all_full (e ∷ es) s (omega arith) in
      let none_left : s.trc_count_max - s.trc_count ≡ 0 = omega arith in
      (
        a ∙ sym (rw none_left (append-nil (recorded s))),
        omega (arith, b, valid.counted),
        c ∙ ground (arith, valid.counted),
      )
  | yes room ↦
      let s' = record s { trc_buf = set s.trc_buf s.trc_count e; trc_count = s.trc_count + 1 } in
      let (a, b, c) = trace_all-recorded es s' (record {
        size = length-set s.trc_buf s.trc_count e ∙ valid.size;
        counted = omega arith;
      }) in
      subst (λ (t : Tracer). Records (e ∷ es) s (trace_all es t)) (sym (trace_room e s room))
        (
          a
              ∙ ap (λ (r : List TraceEntry). r ++ take (s.trc_count_max - (s.trc_count + 1)) es)
                  (take-set_next s.trc_buf s.trc_count e (omega (arith, valid.size)))
              ∙ append_assoc (recorded s) (e ∷ []) (take (s.trc_count_max - (s.trc_count + 1)) es)
              ∙ ap (λ (k : ℕ). recorded s ++ take k (e ∷ es))
                  (let g : suc (s.trc_count_max - (s.trc_count + 1))
                        ≡ s.trc_count_max - s.trc_count =
                      omega arith in
                    g),
          omega (arith, b),
          c ∙ ground arith,
        )
]
