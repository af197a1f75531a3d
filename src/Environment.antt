-- ===== src/Environment.antt =====
-- src/ipm_env.c: what the environment variables IPM_* set in the task. Shared maps, checkpoints and
-- messages are left out; the conversions of sscanf to double are a parameter.
pub mod Words
pub mod Select
pub mod Loop
use ipm_nci.Base.{
  ℕ, zero, suc, ◌+◌, ◌-◌, ◌%◌, Bool, true, false, ◌&&◌, ◌||◌, not, if◌then◌else◌, ◌==◌, List, [],
  ◌∷◌, set, Option, none, some,
}
use ipm_nci.Base.Bits.Flags.{has, set_flag, clear_flag}
use ipm_nci.Base.Int.{ℤ, pos, negsuc, is_neg}
use ipm_nci.Base.Strings.{Str, strn_eq}
use ipm_nci.Base.Tokens.{tokens, atoi}
use ipm_nci.Flags.{
  report_terse, report_full, report_none, report_labelio, log_terse, log_full, log_none,
  ipm_mpi_breakwait, ipm_mpi_prebarfsync, ipm_hpm_active, ipm_hpm_canceled,
}
use ipm_nci.Environment.Words.*
use ipm_nci.Region.{TraceMask, max_label}

-- The options of a call's mask in include/ipm.h, by their bits.
abbrev pub call_opt_trace : ℕ
call_opt_trace = 48

abbrev pub call_opt_pass : ℕ
call_opt_pass = 49

abbrev pub call_opt_noop : ℕ
call_opt_noop = 50

-- A call from 1 on, with its mask.
pub record Call : Type 0 where
  pub label : Str
  pub mask : ℕ

-- What the variables set.
pub record Env : Type 0 where
  pub rank : ℤ
  pub flags : ℕ
  pub calls : List Call
  pub hpm_eventset : ℤ
  pub hpm_enames : List Str
  pub trc_masks : List TraceMask
  pub trc_count_max : ℕ
  pub mask_time : ℕ × ℕ
  pub codename : Str
  pub log_fname : Str
  pub log_dir : Str

-- sscanf of "time:[%lf+%lf]", and what `mem:` makes the maximal count, as the conversions to double
-- have it.
pub record Scan : Type 0 where
  pub time : Str → ℕ × ℕ → ℕ × ℕ
  pub mem : Str → ℕ

-- `task.call_mask[i] |= option` for the calls that a test picks.
abbrev pub mark_calls : (Call → Bool) → ℕ → List Call → List Call
mark_calls picks option [] = []
mark_calls picks option (c ∷ cs) =
    (if picks c then record c { mask = set_flag c.mask option } else c) ∷ mark_calls picks option cs

abbrev pub all_calls : Call → Bool
all_calls c = true

abbrev pub labelled : Str → Call → Bool
labelled word c = strn_eq max_label word c.label

-- One word of IPM_REPORT.
unfoldable pub report_word : Str → ℕ → ℕ
report_word w f =
    let f₁ =
      if strn_eq 4 w word_none then set_flag (clear_flag f report_terse) report_none else f in
    let f₂ = if strn_eq 5 w word_terse then set_flag f₁ report_terse else f₁ in
    let f₃ =
      if strn_eq 4 w word_full then set_flag (clear_flag f₂ report_terse) report_full else f₂ in
    if strn_eq 7 w word_labelio then set_flag f₃ report_labelio else f₃

-- One word of IPM_LOG.
unfoldable pub log_word : Str → ℕ → ℕ
log_word w f =
    let f₁ = if strn_eq 4 w word_none then set_flag (clear_flag f log_terse) log_none else f in
    let f₂ = if strn_eq 5 w word_terse then set_flag f₁ log_terse else f₁ in
    if strn_eq 4 w word_full then set_flag (clear_flag f₂ log_terse) log_full else f₂

-- One word of IPM_MPI_MOD.
unfoldable pub mod_word : Str → ℕ → ℕ
mod_word w f =
    let f₁ = if strn_eq 4 w word_bmw then set_flag f ipm_mpi_breakwait else f in
    if strn_eq 4 w word_bbs then set_flag f₁ ipm_mpi_prebarfsync else f₁

-- A loop over the words.
abbrev pub each {ℓ} : {A : Type ℓ} → (Str → A → A) → List Str → A → A
each f [] a = a
each f (w ∷ ws) a = each f ws (f w a)

-- One word of IPM_MPI_NOOP or IPM_MPI_PASS.
unfoldable pub option_word : ℕ → Str → List Call → List Call
option_word option w cs =
    mark_calls (labelled w) option
      (if strn_eq max_label w word_star then mark_calls all_calls option cs else cs)

-- `MAXSIZE_NEVENTSETS % task.mpi_rank`; `none` is the trap of a division by 0.
abbrev pub scan_eventset : ℕ → ℤ → Option ℤ
scan_eventset sets (pos zero) = none
scan_eventset sets (pos (suc r)) = some (pos (sets % suc r))
scan_eventset sets (negsuc r) = some (pos (sets % suc r))

abbrev pub has_char : ℕ → Str → Bool
has_char c [] = false
has_char c (a ∷ s) = a == c || has_char c s

-- The words of IPM_HPM from the i-th on, for a machine with `sets` event sets of `counters`
-- counters (the build without CPU_POWER4).
unfoldable pub hpm_words : ℕ → ℕ → ℕ → List Str → Env → Option Env
hpm_words sets counters i [] e = some e
hpm_words sets counters i (w ∷ ws) e =
    let e₁ = record e { hpm_eventset = atoi w } in
    let e₂ =
      if strn_eq 2 w word_no
      then record e₁ {
        hpm_eventset = negsuc 0;
        flags = clear_flag (set_flag e₁.flags ipm_hpm_canceled) ipm_hpm_active;
      }
      else e₁ in
    elim (if strn_eq 4 w word_scan then scan_eventset sets e₂.rank else some e₂.hpm_eventset) [
      | none ↦ none
      | some set₃ ↦
          let e₃ = record e₂ { hpm_eventset = set₃ } in
          hpm_words sets counters (i + 1) ws (
            if has_char 95 w
            then record e₃ {
              hpm_eventset = pos (sets - 1);
              hpm_enames = set e₃.hpm_enames (i % counters) w;
            }
            else e₃)
    ]

-- After the words, a negative set is 0 unless the counters are cancelled.
abbrev pub hpm_done : Env → Env
hpm_done e =
    if not (has e.flags ipm_hpm_canceled) && is_neg e.hpm_eventset
    then record e { hpm_eventset = pos 0 }
    else e

-- IPM_HPM
unfoldable pub hpm_select : ℕ → ℕ → Str → Env → Option Env
hpm_select sets counters val e = elim (hpm_words sets counters 0 (tokens 44 val) e) [
  | none ↦ none
  | some e' ↦ some (hpm_done e')
]
