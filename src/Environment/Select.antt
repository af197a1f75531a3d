-- ===== src/Environment/Select.antt =====
-- src/ipm_env.c: ipm_trc_select, which parses IPM_MPI_TRACE, and what it selects.
pub mod Picks
use ipm_nci.Base.{
  ℕ, zero, suc, ◌+◌, ◌%◌, Bool, false, ◌&&◌, ◌||◌, not, if◌then◌else◌, ◌==◌, List, [], ◌∷◌, ◌++◌,
  map, none, some,
}
use ipm_nci.Base.Bits.Flags.{has, set_flag, clear_flag}
use ipm_nci.Base.Int.{ℤ, pos, negsuc}
use ipm_nci.Base.Strings.{Str, str_eq, strn_eq, strncpy}
use ipm_nci.Base.Tokens.{tokens, atoi, scan_int}
use ipm_nci.Flags.{ipm_trc_active, ipm_trc_canceled}
use ipm_nci.Environment.Words.{
  word_region, word_rank, word_time, word_call, word_mem, word_even, word_odd, word_p2p, word_col,
}
use ipm_nci.Environment.{
  Env, Call, Scan, mark_calls, all_calls, labelled, each, has_char, call_opt_trace,
}
use ipm_nci.Region.{TraceMask, max_label}

abbrev pub drop : ℕ → Str → Str
drop zero s = s
drop (suc n) [] = []
drop (suc n) (c ∷ s) = drop n s

-- '[', '-' and ']' become blanks.
abbrev pub blank : ℕ → ℕ
blank c = if c == 91 || (c == 45 || c == 93) then 32 else c

-- `sscanf(s, "%s %d %d ", ...)` into a row that holds "", 1 and -1.
unfoldable pub scan_mask : List Str → TraceMask
scan_mask [] = record { label = []; iti = pos 1; itf = negsuc 0 }
scan_mask (l ∷ []) = record { label = l; iti = pos 1; itf = negsuc 0 }
scan_mask (l ∷ a ∷ ws) = elim (scan_int a) [
  | none ↦ record { label = l; iti = pos 1; itf = negsuc 0 }
  | some i ↦ record { label = l; iti = i; itf = last ws }
]
  where
    last : List Str → ℤ
    last [] = negsuc 0
    last (b ∷ bs) = elim (scan_int b) [ none ↦ negsuc 0 | some f ↦ f ]

-- One word of `region:`
unfoldable pub region_word : Str → Env → Env
region_word w e = record e {
  trc_masks =
      e.trc_masks
      ++ (if has_char 91 w && (has_char 45 w && has_char 93 w)
          then scan_mask (tokens 32 (map blank w))
          else record { label = strncpy max_label w; iti = negsuc 0; itf = negsuc 0 })
        ∷ [];
}

-- `task.mpi_rank%2 == 0`, on int
abbrev pub is_even : ℤ → Bool
is_even (pos n) = n % 2 == 0
is_even (negsuc n) = (n + 1) % 2 == 0

abbrev pub same_int : ℤ → ℤ → Bool
same_int (pos m) (pos n) = m == n
same_int (negsuc m) (negsuc n) = m == n
same_int (pos m) (negsuc n) = false
same_int (negsuc m) (pos n) = false

-- One word of `rank:`: the three tests in turn; each that holds sets the same flags.
abbrev pub names_rank : Str → ℤ → Bool
names_rank w rank =
    (str_eq w word_even && is_even rank)
    || ((str_eq w word_odd && not (is_even rank)) || same_int (atoi w) rank)

abbrev pub activate : ℕ → ℕ
activate f = set_flag (clear_flag f ipm_trc_canceled) ipm_trc_active

unfoldable pub rank_word : ℤ → Str → ℕ → ℕ
rank_word rank w f = if names_rank w rank then activate f else f

unfoldable pub rank_part : Str → Env → Env
rank_part s e = record e {
  flags =
      each (rank_word e.rank) (tokens 43 s)
        (clear_flag (set_flag e.flags ipm_trc_canceled) ipm_trc_active);
}

-- `mask & (A || B || ...)`: the operand is 1.
abbrev pub in_group : Call → Bool
in_group c = has c.mask 0

-- One word of `call:`
unfoldable pub call_word : Str → List Call → List Call
call_word w cs =
    let c₁ = mark_calls (labelled w) call_opt_trace cs in
    let c₂ = if strn_eq max_label w word_p2p then mark_calls in_group call_opt_trace c₁ else c₁ in
    if strn_eq max_label w word_col then mark_calls in_group call_opt_trace c₂ else c₂

abbrev pub clear_trace : List Call → List Call
clear_trace [] = []
clear_trace (c ∷ cs) = record c { mask = clear_flag c.mask call_opt_trace } ∷ clear_trace cs

unfoldable pub call_part : Str → Env → Env
call_part s e = record e { calls = each call_word (tokens 43 s) (clear_trace e.calls) }

-- One part of IPM_MPI_TRACE, between commas.
unfoldable pub select_part : Scan → Str → Env → Env
select_part scan w e =
    let e₁ = if strn_eq 7 w word_region then each region_word (tokens 43 (drop 7 w)) e else e in
    let e₂ = if strn_eq 5 w word_rank then rank_part (drop 5 w) e₁ else e₁ in
    let e₃ =
      if strn_eq 5 w word_time then record e₂ { mask_time = scan.time w e₂.mask_time } else e₂ in
    let e₄ = if strn_eq 5 w word_call then call_part (drop 5 w) e₃ else e₃ in
    if strn_eq 4 w word_mem then record e₄ { trc_count_max = scan.mem (drop 4 w) } else e₄

-- ipm_trc_select
unfoldable pub trc_select : Scan → Str → Env → Env
trc_select scan val e = each (select_part scan) (tokens 44 val) (record e {
  flags = set_flag e.flags ipm_trc_active;
  calls = mark_calls all_calls call_opt_trace e.calls;
})
