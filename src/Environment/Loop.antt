-- ===== src/Environment/Loop.antt =====
-- src/ipm_env.c: the loop of ipm_get_env over the environment.
use ipm_nci.Base.{
  ℕ, zero, suc, ◌+◌, ◌≤◌, ◌<◌, ◌≡◌, refl, ◌∙◌, Bool, true, false, if◌then◌else◌, ◌==◌, ltb, ◌||◌,
  List, [], ◌∷◌, ◌++◌, length, get_or, Option, none, some, Bool-cases, Option-cases, ◌⊎◌, inl, inr,
  arith,
}
use ipm_nci.Base.Bits.Flags.{set_flag, clear_flag}
use ipm_nci.Base.Strings.{Str, str_eq, strn_eq, strncpy}
use ipm_nci.Base.Tokens.{tokens, atoi}
use ipm_nci.Flags.{debug, ipm_preload, parallel_io_log}
use ipm_nci.Environment.Select.{drop, same_int, trc_select}
use ipm_nci.Environment.Words.{
  word_ipm, word_n, word_y, key_debug, key_report, key_log, key_hpm, key_noop, key_pass, key_trace,
  key_codename, key_preload, key_mod, key_logfile, key_parallel_io, key_logdir,
}
use ipm_nci.Environment.{
  Env, Scan, each, report_word, log_word, mod_word, option_word, hpm_select, call_opt_noop,
  call_opt_pass,
}

abbrev pub max_envkey : ℕ
max_envkey = 80

abbrev max_filename : ℕ
max_filename = 4096

-- `strchr(*cp, '=') - *cp`; a string of the environment has a '='.
unfoldable pub key_length : Str → ℕ
key_length [] = 0
key_length (c ∷ s) = if c == 61 then 0 else key_length s + 1

abbrev first_char : Str → ℕ
first_char s = get_or s 0 0

-- `!strncmp(*cp,"IPM_",4)`
unfoldable pub is_ipm : Str → Bool
is_ipm v = strn_eq 4 v word_ipm

-- `klen > MAXSIZE_ENVKEY`
unfoldable pub is_long : Str → Bool
is_long v = ltb max_envkey (key_length v)

-- What the loop fixes: the sizes of ipm_hpm.h, and the conversions to double.
pub record Machine : Type 0 where
  pub eventsets : ℕ
  pub counters : ℕ
  pub scan : Scan

-- The tests of one variable in turn, those on a string value first.
unfoldable pub handle_words : Str → Str → Env → Env
handle_words key val e =
    let e₁ =
      if str_eq key key_debug
      then if first_char val == 42 || same_int (atoi val) e.rank
        then record e { flags = set_flag e.flags debug }
        else e
      else e in
    let e₂ =
      if str_eq key key_report
      then record e₁ { flags = each report_word (tokens 44 val) e₁.flags }
      else e₁ in
    if str_eq key key_log then record e₂ { flags = each log_word (tokens 44 val) e₂.flags } else e₂

unfoldable pub handle_calls : Machine → Str → Str → Env → Env
handle_calls m key val e =
    let e₁ =
      if str_eq key key_noop
      then record e { calls = each (option_word call_opt_noop) (tokens 43 val) e.calls }
      else e in
    let e₂ =
      if str_eq key key_pass
      then record e₁ { calls = each (option_word call_opt_pass) (tokens 43 val) e₁.calls }
      else e₁ in
    if str_eq key key_trace then trc_select m.scan val e₂ else e₂

unfoldable pub handle_rest : Str → Str → Env → Env
handle_rest key val e =
    let e₁ = if str_eq key key_codename then record e { codename = val } else e in
    let e₂ =
      if str_eq key key_preload then record e₁ { flags = set_flag e₁.flags ipm_preload } else e₁ in
    let e₃ =
      if str_eq key key_mod
      then record e₂ { flags = each mod_word (tokens 44 val) e₂.flags }
      else e₂ in
    let e₄ =
      if str_eq key key_logfile then record e₃ { log_fname = strncpy max_filename val } else e₃ in
    let e₅ =
      if str_eq key key_parallel_io
      then (let f =
            if strn_eq 1 val word_n then clear_flag e₄.flags parallel_io_log else e₄.flags in
          record e₄ { flags = if strn_eq 1 val word_y then set_flag f parallel_io_log else f })
      else e₄ in
    if str_eq key key_logdir then record e₅ { log_dir = strncpy max_filename val } else e₅

-- One variable; `none` is the trap of a division by 0.
unfoldable pub handle : Machine → Str → Str → Env → Option Env
handle m key val e =
    let e₁ = handle_words key val e in
    elim (if str_eq key key_hpm then hpm_select m.eventsets m.counters val e₁ else some e₁) [
      | none ↦ none
      | some e₂ ↦ some (handle_rest key val (handle_calls m key val e₂))
    ]

-- The end of the loop, a trap, or no end within the fuel.
pub data Outcome : Type 0 where
  finished : Env → Outcome
  trapped : Outcome
  running : Outcome

-- `while(*cp)`: a key that is too long is skipped by `continue`, with cp where it is.
unfoldable pub env_loop : Machine → ℕ → List Str → Env → Outcome
env_loop m zero vars e = running
env_loop m (suc fuel) [] e = finished e
env_loop m (suc fuel) (v ∷ vars) e = elim (is_ipm v) [
  | false ↦ env_loop m fuel vars e
  | true ↦ elim (is_long v) [
    | true ↦ env_loop m fuel (v ∷ vars) e
    | false ↦ elim (handle m (strncpy (key_length v) v) (drop (key_length v + 1) v) e) [
      | none ↦ trapped
      | some e' ↦ env_loop m fuel vars e'
    ]
  ]
]

-- No variable of IPM has a key of more than MAXSIZE_ENVKEY bytes.
abbrev pub ShortKey : Str → Type 0
ShortKey v = is_ipm v ≡ true → key_length v ≤ max_envkey

abbrev pub AllShort : List Str → Type 0
AllShort [] = 0 ≤ 0
AllShort (v ∷ vars) = ShortKey v × AllShort vars

is_long-false : (v : Str) → key_length v ≤ max_envkey → is_long v ≡ false
unfolding is_long
is_long-false v h = ground arith

is_long-true : (v : Str) → max_envkey < key_length v → is_long v ≡ true
unfolding is_long
is_long-true v h = ground arith

-- The branches of the loop.
module _ (m : Machine) (fuel : ℕ) (v : Str) (vars : List Str) (e : Env) where
  loop_foreign : is_ipm v ≡ false → env_loop m (suc fuel) (v ∷ vars) e ≡ env_loop m fuel vars e
  unfolding env_loop
  loop_foreign h = ground arith

  loop_long :
      is_ipm v ≡ true
      → is_long v ≡ true
      → env_loop m (suc fuel) (v ∷ vars) e ≡ env_loop m fuel (v ∷ vars) e
  unfolding env_loop
  loop_long h l = ground arith

  loop_trap :
      is_ipm v ≡ true
      → is_long v ≡ false
      → handle m (strncpy (key_length v) v) (drop (key_length v + 1) v) e ≡ none
      → env_loop m (suc fuel) (v ∷ vars) e ≡ trapped
  unfolding env_loop
  loop_trap h l t = ground arith

  loop_handled :
      (e' : Env)
      → is_ipm v ≡ true
      → is_long v ≡ false
      → handle m (strncpy (key_length v) v) (drop (key_length v + 1) v) e ≡ some e'
      → env_loop m (suc fuel) (v ∷ vars) e ≡ env_loop m fuel vars e'
  unfolding env_loop
  loop_handled e' h l t = ground arith

-- When no variable of IPM has a key of more than MAXSIZE_ENVKEY bytes, the loop ends, in a result or
-- in the trap of a division by 0, after one round for each variable and one more.
pub env_loop-ends :
    (m : Machine) (fuel : ℕ) (vars : List Str) (e : Env)
    → AllShort vars
    → length vars < fuel
    → (env_loop m fuel vars e ≡ trapped) ⊎ ((e' : Env) × (env_loop m fuel vars e ≡ finished e'))
unfolding env_loop
env_loop-ends m zero vars e short enough = absurd (omega arith)
env_loop-ends m (suc fuel) [] e short enough = inr (e, refl)
env_loop-ends m (suc fuel) (v ∷ vars) e short enough = elim (Bool-cases (is_ipm v)) [
  | inr foreign ↦
      rw (loop_foreign m fuel v vars e foreign) (env_loop-ends m fuel vars e short.1 (omega arith))
  | inl ours ↦
      elim (Option-cases (handle m (strncpy (key_length v) v) (drop (key_length v + 1) v) e)) [
        | inl trap ↦ inl (loop_trap m fuel v vars e ours (is_long-false v (short.0 ours)) trap)
        | inr (e', handled) ↦
            rw (loop_handled m fuel v vars e e' ours (is_long-false v (short.0 ours)) handled)
              (env_loop-ends m fuel vars e' short.1 (omega arith))
      ]
]

-- The variable that is too long is met, or the loop has trapped before.
stuck :
    (m : Machine) (fuel : ℕ) (v : Str) (vars : List Str) (e : Env)
    → is_ipm v ≡ true
    → max_envkey < key_length v
    → env_loop m fuel (v ∷ vars) e ≡ running
unfolding env_loop
stuck m zero v vars e ours long = refl
stuck m (suc fuel) v vars e ours long =
    loop_long m fuel v vars e ours (is_long-true v long) ∙ stuck m fuel v vars e ours long

-- With a variable of IPM whose key has more than MAXSIZE_ENVKEY bytes, anywhere in the environment,
-- the loop has no result, whatever the fuel is: it is still running, or it has trapped on a variable
-- before.
pub env_loop-long_key :
    (m : Machine) (fuel : ℕ) (before : List Str) (v : Str) (vars : List Str) (e : Env)
    → is_ipm v ≡ true
    → max_envkey < key_length v
    → (env_loop m fuel (before ++ v ∷ vars) e ≡ running)
      ⊎ (env_loop m fuel (before ++ v ∷ vars) e ≡ trapped)
unfolding env_loop
env_loop-long_key m fuel [] v vars e ours long = inl (stuck m fuel v vars e ours long)
env_loop-long_key m zero (w ∷ ws) v vars e ours long = inl refl
env_loop-long_key m (suc fuel) (w ∷ ws) v vars e ours long = elim (Bool-cases (is_ipm w)) [
  | inr foreign ↦
      rw (loop_foreign m fuel w (ws ++ v ∷ vars) e foreign)
        (env_loop-long_key m fuel ws v vars e ours long)
  | inl own ↦ elim (Bool-cases (is_long w)) [
    | inl l ↦
        rw (loop_long m fuel w (ws ++ v ∷ vars) e own l)
          (env_loop-long_key m fuel (w ∷ ws) v vars e ours long)
    | inr l ↦
        elim (Option-cases (handle m (strncpy (key_length w) w) (drop (key_length w + 1) w) e)) [
          | inl trap ↦ inr (loop_trap m fuel w (ws ++ v ∷ vars) e own l trap)
          | inr (e', handled) ↦
              rw (loop_handled m fuel w (ws ++ v ∷ vars) e e' own l handled)
                (env_loop-long_key m fuel ws v vars e' ours long)
        ]
  ]
]
