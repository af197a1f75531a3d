-- ===== src/Tests/Environments.antt =====
-- Variables of the environment with concrete values.
use ipm_nci.Base.{◌<◌, ◌≡◌, refl, true, false, List, [], ◌∷◌, ◌++◌, replicate, ◌⊎◌, arith, none}
use ipm_nci.Base.Int.{pos}
use ipm_nci.Base.Strings.{Str}
use ipm_nci.Base.Tokens.{tokens_from, atoi}
use ipm_nci.Environment.Loop.{
  Machine, finished, trapped, running, env_loop, key_length, is_ipm, AllShort, env_loop-ends,
  env_loop-long_key,
}
use ipm_nci.Environment.Select.{rank_part, rank_word}
use ipm_nci.Environment.Words.{word_odd}
use ipm_nci.Base.Bits.Flags.{has, set_flag, clear_flag}
use ipm_nci.Flags.{ipm_trc_active}
use ipm_nci.Environment.{Env, Call, hpm_select, hpm_words}

-- "MPI_Send" and "MPI_Bcast"
abbrev two_calls : List Call
two_calls =
    record { label = 77 ∷ 80 ∷ 73 ∷ 95 ∷ 83 ∷ 101 ∷ 110 ∷ 100 ∷ []; mask = 0xFFFFFFFFFFFF }
    ∷ record { label = 77 ∷ 80 ∷ 73 ∷ 95 ∷ 66 ∷ 99 ∷ 97 ∷ 115 ∷ 116 ∷ []; mask = 0xFFFFFFFFFFFF }
    ∷ []

abbrev start_env : Env
start_env = record {
  rank = pos 3;
  flags = 0;
  calls = two_calls;
  hpm_eventset = pos 0;
  hpm_enames = [];
  trc_masks = [];
  trc_count_max = 0;
  mask_time = (0, 0);
  codename = [];
  log_fname = [];
  log_dir = [];
}

abbrev a_machine : Machine
a_machine = record { eventsets = 5; counters = 4; scan = record { time = λ s t. t; mem = λ s. 0 } }

odd_three : has (rank_part word_odd start_env).flags ipm_trc_active ≡ true
unfolding rank_part rank_word tokens_from has set_flag clear_flag
odd_three = refl

-- It activates the trace on rank 0 too, and not on rank 2.
odd_zero : has (rank_part word_odd (record start_env { rank = pos 0 })).flags ipm_trc_active ≡ true
unfolding rank_part rank_word tokens_from has set_flag clear_flag atoi
odd_zero = refl

odd_two : has (rank_part word_odd (record start_env { rank = pos 2 })).flags ipm_trc_active ≡ false
unfolding rank_part rank_word tokens_from has set_flag clear_flag atoi
odd_two = refl

-- "IPM_LOG=full" and "HOME=/"
abbrev two_variables : List Str
two_variables =
    (73 ∷ 80 ∷ 77 ∷ 95 ∷ 76 ∷ 79 ∷ 71 ∷ 61 ∷ 102 ∷ 117 ∷ 108 ∷ 108 ∷ [])
    ∷ (72 ∷ 79 ∷ 77 ∷ 69 ∷ 61 ∷ 47 ∷ [])
    ∷ []

two_variables-AllShort : AllShort two_variables
unfolding key_length
two_variables-AllShort = (λ e. omega arith, (λ e. omega arith, omega arith))

env_loop-ends_example :
    (env_loop a_machine 3 two_variables start_env ≡ trapped)
    ⊎ ((e' : Env) × (env_loop a_machine 3 two_variables start_env ≡ finished e'))
env_loop-ends_example =
    env_loop-ends a_machine 3 two_variables start_env two_variables-AllShort (omega arith)

-- "IPM_", 90 bytes "A", and "=1".
abbrev long_variable : Str
long_variable = 73 ∷ 80 ∷ 77 ∷ 95 ∷ (replicate 90 65 ++ 61 ∷ 49 ∷ [])

long_variable-long : 80 < key_length long_variable
unfolding key_length
long_variable-long = omega arith

long_variable-ours : is_ipm long_variable ≡ true
unfolding is_ipm
long_variable-ours = refl

env_loop-long_key_example :
    (env_loop a_machine 1000 (two_variables ++ long_variable ∷ []) start_env ≡ running)
    ⊎ (env_loop a_machine 1000 (two_variables ++ long_variable ∷ []) start_env ≡ trapped)
env_loop-long_key_example =
    env_loop-long_key a_machine 1000 two_variables long_variable [] start_env long_variable-ours
      long_variable-long

-- "scan" on rank 0 divides by 0.
scan_at_zero : hpm_select 5 4 (115 ∷ 99 ∷ 97 ∷ 110 ∷ []) (record start_env { rank = pos 0 }) ≡ none
unfolding hpm_select hpm_words tokens_from
scan_at_zero = refl
