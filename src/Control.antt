-- ===== src/Control.antt =====
-- src/ipm_mpi_pcontrol.c: ipm_control, which reads the commands that a program gives by MPI_Pcontrol.
-- What it calls is a list; the write of an answer is the text that is copied.
pub mod Commands
use ipm_nci.Base.{
  ℕ, zero, suc, ◌+◌, ◌-◌, Bool, true, false, ◌&&◌, if◌then◌else◌, ◌==◌, ltb, List, [], ◌∷◌, ◌++◌,
  length, take, Option, none, some,
}
use ipm_nci.Base.Int.{ℤ, pos, negsuc}
use ipm_nci.Base.Strings.{Str, str_eq, strncpy}

abbrev pub max_pcmd : ℕ
max_pcmd = 80

-- "enter_region", "exit_region", "get_region", "get_ipmstatus" and "INITIALIZED"
abbrev pub word_enter : Str
word_enter = 101 ∷ 110 ∷ 116 ∷ 101 ∷ 114 ∷ 95 ∷ 114 ∷ 101 ∷ 103 ∷ 105 ∷ 111 ∷ 110 ∷ []

abbrev pub word_exit : Str
word_exit = 101 ∷ 120 ∷ 105 ∷ 116 ∷ 95 ∷ 114 ∷ 101 ∷ 103 ∷ 105 ∷ 111 ∷ 110 ∷ []

abbrev pub word_get : Str
word_get = 103 ∷ 101 ∷ 116 ∷ 95 ∷ 114 ∷ 101 ∷ 103 ∷ 105 ∷ 111 ∷ 110 ∷ []

abbrev pub word_status : Str
word_status = 103 ∷ 101 ∷ 116 ∷ 95 ∷ 105 ∷ 112 ∷ 109 ∷ 115 ∷ 116 ∷ 97 ∷ 116 ∷ 117 ∷ 115 ∷ []

abbrev pub word_initialized : Str
word_initialized = 73 ∷ 78 ∷ 73 ∷ 84 ∷ 73 ∷ 65 ∷ 76 ∷ 73 ∷ 90 ∷ 69 ∷ 68 ∷ []

-- `strchr(s, c) - s`
unfoldable pub find_first : ℕ → Str → Option ℕ
find_first c [] = none
find_first c (a ∷ s) = if a == c then some 0 else next (find_first c s)
  where
    next : Option ℕ → Option ℕ
    next none = none
    next (some i) = some (suc i)

-- `strrchr(s, c) - s`
unfoldable pub find_last : ℕ → Str → Option ℕ
find_last c [] = none
find_last c (a ∷ s) = later (find_last c s)
  where
    later : Option ℕ → Option ℕ
    later none = if a == c then some 0 else none
    later (some i) = some (suc i)

abbrev pub skip : ℕ → Str → Str
skip zero s = s
skip (suc n) [] = []
skip (suc n) (c ∷ s) = skip n s

-- `char *arg[5]`
abbrev pub max_args : ℕ
max_args = 5

-- How many elements the loop writes into arg, after the first: one for each comma.
unfoldable pub commas : Str → ℕ
commas [] = 0
commas (c ∷ s) = let rest = commas s in if c == 44 then rest + 1 else rest

-- What ipm_control does: ipm_region, with a null tag as `none`, ipm_event, or a copy to `data`; or it
-- writes past the end of arg, which is undefined behaviour.
pub data Act : Type 0 where
  call_region : ℤ → Option Str → Act
  call_event : Option Str → Act
  copy : Str → Act
  overrun : Act

-- The vocabulary, with arg[0]: the acts, and got_action.
unfoldable pub known_action : Str → Option Str → Str → Bool → List Act × Bool
known_action action arg label initialized =
    if str_eq action word_enter
    then (call_region (pos 1) arg ∷ [], true)
    else if str_eq action word_exit
    then (call_region (negsuc 0) arg ∷ [], true)
    else if str_eq action word_get
    then (copy label ∷ [], true)
    else if str_eq action word_status && initialized
    then (copy word_initialized ∷ [], false)
    else ([], false)

-- A command with parentheses: the text before the first `(` is the action, that up to the last `)`
-- is arg[0], a null pointer when there is none.
unfoldable pub parse_action : Str → Str → Bool → List Act × Bool
parse_action lcmd label initialized = by_parens (find_first 40 lcmd) (find_last 41 lcmd)
  where
    by_parens : Option ℕ → Option ℕ → List Act × Bool
    by_parens none e = ([], false)
    by_parens (some b) none = ([], false)
    by_parens (some b) (some e) =
        if ltb b e
        then (let args = take (e - b - 1) (skip (b + 1) lcmd) in
            if ltb max_args (1 + commas args)
            then (overrun ∷ [], true)
            else known_action (take b lcmd) (if ltb 1 (e - b) then some args else none) label
                initialized)
        else ([], false)

abbrev pub value_of : Option ℤ → ℤ
value_of none = pos 0
value_of (some v) = v

abbrev pub is_zero : ℤ → Bool
is_zero (pos n) = n == 0
is_zero (negsuc n) = false

abbrev pub is_unit : ℤ → Bool
is_unit (pos n) = n == 1
is_unit (negsuc n) = n == 0

abbrev pub parsed : ℤ → Option Str → Str → Bool → List Act × Bool
parsed v none label initialized = ([], false)
parsed v (some cmd) label initialized =
    if is_zero v then parse_action (strncpy max_pcmd cmd) label initialized else ([], false)

-- ipm_control, with the label of the current region, and whether IPM_INITIALIZED is set.
unfoldable pub ipm_control : Option ℤ → Option Str → Str → Bool → List Act
ipm_control ctl cmd label initialized =
    let v = value_of ctl in
    let first = parsed v cmd label initialized in
    if first.1
    then first.0
    else first.0
      ++ (if is_zero v
          then call_event cmd ∷ []
          else if is_unit v
          then call_region v cmd ∷ []
          else [])

-- MPI_Pcontrol: a longer command is refused.
unfoldable pub mpi_pcontrol : ℤ → Str → Str → Bool → List Act
mpi_pcontrol ctl cmd label initialized =
    if ltb max_pcmd (length cmd) then [] else ipm_control (some ctl) (some cmd) label initialized
