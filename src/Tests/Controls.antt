-- ===== src/Tests/Controls.antt =====
-- Commands with concrete tags.
use ipm_nci.Base.{◌≡◌, ◌<◌, refl, true, [], ◌∷◌, some, arith}
use ipm_nci.Base.Int.{pos}
use ipm_nci.Base.Strings.{Str}
use ipm_nci.Control.Commands.{enter_command, mpi_pcontrol-enter}
use ipm_nci.Control.{
  call_region, call_event, copy, mpi_pcontrol, ipm_control, parse_action, known_action, find_first,
  find_last, word_initialized, commas, overrun,
}

-- "a,(b)"
abbrev odd_tag : Str
odd_tag = 44 ∷ 40 ∷ 98 ∷ 41 ∷ []

odd_tag-few : commas (97 ∷ odd_tag) < 5
unfolding commas
odd_tag-few = omega arith

mpi_pcontrol-enter_example :
    mpi_pcontrol (pos 0) (enter_command (97 ∷ odd_tag)) [] true
    ≡ call_region (pos 1) (some (97 ∷ odd_tag)) ∷ []
mpi_pcontrol-enter_example = mpi_pcontrol-enter 97 odd_tag [] true (omega arith) odd_tag-few

-- "get_ipmstatus()" is answered, and then printed as an event too.
status_twice :
    ipm_control
      (some (pos 0))
      (some
        (103 ∷ 101 ∷ 116 ∷ 95 ∷ 105 ∷ 112 ∷ 109 ∷ 115 ∷ 116 ∷ 97 ∷ 116 ∷ 117 ∷ 115 ∷ 40 ∷ 41 ∷ []))
      []
      true
    ≡ copy word_initialized
      ∷ call_event (
          some (
            103 ∷ 101 ∷ 116 ∷ 95 ∷ 105 ∷ 112 ∷ 109 ∷ 115 ∷ 116 ∷ 97 ∷ 116 ∷ 117 ∷ 115 ∷ 40 ∷ 41
            ∷ []))
      ∷ []
unfolding ipm_control parse_action find_first find_last known_action commas
status_twice = refl

-- "a(,,,,,)"
five_commas :
    ipm_control (some (pos 0)) (some (97 ∷ 40 ∷ 44 ∷ 44 ∷ 44 ∷ 44 ∷ 44 ∷ 41 ∷ [])) [] true
    ≡ overrun ∷ []
unfolding ipm_control parse_action find_first find_last known_action commas
five_commas = refl
