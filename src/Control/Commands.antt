-- ===== src/Control/Commands.antt =====
-- The commands that name a region reach ipm_region.
use ipm_nci.Base.{
  ℕ, zero, suc, ◌+◌, ◌-◌, ◌≡◌, ◌<◌, ◌≤◌, refl, ap, Bool, true, false, ltb, [], ◌∷◌, ◌++◌, length,
  take, some, arith,
}
use ipm_nci.Base.Int.{pos}
use ipm_nci.Base.Strings.{Str}
use ipm_nci.Control.{
  max_pcmd, max_args, commas, word_enter, find_first, find_last, call_region, known_action,
  parse_action, ipm_control, mpi_pcontrol,
}

find_last-end : (c : ℕ) (s : Str) → find_last c (s ++ c ∷ []) ≡ some (length s)
unfolding find_last
find_last-end c [] = ground arith
find_last-end c (a ∷ s) = rw (find_last-end c s) refl

take-long : (n : ℕ) (s : Str) → length s ≤ n → take n s ≡ s
take-long zero [] h = refl
take-long zero (a ∷ s) h = absurd (omega arith)
take-long (suc n) [] h = refl
take-long (suc n) (a ∷ s) h = ap (λ (r : Str). a ∷ r) (take-long n s (omega arith))

take-front : (s t : Str) → take (length s) (s ++ t) ≡ s
take-front [] t = refl
take-front (a ∷ s) t = ap (λ (r : Str). a ∷ r) (take-front s t)

-- "enter_region(TAG)"
abbrev pub enter_command : Str → Str
enter_command tag = word_enter ++ 40 ∷ (tag ++ 41 ∷ [])

enter-find_first : (a : ℕ) (tag : Str) → find_first 40 (enter_command (a ∷ tag)) ≡ some 12
unfolding find_first
enter-find_first a tag = refl

enter-find_last :
    (a : ℕ) (tag : Str) → find_last 41 (enter_command (a ∷ tag)) ≡ some (length tag + 14)
unfolding find_last
enter-find_last a tag = rw (find_last-end 41 tag) (ap some (omega arith))

enter-parse_action :
    (a : ℕ) (tag label : Str) (initialized : Bool)
    → commas (a ∷ tag) < max_args
    → parse_action (enter_command (a ∷ tag)) label initialized
      ≡ (call_region (pos 1) (some (a ∷ tag)) ∷ [], true)
unfolding parse_action known_action
enter-parse_action a tag label initialized few =
    let inside : ltb 12 (length tag + 14) ≡ true = ground arith in
    let held : ltb max_args (1 + commas (a ∷ tag)) ≡ false = ground (arith, few) in
    let given : ltb 1 (length tag + 14 - 12) ≡ true = ground arith in
    let size : length tag + 14 - 12 - 1 ≡ suc (length tag) = omega arith in
    rw
      (
        enter-find_first a tag,
        enter-find_last a tag,
        inside,
        size,
        take-front tag (41 ∷ []),
        held,
        given,
      )
      refl

-- Whatever the tag is, parentheses included, if it is not empty, has at most four commas, so that arg
-- is not overrun, and the command has fewer than 80 bytes, MPI_Pcontrol(0, "enter_region(TAG)") does one thing: it calls
-- ipm_region(1, TAG).
pub mpi_pcontrol-enter :
    (a : ℕ) (tag label : Str) (initialized : Bool)
    → length (enter_command (a ∷ tag)) < max_pcmd
    → commas (a ∷ tag) < max_args
    → mpi_pcontrol (pos 0) (enter_command (a ∷ tag)) label initialized
      ≡ call_region (pos 1) (some (a ∷ tag)) ∷ []
unfolding mpi_pcontrol ipm_control
mpi_pcontrol-enter a tag label initialized h few =
    let short : ltb max_pcmd (length (enter_command (a ∷ tag))) ≡ false = ground arith in
    rw
      (
        short,
        take-long max_pcmd (enter_command (a ∷ tag)) (omega arith),
        enter-parse_action a tag label initialized few,
      )
      refl
