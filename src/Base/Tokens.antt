-- ===== src/Base/Tokens.antt =====
-- strtok_r, atoi and the conversion %d of sscanf, on strings as lists of bytes. A number is not cut
-- to the range of int.
use Prim.Native.Nat.{ℕ, ◌+◌, ◌-◌, ◌*◌}
use mathlib.Core.Bool.{Bool, false, ◌&&◌}
use mathlib.Core.List.{List, [], ◌∷◌, ◌++◌}
use mathlib.Core.Option.{Option, none, some}
use ipm_nci.Base.Int.{ℤ, pos, neg_of}
use ipm_nci.Base.Strings.{Str}
use ipm_nci.Base.Tests.{◌==◌, leb, if◌then◌else◌}

-- The tokens of a string between separators, with `cur` read so far; empty ones are skipped.
unfoldable pub tokens_from : ℕ → Str → Str → List Str
tokens_from sep [] [] = []
tokens_from sep (a ∷ cur) [] = (a ∷ cur) ∷ []
tokens_from sep [] (c ∷ s) = if c == sep then tokens_from sep [] s else tokens_from sep (c ∷ []) s
tokens_from sep (a ∷ cur) (c ∷ s) =
    if c == sep then (a ∷ cur) ∷ tokens_from sep [] s else tokens_from sep (a ∷ (cur ++ c ∷ [])) s

abbrev pub tokens : ℕ → Str → List Str
tokens sep s = tokens_from sep [] s

abbrev pub is_digit : ℕ → Bool
is_digit c = leb 48 c && leb c 57

unfoldable pub digits : ℕ → Str → ℕ
digits n [] = n
digits n (c ∷ s) = if is_digit c then digits (n * 10 + (c - 48)) s else n

abbrev starts_with_digit : Str → Bool
starts_with_digit [] = false
starts_with_digit (c ∷ s) = is_digit c

-- "%d"
unfoldable pub scan_int : Str → Option ℤ
unfolding digits
scan_int [] = none
scan_int (c ∷ s) =
    if is_digit c
    then some (pos (digits 0 (c ∷ s)))
    else if starts_with_digit s
    then if c == 45
      then some (neg_of (digits 0 s))
      else if c == 43
      then some (pos (digits 0 s))
      else none
    else none

-- `atoi(s)`
unfoldable pub atoi : Str → ℤ
unfolding scan_int
atoi s = elim (scan_int s) [ none ↦ pos 0 | some n ↦ n ]
