-- ===== src/Base/Strings.antt =====
-- C strings as the list of their bytes before the terminating NUL, and the calls of <string.h>
-- that the sources make on them.
use Prim.Native.Nat.{ℕ, zero, suc}
use mathlib.Core.Path.{◌≡◌, refl, sym, ap, ◌∙◌}
use mathlib.Core.Bool.{Bool, true, false, ◌&&◌}
use mathlib.Core.List.{List, [], ◌∷◌}
use native.Mathlib.Decide.{ℕ_discrete}
use native.Mathlib.Omega.{arith}
use ipm_nci.Base.Tests.{◌==◌}
use ipm_nci.Base.Lists.{take}

abbrev pub Str : Type 0
Str = List ℕ

-- `strcmp(s, t) == 0`
abbrev pub str_eq : Str → Str → Bool
str_eq [] [] = true
str_eq [] (b ∷ t) = false
str_eq (a ∷ s) [] = false
str_eq (a ∷ s) (b ∷ t) = a == b && str_eq s t

-- `strncmp(s, t, n) == 0`
abbrev pub strn_eq : ℕ → Str → Str → Bool
strn_eq n s t = str_eq (take n s) (take n t)

-- What `strncpy(d, s, n)` leaves in d, read up to n bytes.
abbrev pub strncpy : ℕ → Str → Str
strncpy n s = take n s

pub str_eq_refl : (s : Str) → str_eq s s ≡ true
str_eq_refl [] = refl
str_eq_refl (a ∷ s) = ground (arith, str_eq_refl s)

pub eq_of_str_eq : (s t : Str) → str_eq s t ≡ true → s ≡ t
eq_of_str_eq [] [] e = refl
eq_of_str_eq [] (b ∷ t) e = cc
eq_of_str_eq (a ∷ s) [] e = cc
eq_of_str_eq (a ∷ s) (b ∷ t) e = elim (ℕ_discrete a b) [
  | yes same ↦ rw (same, eq_of_str_eq s t (ground (arith, e))) refl
  | no other ↦ absurd (ground (arith, e))
]

pub take-take : (n : ℕ) (s : Str) → take n (take n s) ≡ take n s
take-take zero s = refl
take-take (suc n) [] = refl
take-take (suc n) (a ∷ s) = ap (λ (r : Str). a ∷ r) (take-take n s)

pub strn_eq_trans :
    (n : ℕ) (a b c : Str) → strn_eq n a b ≡ true → strn_eq n a c ≡ true → strn_eq n b c ≡ true
strn_eq_trans n a b c e g =
    let same : take n b ≡ take n c =
      sym (eq_of_str_eq (take n a) (take n b) e) ∙ eq_of_str_eq (take n a) (take n c) g in
    rw same (str_eq_refl (take n c))
