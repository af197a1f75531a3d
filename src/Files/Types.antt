-- ===== src/Files/Types.antt =====
-- src/files.c: the types are no longer than what strncpy copies.
use ipm_nci.Base.{
  ℕ, zero, suc, ◌≡◌, refl, ap, Bool, true, false, if◌then◌else◌, ◌==◌, [], ◌∷◌, take, Bool-cases,
  inl, inr, Option, none, some,
}
use ipm_nci.Base.Strings.{Str, strncpy, take-take}
use ipm_nci.Files.Slots.{IsShort}
use ipm_nci.Files.{
  before_comma, shorten, starts, contains, symbolic_link, broken_link, script_text, elf_executable,
  ftype_of, magic_type, maxlen_ftype,
}

take-before_comma : (n : ℕ) (s : Str) → take n s ≡ s → take n (before_comma s) ≡ before_comma s
unfolding before_comma
take-before_comma zero [] e = refl
take-before_comma zero (c ∷ s) e = cc
take-before_comma (suc n) [] e = refl
take-before_comma (suc n) (c ∷ s) e = elim (Bool-cases (c == 44)) [
  | inl t ↦ rw t refl
  | inr t ↦ rw t (ap (λ (r : Str). c ∷ r) (take-before_comma n s cc))
]

if-IsShort : (b : Bool) (s t : Str) → IsShort s → IsShort t → IsShort (if b then s else t)
if-IsShort true s t p q = p
if-IsShort false s t p q = q

-- Either of two short names, or what was short before.
shorten-IsShort :
    (matches : Str → Str → Bool) (a b s : Str)
    → IsShort a
    → IsShort b
    → IsShort s
    → IsShort (shorten matches (a ∷ b ∷ []) s)
unfolding shorten
shorten-IsShort matches a b s p q r =
    if-IsShort (matches s a) a _ p (if-IsShort (matches s b) b s q r)

pub ftype_of-IsShort : (m : Str) → IsShort (ftype_of m)
unfolding ftype_of
ftype_of-IsShort m = shorten-IsShort contains script_text elf_executable _ refl refl (
    shorten-IsShort starts symbolic_link broken_link _ refl refl
      (take-before_comma maxlen_ftype (strncpy maxlen_ftype m) (take-take maxlen_ftype m)))

pub magic_type-IsShort : (m : Option Str) → IsShort (magic_type m)
unfolding magic_type
magic_type-IsShort none = refl
magic_type-IsShort (some m) = ftype_of-IsShort m
