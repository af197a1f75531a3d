-- ===== src/Files/Slots.antt =====
-- src/files.c: the buckets that the while loop of pfile visits, and how many are taken.
use ipm_nci.Base.{
  ℕ, zero, suc, ◌+◌, ◌-◌, ◌<◌, ◌≤◌, ◌≡◌, ◌≢◌, refl, sym, ap, ◌∙◌, subst, arith, ◌⊎◌, inl, inr, List,
  [], ◌∷◌, Bool, true, false, if◌then◌else◌, ◌==◌, ltb, length, set, replicate, get_or-set_ne,
  ℕ_discrete, Bool-cases, Option, none, some, not, ◌&&◌,
}
use ipm_nci.Base.Strings.{Str, str_eq, strncpy, eq_of_str_eq, str_eq_refl}
use ipm_nci.Files.{Bucket, cleared, bucket, is_taken, same_type, next_key, maxlen_ftype}

-- The number of files and the type in a bucket.
abbrev pub nfile_at : List Bucket → ℕ → ℕ
nfile_at es j = (bucket es j).nfile

abbrev pub type_at : List Bucket → ℕ → Str
type_at es j = (bucket es j).desc

-- A type that strncpy does not cut.
abbrev pub IsShort : Str → Type 0
IsShort s = strncpy maxlen_ftype s ≡ s

same_type-eq : (a b : Str) → IsShort a → IsShort b → same_type a b ≡ str_eq a b
unfolding same_type
same_type-eq a b p q = rw (p, q) refl

pub same_type-cases :
    (a b : Str)
    → IsShort a
    → IsShort b
    → ((a ≡ b) × (same_type a b ≡ true)) ⊎ ((a ≢ b) × (same_type a b ≡ false))
same_type-cases a b p q = by_test (str_eq a b) refl
  where
    by_test :
        (t : Bool)
        → str_eq a b ≡ t
        → ((a ≡ b) × (same_type a b ≡ true)) ⊎ ((a ≢ b) × (same_type a b ≡ false))
    by_test true e = inl (eq_of_str_eq a b e, same_type-eq a b p q ∙ e)
    by_test false e = inr (
      (λ (same : a ≡ b).
          let yes : str_eq a b ≡ true = ap (str_eq a) (sym same) ∙ str_eq_refl a in cc),
      same_type-eq a b p q ∙ e,
    )

-- What the loop sees at a bucket.
pub data Seen (es : List Bucket) (q : Str) (j : ℕ) : Type 0 where
  free : nfile_at es j ≡ 0 → is_taken es q j ≡ false → Seen es q j
  own : nfile_at es j ≢ 0 → type_at es j ≡ q → is_taken es q j ≡ false → Seen es q j
  other : nfile_at es j ≢ 0 → type_at es j ≢ q → is_taken es q j ≡ true → Seen es q j

pub see : (es : List Bucket) (q : Str) (j : ℕ) → IsShort q → IsShort (type_at es j) → Seen es q j
see es q j short short' = elim (ℕ_discrete (nfile_at es j) 0) [
  | yes e ↦ free e (ground (arith, e))
  | no ne ↦ elim (same_type-cases (type_at es j) q short' short) [
    | inl (e, t) ↦ own ne e (rw t (ground (arith, ne)))
    | inr (n, t) ↦ other ne n (rw t (ground (arith, ne)))
  ]
]

-- The c-th bucket from h on.
unfoldable pub step : ℕ → ℕ → ℕ → ℕ
step max h zero = h
step max h (suc c) = next_key max (step max h c)

step-value :
    (max h c : ℕ)
    → h < max
    → c < max
    → step max h c ≡ (if ltb (h + c) max then h + c else h + c - max)
unfolding step
step-value max h zero lt l = ground arith
step-value max h (suc c) lt l = ground (arith, step-value max h c lt (omega arith))

pub step-lt : (max h c : ℕ) → h < max → c < max → step max h c < max
step-lt max h c lt l = ground (arith, step-value max h c lt l)

pub step-ne : (max h c d : ℕ) → h < max → c < max → d < c → step max h d ≢ step max h c
step-ne max h c d lt l less e =
    ground (arith, e, step-value max h c lt l, step-value max h d lt (omega arith))

unfoldable pub taken : List Bucket → ℕ
taken [] = 0
taken (b ∷ bs) = (if b.nfile == 0 then 0 else 1) + taken bs

pub taken-cleared : (n : ℕ) → taken (replicate n cleared) ≡ 0
unfolding taken
taken-cleared zero = refl
taken-cleared (suc n) = omega (arith, taken-cleared n)

pub bucket-cleared : (n j : ℕ) → bucket (replicate n cleared) j ≡ cleared
bucket-cleared zero j = refl
bucket-cleared (suc n) zero = refl
bucket-cleared (suc n) (suc j) = bucket-cleared n j

pub taken-set_claim :
    (es : List Bucket) (i : ℕ) (v : Bucket)
    → i < length es
    → nfile_at es i ≡ 0
    → v.nfile ≢ 0
    → taken (set es i v) ≡ taken es + 1
unfolding taken
taken-set_claim [] i v h e g = elim h [ ]
taken-set_claim (x ∷ es) zero v h e g = ground arith
taken-set_claim (x ∷ es) (suc i) v h e g = ground (arith, taken-set_claim es i v (omega arith) e g)

taken-set_clear :
    (es : List Bucket) (i : ℕ) → nfile_at es i ≢ 0 → taken (set es i cleared) + 1 ≡ taken es
unfolding taken
taken-set_clear [] i h = absurd (h refl)
taken-set_clear (x ∷ es) zero h = ground arith
taken-set_clear (x ∷ es) (suc i) h = ground (arith, taken-set_clear es i h)

pub taken-set_same :
    (es : List Bucket) (i : ℕ) (v : Bucket)
    → nfile_at es i ≢ 0
    → v.nfile ≢ 0
    → taken (set es i v) ≡ taken es
unfolding taken
taken-set_same [] i v e g = refl
taken-set_same (x ∷ es) zero v e g = ground arith
taken-set_same (x ∷ es) (suc i) v e g = ground (arith, taken-set_same es i v e g)

-- So many different buckets that are taken are no more than all that are.
pub distinct-le-taken :
    (n : ℕ) (es : List Bucket) (p : ℕ → ℕ)
    → ((c d : ℕ) → c < n → d < c → p d ≢ p c)
    → ((d : ℕ) → d < n → nfile_at es (p d) ≢ 0)
    → n ≤ taken es
distinct-le-taken zero es p apart all = omega arith
distinct-le-taken (suc n) es p apart all = omega (
  arith,
  taken-set_clear es (p n) (all n (omega arith)),
  distinct-le-taken n (set es (p n) cleared) p (λ c d l less. apart c d (omega arith) less)
      (λ d l.
        subst (λ (b : Bucket). b.nfile ≢ 0)
          (sym
            (get_or-set_ne es (p n) (p d) cleared cleared (λ e. apart n d (omega arith) l (sym e))))
          (all d (omega arith))),
)

str_eq-ne : (a b : Str) → a ≢ b → str_eq a b ≡ false
str_eq-ne a b ne = elim (Bool-cases (str_eq a b)) [
  | inl e ↦ absurd (ne (eq_of_str_eq a b e))
  | inr e ↦ e
]

-- A bucket of the type q.
unfoldable pub has_type : Bucket → Str → Bool
has_type b q = not (b.nfile == 0) && str_eq b.desc q

pub has_type-yes : (b : Bucket) (q : Str) → b.nfile ≢ 0 → b.desc ≡ q → has_type b q ≡ true
unfolding has_type
has_type-yes b q ne e = ground (arith, ap (str_eq b.desc) (sym e) ∙ str_eq_refl b.desc, ne)

pub has_type-no : (b : Bucket) (q : Str) → (b.nfile ≢ 0 → b.desc ≢ q) → has_type b q ≡ false
unfolding has_type
has_type-no b q differs = elim (ℕ_discrete b.nfile 0) [
  | yes e ↦ ground (arith, e)
  | no ne ↦ rw (str_eq-ne b.desc q (differs ne)) (ground arith)
]

-- What the table says of a type.
unfoldable pub lookup : List Bucket → Str → Option Bucket
lookup [] q = none
lookup (b ∷ bs) q = if has_type b q then some b else lookup bs q

pub lookup-here :
    (es : List Bucket) (i : ℕ) (q : Str)
    → i < length es
    → ((j : ℕ) → j ≢ i → has_type (bucket es j) q ≡ false)
    → has_type (bucket es i) q ≡ true
    → lookup es q ≡ some (bucket es i)
unfolding lookup
lookup-here [] i q h only e = elim h [ ]
lookup-here (x ∷ es) zero q h only e = ground arith
lookup-here (x ∷ es) (suc i) q h only e = ground (
  arith,
  only 0 (omega arith),
  lookup-here es i q (omega arith) (λ j ne. only (suc j) (omega arith)) e,
)

pub lookup-none :
    (es : List Bucket) (q : Str) → ((j : ℕ) → has_type (bucket es j) q ≡ false) → lookup es q ≡ none
unfolding lookup
lookup-none [] q h = refl
lookup-none (x ∷ es) q h = ground (arith, h 0, lookup-none es q (λ j. h (suc j)))

pub lookup-set_self :
    (es : List Bucket) (i : ℕ) (q : Str) (v : Bucket)
    → i < length es
    → ((j : ℕ) → j ≢ i → has_type (bucket es j) q ≡ false)
    → has_type v q ≡ true
    → lookup (set es i v) q ≡ some v
unfolding lookup
lookup-set_self [] i q v h only e = elim h [ ]
lookup-set_self (x ∷ es) zero q v h only e = ground arith
lookup-set_self (x ∷ es) (suc i) q v h only e = ground (
  arith,
  only 0 (omega arith),
  lookup-set_self es i q v (omega arith) (λ j ne. only (suc j) (omega arith)) e,
)

pub lookup-set_other :
    (es : List Bucket) (i : ℕ) (q : Str) (v : Bucket)
    → has_type (bucket es i) q ≡ false
    → has_type v q ≡ false
    → lookup (set es i v) q ≡ lookup es q
unfolding lookup
lookup-set_other [] i q v h g = refl
lookup-set_other (x ∷ es) zero q v h g = ground arith
lookup-set_other (x ∷ es) (suc i) q v h g = ground (arith, lookup-set_other es i q v h g)
