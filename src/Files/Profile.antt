-- ===== src/Files/Profile.antt =====
-- src/files.c: the table after a walk over files, as a function of the files.
use ipm_nci.Base.{
  ℕ, suc, ◌+◌, ◌^◌, ◌<◌, ◌≤◌, ◌≡◌, ◌≢◌, refl, sym, ap, ◌∙◌, subst, arith, inl, inr, List, [], ◌∷◌,
  Bool, true, false, ◌&&◌, if◌then◌else◌, length, replicate, length-replicate, take, Option, none,
  some, Bool-cases,
}
use ipm_nci.Base.Strings.{Str, str_eq}
use ipm_nci.Files.Insert.{tally_file, if_none}
use ipm_nci.Files.Slots.{taken, taken-cleared, bucket-cleared, lookup, lookup-none, has_type-no}
use ipm_nci.Files.{
  Bucket, cleared, bucket, File, Filter, Survey, selected, magic_type, pfile, survey, start,
  null_type, maxlen_ftype, is_typed, done,
}
use ipm_nci.Files.Filed.{IsValid, pfile-Filed, lookup-Filed}

-- The types of the files that are selected.
unfoldable pub types_of : Filter → List File → List Str
types_of o [] = []
types_of o (f ∷ fs) =
    let rest = types_of o fs in if selected o f then magic_type f.magic ∷ rest else rest

among_types : Str → List Str → Bool
among_types q [] = false
among_types q (r ∷ rs) = if str_eq q r then true else among_types q rs

-- How many types there are that are not among `seen`.
unfoldable pub distinct_from : List Str → List Str → ℕ
unfolding among_types
distinct_from seen [] = 0
distinct_from seen (q ∷ qs) = (if among_types q seen then 0 else 1) + distinct_from (q ∷ seen) qs

-- The bucket of the type q, from b on, when the selected files of that type alone are counted.
unfoldable pub tally : Filter → Str → Option Bucket → List File → Option Bucket
tally o q b [] = b
tally o q b (f ∷ fs) =
    tally o q (if selected o f && str_eq q (magic_type f.magic) then some (tally_file f q b) else b)
      fs

-- No selected file has the type "NULL".
abbrev pub AreNamed : List Str → Type 0
AreNamed [] = Unit
AreNamed (q ∷ qs) = (q ≢ null_type) × AreNamed qs

-- Each selected file has a type of fewer than 80 characters.
abbrev pub AreTyped : Filter → List File → Type 0
AreTyped o [] = Unit
AreTyped o (f ∷ fs) = (selected o f ≡ true → is_typed f.magic ≡ true) × AreTyped o fs

has_bucket : Option Bucket → Bool
has_bucket none = false
has_bucket (some b) = true

has_bucket-if :
    (t : Bool) (b : Bucket) (e : Option Bucket)
    → has_bucket (if t then some b else e) ≡ (if t then true else has_bucket e)
unfolding has_bucket
has_bucket-if true b e = refl
has_bucket-if false b e = refl

if_none-has_bucket : (e : Option Bucket) → if_none e ≡ (if has_bucket e then 0 else 1)
unfolding has_bucket
if_none-has_bucket none = refl
if_none-has_bucket (some b) = refl

types_of-chosen :
    (o : Filter) (f : File) (fs : List File)
    → selected o f ≡ true
    → types_of o (f ∷ fs) ≡ magic_type f.magic ∷ types_of o fs
unfolding types_of
types_of-chosen o f fs e = rw e refl

types_of-skipped :
    (o : Filter) (f : File) (fs : List File)
    → selected o f ≡ false
    → types_of o (f ∷ fs) ≡ types_of o fs
unfolding types_of
types_of-skipped o f fs e = rw e refl

pfile-skipped :
    (max fuel : ℕ) (o : Filter) (f : File) (s : Survey)
    → selected o f ≡ false
    → pfile max fuel o f s ≡ done s
unfolding pfile
pfile-skipped max fuel o f s e = rw e refl

module _ (max fuel : ℕ) (two : 2 ≤ max) (enough : max ≤ fuel) (o : Filter) where
  survey-reads :
      (fs : List File) (m : ℕ) (s : Survey) (seen : List Str)
      → IsValid max m s
      → m + length fs < 2 ^ 64
      → AreTyped o fs
      → AreNamed (types_of o fs)
      → ((q : Str) → among_types q seen ≡ has_bucket (lookup s.buckets q))
      → taken s.buckets + distinct_from seen (types_of o fs) + 1 < max
      → (u : Survey) × (survey max fuel o s fs ≡ done u)
        × ((q : Str) → lookup u.buckets q ≡ tally o q (lookup s.buckets q) fs)
  unfolding survey tally distinct_from among_types
  survey-reads [] m s seen v few typed named same room = (s, refl, λ q. refl)
  survey-reads (f ∷ fs) m s seen v few typed named same room = elim (Bool-cases (selected o f)) [
    | inl chosen ↦
        let q = magic_type f.magic in
        let types = types_of-chosen o f fs chosen in
        let named' = subst AreNamed types named in
        let room' =
          subst (λ (ts : List Str). taken s.buckets + distinct_from seen ts + 1 < max) types room in
        let (u, first, filed) =
          pfile-Filed max fuel two enough m s v (omega (arith, room')) o f (omega (arith, few))
            (named'.0) chosen (typed.0 chosen) in
        let step = lookup-Filed max fuel two enough m s v (omega (arith, room')) f u filed in
        let new : (if among_types q seen then 0 else 1) ≡ if_none (lookup s.buckets q) =
          rw (same q) (sym (if_none-has_bucket (lookup s.buckets q))) in
        let (w, rest, reads) =
          survey-reads fs (suc m) u (q ∷ seen) filed.valid (omega (arith, few)) (typed.1) (named'.1)
            (λ r. rw (step r, same r) (sym (has_bucket-if (str_eq r q) _ _)))
            (omega (arith, filed.grown, new, room')) in
        (w, rw first rest, λ r. reads r ∙ rw (chosen, step r) refl)
    | inr skipped ↦
        let types = types_of-skipped o f fs skipped in
        let (w, rest, reads) =
          survey-reads fs m s seen v (omega (arith, few)) (typed.1) (subst AreNamed types named)
            same
            (subst (λ (ts : List Str). taken s.buckets + distinct_from seen ts + 1 < max) types
              room) in
        (w, rw (pfile-skipped max fuel o f s skipped) rest, λ r. reads r ∙ rw skipped refl)
  ]

start-IsValid : (max : ℕ) → IsValid max 0 (start max)
unfolding start
start-IsValid max = record {
  placed = record {
    size = length-replicate max cleared;
    free = λ j _. bucket-cleared max j;
    short = λ j.
        ap (λ (b : Bucket). take maxlen_ftype b.desc) (bucket-cleared max j)
        ∙ sym (ap (λ (b : Bucket). b.desc) (bucket-cleared max j));
    reached = λ j ne. absurd (ne (ap (λ (b : Bucket). b.nfile) (bucket-cleared max j)));
  };
  counted = λ j. omega (arith, ap (λ (b : Bucket). b.nfile) (bucket-cleared max j));
  short = refl;
  last = inl refl;
}

-- The walk over files, from the cleared table on. When there are two buckets more than types, fewer
-- than 2 ^ 64 files, fuel for as many rounds as there are buckets, and libmagic gives each selected
-- file a type, of fewer than 80 characters and not "NULL", pfile never ends the program, and for every type the table has the bucket that comes from the selected
-- files of that type alone, in their order, or none where there is no such file.
pub survey-profile :
    (max fuel : ℕ) (o : Filter) (fs : List File)
    → 2 ≤ max
    → max ≤ fuel
    → length fs < 2 ^ 64
    → AreTyped o fs
    → AreNamed (types_of o fs)
    → distinct_from [] (types_of o fs) + 1 < max
    → (u : Survey) × (survey max fuel o (start max) fs ≡ done u)
      × ((q : Str) → lookup u.buckets q ≡ tally o q none fs)
unfolding start among_types has_bucket
survey-profile max fuel o fs two enough few typed named room =
    let empty : (q : Str) → lookup (start max).buckets q ≡ none = λ q.
      lookup-none (replicate max cleared) q (λ j.
        has_type-no (bucket (replicate max cleared) j) q
          (λ ne. absurd (ne (ap (λ (b : Bucket). b.nfile) (bucket-cleared max j))))) in
    let (u, run, reads) =
      survey-reads max fuel two enough o fs 0 (start max) [] (start-IsValid max)
        (omega (arith, few)) typed named (λ q. rw (empty q) refl)
        (omega (arith, taken-cleared max, room)) in
    (u, run, λ q. reads q ∙ rw (empty q) refl)
