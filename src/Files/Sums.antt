-- ===== src/Files/Sums.antt =====
-- src/files.c: the numbers in the bucket of a type.
use mathlib.Core.List.{append_assoc, append-nil}
use ipm_nci.Base.{
  ℕ, ◌+◌, ◌%◌, ◌^◌, ◌<◌, ◌≤◌, ◌≡◌, refl, sym, ap, ◌∙◌, subst, arith, List, [], ◌∷◌, ◌++◌,
  length-append, ◌&&◌, if◌then◌else◌, length, Option, none, some, Bool-cases, inl, inr,
}
use ipm_nci.Base.Strings.{Str, str_eq}
use ipm_nci.Files.Insert.{tally_file}
use ipm_nci.Files.Profile.{types_of, distinct_from, tally, AreNamed, AreTyped, survey-profile}
use ipm_nci.Files.Slots.{lookup}
use ipm_nci.Files.{
  Bucket, cleared, File, Filter, Survey, selected, magic_type, survey, start, claim, add_file, done,
  done-injective,
}

-- The selected files of the type q.
unfoldable pub files_of : Filter → Str → List File → List File
files_of o q [] = []
files_of o q (f ∷ fs) =
    let rest = files_of o q fs in
    if selected o f && str_eq q (magic_type f.magic) then f ∷ rest else rest

unfoldable pub sum_of : (File → ℕ) → List File → ℕ
sum_of x [] = 0
sum_of x (f ∷ fs) = x f + sum_of x fs

-- Every value is between the two.
abbrev pub AreWithin : (File → ℕ) → ℕ → ℕ → List File → Type 0
AreWithin x low high [] = Unit
AreWithin x low high (f ∷ fs) = ((low ≤ x f) × (x f ≤ high)) × AreWithin x low high fs

-- The numbers of a bucket with the files fs.
pub record IsSummed (b : Bucket) (fs : List File) : Type 0 where
  pub files : b.nfile ≡ length fs % 2 ^ 64
  pub bytes : b.nbyte % 2 ^ 64 ≡ sum_of (λ f. f.size) fs % 2 ^ 64
  pub blocks : b.nblock % 2 ^ 64 ≡ sum_of (λ f. f.blocks) fs % 2 ^ 64
  pub cages : b.cage_avg ≡ sum_of (λ f. f.ctime) fs
  pub mages : b.mage_avg ≡ sum_of (λ f. f.mtime) fs
  pub sizes : AreWithin (λ f. f.size) b.byte_min.value b.byte_max.value fs
  pub changed : AreWithin (λ f. f.ctime) b.cage_min.value b.cage_max.value fs
  pub modified : AreWithin (λ f. f.mtime) b.mage_min.value b.mage_max.value fs
  pub taken : AreWithin (λ f. f.blocks) b.block_min.value b.block_max.value fs

sum_of-snoc :
    (x : File → ℕ) (fs : List File) (f : File) → sum_of x (fs ++ f ∷ []) ≡ sum_of x fs + x f
unfolding sum_of
sum_of-snoc x [] f = omega arith
sum_of-snoc x (g ∷ fs) f = omega (arith, sum_of-snoc x fs f)

-- One file more, with bounds that are wider.
AreWithin-snoc :
    (x : File → ℕ) (a b c d : ℕ) (fs : List File) (f : File)
    → (c ≤ a) × (b ≤ d) × (c ≤ x f) × (x f ≤ d)
    → AreWithin x a b fs
    → AreWithin x c d (fs ++ f ∷ [])
AreWithin-snoc x a b c d [] f (low, high, above, below) all = ((above, below), tt)
AreWithin-snoc x a b c d (g ∷ fs) f (low, high, above, below) all = (
  (omega (arith, low, (all.0).0), omega (arith, high, (all.0).1)),
  AreWithin-snoc x a b c d fs f (low, high, above, below) (all.1),
)

claim-IsSummed : (f : File) (q : Str) → IsSummed (claim f q cleared) (f ∷ [])
unfolding claim sum_of
claim-IsSummed f q = record {
  files = omega arith;
  bytes = ap (λ (n : ℕ). n % 2 ^ 64) (omega arith);
  blocks = ap (λ (n : ℕ). n % 2 ^ 64) (omega arith);
  cages = omega arith;
  mages = omega arith;
  sizes = ((omega arith, omega arith), tt);
  changed = ((omega arith, omega arith), tt);
  modified = ((omega arith, omega arith), tt);
  taken = ((omega arith, omega arith), tt);
}

add_file-IsSummed :
    (f : File) (b : Bucket) (fs : List File)
    → IsSummed b fs
    → IsSummed (add_file f b) (fs ++ f ∷ [])
unfolding add_file
add_file-IsSummed f b fs s = record {
  files = omega (arith, s.files, length-append fs (f ∷ []));
  bytes = omega (arith, s.bytes, sum_of-snoc (λ f. f.size) fs f);
  blocks = omega (arith, s.blocks, sum_of-snoc (λ f. f.blocks) fs f);
  cages = omega (arith, s.cages, sum_of-snoc (λ f. f.ctime) fs f);
  mages = omega (arith, s.mages, sum_of-snoc (λ f. f.mtime) fs f);
  sizes =
      AreWithin-snoc (λ f. f.size) b.byte_min.value b.byte_max.value _ _ fs f (ground arith)
        s.sizes;
  changed =
      AreWithin-snoc (λ f. f.ctime) b.cage_min.value b.cage_max.value _ _ fs f (ground arith)
        s.changed;
  modified =
      AreWithin-snoc (λ f. f.mtime) b.mage_min.value b.mage_max.value _ _ fs f (ground arith)
        s.modified;
  taken =
      AreWithin-snoc (λ f. f.blocks) b.block_min.value b.block_max.value _ _ fs f (ground arith)
        s.taken;
}

-- What holds of a bucket that there may be.
abbrev AreSummed : Option Bucket → List File → Type 0
AreSummed none fs = fs ≡ []
AreSummed (some b) fs = IsSummed b fs

tally_file-IsSummed :
    (f : File) (q : Str) (b : Option Bucket) (fs : List File)
    → AreSummed b fs
    → IsSummed (tally_file f q b) (fs ++ f ∷ [])
unfolding tally_file
tally_file-IsSummed f q none fs e =
    subst (λ (fs : List File). IsSummed (claim f q cleared) (fs ++ f ∷ [])) (sym e)
      (claim-IsSummed f q)
tally_file-IsSummed f q (some b) fs s = add_file-IsSummed f b fs s

tally-IsSummed :
    (o : Filter) (q : Str) (b : Option Bucket) (gs fs : List File)
    → AreSummed b gs
    → AreSummed (tally o q b fs) (gs ++ files_of o q fs)
unfolding tally files_of
tally-IsSummed o q b gs [] s = subst (AreSummed b) (sym (append-nil gs)) s
tally-IsSummed o q b gs (f ∷ fs) s =
    elim (Bool-cases (selected o f && str_eq q (magic_type f.magic))) [
      | inl t ↦ rw t (
          subst (AreSummed (tally o q (some (tally_file f q b)) fs))
            (append_assoc gs (f ∷ []) (files_of o q fs))
            (tally-IsSummed o q (some (tally_file f q b)) (gs ++ f ∷ []) fs
              (tally_file-IsSummed f q b gs s)))
      | inr t ↦ rw t (tally-IsSummed o q b gs fs s)
    ]

-- Under the conditions of survey-profile: when the table has a bucket for a type after the walk, its
-- nfile, nbyte and nblock are the number of the selected files of that type, their bytes and their
-- blocks, modulo 2 ^ 64, cage_avg and mage_avg are the sums of their times, and every one of these
-- files has a size, a ctime, an mtime and a number of blocks between the min and the max.
pub survey-IsSummed :
    (max fuel : ℕ) (o : Filter) (fs : List File) (u : Survey) (q : Str) (b : Bucket)
    → 2 ≤ max
    → max ≤ fuel
    → length fs < 2 ^ 64
    → AreTyped o fs
    → AreNamed (types_of o fs)
    → distinct_from [] (types_of o fs) + 1 < max
    → survey max fuel o (start max) fs ≡ done u
    → lookup u.buckets q ≡ some b
    → IsSummed b (files_of o q fs)
survey-IsSummed max fuel o fs u q b two enough few typed named room run there =
    let (w, run', reads) = survey-profile max fuel o fs two enough few typed named room in
    let same : w ≡ u = done-injective (sym run' ∙ run) in
    let at : tally o q none fs ≡ some b =
      sym (reads q) ∙ ap (λ (u : Survey). lookup u.buckets q) same ∙ there in
    subst (λ (e : Option Bucket). AreSummed e (files_of o q fs)) at
      (tally-IsSummed o q none [] fs refl)
