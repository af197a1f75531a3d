-- ===== src/Tests/Surveys.antt =====
-- A walk over four files of three types, of which two are counted as one.
use ipm_nci.Base.{
  ℕ, ◌+◌, ◌^◌, ◌<◌, ◌≡◌, ◌≢◌, refl, sym, ap, subst, arith, get_or, List, [], ◌∷◌, false, none, some,
}
use ipm_nci.Base.Strings.{Str}
use ipm_nci.Files.Profile.{survey-profile, types_of, distinct_from, tally, AreNamed, AreTyped}
use ipm_nci.Files.Total.Followed.{over}
use ipm_nci.Files.Total.Row.{IsTotal, first_pass-IsTotal}
use ipm_nci.Files.Total.{first_pass}
use ipm_nci.Files.Slots.{lookup, has_type}
use ipm_nci.Files.Sums.{IsSummed, files_of, survey-IsSummed}
use ipm_nci.Files.{
  Extreme, Bucket, cleared, pfile, seek, same_type, File, Filter, Survey, survey, start, ftype_of,
  selected, null_type, is_typed, magic_type, Walk, done, exited, undefined, no_fuel,
}

-- "text", "text, old" and "data"
abbrev text : Str
text = 116 ∷ 101 ∷ 120 ∷ 116 ∷ []

abbrev old_text : Str
old_text = 116 ∷ 101 ∷ 120 ∷ 116 ∷ 44 ∷ 32 ∷ 111 ∷ 108 ∷ 100 ∷ []

abbrev data_type : Str
data_type = 100 ∷ 97 ∷ 116 ∷ 97 ∷ []

abbrev file : ℕ → Str → File
file size magic = record {
  fname = 97 ∷ [];
  uid = 1;
  gid = 1;
  size = size;
  blocks = 8;
  blksize = 4096;
  ctime = 100;
  mtime = 90;
  magic = some magic;
}

abbrev four : List File
four = file 5 text ∷ file 9 data_type ∷ file 3 old_text ∷ file 4 text ∷ []

abbrev everything : Filter
everything = record { just_core = false; users = none; groups = none }

four_types : types_of everything four ≡ text ∷ data_type ∷ text ∷ text ∷ []
unfolding types_of magic_type ftype_of selected
four_types = refl

-- "NULL" begins with 78.
text-ne : text ≢ null_type
text-ne e = let same : 116 ≡ 78 = ap (λ (s : Str). get_or s 0 0) e in omega (arith, same)

data_type-ne : data_type ≢ null_type
data_type-ne e = let same : 100 ≡ 78 = ap (λ (s : Str). get_or s 0 0) e in omega (arith, same)

four_named : AreNamed (types_of everything four)
four_named = subst AreNamed (sym four_types) (text-ne, (data_type-ne, (text-ne, (text-ne, tt))))

four_typed : AreTyped everything four
unfolding is_typed
four_typed = (λ _. refl, (λ _. refl, (λ _. refl, (λ _. refl, tt))))

four_fit : distinct_from [] (types_of everything four) + 1 < 5
unfolding distinct_from types_of magic_type ftype_of selected
four_fit = omega arith

abbrev or_start : Walk Survey → Survey
or_start (done s) = s
or_start exited = start 5
or_start undefined = start 5
or_start no_fuel = start 5

abbrev after_four : Survey
after_four = or_start (survey 5 5 everything (start 5) four)

four_run : survey 5 5 everything (start 5) four ≡ done after_four
unfolding survey start pfile seek same_type
four_run = refl

-- Three texts, of 5, 3 and 4 bytes.
abbrev named_file : ℕ → Extreme
named_file n = record { value = n; fname = 97 ∷ [] }

abbrev text_bucket : Bucket
text_bucket = record {
  desc = text;
  nfile = 3;
  nbyte = 12;
  nblock = 24;
  cage_avg = 300;
  mage_avg = 270;
  cage_min = named_file 100;
  cage_max = named_file 100;
  mage_min = named_file 90;
  mage_max = named_file 90;
  byte_min = named_file 3;
  byte_max = named_file 5;
  block_min = record { value = 8; fname = [] };
  block_max = record { value = 8; fname = [] };
}

text_there : lookup after_four.buckets text ≡ some text_bucket
unfolding survey start pfile seek same_type lookup has_type
text_there = refl

survey-IsSummed_example : IsSummed text_bucket (files_of everything text four)
survey-IsSummed_example =
    survey-IsSummed 5 5 everything four after_four text text_bucket (omega arith) (omega arith)
      (omega arith) four_typed four_named four_fit four_run text_there

survey-profile_example :
    (u : Survey) × (survey 5 5 everything (start 5) four ≡ done u)
    × ((q : Str) → lookup u.buckets q ≡ tally everything q none four)
survey-profile_example =
    survey-profile 5 5 everything four (omega arith) (omega arith) (omega arith) four_typed
      four_named four_fit

abbrev three_buckets : List Bucket
three_buckets = text_bucket ∷ cleared ∷ record text_bucket { desc = data_type } ∷ []

few_files : over (λ b. b.nfile) three_buckets < 2 ^ 64
unfolding over
few_files = omega arith

first_pass-IsTotal_example : IsTotal three_buckets (first_pass three_buckets)
first_pass-IsTotal_example = first_pass-IsTotal three_buckets few_files
