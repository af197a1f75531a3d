-- ===== src/Files.antt =====
-- src/files.c: the tool `files`, which sums up the files below a directory by their types. pfile is
-- called for each file; it keeps a table of types with linear probing. What libmagic says of a file is
-- part of the file. A null pointer or a type of 80 characters or more, which strncpy leaves without
-- its end, is undefined behaviour. The lists of the users and groups that were found are left out.
pub mod Slots
pub mod Search
pub mod Insert
pub mod Types
pub mod Filed
pub mod Profile
pub mod Sums
pub mod Total
use ipm_nci.Base.{
  ℕ, zero, suc, ◌+◌, ◌-◌, ◌*◌, ◌/◌, ◌%◌, ◌^◌, bit_xor, Bool, true, false, not, ◌&&◌, ◌||◌,
  if◌then◌else◌, ◌==◌, ltb, List, [], ◌∷◌, length, get_or, set, replicate, Option, none, some, ◌≡◌,
}
use ipm_nci.Base.Strings.{Str, str_eq, strn_eq, strncpy}
use ipm_nci.Hash.{add64}

-- A run that ends, in exit(1), in undefined behaviour, or not within the fuel.
pub data Walk {ℓ} (A : Type ℓ) : Type ℓ where
  done : A → Walk A
  exited : Walk A
  undefined : Walk A
  no_fuel : Walk A

infixl 5 ◌>>=◌
abbrev pub ◌>>=◌ {ℓ κ} : {A : Type ℓ} {B : Type κ} → Walk A → (A → Walk B) → Walk B
done a >>= f = f a
exited >>= f = exited
undefined >>= f = undefined
no_fuel >>= f = no_fuel

pub done-injective {ℓ} : {A : Type ℓ} {a b : A} → done a ≡ done b → a ≡ b
done-injective e = cc

abbrev pub maxlen_ftype : ℕ
maxlen_ftype = 80

abbrev pub maxlen_fname : ℕ
maxlen_fname = 800

-- A value such as byte_min, and the file that has it, byte_minf.
pub record Extreme : Type 0 where
  pub value : ℕ
  pub fname : Str

-- ftype_ent
pub record Bucket : Type 0 where
  pub desc : Str
  pub nfile : ℕ
  pub nbyte : ℕ
  pub nblock : ℕ
  pub cage_avg : ℕ
  pub mage_avg : ℕ
  pub cage_min : Extreme
  pub cage_max : Extreme
  pub mage_min : Extreme
  pub mage_max : Extreme
  pub byte_min : Extreme
  pub byte_max : Extreme
  pub block_min : Extreme
  pub block_max : Extreme

abbrev no_extreme : Extreme
no_extreme = record { value = 0; fname = [] }

-- CLEAR_FTYPE
abbrev pub cleared : Bucket
cleared = record {
  desc = [];
  nfile = 0;
  nbyte = 0;
  nblock = 0;
  cage_avg = 0;
  mage_avg = 0;
  cage_min = no_extreme;
  cage_max = no_extreme;
  mage_min = no_extreme;
  mage_max = no_extreme;
  byte_min = no_extreme;
  byte_max = no_extreme;
  block_min = no_extreme;
  block_max = no_extreme;
}

-- A file: its name, what pfile reads of its stat, and its type by libmagic, none for NULL.
pub record File : Type 0 where
  pub fname : Str
  pub uid : ℕ
  pub gid : ℕ
  pub size : ℕ
  pub blocks : ℕ
  pub blksize : ℕ
  pub ctime : ℕ
  pub mtime : ℕ
  pub magic : Option Str

-- The options that select files: JUST_CORE, and the lists of users and groups.
pub record Filter : Type 0 where
  pub just_core : Bool
  pub users : Option (List ℕ)
  pub groups : Option (List ℕ)

-- The table t, the static variables of pfile, and blocksize, none for -1.
pub record Survey : Type 0 where
  pub buckets : List Bucket
  pub ftype_last : Str
  pub key_last : ℕ
  pub blocksize : Option ℕ

-- The part before the first comma.
before_comma : Str → Str
before_comma [] = []
before_comma (c ∷ s) = let rest = before_comma s in if c == 44 then [] else c ∷ rest

-- !strncmp(s, p, strlen(p))
starts : Str → Str → Bool
starts s p = strn_eq (length p) s p

-- strstr
contains : Str → Str → Bool
unfolding starts
contains [] p = starts [] p
contains (c ∷ s) p = starts (c ∷ s) p || contains s p

-- The loop over truncate_prefix, which the first match ends, and the same over truncate_abbriv.
shorten : (Str → Str → Bool) → List Str → Str → Str
shorten matches [] s = s
shorten matches (p ∷ ps) s = if matches s p then p else shorten matches ps s

-- "symbolic link"
abbrev symbolic_link : Str
symbolic_link = 115 ∷ 121 ∷ 109 ∷ 98 ∷ 111 ∷ 108 ∷ 105 ∷ 99 ∷ 32 ∷ 108 ∷ 105 ∷ 110 ∷ 107 ∷ []

-- "broken symbolic link"
abbrev broken_link : Str
broken_link =
    98 ∷ 114 ∷ 111 ∷ 107 ∷ 101 ∷ 110 ∷ 32 ∷ 115 ∷ 121 ∷ 109 ∷ 98 ∷ 111 ∷ 108 ∷ 105 ∷ 99 ∷ 32 ∷ 108
    ∷ 105 ∷ 110 ∷ 107 ∷ []

-- "script text"
abbrev script_text : Str
script_text = 115 ∷ 99 ∷ 114 ∷ 105 ∷ 112 ∷ 116 ∷ 32 ∷ 116 ∷ 101 ∷ 120 ∷ 116 ∷ []

-- "ELF 32-bit LSB executable"
abbrev elf_executable : Str
elf_executable =
    69 ∷ 76 ∷ 70 ∷ 32 ∷ 51 ∷ 50 ∷ 45 ∷ 98 ∷ 105 ∷ 116 ∷ 32 ∷ 76 ∷ 83 ∷ 66 ∷ 32 ∷ 101 ∷ 120 ∷ 101
    ∷ 99 ∷ 117 ∷ 116 ∷ 97 ∷ 98 ∷ 108 ∷ 101 ∷ []

abbrev truncate_prefix : List Str
truncate_prefix = symbolic_link ∷ broken_link ∷ []

abbrev truncate_abbriv : List Str
truncate_abbriv = script_text ∷ elf_executable ∷ []

-- The type under which a file is counted: ftype_local.
unfoldable pub ftype_of : Str → Str
unfolding before_comma shorten starts contains
ftype_of magic =
    shorten contains truncate_abbriv
      (shorten starts truncate_prefix (before_comma (strncpy maxlen_ftype magic)))

-- Whether ftype_local is a string after strncpy.
unfoldable pub is_typed : Option Str → Bool
is_typed none = false
is_typed (some m) = ltb (length m) maxlen_ftype

-- The same from what libmagic says, where there is a type.
unfoldable pub magic_type : Option Str → Str
unfolding ftype_of
magic_type none = []
magic_type (some m) = ftype_of m

-- A signed char as an unsigned int.
abbrev char_value : ℕ → ℕ
char_value c = if ltb c 128 then c else c + (2 ^ 32 - 256)

-- One turn of strhash, in arithmetic on unsigned int.
abbrev hash_turn : ℕ → ℕ → ℕ
hash_turn sum c = bit_xor (bit_xor (sum * 16 % 2 ^ 32) (sum / 2 ^ 28)) (char_value c)

hash_from : ℕ → Str → ℕ
hash_from sum [] = sum
hash_from sum (c ∷ s) = hash_from (hash_turn sum c) s

unfoldable pub strhash : Str → ℕ
unfolding hash_from
strhash s = hash_from 0 s

-- A type of a bucket is compared in its first MAXLEN_FTYPE characters.
unfoldable pub same_type : Str → Str → Bool
same_type a b = strn_eq maxlen_ftype a b

abbrev pub bucket : List Bucket → ℕ → Bucket
bucket es key = get_or es key cleared

-- `((key<ftypes_max-1)?(key+1):(0))`
abbrev pub next_key : ℕ → ℕ → ℕ
next_key max key = if ltb key (max - 1) then key + 1 else 0

-- The condition of the while loop.
abbrev pub is_taken : List Bucket → Str → ℕ → Bool
is_taken es ftype key =
    not ((bucket es key).nfile == 0) && not (same_type (bucket es key).desc ftype)

-- The while loop; `fuel` is for its rounds.
unfoldable pub seek : ℕ → List Bucket → Str → ℕ → ℕ → ℕ → Walk ℕ
seek max es ftype zero key collisions = no_fuel
seek max es ftype (suc fuel) key collisions = elim (is_taken es ftype key) [
  | false ↦ done key
  | true ↦ elim (collisions + 1 == max - 1) [
    | true ↦ exited
    | false ↦ seek max es ftype fuel (next_key max key) (collisions + 1)
  ]
]

abbrev named : ℕ → Str → Extreme
named v f = record { value = v; fname = strncpy maxlen_fname f }

-- The branch for a free bucket; block_minf and block_maxf stay.
unfoldable pub claim : File → Str → Bucket → Bucket
claim f ftype b = record b {
  desc = strncpy maxlen_ftype ftype;
  nfile = 1;
  nbyte = f.size;
  nblock = f.blocks;
  cage_avg = f.ctime;
  mage_avg = f.mtime;
  cage_min = named f.ctime f.fname;
  cage_max = named f.ctime f.fname;
  mage_min = named f.mtime f.fname;
  mage_max = named f.mtime f.fname;
  byte_min = named f.size f.fname;
  byte_max = named f.size f.fname;
  block_min = record b.block_min { value = f.blocks };
  block_max = record b.block_max { value = f.blocks };
}

abbrev lower : ℕ → Str → Extreme → Extreme
lower v f e = if ltb v e.value then named v f else e

abbrev higher : ℕ → Str → Extreme → Extreme
higher v f e = if ltb e.value v then named v f else e

-- The branch for a bucket with the type.
unfoldable pub add_file : File → Bucket → Bucket
add_file f b = record b {
  nfile = add64 b.nfile 1;
  nbyte = add64 b.nbyte f.size;
  nblock = add64 b.nblock f.blocks;
  cage_avg = b.cage_avg + f.ctime;
  mage_avg = b.mage_avg + f.mtime;
  cage_min = lower f.ctime f.fname b.cage_min;
  cage_max = higher f.ctime f.fname b.cage_max;
  mage_min = lower f.mtime f.fname b.mage_min;
  mage_max = higher f.mtime f.fname b.mage_max;
  byte_max = higher f.size f.fname b.byte_max;
  byte_min = lower f.size f.fname b.byte_min;
  block_max = higher f.blocks f.fname b.block_max;
  block_min = lower f.blocks f.fname b.block_min;
}

unfoldable pub count_file : File → Str → Bucket → Bucket
unfolding claim add_file
count_file f ftype b = if b.nfile == 0 then claim f ftype b else add_file f b

among : ℕ → List ℕ → Bool
among x [] = false
among x (y ∷ ys) = x == y || among x ys

abbrev listed : Option (List ℕ) → ℕ → Bool
listed none x = true
listed (some xs) x = among x xs

-- The filter.
unfoldable pub selected : Filter → File → Bool
unfolding among
selected o f = not o.just_core && (listed o.users f.uid && listed o.groups f.gid)

abbrev grow : Option ℕ → ℕ → Option ℕ
grow none n = some n
grow (some m) n = if ltb m n then some n else some m

-- Where the bucket of a type is: the last one, or what the loop finds.
unfoldable pub find_key : ℕ → ℕ → Survey → Str → Walk ℕ
unfolding strhash
find_key max fuel s ftype = elim (same_type ftype s.ftype_last) [
  | true ↦ done s.key_last
  | false ↦ seek max s.buckets ftype fuel (strhash ftype % max) 0
]

-- The file is counted in a bucket.
unfoldable pub file_in : File → Survey → ℕ → Survey
unfolding count_file magic_type
file_in f s key = record {
  buckets = set s.buckets key (count_file f (magic_type f.magic) (bucket s.buckets key));
  ftype_last = magic_type f.magic;
  key_last = key;
  blocksize = grow s.blocksize f.blksize;
}

unfoldable pub pfile : ℕ → ℕ → Filter → File → Survey → Walk Survey
unfolding magic_type is_typed find_key file_in selected
pfile max fuel o f s =
    if selected o f
    then if is_typed f.magic
      then find_key max fuel s (magic_type f.magic) >>= (λ key. done (file_in f s key))
      else undefined
    else done s

-- "NULL"
abbrev pub null_type : Str
null_type = 78 ∷ 85 ∷ 76 ∷ 76 ∷ []

-- The table is cleared, and the static variables have their first values.
unfoldable pub start : ℕ → Survey
start max = record {
  buckets = replicate max cleared;
  ftype_last = null_type;
  key_last = 0;
  blocksize = none;
}

-- The walk over the files.
unfoldable pub survey : ℕ → ℕ → Filter → Survey → List File → Walk Survey
survey max fuel o s [] = done s
survey max fuel o s (f ∷ fs) = pfile max fuel o f s >>= λ u. survey max fuel o u fs
