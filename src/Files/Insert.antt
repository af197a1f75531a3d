-- ===== src/Files/Insert.antt =====
-- src/files.c: what counting a file does to the table.
use ipm_nci.Base.{
  ℕ, ◌+◌, ◌^◌, ◌<◌, ◌≤◌, ◌≡◌, ◌≢◌, refl, sym, ap, ◌∙◌, subst, arith, List, false, length, set,
  length-set, get_or-set_self, get_or-set_ne, ℕ_discrete, ==_iff, ==_of_ne, Option, none, some,
}
use ipm_nci.Base.Strings.{Str}
use ipm_nci.Files.Search.{probe, Missed, IsPlaced, Ends, vacant, found, probe-lt, only_bucket}
use ipm_nci.Files.Slots.{
  nfile_at, type_at, IsShort, taken, taken-set_claim, taken-set_same, has_type, has_type-yes,
  has_type-no, lookup, lookup-here, lookup-none, lookup-set_self, lookup-set_other,
}
use ipm_nci.Files.{Bucket, cleared, bucket, File, count_file, claim, add_file}

-- The bucket of a type with one more file.
unfoldable pub tally_file : File → Str → Option Bucket → Bucket
tally_file f q none = claim f q cleared
tally_file f q (some b) = add_file f b

-- 1 for a type that is new.
abbrev pub if_none : Option Bucket → ℕ
if_none none = 1
if_none (some b) = 0

module _ (max : ℕ) (two : 2 ≤ max) (es : List Bucket) (placed : IsPlaced max es) (q : Str)
    (short : IsShort q) (c : ℕ) (lt : c < max) (missed : Missed max es q c)
    (ends : Ends max es q c) where
  abbrev at : ℕ
  at = probe max q c

  inside : at < length es
  inside = omega (arith, placed.size, probe-lt max two q c lt)

  -- Another bucket has another type.
  apart : (j : ℕ) → j ≢ at → nfile_at es j ≢ 0 → type_at es j ≢ q
  apart j ne some_files e = ne (only_bucket max two q es c placed missed ends j some_files e)

  only : (j : ℕ) → j ≢ at → has_type (bucket es j) q ≡ false
  only j ne = has_type-no (bucket es j) q (apart j ne)

  module _ (v : Bucket) (v_count : v.nfile ≢ 0) (v_type : v.desc ≡ q) where
    here : bucket (set es at v) at ≡ v
    here = get_or-set_self es at v cleared inside

    there : (j : ℕ) → at ≢ j → bucket (set es at v) j ≡ bucket es j
    there j ne = get_or-set_ne es at j v cleared ne

    -- A property of a bucket, from that of the new one and of the others.
    by_bucket :
        (P : Bucket → ℕ → Type 0)
        → P v at
        → ((j : ℕ) → at ≢ j → P (bucket es j) j)
        → (j : ℕ) → P (bucket (set es at v) j) j
    by_bucket P new others j = elim (ℕ_discrete at j) [
      | yes e ↦
          subst (λ (j : ℕ). P (bucket (set es at v) j) j) e
            (subst (λ (b : Bucket). P b at) (sym here) new)
      | no ne ↦ subst (λ (b : Bucket). P b j) (sym (there j ne)) (others j ne)
    ]

    -- Probes of a type that miss still miss, unless the type is q.
    Missed-set : (r : Str) (d : ℕ) → r ≢ q → Missed max es r d → Missed max (set es at v) r d
    Missed-set r d ne before k l =
        by_bucket (λ b j. probe max r k ≡ j → (b.nfile ≢ 0) × (b.desc ≢ r))
          (λ _. (v_count, λ e. ne (sym e ∙ v_type)))
          (λ j _ e. subst (λ (j : ℕ). (nfile_at es j ≢ 0) × (type_at es j ≢ r)) e (before k l))
          (probe max r k) refl

    Missed-set_own : Missed max (set es at v) q c
    Missed-set_own k l =
        subst (λ (b : Bucket). (b.nfile ≢ 0) × (b.desc ≢ q))
          (sym (there (probe max q k) (away ends))) (missed k l)
      where
        away : Ends max es q c → at ≢ probe max q k
        away (vacant e) same = (missed k l).0 (ap (nfile_at es) (sym same) ∙ e)
        away (found ne e) same = (missed k l).1 (ap (type_at es) (sym same) ∙ e)

    pub set-IsPlaced : IsPlaced max (set es at v)
    set-IsPlaced = record {
      size = length-set es at v ∙ placed.size;
      free =
          by_bucket (λ b j. b.nfile ≡ 0 → b ≡ cleared) (λ e. absurd (v_count e))
            (λ j _. placed.free j);
      short =
          by_bucket (λ b j. IsShort b.desc) (subst IsShort (sym v_type) short)
            (λ j _. placed.short j);
      reached =
          by_bucket
            (λ b j.
              b.nfile ≢ 0
              → (d : ℕ) × (d < max) × (probe max b.desc d ≡ j) × Missed max (set es at v) b.desc d)
            (λ _.
              subst
                (λ (r : Str).
                  (d : ℕ) × (d < max) × (probe max r d ≡ at) × Missed max (set es at v) r d)
                (sym v_type) (c, lt, refl, Missed-set_own))
            (λ j ne some_files.
              let (d, less, goes, before) = placed.reached j some_files in
              (
                d,
                less,
                goes,
                Missed-set (type_at es j) d (apart j (λ e. ne (sym e)) some_files) before,
              ));
    }

    pub lookup-set_own : lookup (set es at v) q ≡ some v
    lookup-set_own = lookup-set_self es at q v inside only (has_type-yes v q v_count v_type)

    pub lookup-set_ne : (r : Str) → r ≢ q → lookup (set es at v) r ≡ lookup es r
    lookup-set_ne r ne =
        lookup-set_other es at r v (has_type-no (bucket es at) r (other_type ends))
          (has_type-no v r (λ _ e. ne (sym e ∙ v_type)))
      where
        other_type : Ends max es q c → nfile_at es at ≢ 0 → type_at es at ≢ r
        other_type (vacant e) some_files = absurd (some_files e)
        other_type (found _ e) some_files = λ p. ne (sym p ∙ e)

  -- What counting a file of the type leaves, with v in the bucket.
  pub record Counted (f : File) (v : Bucket) : Type 0 where
    pub placed' : IsPlaced max (set es at v)
    pub reads : lookup (set es at v) q ≡ some (tally_file f q (lookup es q))
    pub others : (r : Str) → r ≢ q → lookup (set es at v) r ≡ lookup es r
    pub grown : taken (set es at v) ≡ taken es + if_none (lookup es q)
    pub new : bucket (set es at v) at ≡ v
    pub kept : (j : ℕ) → at ≢ j → bucket (set es at v) j ≡ bucket es j
    pub has_files : v.nfile ≢ 0
    pub has_own : v.desc ≡ q
    pub bound : v.nfile ≤ nfile_at es at + 1

  absent : nfile_at es at ≡ 0 → lookup es q ≡ none
  absent e = lookup-none es q (λ j. has_type-no (bucket es j) q (λ some_files p.
      let same = only_bucket max two q es c placed missed ends j some_files p in
      some_files (ap (nfile_at es) same ∙ e)))

  claim-Counted : (f : File) → nfile_at es at ≡ 0 → Counted f (claim f q (bucket es at))
  unfolding claim tally_file
  claim-Counted f e =
      let v = claim f q (bucket es at) in
      let v_count : v.nfile ≢ 0 = omega arith in
      record {
        placed' = set-IsPlaced v v_count short;
        reads = lookup-set_own v v_count short ∙ rw (absent e, placed.free at e) refl;
        others = lookup-set_ne v v_count short;
        grown = taken-set_claim es at v inside e v_count ∙ rw (absent e) refl;
        new = here v v_count short;
        kept = there v v_count short;
        has_files = v_count;
        has_own = short;
        bound = omega arith;
      }

  add-Counted :
      (f : File)
      → nfile_at es at + 1 < 2 ^ 64
      → nfile_at es at ≢ 0
      → type_at es at ≡ q
      → Counted f (add_file f (bucket es at))
  unfolding add_file tally_file
  add-Counted f few ne e =
      let v = add_file f (bucket es at) in
      let v_count : v.nfile ≢ 0 = omega (arith, few) in
      let known : lookup es q ≡ some (bucket es at) =
        lookup-here es at q inside only (has_type-yes (bucket es at) q ne e) in
      record {
        placed' = set-IsPlaced v v_count e;
        reads = lookup-set_own v v_count e ∙ rw known refl;
        others = lookup-set_ne v v_count e;
        grown = taken-set_same es at v ne v_count ∙ rw known (omega arith);
        new = here v v_count e;
        kept = there v v_count e;
        has_files = v_count;
        has_own = e;
        bound = omega (arith, few);
      }

  pub count-Counted :
      (f : File) → nfile_at es at + 1 < 2 ^ 64 → Counted f (count_file f q (bucket es at))
  unfolding count_file
  count-Counted f few = by_end ends
    where
      by_end : Ends max es q c → Counted f (count_file f q (bucket es at))
      by_end (vacant e) = rw ((==_iff (nfile_at es at) 0).1 e) (claim-Counted f e)
      by_end (found ne e) = rw (==_of_ne (nfile_at es at) 0 ne) (add-Counted f few ne e)
