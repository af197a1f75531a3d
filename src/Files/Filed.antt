-- ===== src/Files/Filed.antt =====
-- src/files.c: pfile on one file.
use ipm_nci.Base.{
  ℕ, suc, ◌+◌, ◌^◌, ◌<◌, ◌≤◌, ◌≡◌, ◌≢◌, refl, sym, ap, ◌∙◌, subst, arith, ◌⊎◌, inl, inr, true,
  if◌then◌else◌, ℕ_discrete, some, Bool-cases,
}
use ipm_nci.Base.Strings.{Str, str_eq, eq_of_str_eq, str_eq_refl}
use ipm_nci.Files.Insert.{tally_file, if_none, count-Counted}
use ipm_nci.Files.Search.{probe, Missed, IsPlaced, Ends, found, seek-Ends}
use ipm_nci.Files.Slots.{nfile_at, type_at, IsShort, same_type-cases, step, taken, lookup}
use ipm_nci.Files.Types.{magic_type-IsShort}
use ipm_nci.Files.{
  Bucket, File, Filter, Survey, selected, magic_type, find_key, pfile, null_type, file_in,
  same_type, is_typed, done,
}

-- What holds of the survey after m files.
pub record IsValid (max m : ℕ) (s : Survey) : Type 0 where
  pub placed : IsPlaced max s.buckets
  pub counted : (j : ℕ) → nfile_at s.buckets j ≤ m
  pub short : IsShort s.ftype_last
  pub last :
      (s.ftype_last ≡ null_type)
      ⊎ ((nfile_at s.buckets s.key_last ≢ 0) × (type_at s.buckets s.key_last ≡ s.ftype_last))

module _ (max fuel : ℕ) (two : 2 ≤ max) (enough : max ≤ fuel) (m : ℕ) (s : Survey)
    (v : IsValid max m s) (room : taken s.buckets + 1 < max) where
  find_key-Ends :
      (q : Str)
      → IsShort q
      → q ≢ null_type
      → (c : ℕ) × (c < max)
        × (find_key max fuel s q ≡ done (probe max q c))
        × Missed max s.buckets q c
        × Ends max s.buckets q c
  unfolding find_key same_type step
  find_key-Ends q short named = elim (same_type-cases q s.ftype_last short v.short) [
    | inl (e, t) ↦ rw t (cached e v.last)
    | inr (e, t) ↦ rw t (
        seek-Ends max two q s.buckets fuel 0 v.placed short room (omega (arith, enough))
          (omega (arith, two)) (λ d l. absurd (omega (arith, l))))
  ]
    where
      cached :
          q ≡ s.ftype_last
          → (s.ftype_last ≡ null_type)
            ⊎ ((nfile_at s.buckets s.key_last ≢ 0) × (type_at s.buckets s.key_last ≡ s.ftype_last))
          → (c : ℕ) × (c < max)
            × (done s.key_last ≡ done (probe max q c))
            × Missed max s.buckets q c
            × Ends max s.buckets q c
      cached e (inl p) = absurd (named (e ∙ p))
      cached e (inr (ne, p)) =
          let own : type_at s.buckets s.key_last ≡ q = p ∙ sym e in
          let (c, lt, at, missed) = v.placed.reached s.key_last ne in
          let goes : probe max q c ≡ s.key_last =
            subst (λ (r : Str). probe max r c ≡ s.key_last) own at in
          (
            c,
            lt,
            ap done (sym goes),
            subst (λ (r : Str). Missed max s.buckets r c) own missed,
            found (λ z. ne (ap (nfile_at s.buckets) (sym goes) ∙ z))
                (ap (type_at s.buckets) goes ∙ own),
          )

  pfile-file_in :
      (o : Filter) (f : File) (key : ℕ)
      → selected o f ≡ true
      → is_typed f.magic ≡ true
      → find_key max fuel s (magic_type f.magic) ≡ done key
      → pfile max fuel o f s ≡ done (file_in f s key)
  unfolding pfile
  pfile-file_in o f key chosen typed run = rw chosen (rw typed (rw run refl))

  -- A file that is selected.
  pub record Filed (f : File) (u : Survey) : Type 0 where
    pub valid : IsValid max (suc m) u
    pub reads :
        lookup u.buckets (magic_type f.magic)
        ≡ some (tally_file f (magic_type f.magic) (lookup s.buckets (magic_type f.magic)))
    pub others : (r : Str) → r ≢ magic_type f.magic → lookup u.buckets r ≡ lookup s.buckets r
    pub grown : taken u.buckets ≡ taken s.buckets + if_none (lookup s.buckets (magic_type f.magic))

  pub pfile-Filed :
      (o : Filter) (f : File)
      → suc m < 2 ^ 64
      → magic_type f.magic ≢ null_type
      → selected o f ≡ true
      → is_typed f.magic ≡ true
      → (u : Survey) × (pfile max fuel o f s ≡ done u) × Filed f u
  unfolding file_in
  pfile-Filed o f few named chosen typed =
      let q = magic_type f.magic in
      let short = magic_type-IsShort f.magic in
      let (c, lt, run, missed, ends) = find_key-Ends q short named in
      let key = probe max q c in
      let counted =
        count-Counted max two s.buckets v.placed q short c lt missed ends f
          (omega (arith, few, v.counted key)) in
      (
        file_in f s key,
        pfile-file_in o f key chosen typed run,
        record {
          valid = record {
            placed = counted.placed';
            counted = λ j. elim (ℕ_discrete key j) [
              | yes e ↦
                  subst (λ (j : ℕ). nfile_at (file_in f s key).buckets j ≤ suc m) e
                    (omega (
                      arith,
                      ap (λ (b : Bucket). b.nfile) counted.new,
                      counted.bound,
                      v.counted key,
                    ))
              | no ne ↦ omega (arith, ap (λ (b : Bucket). b.nfile) (counted.kept j ne), v.counted j)
            ];
            short = short;
            last = inr (
              subst (λ (b : Bucket). b.nfile ≢ 0) (sym counted.new) counted.has_files,
              ap (λ (b : Bucket). b.desc) counted.new ∙ counted.has_own,
            );
          };
          reads = counted.reads;
          others = counted.others;
          grown = counted.grown;
        },
      )

  -- The table after a file, type by type.
  pub lookup-Filed :
      (f : File) (u : Survey)
      → Filed f u
      → (r : Str)
      → lookup u.buckets r ≡ (
          if str_eq r (magic_type f.magic)
          then some (tally_file f r (lookup s.buckets r))
          else lookup s.buckets r)
  lookup-Filed f u filed r = elim (Bool-cases (str_eq r (magic_type f.magic))) [
    | inl t ↦
        let same = eq_of_str_eq r (magic_type f.magic) t in
        rw t (
          subst (λ (r : Str). lookup u.buckets r ≡ some (tally_file f r (lookup s.buckets r)))
            (sym same) filed.reads)
    | inr t ↦ rw t (
        filed.others r (λ same.
          let yes : str_eq r (magic_type f.magic) ≡ true =
            ap (str_eq r) (sym same) ∙ str_eq_refl r in
          cc))
  ]
