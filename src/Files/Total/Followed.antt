-- ===== src/Files/Total/Followed.antt =====
-- src/files.c, main: the types after the first, in the first pass.
use ipm_nci.Base.{
  ℕ, ◌+◌, ◌%◌, ◌^◌, ◌<◌, ◌≤◌, ◌≡◌, ◌≢◌, refl, sym, ap, subst, arith, List, [], ◌∷◌, if◌then◌else◌,
  ◌==◌, ℕ_discrete, ==_iff, ==_of_ne,
}
use ipm_nci.Files.Slots.{taken}
use ipm_nci.Files.{Bucket}
use ipm_nci.Files.Total.{Total, add_row, total_turn, total_loop}

unfoldable pub over : (Bucket → ℕ) → List Bucket → ℕ
over x [] = 0
over x (b ∷ bs) = (if b.nfile == 0 then 0 else x b) + over x bs

-- nblock of the first bucket that is taken.
unfoldable pub first_blocks : List Bucket → ℕ
first_blocks [] = 0
first_blocks (b ∷ bs) = if b.nfile == 0 then first_blocks bs else b.nblock

-- The ages of every type are between those of the row.
abbrev pub AreBetween : Bucket → List Bucket → Type 0
AreBetween row [] = Unit
AreBetween row (b ∷ bs) =
    (b.nfile ≢ 0
      → (row.cage_min.value ≤ b.cage_min.value)
        × (b.cage_max.value ≤ row.cage_max.value)
        × (row.mage_min.value ≤ b.mage_min.value)
        × (b.mage_max.value ≤ row.mage_max.value))
    × AreBetween row bs

-- A row that is begun, and the types that follow.
pub record Followed (row : Bucket) (bs : List Bucket) (t u : Total) : Type 0 where
  pub files : u.row.nfile ≡ row.nfile + over (λ b. b.nfile) bs
  pub bytes : u.row.nbyte % 2 ^ 64 ≡ (row.nbyte + over (λ b. b.nbyte) bs) % 2 ^ 64
  pub blocks : u.row.nblock % 2 ^ 64 ≡ (row.nblock + over (λ b. b.nblock) bs) % 2 ^ 64
  pub num : u.num ≡ t.num + taken bs
  pub low : u.row.cage_min.value ≤ row.cage_min.value
  pub high : row.cage_max.value ≤ u.row.cage_max.value
  pub low' : u.row.mage_min.value ≤ row.mage_min.value
  pub high' : row.mage_max.value ≤ u.row.mage_max.value
  pub between : AreBetween u.row bs
  pub none_smaller : u.row.byte_min.value ≤ row.byte_min.value

pub pass_over : (b : Bucket) (t : Total) → b.nfile ≡ 0 → total_turn b t ≡ t
unfolding total_turn
pass_over b t e = rw ((==_iff b.nfile 0).1 e) refl

pub go_on :
    (b : Bucket) (t : Total)
    → b.nfile ≢ 0
    → t.row.nfile ≢ 0
    → total_turn b t ≡ record { row = add_row b t.row; num = t.num + 1 }
unfolding total_turn
go_on b t ne ne' = rw (==_of_ne b.nfile 0 ne, ==_of_ne t.row.nfile 0 ne') refl

pub over-free :
    (x : Bucket → ℕ) (b : Bucket) (bs : List Bucket) → b.nfile ≡ 0 → over x (b ∷ bs) ≡ over x bs
unfolding over
over-free x b bs e = rw ((==_iff b.nfile 0).1 e) (omega arith)

pub over-taken :
    (x : Bucket → ℕ) (b : Bucket) (bs : List Bucket)
    → b.nfile ≢ 0
    → over x (b ∷ bs) ≡ x b + over x bs
unfolding over
over-taken x b bs ne = rw (==_of_ne b.nfile 0 ne) refl

pub taken-free : (b : Bucket) (bs : List Bucket) → b.nfile ≡ 0 → taken (b ∷ bs) ≡ taken bs
unfolding taken
taken-free b bs e = rw ((==_iff b.nfile 0).1 e) (omega arith)

pub taken-one : (b : Bucket) (bs : List Bucket) → b.nfile ≢ 0 → taken (b ∷ bs) ≡ 1 + taken bs
unfolding taken
taken-one b bs ne = rw (==_of_ne b.nfile 0 ne) refl

-- A free bucket in front.
free-Followed :
    (row b : Bucket) (bs : List Bucket) (t u : Total)
    → b.nfile ≡ 0
    → Followed row bs t u
    → Followed row (b ∷ bs) t u
free-Followed row b bs t u e s = record {
  files = omega (arith, s.files, over-free (λ b. b.nfile) b bs e);
  bytes = rw (over-free (λ b. b.nbyte) b bs e) s.bytes;
  blocks = rw (over-free (λ b. b.nblock) b bs e) s.blocks;
  num = omega (arith, s.num, taken-free b bs e);
  low = s.low;
  high = s.high;
  low' = s.low';
  high' = s.high';
  between = ((λ ne. absurd (ne e)), s.between);
  none_smaller = s.none_smaller;
}

-- A type that is added before others.
added-Followed :
    (b : Bucket) (bs : List Bucket) (t u : Total)
    → b.nfile ≢ 0
    → t.row.nfile + b.nfile < 2 ^ 64
    → Followed (add_row b t.row) bs (record { row = add_row b t.row; num = t.num + 1 }) u
    → Followed t.row (b ∷ bs) t u
unfolding add_row
added-Followed b bs t u ne few s = record {
  files = omega (arith, s.files, over-taken (λ b. b.nfile) b bs ne);
  bytes = omega (arith, s.bytes, over-taken (λ b. b.nbyte) b bs ne);
  blocks = omega (arith, s.blocks, over-taken (λ b. b.nblock) b bs ne);
  num = omega (arith, s.num, taken-one b bs ne);
  low = ground (arith, s.low);
  high = ground (arith, s.high);
  low' = ground (arith, s.low');
  high' = ground (arith, s.high');
  between = (
    (λ _. (
      ground (arith, s.low),
      ground (arith, s.high),
      ground (arith, s.low'),
      ground (arith, s.high'),
    )),
    s.between,
  );
  none_smaller = ground (arith, s.none_smaller);
}

pub grown :
    (b row : Bucket) → row.nfile ≢ 0 → row.nfile + b.nfile < 2 ^ 64 → (add_row b row).nfile ≢ 0
unfolding add_row
grown b row ne few = omega (arith, ne, few)

within :
    (b : Bucket) (bs : List Bucket) (row : Bucket)
    → row.nfile + over (λ b. b.nfile) (b ∷ bs) < 2 ^ 64
    → over (λ b. b.nfile) (b ∷ bs) ≡ b.nfile + over (λ b. b.nfile) bs
    → (add_row b row).nfile + over (λ b. b.nfile) bs < 2 ^ 64
unfolding add_row
within b bs row few more = omega (arith, few, more)

pub loop-Followed :
    (bs : List Bucket) (t : Total)
    → t.row.nfile ≢ 0
    → t.row.nfile + over (λ b. b.nfile) bs < 2 ^ 64
    → Followed t.row bs t (total_loop bs t)
unfolding total_loop over taken
loop-Followed [] t begun few = record {
  files = omega arith;
  bytes = ap (λ (n : ℕ). n % 2 ^ 64) (omega arith);
  blocks = ap (λ (n : ℕ). n % 2 ^ 64) (omega arith);
  num = omega arith;
  low = omega arith;
  high = omega arith;
  low' = omega arith;
  high' = omega arith;
  between = tt;
  none_smaller = omega arith;
}
loop-Followed (b ∷ bs) t begun few = elim (ℕ_discrete b.nfile 0) [
  | yes e ↦
      subst (λ (v : Total). Followed t.row (b ∷ bs) t (total_loop bs v)) (sym (pass_over b t e))
        (free-Followed t.row b bs t (total_loop bs t) e
          (loop-Followed bs t begun (omega (arith, few, over-free (λ b. b.nfile) b bs e))))
  | no ne ↦
      let more = over-taken (λ b. b.nfile) b bs ne in
      let v : Total = record { row = add_row b t.row; num = t.num + 1 } in
      subst (λ (v : Total). Followed t.row (b ∷ bs) t (total_loop bs v)) (sym (go_on b t ne begun))
        (added-Followed b bs t (total_loop bs v) ne (omega (arith, few, more)) (
          loop-Followed bs v (grown b t.row begun (omega (arith, few, more)))
            (within b bs t.row few more)))
]
