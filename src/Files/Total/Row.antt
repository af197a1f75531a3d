-- ===== src/Files/Total/Row.antt =====
-- src/files.c, main: what the first pass leaves.
use ipm_nci.Base.{
  ◌+◌, ◌%◌, ◌^◌, ◌<◌, ◌≡◌, ◌≢◌, refl, sym, subst, arith, List, [], ◌∷◌, ℕ_discrete, ==_iff,
  ==_of_ne,
}
use ipm_nci.Files.Slots.{taken}
use ipm_nci.Files.{Bucket, cleared}
use ipm_nci.Files.Total.{Total, begin_row, total_turn, total_loop, first_pass}
use ipm_nci.Files.Total.Followed.{
  over, first_blocks, AreBetween, Followed, pass_over, over-free, over-taken, taken-free, taken-one,
  loop-Followed,
}

abbrev none_yet : Total
none_yet = record { row = record cleared { desc = 42 ∷ [] }; num = 0 }

-- What the first pass leaves.
pub record IsTotal (es : List Bucket) (u : Total) : Type 0 where
  pub files : u.row.nfile ≡ over (λ b. b.nfile) es
  pub bytes : u.row.nbyte % 2 ^ 64 ≡ over (λ b. b.nbyte) es % 2 ^ 64
  pub blocks : (u.row.nblock + first_blocks es) % 2 ^ 64 ≡ over (λ b. b.nblock) es % 2 ^ 64
  pub num : u.num ≡ taken es
  pub between : AreBetween u.row es
  pub no_smallest : u.row.byte_min.value ≡ 0

first_blocks-free :
    (b : Bucket) (bs : List Bucket) → b.nfile ≡ 0 → first_blocks (b ∷ bs) ≡ first_blocks bs
unfolding first_blocks
first_blocks-free b bs e = rw ((==_iff b.nfile 0).1 e) refl

first_blocks-taken :
    (b : Bucket) (bs : List Bucket) → b.nfile ≢ 0 → first_blocks (b ∷ bs) ≡ b.nblock
unfolding first_blocks
first_blocks-taken b bs ne = rw (==_of_ne b.nfile 0 ne) refl

start_with :
    (b : Bucket)
    → b.nfile ≢ 0
    → total_turn b none_yet ≡ record { row = begin_row b none_yet.row; num = 1 }
unfolding total_turn
start_with b ne = rw (==_of_ne b.nfile 0 ne) refl

begun-IsTotal :
    (b : Bucket) (bs : List Bucket) (u : Total)
    → b.nfile ≢ 0
    → Followed (begin_row b none_yet.row) bs (record { row = begin_row b none_yet.row; num = 1 }) u
    → IsTotal (b ∷ bs) u
unfolding begin_row
begun-IsTotal b bs u ne s = record {
  files = omega (arith, s.files, over-taken (λ b. b.nfile) b bs ne);
  bytes = omega (arith, s.bytes, over-taken (λ b. b.nbyte) b bs ne);
  blocks = omega (arith, s.blocks, over-taken (λ b. b.nblock) b bs ne, first_blocks-taken b bs ne);
  num = omega (arith, s.num, taken-one b bs ne);
  between = ((λ _. (s.low, s.high, s.low', s.high')), s.between);
  no_smallest = omega (arith, s.none_smaller);
}

free-IsTotal :
    (b : Bucket) (bs : List Bucket) (u : Total) → b.nfile ≡ 0 → IsTotal bs u → IsTotal (b ∷ bs) u
free-IsTotal b bs u e s = record {
  files = omega (arith, s.files, over-free (λ b. b.nfile) b bs e);
  bytes = rw (over-free (λ b. b.nbyte) b bs e) s.bytes;
  blocks = rw (over-free (λ b. b.nblock) b bs e, first_blocks-free b bs e) s.blocks;
  num = omega (arith, s.num, taken-free b bs e);
  between = ((λ ne. absurd (ne e)), s.between);
  no_smallest = s.no_smallest;
}

begin_files : (b : Bucket) → (begin_row b none_yet.row).nfile ≡ b.nfile
unfolding begin_row
begin_files b = refl

begun : (b : Bucket) → b.nfile ≢ 0 → (begin_row b none_yet.row).nfile ≢ 0
unfolding begin_row
begun b ne = ne

loop-IsTotal :
    (es : List Bucket) → over (λ b. b.nfile) es < 2 ^ 64 → IsTotal es (total_loop es none_yet)
unfolding total_loop over taken first_blocks
loop-IsTotal [] few = record {
  files = refl;
  bytes = refl;
  blocks = refl;
  num = refl;
  between = tt;
  no_smallest = refl;
}
loop-IsTotal (b ∷ bs) few = elim (ℕ_discrete b.nfile 0) [
  | yes e ↦
      let s = loop-IsTotal bs (omega (arith, few, over-free (λ b. b.nfile) b bs e)) in
      subst (λ (v : Total). IsTotal (b ∷ bs) (total_loop bs v)) (sym (pass_over b none_yet e))
        (free-IsTotal b bs (total_loop bs none_yet) e s)
  | no ne ↦
      let v : Total = record { row = begin_row b none_yet.row; num = 1 } in
      subst (λ (v : Total). IsTotal (b ∷ bs) (total_loop bs v)) (sym (start_with b ne))
        (begun-IsTotal b bs (total_loop bs v) ne (
          loop-Followed bs v (begun b ne)
            (omega (arith, few, over-taken (λ b. b.nfile) b bs ne, begin_files b))))
]

-- The first pass over a table with fewer than 2 ^ 64 files: the row has the number of all files and,
-- modulo 2 ^ 64, of their bytes, and ftypes_num is the number of types; but the blocks of the first
-- type are missing in its nblock, and its byte_min is always 0. Its cage_min and mage_min are no
-- later than those of any type, its cage_max and mage_max no earlier.
pub first_pass-IsTotal :
    (es : List Bucket) → over (λ b. b.nfile) es < 2 ^ 64 → IsTotal es (first_pass es)
unfolding first_pass
first_pass-IsTotal es few = loop-IsTotal es few
