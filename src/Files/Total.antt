-- ===== src/Files/Total.antt =====
-- src/files.c, main: the first pass over the table, which adds the types up in the row T.
pub mod Followed
pub mod Row
use ipm_nci.Base.{
  ℕ, zero, suc, ◌+◌, ◌%◌, ◌^◌, ◌<◌, ◌≤◌, ◌≡◌, ◌≢◌, refl, sym, ap, ◌∙◌, subst, arith, List, [], ◌∷◌,
  Bool, true, false, if◌then◌else◌, ◌==◌, ltb, ℕ_discrete, ==_iff, ==_of_ne,
}
use ipm_nci.Files.Slots.{taken}
use ipm_nci.Files.{Extreme, Bucket, cleared}
use ipm_nci.Hash.{add64}

-- T and ftypes_num.
pub record Total : Type 0 where
  pub row : Bucket
  pub num : ℕ

abbrev least : Extreme → Extreme → Extreme
least a b = if ltb a.value b.value then a else b

abbrev greatest : Extreme → Extreme → Extreme
greatest a b = if ltb b.value a.value then a else b

-- The first type: of nblock and of the sizes and blocks of single files only the names are copied.
unfoldable pub begin_row : Bucket → Bucket → Bucket
begin_row b row = record row {
  nfile = b.nfile;
  nbyte = b.nbyte;
  cage_min = b.cage_min;
  cage_max = b.cage_max;
  mage_min = b.mage_min;
  mage_max = b.mage_max;
  byte_min = record row.byte_min { fname = b.byte_min.fname };
  byte_max = record row.byte_max { fname = b.byte_max.fname };
  block_min = record row.block_min { fname = b.block_min.fname };
  block_max = record row.block_max { fname = b.block_max.fname };
}

-- Any other type.
unfoldable pub add_row : Bucket → Bucket → Bucket
add_row b row = record row {
  nfile = add64 row.nfile b.nfile;
  nbyte = add64 row.nbyte b.nbyte;
  nblock = add64 row.nblock b.nblock;
  cage_min = least b.cage_min row.cage_min;
  cage_max = greatest b.cage_max row.cage_max;
  mage_min = least b.mage_min row.mage_min;
  mage_max = greatest b.mage_max row.mage_max;
  byte_max = greatest b.byte_max row.byte_max;
  byte_min = least b.byte_min row.byte_min;
  block_max = greatest b.block_max row.block_max;
  block_min = least b.block_min row.block_min;
}

unfoldable pub total_turn : Bucket → Total → Total
total_turn b t = if b.nfile == 0 then t else record {
  row = if t.row.nfile == 0 then begin_row b t.row else add_row b t.row;
  num = t.num + 1;
}

-- The loop over the table.
unfoldable pub total_loop : List Bucket → Total → Total
unfolding total_turn
total_loop [] t = t
total_loop (b ∷ bs) t = total_loop bs (total_turn b t)

-- The first pass.
unfoldable pub first_pass : List Bucket → Total
first_pass es = total_loop es (record { row = record cleared { desc = 42 ∷ [] }; num = 0 })
