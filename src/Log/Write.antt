-- ===== src/Log/Write.antt =====
-- src/ipm_log_write.c: ipm_log_write, the profile of one task as XML, as the list of the pieces that
-- it prints, each by one call of ipmprintf. An element that one call opens and closes is a leaf; of
-- the numbers in it, those of the table, the counters and the calls are kept. The build with
-- IPM_DISABLE_EXECINFO and without IPM_ENABLE_PROFLOW and IPM_MONITOR_PTHREADS.
pub mod Nesting
pub mod Job
pub mod Entries
use mathlib.Core.List.{flatten}
use ipm_nci.Base.{
  ℕ, suc, ◌+◌, ◌-◌, ◌^◌, bit_and, Bool, true, false, not, if◌then◌else◌, ◌==◌, ltb, List, [], ◌∷◌,
  ◌++◌, map, get_or, Option, none, some,
}
use ipm_nci.Base.Bits.Flags.{has}
use ipm_nci.Base.Int.{ℤ, pos, negsuc}
use ipm_nci.Base.Strings.{Str}
use ipm_nci.Flags.{log_full, ipm_hpm_canceled}
use ipm_nci.Hash.{Entry}
use ipm_nci.Key.{key_byte, key_rank, key_call, key_region, buf_precision, call_mask_bprec}
use ipm_nci.Layout.{identity}

-- CALL_SEM_RANK_NONE
abbrev pub call_sem_rank_none : ℕ
call_sem_rank_none = 63

-- Elements with other elements inside.
pub data Name : Type 0 where
  ipm_job_profile task exec pre exec_bin call_mask regions region hpm hash : Name

-- What one <hent> holds.
pub record Hent : Type 0 where
  pub region : ℕ
  pub call : ℕ
  pub bytes : ℕ
  pub orank : ℤ
  pub count : ℕ
  pub t_tot : ℕ
  pub t_min : ℕ
  pub t_max : ℕ

pub data Leaf : Type 0 where
  job host perf switch cmdline internal : Leaf
  env : Str → Leaf
  rusage : ℕ → Leaf
  precision : ℕ → Leaf
  counter : ℕ → ℕ → Leaf
  func : ℕ → ℕ → ℕ → Leaf
  hent : Hent → Leaf

pub data Piece : Type 0 where
  prolog : Piece
  opens : Name → Piece
  closes : Name → Piece
  leaf : Leaf → Piece
  text : Str → Piece

-- MAXSIZE_CALLS, MAXSIZE_HPMCOUNTERS and ipm_hpm_eorder.
pub record Sizes : Type 0 where
  pub max_calls : ℕ
  pub counters : ℕ
  pub eorder : ℕ → ℕ → ℕ

-- The fields of ipm_taskdata that are written.
pub record Written : Type 0 where
  pub flags : ℕ
  pub mpi_rank : ℕ
  pub mpi_size : ℕ
  pub call_mask : List ℕ
  pub region_nregion : ℕ
  pub hpm_eventset : ℕ
  pub hpm_count : List (List (List ℕ))
  pub call_mcount : List (List ℕ)
  pub call_mtime : List (List ℕ)
  pub hash : List Entry

-- What the surroundings give: the two files on the executable, when they can be opened, the text
-- `literal`, and the environment.
pub record Around : Type 0 where
  pub exe_file : Option (List Str)
  pub ldd_file : Option (List Str)
  pub literal : Str
  pub environ : List Str

-- "unknown\n"
abbrev pub unknown : Str
unknown = 117 ∷ 110 ∷ 107 ∷ 110 ∷ 111 ∷ 119 ∷ 110 ∷ 10 ∷ []

-- "CANCELED"
abbrev pub canceled : Str
canceled = 67 ∷ 65 ∷ 78 ∷ 67 ∷ 69 ∷ 76 ∷ 69 ∷ 68 ∷ []

-- What a file on the executable gives, which only rank 0 reads.
unfoldable pub exec_texts : ℕ → Option (List Str) → List Piece
exec_texts rank file =
    if rank == 0
    then elim file [ none ↦ text unknown ∷ [] | some lines ↦ map text lines ]
    else text unknown ∷ []

unfoldable pub exec_pieces : Name → ℕ → Option (List Str) → List Piece
exec_pieces name rank file =
    flatten
      ((opens name ∷ opens pre ∷ []) ∷ exec_texts rank file ∷ (closes pre ∷ closes name ∷ []) ∷ [])

-- strstr(*envp,"=")
unfoldable pub has_equals : Str → Bool
has_equals [] = false
has_equals (c ∷ s) = if c == 61 then true else has_equals s

-- The loop over the environment, which a word without "=" ends.
unfoldable pub env_pieces : List Str → List Piece
env_pieces [] = []
env_pieces (w ∷ ws) = let rest = env_pieces ws in if has_equals w then leaf (env w) ∷ rest else []

-- ~CALL_BUF_PRECISION(icall) & CALL_MASK_BPREC
abbrev dropped : ℕ → ℕ
dropped mask = bit_and (2 ^ 64 - 1 - buf_precision mask) call_mask_bprec

unfoldable pub mask_pieces : List ℕ → List ℕ → List Piece
mask_pieces masks [] = []
mask_pieces masks (icall ∷ cs) =
    (if dropped (get_or masks icall 0) == 0
      then []
      else leaf (precision (dropped (get_or masks icall 0))) ∷ [])
    ++ mask_pieces masks cs

-- The counters of a region.
unfoldable pub counter_pieces : Sizes → Written → ℕ → List ℕ → List Piece
counter_pieces z t ireg [] = []
counter_pieces z t ireg (i ∷ is) =
    let ii = z.eorder t.hpm_eventset i in
    leaf (counter ii (get_or (get_or (get_or t.hpm_count ireg []) t.hpm_eventset []) ii 0))
    ∷ counter_pieces z t ireg is

-- The calls of a region.
unfoldable pub func_pieces : Written → ℕ → List ℕ → List Piece
func_pieces t ireg [] = []
func_pieces t ireg (icall ∷ cs) =
    (if ltb 0 (get_or (get_or t.call_mcount ireg []) icall 0)
      then leaf (
          func icall (get_or (get_or t.call_mcount ireg []) icall 0)
            (get_or (get_or t.call_mtime ireg []) icall 0))
        ∷ []
      else [])
    ++ func_pieces t ireg cs

unfoldable pub region_pieces : Sizes → Written → ℕ → List Piece
region_pieces z t ireg = flatten (
    (opens region ∷ opens hpm ∷ [])
    ∷ (if has t.flags ipm_hpm_canceled
        then text canceled ∷ []
        else counter_pieces z t ireg (identity z.counters))
    ∷ (closes hpm ∷ [])
    ∷ func_pieces t ireg (identity (suc z.max_calls))
    ∷ (closes region ∷ [])
    ∷ [])

unfoldable pub regions_pieces : Sizes → Written → List ℕ → List Piece
regions_pieces z t [] = []
regions_pieces z t (ireg ∷ rs) = region_pieces z t ireg ++ regions_pieces z t rs

-- The rank that is written: none for a call without one, and none above mpi_size.
unfoldable pub orank : Written → ℕ → ℤ
orank t key =
    if has (get_or t.call_mask (key_call key) 0) call_sem_rank_none
    then negsuc 0
    else elim (key_rank key) [
      | negsuc n ↦ negsuc n
      | pos n ↦ if ltb t.mpi_size n then negsuc 0 else pos n
    ]

unfoldable pub hent_of : Written → Entry → Hent
hent_of t e = record {
  region = key_region e.key;
  call = key_call e.key;
  bytes = key_byte e.key;
  orank = orank t e.key;
  count = e.count;
  t_tot = e.t_tot;
  t_min = e.t_min;
  t_max = e.t_max;
}

-- The loop over the table.
unfoldable pub hash_pieces : Written → List Entry → List Piece
hash_pieces t [] = []
hash_pieces t (e ∷ es) =
    (if not (e.key == 0) then leaf (hent (hent_of t e)) ∷ [] else []) ++ hash_pieces t es

-- "if(task.flags & LOG_FULL)"
unfoldable pub table_pieces : Written → List Piece
table_pieces t =
    if has t.flags log_full
    then flatten ((opens hash ∷ []) ∷ hash_pieces t t.hash ∷ (closes hash ∷ []) ∷ [])
    else []

-- The profile in its groups. Each caller passes &task, so that task.flags are the flags written.
unfoldable pub groups : Sizes → Around → Written → List (List Piece)
groups z y t =
    (if t.mpi_rank == 0 then prolog ∷ opens ipm_job_profile ∷ [] else [])
    ∷ (opens task ∷ leaf job ∷ leaf host ∷ leaf perf ∷ leaf switch ∷ leaf cmdline ∷ [])
    ∷ exec_pieces exec t.mpi_rank y.exe_file
    ∷ exec_pieces exec_bin t.mpi_rank y.ldd_file
    ∷ (elim y.literal [ [] ↦ [] | c ∷ s ↦ text (c ∷ s) ∷ [] ])
    ∷ (if t.mpi_rank == 0 then env_pieces y.environ else [])
    ∷ map (λ i. leaf (rusage i)) (identity 4)
    ∷ (opens call_mask ∷ [])
    ∷ mask_pieces t.call_mask (identity (suc z.max_calls))
    ∷ (closes call_mask ∷ opens regions ∷ [])
    ∷ regions_pieces z t (identity t.region_nregion)
    ∷ (closes regions ∷ [])
    ∷ table_pieces t
    ∷ (leaf internal ∷ closes task ∷ [])
    ∷ (if t.mpi_rank + 1 == t.mpi_size then closes ipm_job_profile ∷ [] else [])
    ∷ []

unfoldable pub ipm_log_write : Sizes → Around → Written → List Piece
ipm_log_write z y t = flatten (groups z y t)
