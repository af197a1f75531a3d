-- ===== src/Init/Start.antt =====
-- The task that ipm_init leaves.
use ipm_nci.Base.{ℕ, ◌+◌, ◌≡◌, true, false, List, length, length-replicate, some, arith}
use ipm_nci.Base.Bits.Flags.{has}
use ipm_nci.Base.Strings.{Str}
use ipm_nci.Flags.{ipm_hpm_active, ipm_hpm_canceled, ipm_trc_active}
use ipm_nci.Hash.Log.{IsValid}
use ipm_nci.Hash.Rebuild.{key_at-cleared, occupied-cleared}
use ipm_nci.Hash.{Sizes, hash_clear, cleared}
use ipm_nci.Init.{init_task_hash, init_task_regions, Prepared}
use ipm_nci.Region.Valid
use ipm_nci.Region.Valid.{pos-injective}
use ipm_nci.Region.{max_region}
use ipm_nci.Trace.{TraceEntry}

-- ipm_init_task leaves a valid table without keys, and well-formed regions, whatever the labels
-- were, of which there are MAXSIZE_REGION.
pub init_task-IsValid :
    (z : Sizes) (counters : ℕ) (labels : List Str)
    → length labels ≡ max_region
    → IsValid z (init_task_hash z) × Valid.IsValid (init_task_regions counters labels)
unfolding init_task_hash init_task_regions hash_clear
init_task-IsValid z counters labels size = (
  record {
    placed = record {
      size = length-replicate (z.max_hash + 1) cleared;
      reached = λ j taken. absurd (taken (key_at-cleared (z.max_hash + 1) j));
    };
    counted = occupied-cleared (z.max_hash + 1);
  },
  record {
    labels_size = size;
    counts_size = length-replicate {A = ℕ} max_region 0;
    wtimes_size = length-replicate {A = ℕ} max_region 0;
    few = omega arith;
    distinct = λ i j hi. absurd (omega arith);
    current = λ c e. omega (arith, pos-injective e);
  },
)

-- The counters are never both in use and cancelled.
abbrev pub IsExclusive : ℕ → Type 0
IsExclusive flags = has flags ipm_hpm_canceled ≡ true → has flags ipm_hpm_active ≡ false

-- A task that traces has a buffer of the size that it takes it to have, with nothing in it.
abbrev pub HasBuffer : Prepared → Type 0
HasBuffer p =
    has p.flags ipm_trc_active ≡ true
    → (p.trc_count ≡ 0)
      × ((buf : List TraceEntry) × (p.trc_buf ≡ some buf) × (length buf ≡ p.trc_count_max))
