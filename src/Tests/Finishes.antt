-- ===== src/Tests/Finishes.antt =====
-- The end of a task, and checkpoints at concrete stamps.
use ipm_nci.Base.{ℕ, ◌+◌, ◌*◌, ◌≤◌, ◌≡◌, refl, true, [], ◌∷◌, replicate, Option, some, arith}
use ipm_nci.Base.Int.{pos}
use ipm_nci.Finish.Checkpoint.Spacing.{checkpoints, checkpoints-spaced}
use ipm_nci.Finish.Checkpoint.{Settings, checkpoint_gate, made}
use ipm_nci.Finish.{Readings, ipm_noregion}
use ipm_nci.Region.{Regions, Reading, Stray}

-- In region 0, before MPI_Finalize.
abbrev running : Regions
running = record {
  flags = 0x5000000;
  region_current = pos 0;
  region_nregion = 1;
  region_label = ipm_noregion ∷ replicate 254 [];
  region_count = replicate 255 0;
  region_wtime = replicate 255 0;
  region_utime = replicate 255 0;
  region_stime = replicate 255 0;
  hpm_count = replicate 255 [];
  trace_masks = [];
  wtime_init = 10;
  utime_init = 1;
  stime_init = 1;
  hpm_init = [];
  hpm_final = [];
}

abbrev clock : ℕ → Reading
clock n = record { wtime = n; utime = n; stime = n; hpm = [] }

abbrev readings : Readings
readings = record {
  enter_final = clock 40;
  enter_init = clock 41;
  leave_final = clock 42;
  leave_init = clock 43;
}

abbrev before_rows : Stray
before_rows = record { label = []; count = 0 }

-- The task of another rank, which has ended in its own region 0.
abbrev from_last : Option Regions
from_last = some (record running { wtime_init = 12 })

abbrev settings : Settings
settings = record { checkpoint = true; interval = 10; stamp_init = 100 }

-- Calls at 105, 112, 115 and 130, of which the second and the last make a checkpoint.
checkpoints-spaced_example :
    (checkpoints settings 0 (105 ∷ 112 ∷ 115 ∷ 130 ∷ []) * 10 + 100 ≤ 130)
    × (checkpoint_gate settings 130 112 ≡ (made, 130))
checkpoints-spaced_example =
    checkpoints-spaced settings 130 130 112 (105 ∷ 112 ∷ 115 ∷ 130 ∷ []) refl (omega arith)
      (omega arith) (omega arith)
      (omega arith, (omega arith, (omega arith, (omega arith, omega arith)))) (omega arith)

two_made : checkpoints settings 0 (105 ∷ 112 ∷ 115 ∷ 130 ∷ []) ≡ 2
unfolding checkpoints checkpoint_gate
two_made = refl
