-- ===== src/Tests/Logs.antt =====
-- The log of a job of two tasks.
use mathlib.Core.List.{flatten}
use ipm_nci.Base.{ℕ, zero, suc, ◌*◌, ◌^◌, ◌≤◌, ◌≡◌, refl, [], ◌∷◌, ◌++◌, none, some, arith}
use ipm_nci.Hash.{Entry, cleared}
use ipm_nci.Log.Buffer.{buffer, measure, buffer-whole, store, bounded, fill}
use ipm_nci.Log.Chain.Ends.{GoesOn, chain-ends}
use ipm_nci.Log.Chain.Places.{IsRight}
use ipm_nci.Base.Updates.{update}
use ipm_nci.Log.Chain.{Net, summed, placed, Reach, here, next, first, send, last, start}
use ipm_nci.Log.Write.Job.{job_log, job_log-nested}
use ipm_nci.Log.Write.Nesting.{nest}
use ipm_nci.Log.Write.{Sizes, Around, Written}
use ipm_nci.Log.{LogJob}

abbrev sizes : Sizes
sizes = record { max_calls = 3; counters = 1; eorder = λ set i. i }

-- Task 0 finds one of the two files; the environment is "A=b".
abbrev around : Around
around = record {
  exe_file = some ((69 ∷ []) ∷ []);
  ldd_file = none;
  literal = [];
  environ = (65 ∷ 61 ∷ 98 ∷ []) ∷ [];
}

abbrev entry : Entry
entry = record { key = 2 ^ 48; count = 1; t_tot = 5; t_min = 5; t_max = 5 }

-- With LOG_FULL.
abbrev written : ℕ → Written
written rank = record {
  flags = 2 ^ 7;
  mpi_rank = rank;
  mpi_size = 2;
  call_mask = [];
  region_nregion = 1;
  hpm_eventset = 0;
  hpm_count = ((3 ∷ []) ∷ []) ∷ [];
  call_mcount = (0 ∷ 1 ∷ 0 ∷ 0 ∷ []) ∷ [];
  call_mtime = (0 ∷ 5 ∷ 0 ∷ 0 ∷ []) ∷ [];
  hash = entry ∷ cleared ∷ [];
}

job_log-nested_example :
    nest (job_log sizes ((around, written 0) ∷ (around, written 1) ∷ [])) [] ≡ some []
job_log-nested_example =
    job_log-nested sizes 2 ((around, written 0) ∷ (around, written 1) ∷ [])
      (refl, refl, omega arith, (refl, refl, omega arith, refl))

-- "ab" and "c"
buffer-whole_example :
    (buffer 7 ((97 ∷ 98 ∷ []) ∷ (99 ∷ []) ∷ [])
      ≡ some (flatten ((97 ∷ 98 ∷ []) ∷ (99 ∷ []) ∷ []) ++ 0 ∷ []))
    × (measure 0 ((97 ∷ 98 ∷ []) ∷ (99 ∷ []) ∷ []) ≡ 3)
unfolding measure flatten
buffer-whole_example =
    buffer-whole 7 (97 ∷ 98 ∷ []) ((99 ∷ []) ∷ []) (omega arith, (omega arith, omega arith))

-- A single piece is as long as all of them together, and loses its last byte.
one_piece : buffer 7 ((97 ∷ 98 ∷ []) ∷ []) ≡ some (97 ∷ 0 ∷ 7 ∷ [])
unfolding buffer measure store bounded fill
one_piece = refl

-- Rank 0 has 10 bytes, rank 1 has 20.
abbrev ten : ℕ → ℕ
ten zero = 10
ten (suc i) = 20

abbrev net_summed : Net
net_summed = record start { ranks = update start.ranks 0 (summed 0 10) }

abbrev net_sent : Net
net_sent = record net_summed {
  ranks = update net_summed.ranks 0 (placed 0);
  mail = update net_summed.mail 0 (some 10);
}

abbrev both_placed : Net
both_placed = record net_sent {
  ranks = update net_sent.ranks 1 (placed 10);
  mail = update net_sent.mail 0 none;
}

chain : Reach 2 ten 3 both_placed
chain =
    next (next (next here (first (omega arith) refl)) (send 0 0 10 (omega arith) refl))
      (last 0 10 refl refl refl)

chain-ends_example : (3 ≤ 2 * 2) × GoesOn 2 ten both_placed × IsRight ten 1 (both_placed.ranks 1)
chain-ends_example = chain-ends 2 ten 3 both_placed 1 (omega arith) chain

abbrev job : LogJob
job = record { log_dir = 47 ∷ []; log_fname = 102 ∷ []; username = 117 ∷ []; cookie = 99 ∷ [] }
