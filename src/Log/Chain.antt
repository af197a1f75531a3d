-- ===== src/Log/Chain.antt =====
-- src/ipm_mpi_log.c: how the tasks place their parts of the one log file. Rank 0 sends its size to
-- rank 1; each other rank receives the sum of the sizes below it, which is its offset, and sends the
-- sum with its own size added on to the next. The steps of the ranks come in any order; a message
-- waits until it is received.
pub mod Places
pub mod Ends
use ipm_nci.Base.{ℕ, suc, ◌+◌, ◌<◌, ◌≡◌, Option, none, some}
use ipm_nci.Base.Updates.{update}

-- Where a rank is: before its receive, between its sum and its send with `file_offset` and
-- `buff_sum`, or past the exchange with `file_offset`.
pub data Progress : Type 0 where
  idle : Progress
  summed : ℕ → ℕ → Progress
  placed : ℕ → Progress

-- The ranks, and the message under way from each to the next.
pub record Net : Type 0 where
  pub ranks : ℕ → Progress
  pub mail : ℕ → Option ℕ

abbrev pub start : Net
start = record { ranks = λ _. idle; mail = λ _. none }

-- One rank of `size` does what comes next; `sizes` are the values of buff_size.
pub data Step (size : ℕ) (sizes : ℕ → ℕ) (s : Net) : Net → Type 0 where
  alone :
      size ≡ 1
      → s.ranks 0 ≡ idle
      → Step size sizes s (record s { ranks = update s.ranks 0 (placed 0) })
  first :
      1 < size
      → s.ranks 0 ≡ idle
      → Step size sizes s (record s { ranks = update s.ranks 0 (summed 0 (sizes 0)) })
  send :
      (i offset sum : ℕ)
      → suc i < size
      → s.ranks i ≡ summed offset sum
      → Step size sizes s
          (record s { ranks = update s.ranks i (placed offset); mail = update s.mail i (some sum) })
  receive :
      (i sum : ℕ)
      → suc (suc i) < size
      → s.mail i ≡ some sum
      → s.ranks (suc i) ≡ idle
      → Step size sizes s (record s {
        ranks = update s.ranks (suc i) (summed sum (sum + sizes (suc i)));
        mail = update s.mail i none;
      })
  last :
      (i sum : ℕ)
      → suc (suc i) ≡ size
      → s.mail i ≡ some sum
      → s.ranks (suc i) ≡ idle
      → Step size sizes s
          (record s { ranks = update s.ranks (suc i) (placed sum); mail = update s.mail i none })

-- The states after k steps.
pub data Reach (size : ℕ) (sizes : ℕ → ℕ) : ℕ → Net → Type 0 where
  here : Reach size sizes 0 start
  next :
      {k : ℕ} {s t : Net} → Reach size sizes k s → Step size sizes s t → Reach size sizes (suc k) t
