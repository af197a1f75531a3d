-- ===== src/Threads.antt =====
-- src/ipm_pthreads.c: how threads get their numbers. Each thread runs ipm_pthread_get_tid in steps,
-- which those of the other threads come between; the mutex admits one thread at a time. A thread that
-- has its number reads it from then on.
pub mod Numbers
pub mod Turns
pub mod Counters
use ipm_nci.Base.{ℕ, ◌+◌, ◌≡◌, Option, none, some}
use ipm_nci.Base.Updates.{update}

-- Where a thread is: before its first call, before the mutex, inside it, with next_tid read, with its
-- number stored and next_tid advanced, behind the mutex, or with its number in the local storage.
pub data Stage : Type 0 where
  fresh waiting locked : Stage
  seen taken left known : ℕ → Stage

-- The threads, the owner of the mutex, and next_tid.
pub record Pool : Type 0 where
  pub stages : ℕ → Stage
  pub holder : Option ℕ
  pub next_tid : ℕ

abbrev pub begin : Pool
begin = record { stages = λ _. fresh; holder = none; next_tid = 0 }

-- The thread i does what comes next.
pub data Turn (s : Pool) (i : ℕ) : Pool → Type 0 where
  ask : s.stages i ≡ fresh → Turn s i (record s { stages = update s.stages i waiting })
  lock :
      s.stages i ≡ waiting
      → s.holder ≡ none
      → Turn s i (record s { stages = update s.stages i locked; holder = some i })
  see : s.stages i ≡ locked → Turn s i (record s { stages = update s.stages i (seen s.next_tid) })
  take :
      (n : ℕ)
      → s.stages i ≡ seen n
      → Turn s i (record s { stages = update s.stages i (taken n); next_tid = n + 1 })
  unlock :
      (n : ℕ)
      → s.stages i ≡ taken n
      → Turn s i (record s { stages = update s.stages i (left n); holder = none })
  keep :
      (n : ℕ) → s.stages i ≡ left n → Turn s i (record s { stages = update s.stages i (known n) })

pub data Reached : Pool → Type 0 where
  origin : Reached begin
  after : {s t : Pool} (i : ℕ) → Reached s → Turn s i t → Reached t
