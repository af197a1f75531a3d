-- ===== src/Tests/Threads.antt =====
-- Two threads that ask for their numbers, and the counters of one.
use ipm_nci.Base.{ℕ, ◌*◌, ◌<◌, ◌≡◌, refl, true, false, [], ◌∷◌, some, set, arith}
use ipm_nci.Base.Updates.{update}
use ipm_nci.Threads.Counters.{
  ThreadData, ipm_pthread_trampoline, ipm_pthread_once, is_called, ended_row, trampoline-last,
}
use ipm_nci.Threads.Turns.{Among, start, turned, tids-goes_on}
use ipm_nci.Threads.{waiting, locked, seen, taken, Pool, begin, Turn, ask, lock, see, take}

-- Thread 4 has asked, and thread 7 has asked, locked, read and taken the number 0.
abbrev two_ask : Pool
two_ask = record begin { stages = update (update begin.stages 4 waiting) 7 waiting }

abbrev one_takes : Pool
one_takes = record two_ask {
  stages = update (update (update two_ask.stages 7 locked) 7 (seen 0)) 7 (taken 0);
  holder = some 7;
  next_tid = 1;
}

-- Thread 4 waits for the mutex.
eight_threads : Among 8 5 one_takes
eight_threads =
    turned 7 (omega arith)
      (turned 7 (omega arith)
        (turned 7 (omega arith)
          (turned 7 (omega arith) (turned 4 (omega arith) start (ask refl)) (ask refl))
          (lock refl refl))
        (see refl))
      (take 0 refl)

tids-goes_on_example : (◌<◌ 5 (6 * 8)) × ((j : ℕ) × (j < 8) × ((t : Pool) × Turn one_takes j t))
tids-goes_on_example = tids-goes_on 8 5 one_takes 4 eight_threads (omega arith) refl

abbrev row : ThreadData
row = record { papi_ctrs = 10 ∷ 20 ∷ []; papi_enter = []; papi_running = true; active = true }

-- The function of the thread has no argument.
trampoline-last_example :
    ipm_pthread_trampoline
      (some (record { func = true; args = false }))
      1
      (12 ∷ 22 ∷ [])
      (15 ∷ 29 ∷ [])
      (row ∷ row ∷ [])
    ≡ some (
      set (row ∷ row ∷ []) 1 (ended_row row (12 ∷ 22 ∷ []) (15 ∷ 29 ∷ [])),
      is_called (some (record { func = true; args = false })),
    )
trampoline-last_example =
    trampoline-last (some (record { func = true; args = false })) 1 (12 ∷ 22 ∷ []) (15 ∷ 29 ∷ [])
      (row ∷ row ∷ []) row refl (omega arith, omega arith, (omega arith, omega arith, tt))

not_called : is_called (some (record { func = true; args = false })) ≡ false
unfolding is_called
not_called = refl

once_clears :
    ipm_pthread_once 2 (row ∷ [])
    ≡ record { papi_ctrs = 0 ∷ 0 ∷ []; papi_enter = []; papi_running = false; active = false } ∷ []
unfolding ipm_pthread_once
once_clears = refl
