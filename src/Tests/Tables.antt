-- ===== src/Tests/Tables.antt =====
-- A table of seven slots with one key, and what the events and a cull do to it.
use ipm_nci.Base.{
  ℕ, zero, suc, ◌%◌, ◌^◌, ◌<◌, ◌≤◌, ◌≡◌, ◌≢◌, refl, List, [], ◌∷◌, replicate, arith, ◌⊎◌,
}
use ipm_nci.Base.Int.{pos}
use ipm_nci.Hash.Insert.{Found, hash_hkey-Found, IsReached}
use ipm_nci.Hash.Log.{IsValid, Updates, log_mpievent-Updates}
use ipm_nci.Hash.Probe.{IsPrime, IsSized}
use ipm_nci.Hash.Slots.{occupied, key_at}
use ipm_nci.Hash.Sums.{HasCalls, Same, total}
use ipm_nci.Hash.Totals.{hash_cull-commtime}
use ipm_nci.Hash.Rebuild.{Culled, new_precision, hash_cull-Culled, key_at-cleared}
use ipm_nci.Hash.{
  Sizes, Entry, cleared, Task, Run, done, exited, probe, hash_hkey, Event, event_key, record_time,
  log_mpievent, add64, commtime, hkey_loop, hash_clear, first_slot, claim,
}
use ipm_nci.Hash.Cull.{hash_cull, lowered, reinsert, reinsert_one}
use ipm_nci.Key.{
  call_mask_bprec, key_call, buf_precision, precision_down, mpi_key, key_rank, key_region, key_byte,
}

abbrev pub seven : Sizes
seven = record { max_hash = 7; hash_limit = 5; max_calls = 2 }

seven-IsPrime : IsPrime 7
seven-IsPrime = (omega arith, divisors)
  where
    divisors : (d : ℕ) → 2 ≤ d → d < 7 → 7 % d ≢ 0
    divisors zero h l e = absurd (omega arith)
    divisors (suc zero) h l e = absurd (omega arith)
    divisors (suc (suc zero)) h l e = absurd (omega arith)
    divisors (suc (suc (suc zero))) h l e = absurd (omega arith)
    divisors (suc (suc (suc (suc zero)))) h l e = absurd (omega arith)
    divisors (suc (suc (suc (suc (suc zero))))) h l e = absurd (omega arith)
    divisors (suc (suc (suc (suc (suc (suc zero)))))) h l e = absurd (omega arith)
    divisors (suc (suc (suc (suc (suc (suc (suc d))))))) h l e = absurd (omega arith)

pub seven-IsSized : IsSized seven
seven-IsSized = record {
  prime = seven-IsPrime;
  at_least = omega arith;
  at_most = omega arith;
  limited = omega arith;
}

-- The key of call 1 with 8 bytes to rank 0.
abbrev one_key : ℕ
one_key = 0x0001_0000_0000_0008

abbrev one_slot : List Entry
one_slot =
    cleared
    ∷ cleared
    ∷ record { key = one_key; count = 3; t_tot = 30; t_min = 5; t_max = 20 }
    ∷ replicate 5 cleared

abbrev one_task : Task
one_task = record {
  hash = one_slot;
  hash_nkey = 1;
  hash_nlog = 3;
  collisions = 0;
  call_mask = replicate 3 call_mask_bprec;
  call_mcount = replicate 2 (replicate 3 0);
  call_mtime = replicate 2 (replicate 3 0);
}

one_task-IsValid : IsValid seven one_task
unfolding occupied probe
one_task-IsValid = record { placed = record { size = refl; reached = reached }; counted = refl }
  where
    reached : (j : ℕ) → key_at one_slot j ≢ 0 → IsReached seven one_slot j
    reached zero taken = absurd (taken refl)
    reached (suc zero) taken = absurd (taken refl)
    reached (suc (suc zero)) taken = (0, omega arith, refl, λ d l. elim l [ ])
    reached (suc (suc (suc j))) taken = absurd (taken (key_at-cleared 5 j))

one_slot-HasCalls : HasCalls one_slot
unfolding key_call
one_slot-HasCalls zero taken = absurd (taken refl)
one_slot-HasCalls (suc zero) taken = absurd (taken refl)
one_slot-HasCalls (suc (suc zero)) taken = omega arith
one_slot-HasCalls (suc (suc (suc j))) taken = absurd (taken (key_at-cleared 5 j))

-- A cull that is never called.
abbrev no_cull : Task → Run Task
no_cull t = exited

-- MPI call 2 with 8 bytes to rank 5, and its key.
abbrev an_event : Event
an_event = record { region = pos 0; call = 2; rank = pos 5; bytes = pos 8 }

an_event-key : event_key one_task an_event ≡ 0x0002_0005_0000_0008
unfolding event_key mpi_key buf_precision
an_event-key = refl

log_mpievent-Updates_example :
    (u : Task) × (log_mpievent seven no_cull 9 one_task an_event 4 ≡ done u)
    × Updates seven
        (record one_task { hash_nlog = add64 3 1 })
        (event_key one_task an_event)
        (record_time 4)
        u
unfolding event_key
log_mpievent-Updates_example =
    log_mpievent-Updates seven no_cull 9 one_task an_event 4 seven-IsSized one_task-IsValid
      (omega arith) (omega (arith, an_event-key)) (omega arith)

hash_hkey-Found_example :
    Found seven no_cull one_task one_key (hash_hkey seven no_cull 3 one_task one_key)
hash_hkey-Found_example =
    hash_hkey-Found seven no_cull 3 one_key one_task seven-IsSized one_task-IsValid.placed
      one_task-IsValid.counted (omega arith) (omega arith) (omega arith)

-- A cull of the table.
abbrev culled_task : Task
culled_task = record {
  hash =
      cleared
      ∷ cleared
      ∷ record { key = one_key; count = 3; t_tot = 30; t_min = 5; t_max = 20 }
      ∷ replicate 5 cleared;
  hash_nkey = 1;
  hash_nlog = 3;
  collisions = 0;
  call_mask = call_mask_bprec ∷ 0xFFFFFFFFFFFE ∷ call_mask_bprec ∷ [];
  call_mcount = (7 ∷ 1 ∷ 0 ∷ []) ∷ (0 ∷ 0 ∷ 0 ∷ []) ∷ [];
  call_mtime = (0 ∷ 30 ∷ 0 ∷ []) ∷ (0 ∷ 0 ∷ 0 ∷ []) ∷ [];
}

cull_one : hash_cull seven 1 7 one_task ≡ done culled_task
unfolding hash_cull buf_precision lowered key_call precision_down reinsert reinsert_one hash_hkey
    hkey_loop hash_clear first_slot mpi_key key_rank key_region key_byte claim
cull_one = refl

hash_cull-commtime_example :
    (commtime culled_task.hash ≡ commtime one_task.hash)
    × Same (2 ^ 64) (total (λ e. e.count) culled_task.hash) (total (λ e. e.count) one_task.hash)
hash_cull-commtime_example =
    hash_cull-commtime seven 1 7 one_task culled_task one_slot-HasCalls cull_one

hash_cull-Culled_example :
    ((new_precision seven one_task ≡ 0) × (hash_cull seven 1 7 one_task ≡ exited))
    ⊎ ((new_precision seven one_task ≢ 0)
        × ((u : Task) × (hash_cull seven 1 7 one_task ≡ done u) × Culled seven one_task u))
hash_cull-Culled_example =
    hash_cull-Culled seven 0 7 one_task seven-IsSized one_slot-HasCalls one_task-IsValid
      (omega arith) (omega arith)
