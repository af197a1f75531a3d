-- ===== src/Session.antt =====
-- include/ipm.h and src/ipm_util.c: a whole run of a task, in which its wrapped calls hand their events
-- to IPM_LOG_MPIEVENT one after the other, and ipm_hash_cull works where the table is full.
pub mod Totals
pub mod Profile
use ipm_nci.Base.{ℕ, List, [], ◌∷◌}
use ipm_nci.Hash.Cull.{hash_cull}
use ipm_nci.Hash.{Sizes, Task, Run, done, ◌>>=◌, Event, log_mpievent}

-- An event with the time that the call took.
pub record Timed : Type 0 where
  pub event : Event
  pub wall : ℕ

-- The events of a run; `rounds` and `fuel` are for the culls and the probes.
unfoldable pub log_all : Sizes → ℕ → ℕ → Task → List Timed → Run Task
log_all z rounds fuel t [] = done t
log_all z rounds fuel t (x ∷ xs) =
    log_mpievent z (hash_cull z rounds fuel) fuel t x.event x.wall >>= λ u.
    log_all z rounds fuel u xs
