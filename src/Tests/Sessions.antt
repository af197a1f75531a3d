-- ===== src/Tests/Sessions.antt =====
-- Runs on a table of seven slots: of three calls, and of seven, with a cull.
use ipm_nci.Base.{ℕ, ◌≡◌, ◌≢◌, ◌<◌, refl, List, [], ◌∷◌, arith, false, none, ◌^◌, min}
use ipm_nci.Base.Int.{pos}
use ipm_nci.Base.Bits.Flags.{has}
use ipm_nci.Hash.Cull.{hash_cull, lowered, reinsert, reinsert_one, most_dense_call}
use ipm_nci.Key.{mpi_key, buf_precision, precision_down, key_call, key_region, key_rank, key_byte}
use ipm_nci.Region.Valid.{pos-injective}
use ipm_nci.Hash.Log.{IsValid}
use ipm_nci.Hash.Slots.{lookup}
use ipm_nci.Hash.{
  Run, exited, no_fuel, Task, done, event_key, commtime, cleared, hash_clear, first_slot, hash_hkey,
  hkey_loop, probe, claim, collide, log_mpievent,
}
use ipm_nci.Sync.{Totals, Clocks, ipm_sync}
use ipm_nci.Log.Write.Entries.{hent_time}
use ipm_nci.Log.Write.{Written, table_pieces}
use ipm_nci.Hash.Sums.{Same, total}
use ipm_nci.Init.{init_task_hash}
use ipm_nci.Session.Profile.{session-profile, distinct_from, keys_of, walls_of, profile}
use ipm_nci.Session.Totals.{all_of, IsEvent, AreEvents, IsCovered, AreCovered, session-conserves}
use ipm_nci.Session.{Timed, log_all}
use ipm_nci.Tests.Tables.{seven, seven-IsSized}

abbrev sent : ℕ → ℕ → ℕ → ℕ → Timed
sent call rank bytes wall = record {
  event = record { region = pos 0; call = call; rank = pos rank; bytes = pos bytes };
  wall = wall;
}

abbrev three : List Timed
three = sent 1 0 8 10 ∷ sent 1 0 8 20 ∷ sent 2 3 16 5 ∷ []

first-IsEvent : IsEvent (sent 1 0 8 10).event
first-IsEvent = record {
  region = (0, refl, omega arith);
  called = omega arith;
  call = omega arith;
  rank = omega arith;
  bytes = (8, refl, omega arith);
}

last-IsEvent : IsEvent (sent 2 3 16 5).event
last-IsEvent = record {
  region = (0, refl, omega arith);
  called = omega arith;
  call = omega arith;
  rank = omega arith;
  bytes = (16, refl, omega arith);
}

three-AreEvents : AreEvents three
three-AreEvents = (first-IsEvent, (first-IsEvent, (last-IsEvent, tt)))

abbrev three_left : Task
three_left = record (init_task_hash seven) {
  hash =
      cleared
      ∷ cleared
      ∷ record { key = 0x0001_0000_0000_0008; count = 2; t_tot = 30; t_min = 10; t_max = 20 }
      ∷ cleared
      ∷ record { key = 0x0002_0003_0000_0010; count = 1; t_tot = 5; t_min = 5; t_max = 5 }
      ∷ cleared
      ∷ cleared
      ∷ cleared
      ∷ [];
  hash_nkey = 2;
  hash_nlog = 3;
  collisions = 1;
}

three_run : log_all seven 2 6 (init_task_hash seven) three ≡ done three_left
unfolding log_all log_mpievent init_task_hash hash_clear hash_hkey hkey_loop first_slot claim probe
    mpi_key buf_precision collide
three_run = refl

abbrev clocks : Clocks
clocks = record {
  stamp_init = 0;
  stamp_final = 30;
  suspended = false;
  lost = 0;
  utime = 10;
  stime = 0;
}

abbrev nothing : Totals
nothing = record { call_mtime = []; call_mcount = []; region_mtime = []; mtime = 0 }

-- Six calls with different sizes, of which the last meets a slot that is taken when the table has its
-- five keys, and a seventh.
abbrev crowd : List Timed
crowd =
    sent 1 0 8 10
    ∷ sent 1 0 9 20
    ∷ sent 1 0 10 5
    ∷ sent 1 0 11 7
    ∷ sent 1 0 12 3
    ∷ sent 1 0 15 4
    ∷ sent 1 0 9 1
    ∷ []

sent-IsEvent : (bytes wall : ℕ) → bytes < 2 ^ 31 → IsEvent (sent 1 0 bytes wall).event
sent-IsEvent bytes wall h = record {
  region = (0, refl, omega arith);
  called = omega arith;
  call = omega arith;
  rank = omega arith;
  bytes = (bytes, refl, h);
}

crowd-AreEvents : AreEvents crowd
crowd-AreEvents = (
  sent-IsEvent 8 10 (omega arith),
  (
    sent-IsEvent 9 20 (omega arith),
    (
      sent-IsEvent 10 5 (omega arith),
      (
        sent-IsEvent 11 7 (omega arith),
        (
          sent-IsEvent 12 3 (omega arith),
          (sent-IsEvent 15 4 (omega arith), (sent-IsEvent 9 1 (omega arith), tt)),
        ),
      ),
    ),
  ),
)

sent-IsCovered : (bytes wall : ℕ) → IsCovered seven (sent 1 0 bytes wall).event
sent-IsCovered bytes wall = record {
  region = λ e. omega (arith, pos-injective e);
  call = omega arith;
}

crowd-AreCovered : AreCovered seven crowd
crowd-AreCovered = (
  sent-IsCovered 8 10,
  (
    sent-IsCovered 9 20,
    (
      sent-IsCovered 10 5,
      (sent-IsCovered 11 7, (sent-IsCovered 12 3, (sent-IsCovered 15 4, (sent-IsCovered 9 1, tt)))),
    ),
  ),
)

abbrev or_first : Run Task → Task
or_first (done t) = t
or_first exited = init_task_hash seven
or_first no_fuel = init_task_hash seven

abbrev crowd_left : Task
crowd_left = or_first (log_all seven 3 9 (init_task_hash seven) crowd)

crowd_run : log_all seven 3 9 (init_task_hash seven) crowd ≡ done crowd_left
unfolding log_all log_mpievent init_task_hash hash_clear hash_hkey hkey_loop first_slot claim probe
    mpi_key buf_precision collide hash_cull lowered reinsert reinsert_one precision_down key_call
    key_region key_rank key_byte most_dense_call
crowd_run = refl

-- The cull has joined the sizes 8 and 9, and 10 and 11.
crowd_joined : crowd_left.hash_nkey ≡ 4
unfolding log_all log_mpievent init_task_hash hash_clear hash_hkey hkey_loop first_slot claim probe
    mpi_key buf_precision collide hash_cull lowered reinsert reinsert_one precision_down key_call
    key_region key_rank key_byte most_dense_call
crowd_joined = refl

abbrev full_log : Written
full_log = record {
  flags = 2 ^ 7;
  mpi_rank = 0;
  mpi_size = 1;
  call_mask = [];
  region_nregion = 0;
  hpm_eventset = 0;
  hpm_count = [];
  call_mcount = [];
  call_mtime = [];
  hash = crowd_left.hash;
}

session-conserves_example :
    let s = ipm_sync (λ _. none) false [] clocks crowd_left.hash nothing in
    (commtime crowd_left.hash ≡ 50)
    × Same (2 ^ 64) (total (λ e. e.count) crowd_left.hash) 7
    × (s.totals.mtime ≡ min 50 s.wtime)
    × (hent_time (table_pieces full_log) ≡ 50)
unfolding all_of has
session-conserves_example =
    session-conserves seven 3 9 crowd_left crowd (λ _. none) false [] clocks nothing full_log
      crowd-AreEvents crowd-AreCovered crowd_run refl refl

-- The keys are 0x0001000000000008, twice, and 0x0002000300000010.
three_fit : distinct_from [] (keys_of (event_key (init_task_hash seven)) three) < 5
unfolding distinct_from keys_of event_key init_task_hash mpi_key buf_precision
three_fit = omega arith

session-profile_example :
    (u : Task) × (log_all seven 2 6 (init_task_hash seven) three ≡ done u)
    × IsValid seven u
    × ((q : ℕ)
        → q ≢ 0
        → lookup u.hash q ≡ profile q (walls_of (event_key (init_task_hash seven)) q three))
session-profile_example =
    session-profile seven 2 6 three seven-IsSized (omega arith) three-AreEvents three_fit
