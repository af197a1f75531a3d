-- ===== src/Log/Volley.antt =====
-- src/ipm_mpi_log.c: the serial way to write the log. Rank 0 writes its own profile and then, for one
-- rank after the other, sends a token, receives the rank's job, task and txt into its own, and writes
-- them. The ranks take their turns in any order; messages are buffered, and a receive takes the first
-- message with its tag. The file is taken to be opened; it is the copies that ipm_log_write prints.
pub mod Talk
pub mod Holds
pub mod Order
use ipm_nci.Base.{
  ℕ, zero, suc, ◌+◌, Bool, true, false, if◌then◌else◌, ◌==◌, ltb, List, [], ◌∷◌, ◌++◌, Option, none,
  some,
}
use ipm_nci.Base.Strings.{Str}
use ipm_nci.Base.Updates.{update}
use ipm_nci.Log.Write.{Written}

-- What a rank has in `job`, of which the loop reads ntasks, `task` and `txt`.
pub record Copy : Type 0 where
  pub ntasks : ℕ
  pub task : Written
  pub txt : Str

pub data Message : Type 0 where
  job_data : ℕ → Message
  task_data : Written → Message
  txt_data : Str → Message

-- The tag with which it is sent.
unfoldable pub tag_of : Message → ℕ
tag_of (job_data n) = 0
tag_of (task_data t) = 1
tag_of (txt_data s) = 1

-- The first message with the tag, and the others.
unfoldable pub take_tag : ℕ → List Message → Option (Message × List Message)
unfolding tag_of
take_tag tag [] = none
take_tag tag (m ∷ ms) =
    let rest = take_tag tag ms in
    if tag_of m == tag
    then some (m, ms)
    else elim rest [ none ↦ none | some r ↦ some (r.0, m ∷ r.1) ]

-- What rank 0 does next for a rank: PMPI_Send of the token, or one of the three PMPI_Recv.
pub data Stage : Type 0 where
  to_token to_job to_task to_text : Stage

pub data RootAt : Type 0 where
  talk : Stage → ℕ → RootAt
  closed : RootAt

-- Rank 0, and what it has written.
pub record Root : Type 0 where
  pub at : RootAt
  pub held : Copy
  pub file : List Copy

-- Where another rank is.
pub data PeerAt : Type 0 where
  awaits sends_job sends_task sends_text past : PeerAt

-- Another rank, whether the token is under way to it, and the messages from it to rank 0.
pub record Peer : Type 0 where
  pub at : PeerAt
  pub token : Bool
  pub queue : List Message

pub record Net : Type 0 where
  pub root : Root
  pub peers : ℕ → Peer

-- `i<job.ntasks`
unfoldable pub next_rank : Copy → ℕ → RootAt
next_rank c i = if ltb i c.ntasks then talk to_token i else closed

-- A message of another kind is not received by these.
got_job : ℕ → Root → Peer → Option (Message × List Message) → Option (Root × Peer)
got_job i r p (some (job_data n, ms)) =
    some (
      record r { at = talk to_task i; held = record r.held { ntasks = n } },
      record p { queue = ms },
    )
got_job i r p _ = none

got_task : ℕ → Root → Peer → Option (Message × List Message) → Option (Root × Peer)
got_task i r p (some (task_data t, ms)) =
    some
      (record r { at = talk to_text i; held = record r.held { task = t } }, record p { queue = ms })
got_task i r p _ = none

-- The last message, which is followed by ipm_log_write and the loop's test.
got_text : ℕ → Root → Peer → Option (Message × List Message) → Option (Root × Peer)
unfolding next_rank
got_text i r p (some (txt_data s, ms)) =
    let c = record r.held { txt = s } in
    some (
      record { at = next_rank c (i + 1); held = c; file = r.file ++ c ∷ [] },
      record p { queue = ms },
    )
got_text i r p _ = none

-- A turn of rank 0, none where it waits.
unfoldable pub root_turn : Stage → ℕ → Root → Peer → Option (Root × Peer)
unfolding take_tag got_job got_task got_text
root_turn to_token i r p = some (record r { at = talk to_job i }, record p { token = true })
root_turn to_job i r p = got_job i r p (take_tag 0 p.queue)
root_turn to_task i r p = got_task i r p (take_tag 1 p.queue)
root_turn to_text i r p = got_text i r p (take_tag 1 p.queue)

peer_at : Copy → PeerAt → Peer → Option Peer
peer_at c awaits p = if p.token then some (record p { at = sends_job; token = false }) else none
peer_at c sends_job p =
    some (record p { at = sends_task; queue = p.queue ++ job_data c.ntasks ∷ [] })
peer_at c sends_task p =
    some (record p { at = sends_text; queue = p.queue ++ task_data c.task ∷ [] })
peer_at c sends_text p = some (record p { at = past; queue = p.queue ++ txt_data c.txt ∷ [] })
peer_at c past p = none

-- A turn of another rank, none where it waits or is past the exchange.
unfoldable pub peer_turn : Copy → Peer → Option Peer
unfolding peer_at
peer_turn c p = peer_at c p.at p

meet : Net → ℕ → Option (Root × Peer) → Option Net
meet s i none = none
meet s i (some (r, p)) = some (record { root = r; peers = update s.peers i p })

place : Net → ℕ → Option Peer → Option Net
place s i none = none
place s i (some p) = some (record s { peers = update s.peers i p })

root_at : Net → RootAt → Option Net
unfolding root_turn meet
root_at s closed = none
root_at s (talk st i) = meet s i (root_turn st i s.root (s.peers i))

-- The turn of a rank, where `own` are the ranks' own data.
unfoldable pub turn : (ℕ → Copy) → ℕ → Net → Option Net
unfolding root_at peer_turn place
turn own zero s = root_at s s.root.at
turn own (suc r) s = place s (suc r) (peer_turn (own (suc r)) (s.peers (suc r)))

abbrev pub fresh : Peer
fresh = record { at = awaits; token = false; queue = [] }

-- Rank 0 has written its own profile.
unfoldable pub start : (ℕ → Copy) → Net
unfolding next_rank
start own = record {
  root = record { at = next_rank (own 0) 1; held = own 0; file = own 0 ∷ [] };
  peers = λ _. fresh;
}

then_turns : Option Net → (Net → Option Net) → Option Net
then_turns none f = none
then_turns (some s) f = f s

-- The turns of ranks, none where one of them has to wait.
unfoldable pub turns : (ℕ → Copy) → List ℕ → Net → Option Net
unfolding turn then_turns
turns own [] s = some s
turns own (r ∷ rs) s = then_turns (turn own r s) (λ u. turns own rs u)
