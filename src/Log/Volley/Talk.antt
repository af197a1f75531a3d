-- ===== src/Log/Volley/Talk.antt =====
-- src/ipm_mpi_log.c: where rank 0 and the rank that it talks with can stand.
use ipm_nci.Base.{
  ℕ, suc, ◌+◌, ◌≡◌, refl, sym, subst, ◌⊎◌, inl, inr, true, false, [], ◌∷◌, ◌++◌, Option, none, some,
}
use ipm_nci.Log.Volley.{
  Copy, job_data, task_data, txt_data, Stage, to_token, to_job, to_task, to_text, talk, Root,
  awaits, sends_job, sends_task, sends_text, past, Peer, next_rank, root_turn, peer_turn, fresh,
}

abbrev pub ended : Peer
ended = record { at = past; token = false; queue = [] }

-- Where the talk of rank 0 with a rank stands, and how many turns it still takes.
pub data Talk (c : Copy) : Stage → Peer → Copy → ℕ → Type 0 where
  opened : (h : Copy) → Talk c to_token fresh h 8
  called : (h : Copy) → Talk c to_job (record { at = awaits; token = true; queue = [] }) h 7
  woken : (h : Copy) → Talk c to_job (record { at = sends_job; token = false; queue = [] }) h 6
  sent_job :
      (h : Copy)
      → Talk c to_job
          (record { at = sends_task; token = false; queue = job_data c.ntasks ∷ [] })
          h
          5
  sent_task :
      (h : Copy)
      → Talk c to_job
          (record {
            at = sends_text;
            token = false;
            queue = job_data c.ntasks ∷ task_data c.task ∷ [];
          })
          h
          4
  sent_all :
      (h : Copy)
      → Talk c to_job
          (record {
            at = past;
            token = false;
            queue = job_data c.ntasks ∷ task_data c.task ∷ txt_data c.txt ∷ [];
          })
          h
          3
  got_one :
      (h : Copy)
      → h.ntasks ≡ c.ntasks
      → Talk c to_task (record { at = sends_task; token = false; queue = [] }) h 4
  got_one_of_two :
      (h : Copy)
      → h.ntasks ≡ c.ntasks
      → Talk c to_task
          (record { at = sends_text; token = false; queue = task_data c.task ∷ [] })
          h
          3
  got_one_of_three :
      (h : Copy)
      → h.ntasks ≡ c.ntasks
      → Talk c to_task
          (record { at = past; token = false; queue = task_data c.task ∷ txt_data c.txt ∷ [] })
          h
          2
  got_two :
      (h : Copy)
      → h.ntasks ≡ c.ntasks
      → h.task ≡ c.task
      → Talk c to_text (record { at = sends_text; token = false; queue = [] }) h 2
  got_two_of_three :
      (h : Copy)
      → h.ntasks ≡ c.ntasks
      → h.task ≡ c.task
      → Talk c to_text (record { at = past; token = false; queue = txt_data c.txt ∷ [] }) h 1

-- What a turn of rank 0 leads to.
pub data RootTurn (c : Copy) (i : ℕ) (r : Root) (l : ℕ) : Option (Root × Peer) → Type 0 where
  waits : RootTurn c i r l none
  goes_on :
      {st : Stage} {p : Peer} {h : Copy} {k : ℕ}
      → Talk c st p h k
      → suc k ≡ l
      → RootTurn c i r l (some (record { at = talk st i; held = h; file = r.file }, p))
  writes :
      l ≡ 1
      → RootTurn c i r l
          (some (record { at = next_rank c (i + 1); held = c; file = r.file ++ c ∷ [] }, ended))

pub data PeerTurn (c : Copy) (st : Stage) (h : Copy) (l : ℕ) : Option Peer → Type 0 where
  stays : PeerTurn c st h l none
  moves : {p : Peer} {k : ℕ} → Talk c st p h k → suc k ≡ l → PeerTurn c st h l (some p)

pub peer-Talk :
    (c : Copy) {st : Stage} {p : Peer} {h : Copy} {l : ℕ}
    → Talk c st p h l
    → PeerTurn c st h l (peer_turn c p)
unfolding peer_turn
peer-Talk c (opened h) = stays
peer-Talk c (called h) = moves (woken h) refl
peer-Talk c (woken h) = moves (sent_job h) refl
peer-Talk c (sent_job h) = moves (sent_task h) refl
peer-Talk c (sent_task h) = moves (sent_all h) refl
peer-Talk c (sent_all h) = stays
peer-Talk c (got_one h e) = moves (got_one_of_two h e) refl
peer-Talk c (got_one_of_two h e) = moves (got_one_of_three h e) refl
peer-Talk c (got_one_of_three h e) = stays
peer-Talk c (got_two h e f) = moves (got_two_of_three h e f) refl
peer-Talk c (got_two_of_three h e f) = stays

whole : (h c : Copy) → h.ntasks ≡ c.ntasks → h.task ≡ c.task → record h { txt = c.txt } ≡ c
whole h c e f = cc

pub root-Talk :
    (c : Copy) (i : ℕ) (r : Root) {st : Stage} {p : Peer} {l : ℕ}
    → Talk c st p r.held l
    → RootTurn c i r l (root_turn st i r p)
unfolding root_turn
root-Talk c i r (opened h) = goes_on (called h) refl
root-Talk c i r (called h) = waits
root-Talk c i r (woken h) = waits
root-Talk c i r (sent_job h) = goes_on (got_one (record h { ntasks = c.ntasks }) refl) refl
root-Talk c i r (sent_task h) = goes_on (got_one_of_two (record h { ntasks = c.ntasks }) refl) refl
root-Talk c i r (sent_all h) = goes_on (got_one_of_three (record h { ntasks = c.ntasks }) refl) refl
root-Talk c i r (got_one h e) = waits
root-Talk c i r (got_one_of_two h e) = goes_on (got_two (record h { task = c.task }) e refl) refl
root-Talk c i r (got_one_of_three h e) =
    goes_on (got_two_of_three (record h { task = c.task }) e refl) refl
root-Talk c i r (got_two h e f) = waits
root-Talk c i r (got_two_of_three h e f) =
    subst
      (λ (d : Copy).
        RootTurn c i r 1
          (some (record { at = next_rank d (i + 1); held = d; file = r.file ++ d ∷ [] }, ended)))
      (sym (whole r.held c e f)) (writes refl)

pub Talk-moves :
    (c : Copy) (i : ℕ) (r : Root) {st : Stage} {p : Peer} {h : Copy} {l : ℕ}
    → Talk c st p h l
    → ((x : Root × Peer) × (root_turn st i r p ≡ some x)) ⊎ ((q : Peer) × (peer_turn c p ≡ some q))
unfolding root_turn peer_turn
Talk-moves c i r (opened h) = inl (_, refl)
Talk-moves c i r (called h) = inr (_, refl)
Talk-moves c i r (woken h) = inr (_, refl)
Talk-moves c i r (sent_job h) = inl (_, refl)
Talk-moves c i r (sent_task h) = inl (_, refl)
Talk-moves c i r (sent_all h) = inl (_, refl)
Talk-moves c i r (got_one h e) = inr (_, refl)
Talk-moves c i r (got_one_of_two h e) = inl (_, refl)
Talk-moves c i r (got_one_of_three h e) = inl (_, refl)
Talk-moves c i r (got_two h e f) = inr (_, refl)
Talk-moves c i r (got_two_of_three h e f) = inl (_, refl)
