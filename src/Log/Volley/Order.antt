-- ===== src/Log/Volley/Order.antt =====
-- src/ipm_mpi_log.c: whatever the order of the turns, the log is written completely and in order.
use ipm_nci.Base.{
  ℕ, zero, suc, ◌-◌, ◌*◌, ◌<◌, ◌≤◌, ◌≡◌, ap, ◌∙◌, arith, ◌⊎◌, inl, inr, List, map, length, Option,
  some,
}
use ipm_nci.Layout.{identity}
use ipm_nci.Log.Volley.{
  Copy, Stage, talk, closed, Root, Peer, Net, root_turn, peer_turn, meet, place, root_at, turn,
  start, turns,
}
use ipm_nci.Log.Volley.Holds.{
  ranks_below, Holds, talking, finished, Turned, still, turned, turn-Turned, turns-Holds,
  start-Holds,
}
use ipm_nci.Log.Volley.Talk.{Talk-moves}

peer-moves :
    (own : ℕ → Copy) (i : ℕ) (s : Net) (q : Peer)
    → 1 ≤ i
    → peer_turn (own i) (s.peers i) ≡ some q
    → (v : Net) × (turn own i s ≡ some v)
unfolding turn
peer-moves own zero s q pos e = absurd (omega arith)
peer-moves own (suc r) s q pos e = (_, ap (place s (suc r)) e)

root-moves :
    (own : ℕ → Copy) (i : ℕ) (s : Net) {st : Stage} (x : Root × Peer)
    → s.root.at ≡ talk st i
    → root_turn st i s.root (s.peers i) ≡ some x
    → (v : Net) × (turn own 0 s ≡ some v)
unfolding turn meet
root-moves own i s {st} x at e = (_, ap (root_at s) at ∙ ap (meet s i) e)

Turned-pos :
    (n : ℕ) (own : ℕ → Copy) (left : ℕ) {o : Option Net} {v : Net}
    → Turned n own left o
    → o ≡ some v
    → 1 ≤ left
Turned-pos n own left still e = cc
Turned-pos n own left (turned h count) e = omega (arith, count)

-- Somebody moves, or the file is complete.
Holds-moves :
    (n : ℕ) (own : ℕ → Copy) (s : Net) {left : ℕ}
    → 1 ≤ n
    → Holds n own s left
    → ((r : ℕ) × (r < n) × ((v : Net) × (turn own r s ≡ some v)))
      ⊎ ((left ≡ 0) × (s.root.at ≡ closed) × (s.root.file ≡ ranks_below own n))
Holds-moves n own s some_ranks (talking i pos inside at file t before after count) =
    elim (Talk-moves (own i) i s.root t) [
      | inl (x, e) ↦ inl (0, some_ranks, root-moves own i s x at e)
      | inr (q, e) ↦ inl (i, inside, peer-moves own i s q pos e)
    ]
Holds-moves n own s some_ranks (finished at file before after none_left) = inr (none_left, at, file)

Holds-prefix :
    (n : ℕ) (own : ℕ → Copy) (s : Net) {left : ℕ}
    → Holds n own s left
    → (i : ℕ) × (i ≤ n) × (s.root.file ≡ ranks_below own i)
Holds-prefix n own s (talking i pos inside at file t before after count) =
    (i, omega (arith, inside), file)
Holds-prefix n own s (finished at file before after none_left) = (n, omega arith, file)

-- The serial log of n ranks, from one on, each of which has n in job.ntasks. After any sequence of
-- turns of the ranks, none of which had to wait, the file is the profiles of the first ranks, each as
-- its rank has it, in the order of the ranks. Either there were fewer than 8 * (n - 1) turns and some
-- rank can take its turn, so that nothing is deadlocked, or there were exactly as many, rank 0 has
-- closed the file, and it holds the profiles of all ranks.
pub volley-order :
    (n : ℕ) (own : ℕ → Copy) (rs : List ℕ) (s : Net)
    → 1 ≤ n
    → ((i : ℕ) → (own i).ntasks ≡ n)
    → turns own rs (start own) ≡ some s
    → ((i : ℕ) × (i ≤ n) × (s.root.file ≡ map own (identity i)))
      × (((length rs < 8 * (n - 1)) × ((r : ℕ) × (r < n) × ((u : Net) × (turn own r s ≡ some u))))
          ⊎ ((length rs ≡ 8 * (n - 1))
              × (s.root.at ≡ closed)
              × (s.root.file ≡ map own (identity n))))
volley-order n own rs s some_ranks size run =
    let (left, holds, count) =
      turns-Holds n own size rs (8 * (n - 1)) (start own) s (start-Holds n own some_ranks size)
        run in
    (
      Holds-prefix n own s holds,
      elim (Holds-moves n own s some_ranks holds) [
        | inl (r, lt, (u, e)) ↦
            let more = Turned-pos n own left (turn-Turned n own size r left s holds) e in
            inl (omega (arith, more, count), (r, lt, (u, e)))
        | inr (none_left, at, file) ↦ inr (omega (arith, none_left, count), at, file)
      ],
    )
