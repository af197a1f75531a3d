-- ===== src/Log/Volley/Holds.antt =====
-- src/ipm_mpi_log.c: what holds of all ranks while the serial log is written.
use mathlib.Core.List.{map-append}
use ipm_nci.Base.{
  ℕ, zero, suc, ◌+◌, ◌-◌, ◌*◌, ◌<◌, ◌≤◌, ◌≡◌, ◌≢◌, refl, sym, ap, ◌∙◌, subst, arith, ◌⊎◌, inl, inr,
  List, [], ◌∷◌, ◌++◌, map, length, Option, none, some, ℕ_discrete, ==_refl, ==_of_ne, dec_lt,
}
use ipm_nci.Base.Options.{some-injective}
use ipm_nci.Base.Updates.{update}
use ipm_nci.Layout.{identity}
use ipm_nci.Log.Volley.{
  Copy, Stage, to_token, RootAt, talk, closed, Root, Peer, Net, next_rank, peer_turn, meet, place,
  root_at, turn, fresh, start, then_turns, turns,
}
use ipm_nci.Log.Volley.Talk.{
  ended, Talk, opened, RootTurn, waits, goes_on, writes, PeerTurn, stays, moves, peer-Talk,
  root-Talk,
}

abbrev pub ranks_below : (ℕ → Copy) → ℕ → List Copy
ranks_below own n = map own (identity n)

below-suc : (own : ℕ → Copy) (i : ℕ) → ranks_below own (i + 1) ≡ ranks_below own i ++ own i ∷ []
unfolding identity
below-suc own i =
    let e : i + 1 ≡ suc i = omega arith in
    ap (ranks_below own) e ∙ map-append own (identity i) (i ∷ [])

update_self : {A : Type 0} (f : ℕ → A) (i : ℕ) (v : A) → update f i v i ≡ v
update_self f i v = rw (==_refl i) refl

update_ne : {A : Type 0} (f : ℕ → A) (i j : ℕ) (v : A) → i ≢ j → update f i v j ≡ f j
update_ne f i j v ne = rw (==_of_ne i j ne) refl

-- The net of n ranks when `left` turns are left.
module _ (n : ℕ) (own : ℕ → Copy) where
  pub data Holds (s : Net) (left : ℕ) : Type 0 where
    talking :
        (i : ℕ) {st : Stage} {l : ℕ}
        → 1 ≤ i
        → i < n
        → s.root.at ≡ talk st i
        → s.root.file ≡ ranks_below own i
        → Talk (own i) st (s.peers i) s.root.held l
        → ((j : ℕ) → 1 ≤ j → j < i → s.peers j ≡ ended)
        → ((j : ℕ) → i < j → s.peers j ≡ fresh)
        → left + 8 * (i + 1) ≡ l + 8 * n
        → Holds s left
    finished :
        s.root.at ≡ closed
        → s.root.file ≡ ranks_below own n
        → ((j : ℕ) → 1 ≤ j → j < n → s.peers j ≡ ended)
        → ((j : ℕ) → n ≤ j → s.peers j ≡ fresh)
        → left ≡ 0
        → Holds s left

  -- What a turn in such a net leads to.
  pub data Turned (left : ℕ) : Option Net → Type 0 where
    still : Turned left none
    turned : {u : Net} {k : ℕ} → Holds u k → suc k ≡ left → Turned left (some u)

  -- Rank 0 goes on with the rank i, when all before it are written.
  next-Holds :
      (c : Copy) (i left : ℕ) (peers : ℕ → Peer)
      → c.ntasks ≡ n
      → 1 ≤ i
      → i ≤ n
      → ((j : ℕ) → 1 ≤ j → j < i → peers j ≡ ended)
      → ((j : ℕ) → i ≤ j → peers j ≡ fresh)
      → left + 8 * i ≡ 8 * n
      → Holds
          (record {
            root = record { at = next_rank c i; held = c; file = ranks_below own i };
            peers = peers;
          })
          left
  unfolding next_rank
  next-Holds c i left peers size pos le before after count = elim (ℕ_discrete i n) [
    | yes e ↦
        finished (ground (arith, e, size)) (ap (ranks_below own) e)
          (λ j p l. before j p (omega (arith, e, l))) (λ j l. after j (omega (arith, e, l)))
          (omega (arith, e, count))
    | no ne ↦
        talking i {st = to_token} {l = 8} pos (omega (arith, ne, le)) (ground (arith, ne, le, size))
          refl
          (subst (λ (p : Peer). Talk (own i) to_token p c 8) (sym (after i (omega arith)))
            (opened c))
          before (λ j l. after j (omega (arith, l))) (omega (arith, count))
  ]

  -- While rank 0 talks with the rank i.
  module _ (size : (j : ℕ) → (own j).ntasks ≡ n) (s : Net) (left i l : ℕ) (pos : 1 ≤ i)
      (inside : i < n) (file : s.root.file ≡ ranks_below own i)
      (before : (j : ℕ) → 1 ≤ j → j < i → s.peers j ≡ ended)
      (after : (j : ℕ) → i < j → s.peers j ≡ fresh) (count : left + 8 * (i + 1) ≡ l + 8 * n) where
    before-update : (p : Peer) (j : ℕ) → 1 ≤ j → j < i → update s.peers i p j ≡ ended
    before-update p j one lt = update_ne s.peers i j p (omega (arith, lt)) ∙ before j one lt

    after-update : (p : Peer) (j : ℕ) → i < j → update s.peers i p j ≡ fresh
    after-update p j lt = update_ne s.peers i j p (omega (arith, lt)) ∙ after j lt

    before-ended : (j : ℕ) → 1 ≤ j → j < i + 1 → update s.peers i ended j ≡ ended
    before-ended j one lt = elim (ℕ_discrete i j) [
      | yes e ↦ rw (← e) (update_self s.peers i ended)
      | no ne ↦ before-update ended j one (omega (arith, lt, ne))
    ]

    meet-Turned :
        {o : Option (Root × Peer)} → RootTurn (own i) i s.root l o → Turned left (meet s i o)
    unfolding meet identity
    meet-Turned waits = still
    meet-Turned (goes_on {st} {p} {h} {k} t e) =
        turned {k = k + 8 * (n - (i + 1))}
          (talking i pos inside refl file
            (subst (λ (q : Peer). Talk (own i) st q h k) (sym (update_self s.peers i p)) t)
            (before-update p) (after-update p) (omega (arith, inside)))
          (omega (arith, e, count, inside))
    meet-Turned (writes e) =
        turned {k = 8 * (n - (i + 1))}
          (subst
            (λ (f : List Copy).
              Holds
                (record {
                  root = record { at = next_rank (own i) (i + 1); held = own i; file = f };
                  peers = update s.peers i ended;
                })
                (8 * (n - (i + 1))))
            (below-suc own i ∙ ap (λ (f : List Copy). f ++ own i ∷ []) (sym file))
            (next-Holds (own i) (i + 1) (8 * (n - (i + 1))) (update s.peers i ended) (size i)
              (omega arith) (omega (arith, inside)) before-ended
              (λ j le. after-update ended j (omega (arith, le))) (omega (arith, inside))))
          (omega (arith, e, count, inside))

    peer-Turned :
        {st : Stage} {o : Option Peer}
        → s.root.at ≡ talk st i
        → PeerTurn (own i) st s.root.held l o
        → Turned left (place s i o)
    unfolding place
    peer-Turned at stays = still
    peer-Turned {st} at (moves {p} {k} t e) =
        turned {k = k + 8 * (n - (i + 1))}
          (talking i pos inside at file
            (subst (λ (q : Peer). Talk (own i) st q s.root.held k) (sym (update_self s.peers i p))
              t)
            (before-update p) (after-update p) (omega (arith, inside)))
          (omega (arith, e, count, inside))

  either :
      (j k : ℕ) (s : Net)
      → (j < k → s.peers j ≡ ended)
      → (k ≤ j → s.peers j ≡ fresh)
      → (s.peers j ≡ ended) ⊎ (s.peers j ≡ fresh)
  either j k s below above = elim (dec_lt j k) [
    | yes lt ↦ inl (below lt)
    | no ge ↦ inr (above (omega (arith, ge)))
  ]

  idle-Turned :
      (s : Net) (left r : ℕ)
      → (s.peers r ≡ ended) ⊎ (s.peers r ≡ fresh)
      → Turned left (place s r (peer_turn (own r) (s.peers r)))
  unfolding place peer_turn
  idle-Turned s left r (inl e) = rw e still
  idle-Turned s left r (inr e) = rw e still

  -- A turn of any rank.
  pub turn-Turned :
      (size : (j : ℕ) → (own j).ntasks ≡ n) (r left : ℕ) (s : Net)
      → Holds s left
      → Turned left (turn own r s)
  unfolding turn
  turn-Turned size zero left s (talking i {st} {l} pos inside at file t before after count) =
      subst (λ (a : RootAt). Turned left (root_at s a)) (sym at)
        (meet-Turned size s left i l pos inside file before after count
          (root-Talk (own i) i s.root t))
  turn-Turned size zero left s (finished at file before after none_left) =
      subst (λ (a : RootAt). Turned left (root_at s a)) (sym at) still
  turn-Turned size (suc r) left s (talking i {st} {l} pos inside at file t before after count) =
      elim (ℕ_discrete i (suc r)) [
        | yes e ↦
            subst (λ (j : ℕ). Turned left (place s j (peer_turn (own j) (s.peers j)))) e
              (peer-Turned size s left i l pos inside file before after count at
                (peer-Talk (own i) t))
        | no ne ↦ idle-Turned s left (suc r) (
            either (suc r) i s (λ lt. before (suc r) (omega arith) lt)
              (λ le. after (suc r) (omega (arith, le, ne))))
      ]
  turn-Turned size (suc r) left s (finished at file before after none_left) =
      idle-Turned s left (suc r)
        (either (suc r) n s (λ lt. before (suc r) (omega arith) lt) (after (suc r)))

  -- The first of several turns, and what holds of the others.
  then-Holds :
      (rs : List ℕ) (left : ℕ) (u : Net)
      → ((k : ℕ) (v : Net)
          → Holds v k
          → turns own rs v ≡ some u
          → (m : ℕ) × Holds u m × (m + length rs ≡ k))
      → {o : Option Net} → Turned left o
      → then_turns o (λ v. turns own rs v) ≡ some u
      → (m : ℕ) × Holds u m × (m + suc (length rs) ≡ left)
  unfolding then_turns
  then-Holds rs left u rest still run = cc
  then-Holds rs left u rest (turned {u = v} {k} h e) run =
      let (m, last, count) = rest k v h run in (m, last, omega (arith, e, count))

  pub turns-Holds :
      (size : (j : ℕ) → (own j).ntasks ≡ n) (rs : List ℕ) (left : ℕ) (s u : Net)
      → Holds s left
      → turns own rs s ≡ some u
      → (k : ℕ) × Holds u k × (k + length rs ≡ left)
  unfolding turns
  turns-Holds size [] left s u h run =
      (left, subst (λ (v : Net). Holds v left) (some-injective run) h, omega arith)
  turns-Holds size (r ∷ rs) left s u h run =
      then-Holds rs left u (λ k v. turns-Holds size rs k v u) (turn-Turned size r left s h) run

  pub start-Holds : 1 ≤ n → ((j : ℕ) → (own j).ntasks ≡ n) → Holds (start own) (8 * (n - 1))
  unfolding start identity
  start-Holds pos size =
      next-Holds (own 0) 1 (8 * (n - 1)) (λ _. fresh) (size 0) (omega arith) pos
        (λ j one lt. absurd (omega (arith, one, lt))) (λ j le. refl) (omega arith)
