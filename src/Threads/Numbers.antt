-- ===== src/Threads/Numbers.antt =====
-- src/ipm_pthreads.c: the numbers that the threads get.
use ipm_nci.Base.{ℕ, ◌<◌, ◌≡◌, Bool, true, false, Option, none, some, arith, ℕ_discrete}
use ipm_nci.Base.Updates.{update}
use ipm_nci.Threads.{
  Stage, waiting, locked, seen, taken, left, known, Pool, Turn, ask, lock, see, take, unlock, keep,
  Reached, origin, after,
}

-- The number of a thread, from when it is taken on.
abbrev pub tid_of : Stage → Option ℕ
tid_of (taken n) = some n
tid_of (left n) = some n
tid_of (known n) = some n
tid_of _ = none

abbrev pub is_inside : Stage → Bool
is_inside locked = true
is_inside (seen n) = true
is_inside (taken n) = true
is_inside _ = false

-- A number that was read is still next_tid.
abbrev pub IsCurrent : ℕ → Stage → Type 0
IsCurrent next (seen n) = n ≡ next
IsCurrent next _ = Unit

pub record Holds (s : Pool) : Type 0 where
  pub inside : (i : ℕ) → is_inside (s.stages i) ≡ true → s.holder ≡ some i
  pub holding : (i : ℕ) → s.holder ≡ some i → is_inside (s.stages i) ≡ true
  pub current : (i : ℕ) → IsCurrent s.next_tid (s.stages i)
  pub below : (i n : ℕ) → tid_of (s.stages i) ≡ some n → n < s.next_tid
  pub distinct : (i j n : ℕ) → tid_of (s.stages i) ≡ some n → tid_of (s.stages j) ≡ some n → i ≡ j
  pub owned : (n : ℕ) → n < s.next_tid → (i : ℕ) × (tid_of (s.stages i) ≡ some n)

-- The owner of a number keeps it when a thread goes on.
kept :
    (stages : ℕ → Stage) (i n : ℕ) (p : Stage)
    → ((j : ℕ) → tid_of (stages j) ≡ some n → tid_of (update stages i p j) ≡ some n)
    → ((j : ℕ) × (tid_of (stages j) ≡ some n))
    → (j : ℕ) × (tid_of (update stages i p j) ≡ some n)
kept stages i n p keeps (j, e) = (j, keeps j e)

Turn-Holds : {s : Pool} (i : ℕ) {t : Pool} → Holds s → Turn s i t → Holds t
Turn-Holds {s} i v (ask e) = record {
  inside = λ j p. ground (arith, e, v.inside j);
  holding = λ j p. ground (arith, e, v.holding j);
  current = λ j. ground (arith, e, v.current j);
  below = λ j n p. ground (arith, e, v.below j n);
  distinct = λ j k n p q. ground (arith, e, v.distinct j k n);
  owned = λ n h. kept s.stages i n waiting (λ j q. ground (arith, e, q)) (v.owned n h);
}
Turn-Holds {s} i v (lock e f) = record {
  inside = λ j p. ground (arith, e, f, v.inside j);
  holding = λ j p. ground (arith, e, f, v.holding j);
  current = λ j. ground (arith, e, v.current j);
  below = λ j n p. ground (arith, e, v.below j n);
  distinct = λ j k n p q. ground (arith, e, v.distinct j k n);
  owned = λ n h. kept s.stages i n locked (λ j q. ground (arith, e, q)) (v.owned n h);
}
Turn-Holds {s} i v (see e) = record {
  inside = λ j p. ground (arith, e, v.inside j, v.inside i);
  holding = λ j p. ground (arith, e, v.holding j);
  current = λ j. ground (arith, e, v.current j);
  below = λ j n p. ground (arith, e, v.below j n);
  distinct = λ j k n p q. ground (arith, e, v.distinct j k n);
  owned = λ n h. kept s.stages i n (seen s.next_tid) (λ j q. ground (arith, e, q)) (v.owned n h);
}
Turn-Holds {s} i v (take m e) = record {
  inside = λ j p. ground (arith, e, v.inside j, v.inside i);
  holding = λ j p. ground (arith, e, v.holding j);
  current = λ j. ground (arith, e, v.current j, v.inside i, v.inside j);
  below = λ j n p. ground (arith, e, v.below j n, v.current i);
  distinct =
      λ j k n p q. ground (arith, e, v.distinct j k n, v.below j n, v.below k n, v.current i);
  owned = λ n h. elim (ℕ_discrete n m) [
    | yes q ↦ (i, ground (arith, q))
    | no q ↦
        kept s.stages i n (taken m) (λ j r. ground (arith, e, r))
          (v.owned n (ground (arith, e, v.current i)))
  ];
}
Turn-Holds {s} i v (unlock m e) = record {
  inside = λ j p. ground (arith, e, v.inside j, v.inside i);
  holding = λ j p. ground (arith, e, v.holding j);
  current = λ j. ground (arith, e, v.current j);
  below = λ j n p. ground (arith, e, v.below j n, v.below i n);
  distinct = λ j k n p q. ground (arith, e, v.distinct j k n, v.distinct i k n, v.distinct j i n);
  owned = λ n h. kept s.stages i n (left m) (λ j q. ground (arith, e, q)) (v.owned n h);
}
Turn-Holds {s} i v (keep m e) = record {
  inside = λ j p. ground (arith, e, v.inside j);
  holding = λ j p. ground (arith, e, v.holding j);
  current = λ j. ground (arith, e, v.current j);
  below = λ j n p. ground (arith, e, v.below j n, v.below i n);
  distinct = λ j k n p q. ground (arith, e, v.distinct j k n, v.distinct i k n, v.distinct j i n);
  owned = λ n h. kept s.stages i n (known m) (λ j q. ground (arith, e, q)) (v.owned n h);
}

pub Reached-Holds : {s : Pool} → Reached s → Holds s
Reached-Holds origin = record {
  inside = λ i p. cc;
  holding = λ i p. cc;
  current = λ i. tt;
  below = λ i n p. cc;
  distinct = λ i j n p q. cc;
  owned = λ n h. absurd (omega arith);
}
Reached-Holds (after i r turn) = Turn-Holds i (Reached-Holds r) turn
