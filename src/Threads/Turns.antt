-- ===== src/Threads/Turns.antt =====
-- src/ipm_pthreads.c: finitely many threads all get their numbers.
use ipm_nci.Base.{
  ℕ, zero, suc, ◌+◌, ◌*◌, ◌<◌, ◌≤◌, ◌≡◌, refl, Bool, true, false, Option, none, some, arith,
  ℕ_discrete, subst,
}
use ipm_nci.Base.Updates.{sum_to, sum_to-update}
use ipm_nci.Threads.Numbers.{is_inside, Reached-Holds}
use ipm_nci.Threads.{
  Stage, fresh, waiting, locked, seen, taken, left, known, Pool, Turn, ask, lock, see, take, unlock,
  keep, begin, Reached, origin, after,
}

abbrev pub is_known : Stage → Bool
is_known (known n) = true
is_known _ = false

-- The owner of the mutex goes on.
inside_goes :
    (s : Pool) (h : ℕ) (p : Stage) → s.stages h ≡ p → is_inside p ≡ true → (t : Pool) × Turn s h t
inside_goes s h locked e q = (_, see e)
inside_goes s h (seen n) e q = (_, take n e)
inside_goes s h (taken n) e q = (_, unlock n e)
inside_goes s h fresh e q = cc
inside_goes s h waiting e q = cc
inside_goes s h (left n) e q = cc
inside_goes s h (known n) e q = cc

-- What n threads, those from 0 to n - 1, reach in k turns.
pub data Among (n : ℕ) : ℕ → Pool → Type 0 where
  start : Among n 0 begin
  turned : {k : ℕ} {s t : Pool} (i : ℕ) → i < n → Among n k s → Turn s i t → Among n (suc k) t

Among-Reached : {n k : ℕ} {s : Pool} → Among n k s → Reached s
Among-Reached start = origin
Among-Reached (turned i l a turn) = after i (Among-Reached a) turn

Turn-holder :
    {s : Pool} (i : ℕ) {t : Pool} (n h : ℕ)
    → i < n
    → Turn s i t
    → (s.holder ≡ some h → h < n)
    → t.holder ≡ some h
    → h < n
Turn-holder i n h l (ask p) v e = v e
Turn-holder i n h l (lock p q) v e = ground (arith, l, e)
Turn-holder i n h l (see p) v e = v e
Turn-holder i n h l (take m p) v e = v e
Turn-holder i n h l (unlock m p) v e = cc
Turn-holder i n h l (keep m p) v e = v e

-- The owner of the mutex is one of the n threads.
Among-holder : {n k : ℕ} {s : Pool} (h : ℕ) → Among n k s → s.holder ≡ some h → h < n
Among-holder h start e = cc
Among-holder {n = n} h (turned i l a turn) e = Turn-holder i n h l turn (Among-holder h a) e

-- The turns that a thread has taken.
turns_of : Stage → ℕ
turns_of fresh = 0
turns_of waiting = 1
turns_of locked = 2
turns_of (seen m) = 3
turns_of (taken m) = 4
turns_of (left m) = 5
turns_of (known m) = 6

turns_of-at_most : (p : Stage) → turns_of p ≤ 6
unfolding turns_of
turns_of-at_most fresh = omega arith
turns_of-at_most waiting = omega arith
turns_of-at_most locked = omega arith
turns_of-at_most (seen m) = omega arith
turns_of-at_most (taken m) = omega arith
turns_of-at_most (left m) = omega arith
turns_of-at_most (known m) = omega arith

turns_of-below : (p : Stage) → is_known p ≡ false → turns_of p < 6
unfolding turns_of
turns_of-below fresh e = omega arith
turns_of-below waiting e = omega arith
turns_of-below locked e = omega arith
turns_of-below (seen m) e = omega arith
turns_of-below (taken m) e = omega arith
turns_of-below (left m) e = omega arith
turns_of-below (known m) e = cc

all_turns : Pool → ℕ → ℕ
all_turns s n = sum_to turns_of s.stages n

begin-turns : (n : ℕ) → all_turns begin n ≡ 0
unfolding all_turns sum_to turns_of
begin-turns zero = refl
begin-turns (suc n) = omega (arith, begin-turns n)

Turn-turns :
    {s : Pool} (i : ℕ) {t : Pool} (n : ℕ) → i < n → Turn s i t → all_turns t n ≡ all_turns s n + 1
unfolding all_turns turns_of
Turn-turns {s} i n l (ask e) = ground (arith, e, sum_to-update turns_of s.stages i waiting n l)
Turn-turns {s} i n l (lock e f) = ground (arith, e, sum_to-update turns_of s.stages i locked n l)
Turn-turns {s} i n l (see e) =
    ground (arith, e, sum_to-update turns_of s.stages i (seen s.next_tid) n l)
Turn-turns {s} i n l (take m e) = ground (arith, e, sum_to-update turns_of s.stages i (taken m) n l)
Turn-turns {s} i n l (unlock m e) =
    ground (arith, e, sum_to-update turns_of s.stages i (left m) n l)
Turn-turns {s} i n l (keep m e) = ground (arith, e, sum_to-update turns_of s.stages i (known m) n l)

Among-turns : {n k : ℕ} {s : Pool} → Among n k s → all_turns s n ≡ k
Among-turns {n = n} start = begin-turns n
Among-turns {n = n} (turned i l a turn) = omega (arith, Turn-turns i n l turn, Among-turns a)

turns-at_most : (f : ℕ → Stage) (n : ℕ) → sum_to turns_of f n ≤ 6 * n
unfolding sum_to
turns-at_most f zero = omega arith
turns-at_most f (suc n) = omega (arith, turns-at_most f n, turns_of-at_most (f n))

turns-below :
    (f : ℕ → Stage) (i n : ℕ) → i < n → is_known (f i) ≡ false → sum_to turns_of f n < 6 * n
unfolding sum_to
turns-below f i zero h e = absurd (omega arith)
turns-below f i (suc n) h e = elim (ℕ_discrete i n) [
  | yes same ↦
      let less : turns_of (f n) < 6 =
        subst (λ (j : ℕ). turns_of (f j) < 6) same (turns_of-below (f i) e) in
      omega (arith, turns-at_most f n, less)
  | no ne ↦ omega (arith, turns-below f i n (omega arith) e, turns_of-at_most (f n))
]

module _ (n k : ℕ) (s : Pool) (a : Among n k s) (i : ℕ) (l : i < n) where
  waiting_goes :
      (o : Option ℕ)
      → s.stages i ≡ waiting
      → s.holder ≡ o
      → (j : ℕ) × (j < n) × ((t : Pool) × Turn s j t)
  waiting_goes none e f = (i, l, (_, lock e f))
  waiting_goes (some h) e f = (
    h,
    Among-holder h a f,
    inside_goes s h (s.stages h) refl ((Reached-Holds (Among-Reached a)).holding h f),
  )

  goes :
      (p : Stage)
      → s.stages i ≡ p
      → is_known p ≡ false
      → (j : ℕ) × (j < n) × ((t : Pool) × Turn s j t)
  goes fresh e q = (i, l, (_, ask e))
  goes waiting e q = waiting_goes s.holder e refl
  goes locked e q = (i, l, (_, see e))
  goes (seen m) e q = (i, l, (_, take m e))
  goes (taken m) e q = (i, l, (_, unlock m e))
  goes (left m) e q = (i, l, (_, keep m e))
  goes (known m) e q = cc

-- However the steps of n threads are interleaved: as long as one of them has not got its number, they
-- have taken fewer than 6 * n turns, and there is no deadlock, since one of the n can take another
-- turn.
pub tids-goes_on :
    (n k : ℕ) (s : Pool) (i : ℕ)
    → Among n k s
    → i < n
    → is_known (s.stages i) ≡ false
    → (k < 6 * n) × ((j : ℕ) × (j < n) × ((t : Pool) × Turn s j t))
unfolding all_turns
tids-goes_on n k s i a l e = (
  omega (arith, Among-turns a, turns-below s.stages i n l e),
  goes n k s a i l (s.stages i) refl e,
)
