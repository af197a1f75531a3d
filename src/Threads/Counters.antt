-- ===== src/Threads/Counters.antt =====
-- src/ipm_pthreads.c: what a thread does around its function, ipm_pthread_begin, ipm_pthread_end and
-- the trampoline that calls them. `none` stands for an access outside the array pthreads. What
-- PAPI_read gives is a parameter; counters are 64-bit words.
use ipm_nci.Base.{
  ℕ, zero, suc, ◌+◌, ◌-◌, ◌%◌, ◌^◌, ◌<◌, ◌≡◌, refl, ap, ◌∙◌, Bool, true, false, not, if◌then◌else◌,
  List, [], ◌∷◌, map, replicate, get_elem?, set, Option, none, some, arith, Bool-cases, inl, inr,
  ◌&&◌, ◌||◌,
}
use ipm_nci.Base.Options.{◌>>=◌}

-- A row of `pthreads`.
pub record ThreadData : Type 0 where
  pub papi_ctrs : List ℕ
  pub papi_enter : List ℕ
  pub papi_running : Bool
  pub active : Bool

-- Whether the fields of pthread_func_t are not NULL.
pub record ThreadFunc : Type 0 where
  pub func : Bool
  pub args : Bool

unfoldable pub ipm_pthread_once : ℕ → List ThreadData → List ThreadData
ipm_pthread_once counters ds =
    map {A = ThreadData}
      (λ d. record d { papi_running = false; active = false; papi_ctrs = replicate counters 0 }) ds

-- `c += n - c` on 64-bit words.
unfoldable pub add_diff : ℕ → ℕ → ℕ
add_diff c n = (c + (n + 2 ^ 64 - c) % 2 ^ 64) % 2 ^ 64

unfoldable pub accumulate : List ℕ → List ℕ → List ℕ
accumulate [] ns = []
accumulate (c ∷ cs) [] = c ∷ cs
accumulate (c ∷ cs) (n ∷ ns) = add_diff c n ∷ accumulate cs ns

unfoldable pub ipm_pthread_begin : ℕ → List ℕ → List ThreadData → Option (List ThreadData)
ipm_pthread_begin tid enter ds = do
  d ← get_elem? ds tid
  let started = if not d.papi_running then record d { papi_running = true; active = true } else d
  some (set ds tid (record started { papi_enter = enter }))

unfoldable pub ipm_pthread_end : ℕ → List ℕ → List ThreadData → Option (List ThreadData)
ipm_pthread_end tid papi_now ds = do
  d ← get_elem? ds tid
  some (
      if d.papi_running
      then set ds tid (record d { papi_ctrs = accumulate d.papi_ctrs papi_now })
      else ds)

-- "ptfunc && ptfunc->func && ptfunc->args"
unfoldable pub is_called : Option ThreadFunc → Bool
is_called none = false
is_called (some f) = f.func && f.args

-- ipm_pthread_trampoline with the number that ipm_pthread_get_tid gives: the rows, and whether the
-- function of the thread is called.
unfoldable pub ipm_pthread_trampoline :
    Option ThreadFunc → ℕ → List ℕ → List ℕ → List ThreadData → Option (List ThreadData × Bool)
ipm_pthread_trampoline ptfunc tid enter papi_now ds = do
  begun ← ipm_pthread_begin tid enter ds
  ended ← ipm_pthread_end tid papi_now begun
  some (ended, is_called ptfunc)

-- As many words on both sides.
abbrev pub AreWords : List ℕ → List ℕ → Type 0
AreWords [] [] = Unit
AreWords (c ∷ cs) (n ∷ ns) = (c < 2 ^ 64) × (n < 2 ^ 64) × AreWords cs ns
AreWords _ _ = ⊥

accumulate-last : (cs ns : List ℕ) → AreWords cs ns → accumulate cs ns ≡ ns
unfolding accumulate add_diff
accumulate-last [] [] w = refl
accumulate-last [] (n ∷ ns) w = absurd w
accumulate-last (c ∷ cs) [] w = absurd w
accumulate-last (c ∷ cs) (n ∷ ns) (hc, hn, w) =
    ap (λ (m : ℕ). m ∷ accumulate cs ns) {x = add_diff c n} {y = n} (omega arith)
    ∙ ap (λ (ms : List ℕ). n ∷ ms) (accumulate-last cs ns w)

get_elem-set :
    {A : Type 0} (xs : List A) (i : ℕ) (x v : A)
    → get_elem? xs i ≡ some x
    → get_elem? (set xs i v) i ≡ some v
get_elem-set [] i x v e = cc
get_elem-set (y ∷ xs) zero x v e = refl
get_elem-set (y ∷ xs) (suc i) x v e = get_elem-set xs i x v e

set-twice : {A : Type 0} (xs : List A) (i : ℕ) (u v : A) → set (set xs i u) i v ≡ set xs i v
set-twice [] i u v = refl
set-twice (y ∷ xs) zero u v = refl
set-twice (y ∷ xs) (suc i) u v = ap (λ zs. y ∷ zs) (set-twice xs i u v)

-- The row of a thread whose function begins, and whose function has ended.
abbrev begun_row : ThreadData → List ℕ → ThreadData
begun_row d enter = record d {
  papi_enter = enter;
  papi_running = true;
  active = not d.papi_running || d.active;
}

abbrev pub ended_row : ThreadData → List ℕ → List ℕ → ThreadData
ended_row d enter papi_now = record (begun_row d enter) { papi_ctrs = papi_now }

begin-row :
    (tid : ℕ) (enter : List ℕ) (ds : List ThreadData) (d : ThreadData)
    → get_elem? ds tid ≡ some d
    → ipm_pthread_begin tid enter ds ≡ some (set ds tid (begun_row d enter))
unfolding ipm_pthread_begin
begin-row tid enter ds d e = elim (Bool-cases d.papi_running) [
  | inl running ↦ rw (e, running) refl
  | inr stopped ↦ rw (e, stopped) refl
]

end-row :
    (tid : ℕ) (papi_now : List ℕ) (ds : List ThreadData) (d : ThreadData)
    → get_elem? ds tid ≡ some d
    → d.papi_running ≡ true
    → AreWords d.papi_ctrs papi_now
    → ipm_pthread_end tid papi_now ds ≡ some (set ds tid (record d { papi_ctrs = papi_now }))
unfolding ipm_pthread_end
end-row tid papi_now ds d e f w = rw (e, f, accumulate-last d.papi_ctrs papi_now w) refl

-- For a thread with a row of pthreads and as many counters as PAPI_read gives, all of them words: after
-- the trampoline its counters are what PAPI_read gave at the end, whatever it gave at the beginning and
-- whatever they were; its row is marked running, and active unless it was running and not active; the
-- other rows are unchanged. The function of the thread is called if it and its arguments are not NULL.
pub trampoline-last :
    (ptfunc : Option ThreadFunc) (tid : ℕ) (enter papi_now : List ℕ) (ds : List ThreadData)
    (d : ThreadData)
    → get_elem? ds tid ≡ some d
    → AreWords d.papi_ctrs papi_now
    → ipm_pthread_trampoline ptfunc tid enter papi_now ds
      ≡ some (set ds tid (ended_row d enter papi_now), is_called ptfunc)
unfolding ipm_pthread_trampoline
trampoline-last ptfunc tid enter papi_now ds d e w = rw (begin-row tid enter ds d e) (
    rw
      (end-row tid papi_now (set ds tid (begun_row d enter)) (begun_row d enter)
        (get_elem-set ds tid d (begun_row d enter) e) refl w)
      (rw (set-twice ds tid (begun_row d enter) (ended_row d enter papi_now)) refl))
