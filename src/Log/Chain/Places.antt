-- ===== src/Log/Chain/Places.antt =====
-- src/ipm_mpi_log.c: the offsets that the ranks end up with.
use ipm_nci.Base.{ℕ, zero, suc, ◌+◌, ◌<◌, ◌≡◌, refl, Bool, true, false, Option, none, some, arith}
use ipm_nci.Base.Updates.{update_all}
use ipm_nci.Log.Chain.{
  Progress, idle, summed, placed, Net, Step, alone, first, send, receive, last, Reach, here, next,
}

-- The sizes of the ranks below i.
unfoldable pub before : (ℕ → ℕ) → ℕ → ℕ
before sizes zero = 0
before sizes (suc i) = before sizes i + sizes i

abbrev pub IsRight : (ℕ → ℕ) → ℕ → Progress → Type 0
IsRight sizes i idle = Unit
IsRight sizes i (summed offset sum) = (offset ≡ before sizes i) × (sum ≡ before sizes (suc i))
IsRight sizes i (placed offset) = offset ≡ before sizes i

abbrev pub IsMail : (ℕ → ℕ) → ℕ → Option ℕ → Type 0
IsMail sizes i none = Unit
IsMail sizes i (some sum) = sum ≡ before sizes (suc i)

abbrev pub is_placed : Progress → Bool
is_placed idle = false
is_placed (summed offset sum) = false
is_placed (placed offset) = true

abbrev pub is_idle : Progress → Bool
is_idle idle = true
is_idle (summed offset sum) = false
is_idle (placed offset) = false

abbrev pub is_some : Option ℕ → Bool
is_some none = false
is_some (some m) = true

abbrev pub is_summed : Progress → Bool
is_summed idle = false
is_summed (summed offset sum) = true
is_summed (placed offset) = false

-- The invariant; only a rank with a next one sends; `flow` says that a placed rank's message waits while its receiver is idle.
pub record Holds (size : ℕ) (sizes : ℕ → ℕ) (s : Net) : Type 0 where
  pub right : (i : ℕ) → IsRight sizes i (s.ranks i)
  pub mail : (i : ℕ) → IsMail sizes i (s.mail i)
  pub sending : (i : ℕ) → is_summed (s.ranks i) ≡ true → suc i < size
  pub flow :
      (i : ℕ)
      → is_placed (s.ranks i) ≡ true
      → suc i < size
      → is_idle (s.ranks (suc i)) ≡ true
      → is_some (s.mail i) ≡ true

Step-Holds :
    (size : ℕ) (sizes : ℕ → ℕ) {s t : Net}
    → Holds size sizes s
    → Step size sizes s t
    → Holds size sizes t
unfolding before
Step-Holds size sizes {s} v (alone n e) = record {
  right = update_all (IsRight sizes) s.ranks 0 (placed 0) v.right refl;
  mail = v.mail;
  sending = λ j p. ground (arith, n, v.sending j, e);
  flow = λ i p l q. ground (arith, n, v.flow i);
}
Step-Holds size sizes {s} v (first n e) = record {
  right = update_all (IsRight sizes) s.ranks 0 (summed 0 (sizes 0)) v.right (refl, omega arith);
  mail = v.mail;
  sending = λ j p. ground (arith, n, v.sending j, e);
  flow = λ i p l q. ground (arith, v.flow i);
}
Step-Holds size sizes {s} v (send i offset sum n e) = record {
  right = update_all (IsRight sizes) s.ranks i (placed offset) v.right (ground (arith, v.right i));
  mail = update_all (IsMail sizes) s.mail i (some sum) v.mail (ground (arith, v.right i));
  sending = λ j p. ground (arith, n, v.sending j, e);
  flow = λ j p l q. ground (arith, v.flow j, e);
}
Step-Holds size sizes {s} v (receive i sum n e f) = record {
  right =
      update_all (IsRight sizes) s.ranks (suc i) (summed sum (sum + sizes (suc i))) v.right
        (ground (arith, v.mail i));
  mail = update_all (IsMail sizes) s.mail i none v.mail tt;
  sending = λ j p. ground (arith, n, v.sending j, e);
  flow = λ j p l q. ground (arith, v.flow j, e, f);
}
Step-Holds size sizes {s} v (last i sum n e f) = record {
  right =
      update_all (IsRight sizes) s.ranks (suc i) (placed sum) v.right (ground (arith, v.mail i));
  mail = update_all (IsMail sizes) s.mail i none v.mail tt;
  sending = λ j p. ground (arith, n, v.sending j, e);
  flow = λ j p l q. ground (arith, v.flow j, e, f);
}

pub Reach-Holds :
    (size : ℕ) (sizes : ℕ → ℕ) {k : ℕ} {s : Net} → Reach size sizes k s → Holds size sizes s
Reach-Holds size sizes here = record {
  right = λ i. tt;
  mail = λ i. tt;
  sending = λ i p. cc;
  flow = λ i p l q. cc;
}
Reach-Holds size sizes (next r st) = Step-Holds size sizes (Reach-Holds size sizes r) st
