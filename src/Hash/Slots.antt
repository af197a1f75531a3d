-- ===== src/Hash/Slots.antt =====
-- The slots of the table as a list: how many are taken, and the entry of a key by a search of the
-- whole list, with no hashing.
use ipm_nci.Base.{
  ℕ, zero, suc, ◌+◌, ◌<◌, ◌≡◌, ◌≢◌, refl, if◌then◌else◌, ◌==◌, List, [], ◌∷◌, Option, none, some,
  length, get_or, set, arith,
}
use ipm_nci.Hash.{Entry, cleared}

-- The first entry with the key k.
unfoldable pub lookup : List Entry → ℕ → Option Entry
lookup [] k = none
lookup (e ∷ es) k = if e.key == k then some e else lookup es k

-- The number of slots that hold a key.
unfoldable pub occupied : List Entry → ℕ
occupied [] = 0
occupied (e ∷ es) = (if e.key == 0 then 0 else 1) + occupied es

abbrev pub key_at : List Entry → ℕ → ℕ
key_at es i = (get_or es i cleared).key

pub lookup-here :
    (es : List Entry) (i k : ℕ)
    → i < length es
    → ((j : ℕ) → j ≢ i → key_at es j ≢ k)
    → key_at es i ≡ k
    → lookup es k ≡ some (get_or es i cleared)
unfolding lookup
lookup-here [] i k h only e = elim h [ ]
lookup-here (x ∷ es) zero k h only e = ground arith
lookup-here (x ∷ es) (suc i) k h only e = ground (
  arith,
  only 0 (omega arith),
  lookup-here es i k (omega arith) (λ j ne. only (suc j) (omega arith)) e,
)

pub lookup-none : (es : List Entry) (k : ℕ) → ((j : ℕ) → key_at es j ≢ k) → lookup es k ≡ none
unfolding lookup
lookup-none [] k h = refl
lookup-none (x ∷ es) k h = ground (arith, h 0, lookup-none es k (λ j. h (suc j)))

-- A write of v at i where no other slot has the key k.
pub lookup-set_self :
    (es : List Entry) (i k : ℕ) (v : Entry)
    → i < length es
    → ((j : ℕ) → j ≢ i → key_at es j ≢ k)
    → v.key ≡ k
    → lookup (set es i v) k ≡ some v
unfolding lookup
lookup-set_self [] i k v h only e = elim h [ ]
lookup-set_self (x ∷ es) zero k v h only e = ground arith
lookup-set_self (x ∷ es) (suc i) k v h only e = ground (
  arith,
  only 0 (omega arith),
  lookup-set_self es i k v (omega arith) (λ j ne. only (suc j) (omega arith)) e,
)

-- A write that neither removes nor adds the key k.
pub lookup-set_other :
    (es : List Entry) (i k : ℕ) (v : Entry)
    → key_at es i ≢ k
    → v.key ≢ k
    → lookup (set es i v) k ≡ lookup es k
unfolding lookup
lookup-set_other [] i k v h g = refl
lookup-set_other (x ∷ es) zero k v h g = ground arith
lookup-set_other (x ∷ es) (suc i) k v h g = ground (arith, lookup-set_other es i k v h g)

pub occupied-set_claim :
    (es : List Entry) (i : ℕ) (v : Entry)
    → i < length es
    → key_at es i ≡ 0
    → v.key ≢ 0
    → occupied (set es i v) ≡ occupied es + 1
unfolding occupied
occupied-set_claim [] i v h e g = elim h [ ]
occupied-set_claim (x ∷ es) zero v h e g = ground arith
occupied-set_claim (x ∷ es) (suc i) v h e g =
    ground (arith, occupied-set_claim es i v (omega arith) e g)

pub occupied-set_clear :
    (es : List Entry) (i : ℕ) → key_at es i ≢ 0 → occupied (set es i cleared) + 1 ≡ occupied es
unfolding occupied
occupied-set_clear [] i h = absurd (h refl)
occupied-set_clear (x ∷ es) zero h = ground arith
occupied-set_clear (x ∷ es) (suc i) h = ground (arith, occupied-set_clear es i h)

pub occupied-set_same :
    (es : List Entry) (i : ℕ) (v : Entry)
    → v.key ≡ key_at es i
    → occupied (set es i v) ≡ occupied es
unfolding occupied
occupied-set_same [] i v e = refl
occupied-set_same (x ∷ es) zero v e = ground arith
occupied-set_same (x ∷ es) (suc i) v e = ground (arith, occupied-set_same es i v e)
