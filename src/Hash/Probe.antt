-- ===== src/Hash/Probe.antt =====
-- The probe sequence of a key visits different slots, since MAXSIZE_HASH is a prime number.
use native.Mathlib.Nat.{
  div-add-mod, mod-lt, mod-eq_of_lt, add-mul-mod_self_left, mul-mod_right, mul-le-mul,
}
use ipm_nci.Base.{
  ℕ, zero, suc, ◌+◌, ◌-◌, ◌*◌, ◌/◌, ◌%◌, ◌^◌, ◌≤◌, ◌<◌, ◌≡◌, ◌≢◌, ap, sym, ◌∙◌, arith,
}
use ipm_nci.Hash.{Sizes, probe, first_slot}

-- "MAXSIZE_HASH _must_ be a prime number": no number from 2 to m - 1 divides m.
abbrev pub IsPrime : ℕ → Type 0
IsPrime m = (2 ≤ m) × ((d : ℕ) → 2 ≤ d → d < m → m % d ≢ 0)

-- If m divides a b, it divides (m % a) b.
mod-mul : (m a b : ℕ) → (a * b) % m ≡ 0 → (m % a * b) % m ≡ 0
mod-mul m a b e =
    let q = m / a in
    let t = a * b / m in
    let exact : m * t ≡ a * b = omega (arith, div-add-mod (a * b) m) in
    let both : m % a * b + m * (q * t) ≡ m * b =
      omega (arith, ap (λ (s : ℕ). s * b) (div-add-mod m a), ap (λ (s : ℕ). q * s) exact) in
    sym (add-mul-mod_self_left (m % a * b) m (q * t)) ∙ ap (λ s. s % m) both ∙ mul-mod_right m b

module _ (m : ℕ) (prime : IsPrime m) (b : ℕ) (b_pos : 0 < b) (b_lt : b < m) where
  -- A product of numbers from 1 to m - 1 is no multiple of m: from a to the remainder of m by a.
  below : (n a : ℕ) → a ≤ n → 0 < a → a < m → (a * b) % m ≢ 0
  below n zero h pos lt e = elim pos [ ]
  below zero (suc a) h pos lt e = absurd (omega arith)
  below (suc n) (suc zero) h pos lt e =
      let one : 1 * b ≡ b = omega arith in
      absurd (omega (arith, mod-eq_of_lt b_lt, ap (λ t. t % m) one))
  below (suc n) (suc (suc a)) h pos lt e =
      below n (m % suc (suc a)) (omega arith)
        (omega (arith, prime.1 (suc (suc a)) (omega arith) lt)) (omega arith)
        (mod-mul m (suc (suc a)) b e)

  pub product_below : (a : ℕ) → 0 < a → a < m → (a * b) % m ≢ 0
  product_below a = below a a (omega arith)

-- Two numbers with one remainder differ by a multiple.
mod-sub : (m x y : ℕ) → x % m ≡ (x + y) % m → y % m ≡ 0
mod-sub m x y e =
    let p = x / m in
    let q = (x + y) / m in
    let apart : y + m * p ≡ m * q = omega (arith, div-add-mod x m, div-add-mod (x + y) m) in
    sym (add-mul-mod_self_left y m p) ∙ ap (λ s. s % m) apart ∙ mul-mod_right m q

-- The sizes that the compile-time choices of include/ipm_sizes.h have.
pub record IsSized (z : Sizes) : Type 0 where
  pub prime : IsPrime z.max_hash
  pub at_least : 3 < z.max_hash
  pub at_most : z.max_hash < 2 ^ 31
  pub limited : z.hash_limit < z.max_hash

module _ (z : Sizes) (sized : IsSized z) (k : ℕ) where
  abbrev step : ℕ
  step = 1 + k % (z.max_hash - 2)

  step_bounds : (0 < step) × (step < z.max_hash)
  step_bounds =
      omega (arith, sized.at_least, mod-lt k {m = z.max_hash - 2} (omega (arith, sized.at_least)))

  -- No arithmetic of the probe wraps.
  pub probe-mod :
      (c : ℕ)
      → c < z.max_hash
      → probe z k c ≡ (k % z.max_hash + c * (1 + k % (z.max_hash - 2))) % z.max_hash
  unfolding probe
  probe-mod c h =
      let small : c * step ≤ 2 ^ 31 * 2 ^ 31 =
        mul-le-mul {n₁ = c} {m₁ = step} {n₂ = 2 ^ 31} {m₂ = 2 ^ 31} (omega (arith, sized.at_most))
          (omega (arith, sized.at_most, step_bounds)) in
      let start : k % z.max_hash < 2 ^ 31 =
        omega (arith, sized.at_most, mod-lt k {m = z.max_hash} (omega (arith, sized.at_least))) in
      let first : c * step % 2 ^ 64 ≡ c * step = omega arith in
      let second : (k % z.max_hash + c * step) % 2 ^ 64 ≡ k % z.max_hash + c * step = omega arith in
      rw (first, second)

  pub probe-lt : (c : ℕ) → probe z k c < z.max_hash
  unfolding probe
  probe-lt c = mod-lt _ (omega (arith, sized.at_least))

  pub probe-zero : probe z k 0 ≡ first_slot z k
  unfolding probe first_slot
  probe-zero =
      let start : k % z.max_hash < 2 ^ 31 =
        omega (arith, sized.at_most, mod-lt k {m = z.max_hash} (omega (arith, sized.at_least))) in
      let none : 0 * step % 2 ^ 64 ≡ 0 = omega arith in
      let first : (k % z.max_hash + 0) % 2 ^ 64 ≡ k % z.max_hash = omega arith in
      rw (none, first) (mod-eq_of_lt (mod-lt k {m = z.max_hash} (omega (arith, sized.at_least))))

  -- Different probes below MAXSIZE_HASH see different slots.
  pub probe-ne : (c d : ℕ) → c < d → d < z.max_hash → probe z k c ≢ probe z k d
  probe-ne c d h l e =
      let x = k % z.max_hash + c * step in
      let sum : k % z.max_hash + d * step ≡ x + (d - c) * step =
        omega (arith, ap (λ (t : ℕ). t * step) apart) in
      let same : x % z.max_hash ≡ (x + (d - c) * step) % z.max_hash =
        sym (probe-mod c (omega arith)) ∙ e ∙ probe-mod d l ∙ ap (λ s. s % z.max_hash) sum in
      product_below z.max_hash sized.prime step step_bounds.0 step_bounds.1 (d - c) (omega arith)
        (omega arith) (mod-sub z.max_hash x ((d - c) * step) same)
    where
      apart : d ≡ c + (d - c)
      apart = omega arith
