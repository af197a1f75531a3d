-- ===== src/Base/Bits.antt =====
-- The native bit operations at every width: their digit, and fields packed and read back.
mod Step
pub mod Flags
use Step.{bit_and_step, bit_or_step}
use Prim.Native.Nat.{
  ℕ, zero, suc, ◌+◌, ◌-◌, ◌*◌, ◌/◌, ◌%◌, ◌^◌, ◌≤◌, ◌<◌, min, max, bit_and, bit_or,
}
use mathlib.Core.Path.{◌≡◌, refl, ap, ◌∙◌}
use native.Mathlib.Nat.{
  pow-suc, pow-succ', one-le-pow, div-add-mod, mod-eq_of_lt, div-div-eq-div-mul,
}
use native.Mathlib.Omega.{arith}
use ipm_nci.Base.Tests.{◌==◌, if◌then◌else◌}

-- The digit of `x` with weight 2 ^ i.
pub bit : ℕ → ℕ → ℕ
bit x zero = x % 2
bit x (suc i) = bit (x / 2) i

pub bit_le : (x i : ℕ) → bit x i ≤ 1
unfolding bit
bit_le x zero = omega arith
bit_le x (suc i) = bit_le (x / 2) i

pub bit-bit_and : (a b i : ℕ) → bit (bit_and a b) i ≡ min (bit a i) (bit b i)
unfolding bit
bit-bit_and a b zero = omega (arith, bit_and_step a b)
bit-bit_and a b (suc i) =
    let half : bit_and a b / 2 ≡ bit_and (a / 2) (b / 2) = omega (arith, bit_and_step a b) in
    rw half (bit-bit_and (a / 2) (b / 2) i)

pub bit-bit_or : (a b i : ℕ) → bit (bit_or a b) i ≡ max (bit a i) (bit b i)
unfolding bit
bit-bit_or a b zero = omega (arith, bit_or_step a b)
bit-bit_or a b (suc i) =
    let half : bit_or a b / 2 ≡ bit_or (a / 2) (b / 2) = omega (arith, bit_or_step a b) in
    rw half (bit-bit_or (a / 2) (b / 2) i)

-- Two numbers with the same digits are equal.
same_bits : (n a b : ℕ) → a + b ≤ n → ((i : ℕ) → bit a i ≡ bit b i) → a ≡ b
unfolding bit
same_bits zero a b h e = omega arith
same_bits (suc n) zero zero h e = refl
same_bits (suc n) a b h e =
    omega (arith, e 0, same_bits n (a / 2) (b / 2) (omega arith) (λ i. e (suc i)))

pub eq_of_bits : (a b : ℕ) → ((i : ℕ) → bit a i ≡ bit b i) → a ≡ b
eq_of_bits a b e = same_bits (a + b) a b (omega arith) e

pub bit_and_comm : (a b : ℕ) → bit_and a b ≡ bit_and b a
bit_and_comm a b = eq_of_bits _ _ (λ i. omega (arith, bit-bit_and a b i, bit-bit_and b a i))

pub bit_or_comm : (a b : ℕ) → bit_or a b ≡ bit_or b a
bit_or_comm a b = eq_of_bits _ _ (λ i. omega (arith, bit-bit_or a b i, bit-bit_or b a i))

pub bit-zero : (i : ℕ) → bit 0 i ≡ 0
unfolding bit
bit-zero zero = refl
bit-zero (suc i) = bit-zero i

pub bit_or-zero : (a : ℕ) → bit_or a 0 ≡ a
bit_or-zero a = eq_of_bits _ _ (λ i. omega (arith, bit-bit_or a 0 i, bit-zero i))

pub bit_and-zero : (a : ℕ) → bit_and a 0 ≡ 0
bit_and-zero a = eq_of_bits _ _ (λ i. omega (arith, bit-bit_and a 0 i, bit-zero i))

-- A product by 2 ^ (k + 1), as twice a product by 2 ^ k.
pub mul-pow-suc : (q k : ℕ) → q * 2 ^ suc k ≡ 2 * (q * 2 ^ k)
mul-pow-suc q k = omega (arith, ap (λ (t : ℕ). q * t) (pow-suc 2 k))

-- A field below 2 ^ k is added by `|` to what is shifted by k.
pub bit_or-shift : (k q r : ℕ) → r < 2 ^ k → bit_or (q * 2 ^ k) r ≡ q * 2 ^ k + r
bit_or-shift zero q r h = ground (arith, bit_or-zero q)
bit_or-shift (suc k) q r h = omega (
  arith,
  bit_or_step (q * 2 ^ suc k) r,
  mul-pow-suc q k,
  pow-suc 2 k,
  ap (λ (t : ℕ). bit_or t (r / 2)) half,
  bit_or-shift k q (r / 2) (omega (arith, pow-suc 2 k)),
)
  where
    half : q * 2 ^ suc k / 2 ≡ q * 2 ^ k
    half = omega (arith, mul-pow-suc q k)

pub div-pow-suc : (a k : ℕ) → a / 2 ^ suc k ≡ a / 2 / 2 ^ k
div-pow-suc a k = rw (div-div-eq-div-mul a 2 (2 ^ k), pow-succ' 2 k)

mod-pow-suc : (a k : ℕ) → a % 2 ^ suc k ≡ a / 2 % 2 ^ k * 2 + a % 2
mod-pow-suc a k = omega (
  arith,
  div-add-mod a (2 ^ suc k),
  div-add-mod (a / 2) (2 ^ k),
  ap (λ (t : ℕ). 2 ^ suc k * t) (div-pow-suc a k),
  mul-pow-suc (a / 2 / 2 ^ k) k,
)

-- `&` with a mask of m shifted by k reads the digits from k on.
pub bit_and-shift : (k a m : ℕ) → bit_and a (m * 2 ^ k) ≡ bit_and (a / 2 ^ k) m * 2 ^ k
bit_and-shift zero a m =
    let one : m * 2 ^ 0 ≡ m = omega arith in
    let whole : a / 2 ^ 0 ≡ a = omega arith in rw (one, whole) (omega arith)
bit_and-shift (suc k) a m = omega (
  arith,
  bit_and_step a (m * 2 ^ suc k),
  mul-pow-suc m k,
  ap (λ (t : ℕ). bit_and (a / 2) t) half,
  bit_and-shift k (a / 2) m,
  ap (λ (t : ℕ). bit_and t m * 2 ^ suc k) (div-pow-suc a k),
  mul-pow-suc (bit_and (a / 2 / 2 ^ k) m) k,
)
  where
    half : m * 2 ^ suc k / 2 ≡ m * 2 ^ k
    half = omega (arith, mul-pow-suc m k)

-- `&` with a mask of k ones is the remainder by 2 ^ k.
pub bit_and-ones : (k a : ℕ) → bit_and a (2 ^ k - 1) ≡ a % 2 ^ k
bit_and-ones zero a = omega (arith, bit_and-zero a)
bit_and-ones (suc k) a = omega (
  arith,
  bit_and_step a (2 ^ suc k - 1),
  ap (λ (t : ℕ). bit_and (a / 2) t) half,
  bit_and-ones k (a / 2),
  mod-pow-suc a k,
  pow-suc 2 k,
  one-le-pow k 2,
)
  where
    half : (2 ^ suc k - 1) / 2 ≡ 2 ^ k - 1
    half = omega (arith, pow-suc 2 k, one-le-pow k 2)

pub bit-eq-div : (x i : ℕ) → bit x i ≡ x / 2 ^ i % 2
unfolding bit
bit-eq-div x zero = omega arith
bit-eq-div x (suc i) = rw div-pow-suc (bit-eq-div (x / 2) i)

-- The word with one digit set.
pub bit-pow : (j i : ℕ) → bit (2 ^ j) i ≡ (if i == j then 1 else 0)
unfolding bit
bit-pow zero zero = refl
bit-pow zero (suc i) = ground (arith, bit-zero i)
bit-pow (suc j) zero = ground (arith, pow-suc 2 j)
bit-pow (suc j) (suc i) =
    let half : 2 ^ suc j / 2 ≡ 2 ^ j = omega (arith, pow-suc 2 j) in
    rw half (ground (arith, bit-pow j i))

-- `~x` in n bits
pub bit-complement : (n i x : ℕ) → i < n → x < 2 ^ n → bit (2 ^ n - 1 - x) i ≡ 1 - bit x i
unfolding bit
bit-complement zero i x h l = elim h [ ]
bit-complement (suc n) zero x h l = omega (arith, pow-suc 2 n)
bit-complement (suc n) (suc i) x h l =
    let half : (2 ^ suc n - 1 - x) / 2 ≡ 2 ^ n - 1 - x / 2 = omega (arith, pow-suc 2 n) in
    rw half (bit-complement n i (x / 2) (omega arith) (omega (arith, pow-suc 2 n)))

pub zero-bit_and : (b : ℕ) → bit_and 0 b ≡ 0
zero-bit_and b = bit_and_comm 0 b ∙ bit_and-zero b

le_fuel : (n a b : ℕ) → a ≤ n → bit_and a b ≤ a
le_fuel zero zero b h = omega (arith, zero-bit_and b)
le_fuel zero (suc a) b h = absurd (omega arith)
le_fuel (suc n) zero b h = omega (arith, zero-bit_and b)
le_fuel (suc n) (suc a) b h =
    omega (arith, bit_and_step (suc a) b, le_fuel n (suc a / 2) (b / 2) (omega arith))

pub bit_and_le_left : (a b : ℕ) → bit_and a b ≤ a
bit_and_le_left a b = le_fuel a a b (omega arith)

-- A mask of ones from the digit d to the width n rounds down to a multiple of 2 ^ d.
pub bit_and-rounds : (d n s : ℕ) → d ≤ n → s < 2 ^ n → bit_and s (2 ^ n - 2 ^ d) ≡ s / 2 ^ d * 2 ^ d
bit_and-rounds zero n s h l =
    let whole : s / 2 ^ 0 * 2 ^ 0 ≡ s = omega arith in rw whole (bit_and-ones n s ∙ mod-eq_of_lt l)
bit_and-rounds (suc d) zero s h l = absurd (omega arith)
bit_and-rounds (suc d) (suc n) s h l = omega (
  arith,
  bit_and_step s (2 ^ suc n - 2 ^ suc d),
  ap (λ (t : ℕ). bit_and (s / 2) t) half,
  bit_and-rounds d n (s / 2) (omega arith) (omega (arith, pow-suc 2 n)),
  ap (λ (t : ℕ). t * 2 ^ suc d) (div-pow-suc s d),
  mul-pow-suc (s / 2 / 2 ^ d) d,
  pow-suc 2 n,
  pow-suc 2 d,
)
  where
    half : (2 ^ suc n - 2 ^ suc d) / 2 ≡ 2 ^ n - 2 ^ d
    half = omega (arith, pow-suc 2 n, pow-suc 2 d)
