-- ===== src/Base/Bits/Flags.antt =====
-- Flags of an `unsigned long long`: the tests and assignments that the sources write
-- `x & F`, `x |= F` and `x &= ~F`, for F the constant with the one bit i.
use Prim.Native.Nat.{ℕ, ◌-◌, ◌/◌, ◌^◌, ◌<◌, bit_and, bit_or}
use mathlib.Core.Bool.{Bool, true, false, not}
use mathlib.Core.Path.{◌≡◌}
use native.Mathlib.Nat.{one-le-pow, pow-le-pow_right}
use native.Mathlib.Omega.{arith}
use ipm_nci.Base.Bits.{
  bit, bit-zero, bit_le, bit-bit_and, bit-bit_or, bit-eq-div, bit-pow, bit-complement,
  bit_and-shift, bit_and-ones,
}
use ipm_nci.Base.Tests.{◌==◌, if◌then◌else◌}

-- `if(x & F)`
unfoldable pub has : ℕ → ℕ → Bool
has x i = not (bit_and x (2 ^ i) == 0)

-- `x |= F`
unfoldable pub set_flag : ℕ → ℕ → ℕ
set_flag x i = bit_or x (2 ^ i)

-- `x &= ~F`
unfoldable pub clear_flag : ℕ → ℕ → ℕ
clear_flag x i = bit_and x (2 ^ 64 - 1 - 2 ^ i)

has-eq-bit : (x i : ℕ) → has x i ≡ (bit x i == 1)
unfolding has
has-eq-bit x i =
    ground (arith, bit_and-shift i x 1, bit_and-ones 1 (x / 2 ^ i), bit-eq-div x i, one-le-pow i 2)

pub has-set_flag : (x j i : ℕ) → has (set_flag x j) i ≡ (if i == j then true else has x i)
unfolding set_flag
has-set_flag x j i = rw (has-eq-bit, has-eq-bit, bit-bit_or, bit-pow) (ground (arith, bit_le x i))

pub has-clear_flag :
    (x j i : ℕ) → j < 64 → i < 64 → has (clear_flag x j) i ≡ (if i == j then false else has x i)
unfolding clear_flag
has-clear_flag x j i hj hi =
    rw (has-eq-bit, has-eq-bit x i, bit-bit_and, bit-complement 64 i (2 ^ j) hi fits, bit-pow)
      (ground (arith, bit_le x i))
  where
    fits : 2 ^ j < 2 ^ 64
    fits = omega (arith, pow-le-pow_right {n = 2} (omega arith) {i = j} {j = 63} (omega arith))

-- The word with no flag.
pub has-zero : (i : ℕ) → has 0 i ≡ false
has-zero i = rw (has-eq-bit, bit-zero)
