-- ===== src/Base/Int.antt =====
-- C's signed integers, and their conversion to 64-bit words.
use Prim.Native.Nat.{ℕ, zero, suc, ◌+◌, ◌-◌, ◌%◌, ◌^◌}
use mathlib.Core.Bool.{Bool, true, false}

-- `negsuc n` is -(n + 1).
pub data ℤ : Type 0 where
  pos : ℕ → ℤ
  negsuc : ℕ → ℤ

-- `z < 0`
abbrev pub is_neg : ℤ → Bool
is_neg (pos n) = false
is_neg (negsuc n) = true

-- `-n`, for the value of an unsigned field
abbrev pub neg_of : ℕ → ℤ
neg_of zero = pos 0
neg_of (suc n) = negsuc n

-- `-z`
abbrev pub neg : ℤ → ℤ
neg (pos n) = neg_of n
neg (negsuc n) = pos (suc n)

-- The conversion of a signed integer to `unsigned long long`: two's complement.
abbrev pub to_u64 : ℤ → ℕ
to_u64 (pos n) = n % 2 ^ 64
to_u64 (negsuc n) = (2 ^ 64 - (n + 1) % 2 ^ 64) % 2 ^ 64
