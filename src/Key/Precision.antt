-- ===== src/Key/Precision.antt =====
-- The precision of the size field: what CALL_BUF_PRECISION_DOWN makes of a mask, and what sizes a
-- key then tells apart.
use native.Mathlib.Nat.{one-le-pow, pow-suc, pow-le-pow_right}
use ipm_nci.Base.Bits.{bit_or-shift, bit_and-shift, bit_and-ones, bit_and-rounds}
use ipm_nci.Base.{ℕ, zero, suc, ◌+◌, ◌-◌, ◌*◌, ◌/◌, ◌%◌, ◌^◌, ◌≤◌, ◌<◌, ◌≡◌, arith}
use ipm_nci.Base.Int.{ℤ, pos}
use ipm_nci.Key.Fields.{InRank, fields-mpi_key}
use ipm_nci.Key.{shl, mpi_key, key_byte, buf_precision, precision_down, call_mask_bprec}

buf_precision-mod : (m : ℕ) → buf_precision m ≡ m % 2 ^ 48
unfolding buf_precision
buf_precision-mod m = bit_and-ones 48 m

-- CALL_BUF_PRECISION_DOWN keeps the upper 16 bits of a mask, and shifts its 48 precision bits left
-- by one, dropping the highest.
precision_down-sum :
    (m : ℕ) → precision_down m ≡ m / 2 ^ 48 % 2 ^ 16 * 2 ^ 48 + m % 2 ^ 48 * 2 % 2 ^ 48
unfolding precision_down
precision_down-sum m = rw (
  bit_and-ones 48 m,
  bit_and-shift 48 m (2 ^ 16 - 1),
  bit_and-ones 16 (m / 2 ^ 48),
  bit_and-ones 48 (shl (m % 2 ^ 48) 1),
  inner,
  bit_or-shift 48 (m / 2 ^ 48 % 2 ^ 16) (m % 2 ^ 48 * 2 % 2 ^ 48) (omega arith),
)
  where
    inner : shl (m % 2 ^ 48) 1 % 2 ^ 48 ≡ m % 2 ^ 48 * 2 % 2 ^ 48
    inner = omega arith

pub precision_down-lt : (m : ℕ) → precision_down m < 2 ^ 64
precision_down-lt m = omega (arith, precision_down-sum m)

-- On a 64-bit mask, CALL_BUF_PRECISION_DOWN keeps the upper 16 bits, the state and the options, and
-- doubles the precision modulo 2 ^ 48.
precision_down-parts :
    (m : ℕ)
    → m < 2 ^ 64
    → (precision_down m / 2 ^ 48 ≡ m / 2 ^ 48)
      × (buf_precision (precision_down m) ≡ buf_precision m * 2 % 2 ^ 48)
precision_down-parts m h =
    rw (buf_precision-mod, buf_precision-mod m, precision_down-sum m) (omega arith, omega arith)

-- The mask after d uses of CALL_BUF_PRECISION_DOWN.
pub downs : ℕ → ℕ → ℕ
downs zero m = m
downs (suc d) m = precision_down (downs d m)

downs-lt : (d m : ℕ) → m < 2 ^ 64 → downs d m < 2 ^ 64
unfolding downs
downs-lt zero m h = h
downs-lt (suc d) m h = precision_down-lt (downs d m)

pow-le-48 : (d : ℕ) → d ≤ 48 → 2 ^ d ≤ 2 ^ 48
pow-le-48 d h = pow-le-pow_right {n = 2} (omega arith) {i = d} {j = 48} h

-- From the full precision, d of at most 48 uses leave the mask 2 ^ 48 - 2 ^ d.
pub buf_precision-downs :
    (d m : ℕ)
    → m < 2 ^ 64
    → buf_precision m ≡ call_mask_bprec
    → d ≤ 48
    → buf_precision (downs d m) ≡ 2 ^ 48 - 2 ^ d
unfolding downs
buf_precision-downs zero m h e l = omega arith
buf_precision-downs (suc d) m h e l = omega (
  arith,
  (precision_down-parts (downs d m) (downs-lt d m h)).1,
  buf_precision-downs d m h e (omega arith),
  pow-suc 2 d,
  one-le-pow d 2,
  pow-le-48 (suc d) l,
)

-- After d uses of CALL_BUF_PRECISION_DOWN a call's keys read back their size rounded down to a
-- multiple of 2 ^ d, from any mask of full precision.
pub key_byte-downs :
    (d m r c s : ℕ) (rank : ℤ)
    → m < 2 ^ 64
    → buf_precision m ≡ call_mask_bprec
    → d ≤ 48
    → r < 2 ^ 8
    → c < 2 ^ 8
    → InRank rank
    → s < 2 ^ 31
    → key_byte (mpi_key (buf_precision (downs d m)) (pos r) (pos c) rank (pos s))
      ≡ s / 2 ^ d * 2 ^ d
key_byte-downs d m r c s rank h e l hr hc hk hs =
    rw
      (
        (fields-mpi_key (buf_precision (downs d m)) r c s rank hr hc hk hs).3,
        buf_precision-downs d m h e l,
      )
      (bit_and-rounds d 48 s l (omega arith))
