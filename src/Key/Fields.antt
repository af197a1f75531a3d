-- ===== src/Key/Fields.antt =====
-- The fields of a key, as arithmetic, and what the macros read back.
use ipm_nci.Base.{
  ℕ, zero, suc, Bool-cases, inl, inr, ◌+◌, ◌-◌, ◌*◌, ◌/◌, ◌%◌, ◌^◌, ◌≤◌, ◌<◌, bit_and, bit_or, ◌≡◌,
  ◌≢◌, ap, sym, ◌∙◌, not, if◌then◌else◌, ◌==◌, arith,
}
use native.Mathlib.Nat.{mod-eq_of_lt}
use ipm_nci.Base.Bits.{bit_or-shift, bit_and-shift, bit_and-ones, bit_and_le_left}
use ipm_nci.Base.Int.{ℤ, pos, negsuc, neg_of, to_u64}
use ipm_nci.Key.{shl, mpi_key, io_key, add_rank, key_byte, key_rank, key_call, key_region}

-- The magnitude and the sign bit of a rank, as the key holds them.
abbrev pub rank_bits : ℤ → ℕ
rank_bits (pos n) = n * 2
rank_bits (negsuc n) = suc n * 2 + 1

-- The ranks that 16 bits and the sign bit hold.
abbrev pub InRank : ℤ → Type 0
InRank (pos n) = n < 2 ^ 16
InRank (negsuc n) = suc n < 2 ^ 16

module _ (k q r : ℕ) (fits : r < 2 ^ k) (word : r < 2 ^ 64) where
  bit_or-field : bit_or (q * 2 ^ k) (to_u64 (pos r)) ≡ q * 2 ^ k + r
  bit_or-field = rw (mod-eq_of_lt word) (bit_or-shift k q r fits)

shl_lem : (x k : ℕ) → x * 2 ^ k < 2 ^ 64 → shl x k ≡ x * 2 ^ k
shl_lem x k h = mod-eq_of_lt h

-- The packed key is a sum of fields that do not overlap; what region and call have beyond 16 bits
-- is lost.
add_rank-sum :
    (called : ℕ) (rank : ℤ)
    → InRank rank
    → add_rank (called * 2 ^ 16) rank ≡ called % 2 ^ 16 * 2 ^ 48 + rank_bits rank * 2 ^ 31
unfolding add_rank
add_rank-sum called (pos n) l = rw (bit_or-field 16 called n l (omega arith)) (omega arith)
add_rank-sum called (negsuc n) l =
    rw
      (
        bit_or-field 16 called (suc n) l (omega arith),
        shifted,
        bit_or-shift 32 (called % 2 ^ 16 * 2 ^ 16 + suc n) (2 ^ 31) (omega arith),
      )
      (omega arith)
  where
    shifted : shl (called * 2 ^ 16 + suc n) 32 ≡ (called % 2 ^ 16 * 2 ^ 16 + suc n) * 2 ^ 32
    shifted = omega arith

pub mpi_key-sum :
    (prec r c s : ℕ) (rank : ℤ)
    → r < 2 ^ 8
    → c < 2 ^ 8
    → InRank rank
    → s < 2 ^ 31
    → mpi_key prec (pos r) (pos c) rank (pos s)
      ≡ r * 2 ^ 56 + c * 2 ^ 48 + rank_bits rank * 2 ^ 31 + bit_and s prec
unfolding mpi_key
mpi_key-sum prec r c s rank hr hc hk hs =
    rw
      (
        regional,
        bit_or-field 8 r c hc (omega arith),
        called,
        add_rank-sum (r * 2 ^ 8 + c) rank hk,
        low,
        mod-eq_of_lt word,
        together,
        bit_or-shift 31 ((r * 2 ^ 8 + c) * 2 ^ 17 + rank_bits rank) (bit_and s prec) small,
      )
      (omega arith)
  where
    regional : shl (to_u64 (pos r)) 8 ≡ r * 2 ^ 8
    regional = omega arith

    called : shl (r * 2 ^ 8 + c) 16 ≡ (r * 2 ^ 8 + c) * 2 ^ 16
    called = omega arith

    low : (r * 2 ^ 8 + c) % 2 ^ 16 ≡ r * 2 ^ 8 + c
    low = omega arith

    word : s < 2 ^ 64
    word = omega arith

    small : bit_and s prec < 2 ^ 31
    small = omega (arith, bit_and_le_left s prec)

    together :
        (r * 2 ^ 8 + c) * 2 ^ 48 + rank_bits rank * 2 ^ 31
        ≡ ((r * 2 ^ 8 + c) * 2 ^ 17 + rank_bits rank) * 2 ^ 31
    together = omega arith

-- What the macros read, for every key.
pub key_byte-mod : (k : ℕ) → key_byte k ≡ k % 2 ^ 31
unfolding key_byte
key_byte-mod k = bit_and-ones 31 k

pub key_call-div : (k : ℕ) → key_call k ≡ k / 2 ^ 48 % 2 ^ 8
unfolding key_call
key_call-div k = omega (arith, bit_and-shift 48 k 255, bit_and-ones 8 (k / 2 ^ 48))

pub key_region-div : (k : ℕ) → key_region k ≡ k / 2 ^ 56 % 2 ^ 8
unfolding key_region
key_region-div k = omega (arith, bit_and-shift 56 k 255, bit_and-ones 8 (k / 2 ^ 56))

abbrev signed_rank : ℕ → ℕ → ℤ
signed_rank sign n = if not (sign == 0) then neg_of n else pos n

key_rank-div : (k : ℕ) → key_rank k ≡ signed_rank (k / 2 ^ 31 % 2) (k / 2 ^ 32 % 2 ^ 16)
unfolding key_rank
key_rank-div k = ground (
  arith,
  bit_and-shift 31 k 1,
  bit_and-ones 1 (k / 2 ^ 31),
  bit_and-shift 32 k 65535,
  bit_and-ones 16 (k / 2 ^ 32),
)

signed_rank-bits : (rank : ℤ) → signed_rank (rank_bits rank % 2) (rank_bits rank / 2) ≡ rank
signed_rank-bits (pos n) =
    let even : n * 2 % 2 ≡ 0 = omega arith in
    let half : n * 2 / 2 ≡ n = omega arith in rw (even, half)
signed_rank-bits (negsuc n) =
    let odd : (suc n * 2 + 1) % 2 ≡ 1 = omega arith in
    let half : (suc n * 2 + 1) / 2 ≡ suc n = omega arith in rw (odd, half)

neg_of-InRank : (n : ℕ) → n < 2 ^ 16 → InRank (neg_of n)
neg_of-InRank zero h = h
neg_of-InRank (suc n) h = h

signed_rank-InRank : (sign n : ℕ) → n < 2 ^ 16 → InRank (signed_rank sign n)
signed_rank-InRank sign n h = elim (Bool-cases (sign == 0)) [
  | inl e ↦ rw e h
  | inr e ↦ rw e (neg_of-InRank n h)
]

-- The rank that KEY_RANK reads fits a key.
pub key_rank-InRank : (k : ℕ) → InRank (key_rank k)
key_rank-InRank k =
    rw (key_rank-div k) (signed_rank-InRank (k / 2 ^ 31 % 2) (k / 2 ^ 32 % 2 ^ 16) (omega arith))

rank_bits-lt : (rank : ℤ) → InRank rank → rank_bits rank < 2 ^ 17
rank_bits-lt (pos n) h = omega arith
rank_bits-lt (negsuc n) h = omega arith

module _ (prec r c s : ℕ) (rank : ℤ) (hr : r < 2 ^ 8) (hc : c < 2 ^ 8) (hk : InRank rank)
    (hs : s < 2 ^ 31) where
  -- For a region and a call below 256, a rank of at most 65535 in magnitude and a size below
  -- 2 ^ 31, the macros read back from the key the region, the call, the rank with its sign, and
  -- the size under the call's precision mask.
  pub fields-mpi_key :
      let k = mpi_key prec (pos r) (pos c) rank (pos s) in
      (key_region k ≡ r) × (key_call k ≡ c) × (key_rank k ≡ rank) × (key_byte k ≡ bit_and s prec)
  fields-mpi_key = rw (mpi_key-sum prec r c s rank hr hc hk hs) (
    omega (arith, key_region-div k, rank_bits-lt rank hk, bit_and_le_left s prec),
    omega (arith, key_call-div k, rank_bits-lt rank hk, bit_and_le_left s prec),
    rw (key_rank-div k, sign, magnitude) (signed_rank-bits rank),
    omega (arith, key_byte-mod k, bit_and_le_left s prec),
  )
    where
      k : ℕ
      k = r * 2 ^ 56 + c * 2 ^ 48 + rank_bits rank * 2 ^ 31 + bit_and s prec

      sign : k / 2 ^ 31 % 2 ≡ rank_bits rank % 2
      sign = omega (arith, bit_and_le_left s prec)

      magnitude : k / 2 ^ 32 % 2 ^ 16 ≡ rank_bits rank / 2
      magnitude = omega (arith, rank_bits-lt rank hk, bit_and_le_left s prec)

  -- A key of a call with a positive number is not 0, which marks a free slot of the table.
  pub mpi_key-ne-zero : 1 ≤ c → mpi_key prec (pos r) (pos c) rank (pos s) ≢ 0
  mpi_key-ne-zero pc = rw (mpi_key-sum prec r c s rank hr hc hk hs) (omega arith)

-- A region of -1 (no region) makes the key of region 255: the same key, whatever the call, the
-- rank and the size.
mpi_key-no_region :
    (prec c s : ℕ) (rank : ℤ)
    → c < 2 ^ 8
    → InRank rank
    → mpi_key prec (negsuc 0) (pos c) rank (pos s) ≡ mpi_key prec (pos 255) (pos c) rank (pos s)
unfolding mpi_key
mpi_key-no_region prec c s rank hc hk =
    ap (λ t. bit_or t (bit_and (to_u64 (pos s)) prec)) (none_given ∙ sym last)
  where
    called : shl ((2 ^ 56 - 1) * 2 ^ 8 + c) 16 ≡ (2 ^ 48 - 256 + c) * 2 ^ 16
    called = omega arith

    called_last : shl (255 * 2 ^ 8 + c) 16 ≡ (255 * 2 ^ 8 + c) * 2 ^ 16
    called_last = omega arith

    none_given :
        add_rank (shl (bit_or ((2 ^ 56 - 1) * 2 ^ 8) (to_u64 (pos c))) 16) rank
        ≡ (255 * 2 ^ 8 + c) * 2 ^ 48 + rank_bits rank * 2 ^ 31
    none_given =
        rw
          (
            bit_or-field 8 (2 ^ 56 - 1) c hc (omega arith),
            called,
            add_rank-sum (2 ^ 48 - 256 + c) rank hk,
          )
          (omega arith)

    last :
        add_rank (shl (bit_or (255 * 2 ^ 8) (to_u64 (pos c))) 16) rank
        ≡ (255 * 2 ^ 8 + c) * 2 ^ 48 + rank_bits rank * 2 ^ 31
    last =
        rw
          (
            bit_or-field 8 255 c hc (omega arith),
            called_last,
            add_rank-sum (255 * 2 ^ 8 + c) rank hk,
          )
          (omega arith)

-- The I/O key keeps its call in the bits 40 to 47 and its region in the bits 48 to 55, so that
-- KEY_CALL reads the region and KEY_REGION reads 0.
pub fields-io_key :
    (prec r c s : ℕ)
    → r < 2 ^ 8
    → c < 2 ^ 8
    → s < 2 ^ 31
    → let k = io_key prec (pos r) (pos c) (pos s) in (key_call k ≡ r) × (key_region k ≡ 0)
unfolding io_key
fields-io_key prec r c s hr hc hs =
    rw
      (
        regional,
        bit_or-field 8 r c hc (omega arith),
        called,
        mod-eq_of_lt word,
        bit_or-shift 40 (r * 2 ^ 8 + c) (bit_and s prec) small,
      )
      (
        omega (arith, key_call-div k, bit_and_le_left s prec),
        omega (arith, key_region-div k, bit_and_le_left s prec),
      )
  where
    regional : shl (to_u64 (pos r)) 8 ≡ r * 2 ^ 8
    regional = omega arith

    called : shl (r * 2 ^ 8 + c) 40 ≡ (r * 2 ^ 8 + c) * 2 ^ 40
    called = omega arith

    word : s < 2 ^ 64
    word = omega arith

    small : bit_and s prec < 2 ^ 40
    small = omega (arith, bit_and_le_left s prec)

    k : ℕ
    k = (r * 2 ^ 8 + c) * 2 ^ 40 + bit_and s prec
