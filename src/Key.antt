-- ===== src/Key.antt =====
-- include/ipm.h: the 64-bit hash key of an MPI or I/O event (IPM_KEY_TYPE), the macros that read
-- its fields (KEY_BYTE, KEY_RANK, KEY_CALL, KEY_REGION; the build without IPM_ENABLE_HASHCOMPRESS),
-- and the precision of the size field that a call's mask holds (CALL_BUF_PRECISION).
pub mod Fields
pub mod Precision
use ipm_nci.Base.{ℕ, ◌*◌, ◌/◌, ◌%◌, ◌^◌, bit_and, bit_or, not, if◌then◌else◌, ◌==◌, ◌≡◌, refl}
use ipm_nci.Base.Int.{ℤ, pos, negsuc, is_neg, neg, neg_of, to_u64}

-- `key << k` on unsigned long long
abbrev pub shl : ℕ → ℕ → ℕ
shl x k = x * 2 ^ k % 2 ^ 64

abbrev pub key_mask_byte : ℕ
key_mask_byte = 0x000000007FFFFFFF

abbrev pub key_mask_rank : ℕ
key_mask_rank = 0x0000FFFF00000000

abbrev pub key_mask_norank : ℕ
key_mask_norank = 0x0000000080000000

abbrev pub key_mask_call : ℕ
key_mask_call = 0x00FF000000000000

abbrev pub key_mask_region : ℕ
key_mask_region = 0xFF00000000000000

unfoldable pub key_byte : ℕ → ℕ
key_byte k = bit_and k key_mask_byte

unfoldable pub key_rank : ℕ → ℤ
key_rank k =
    if not (bit_and k key_mask_norank == 0)
    then neg_of (bit_and k key_mask_rank / 2 ^ 32)
    else pos (bit_and k key_mask_rank / 2 ^ 32)

unfoldable pub key_call : ℕ → ℕ
key_call k = bit_and k key_mask_call / 2 ^ 48

unfoldable pub key_region : ℕ → ℕ
key_region k = bit_and k key_mask_region / 2 ^ 56

-- The two branches on the sign of `rank`; the key holds region and call, shifted by 16.
unfoldable pub add_rank : ℕ → ℤ → ℕ
add_rank key rank =
    if is_neg rank
    then bit_or (shl (bit_or key (to_u64 (neg rank))) 32) key_mask_norank
    else shl (bit_or key (to_u64 rank)) 32

-- IPM_MPI_KEY; `prec` is CALL_BUF_PRECISION(call).
unfoldable pub mpi_key : ℕ → ℤ → ℤ → ℤ → ℤ → ℕ
unfolding add_rank
mpi_key prec region call rank size =
    let regional = shl (to_u64 region) 8 in
    let called = shl (bit_or regional (to_u64 call)) 16 in
    bit_or (add_rank called rank) (bit_and (to_u64 size) prec)

-- IPM_IO_KEY
unfoldable pub io_key : ℕ → ℤ → ℤ → ℤ → ℕ
io_key prec region call size =
    let regional = shl (to_u64 region) 8 in
    let called = shl (bit_or regional (to_u64 call)) 40 in
    bit_or called (bit_and (to_u64 size) prec)

abbrev pub call_mask_state : ℕ
call_mask_state = 0xFF00000000000000

abbrev pub call_mask_opt : ℕ
call_mask_opt = 0x00FF000000000000

abbrev pub call_mask_bprec : ℕ
call_mask_bprec = 0x0000FFFFFFFFFFFF

-- CALL_BUF_PRECISION, CALL_BUF_PRECISION_UP and CALL_BUF_PRECISION_DOWN, on one call's mask
unfoldable pub buf_precision : ℕ → ℕ
buf_precision mask = bit_and mask call_mask_bprec

unfoldable pub precision_up : ℕ → ℕ
precision_up mask =
    bit_or (bit_and mask (bit_or call_mask_state call_mask_opt))
      (bit_and (bit_and mask call_mask_bprec / 2) call_mask_bprec)

unfoldable pub precision_down : ℕ → ℕ
precision_down mask =
    bit_or (bit_and mask (bit_or call_mask_state call_mask_opt))
      (bit_and (shl (bit_and mask call_mask_bprec) 1) call_mask_bprec)

-- Runs of the macros that a reader can follow by hand.
mpi_key_runs : mpi_key call_mask_bprec (pos 1) (pos 5) (pos 7) (pos 1024) ≡ 0x0105_0007_0000_0400
unfolding mpi_key
mpi_key_runs = refl

mpi_key_no_rank :
    mpi_key call_mask_bprec (pos 0) (pos 36) (negsuc 0) (pos 8) ≡ 0x0024_0001_8000_0008
unfolding mpi_key
mpi_key_no_rank = refl
