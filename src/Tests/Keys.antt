-- ===== src/Tests/Keys.antt =====
-- Keys of include/ipm.h with concrete fields.
use ipm_nci.Base.{◌*◌, ◌/◌, ◌^◌, bit_and, ◌≡◌, refl, arith}
use ipm_nci.Base.Int.{pos, negsuc}
use ipm_nci.Key.Fields.{fields-mpi_key}
use ipm_nci.Key.Precision.{downs, key_byte-downs}
use ipm_nci.Key.{mpi_key, key_byte, key_rank, key_call, key_region, buf_precision, call_mask_bprec}

-- MPI_Reduce (call 26) of 1024 bytes in region 3, without a rank.
fields-mpi_key_example :
    let k = mpi_key call_mask_bprec (pos 3) (pos 26) (negsuc 0) (pos 1024) in
    (key_region k ≡ 3)
    × (key_call k ≡ 26)
    × (key_rank k ≡ negsuc 0)
    × (key_byte k ≡ bit_and 1024 call_mask_bprec)
fields-mpi_key_example =
    fields-mpi_key call_mask_bprec 3 26 1024 (negsuc 0) (omega arith) (omega arith) (omega arith)
      (omega arith)

-- After four culls of a call its sizes are rounded down to multiples of 16.
key_byte-downs_example :
    key_byte (mpi_key (buf_precision (downs 4 call_mask_bprec)) (pos 0) (pos 1) (pos 3) (pos 1000))
    ≡ 1000 / 2 ^ 4 * 2 ^ 4
unfolding buf_precision
key_byte-downs_example =
    key_byte-downs 4 call_mask_bprec 0 1 1000 (pos 3) (omega arith) full (omega arith) (omega arith)
      (omega arith) (omega arith) (omega arith)
  where
    full : buf_precision call_mask_bprec ≡ call_mask_bprec
    full = refl
