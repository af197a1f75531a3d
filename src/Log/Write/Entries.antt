-- ===== src/Log/Write/Entries.antt =====
-- src/ipm_log_write.c: the entries of the table that are written.
use mathlib.Core.List.{flatten}
use ipm_nci.Base.{ℕ, ◌+◌, ◌≡◌, ◌∙◌, true, List, [], ◌∷◌, ◌++◌, arith}
use ipm_nci.Base.Bits.Flags.{has}
use ipm_nci.Flags.{log_full}
use ipm_nci.Hash.{Entry, commtime}
use ipm_nci.Log.Write.{Piece, leaf, hent, closes, Written, hash, hash_pieces, table_pieces, hent_of}

-- The times in the elements <hent>.
pub hent_time : List Piece → ℕ
hent_time [] = 0
hent_time (leaf (hent h) ∷ ps) = h.t_tot + hent_time ps
hent_time (p ∷ ps) = hent_time ps

hash_pieces-time :
    (t : Written) (es : List Entry) (ps : List Piece)
    → hent_time (hash_pieces t es ++ ps) ≡ commtime es + hent_time ps
unfolding hash_pieces hent_time commtime hent_of
hash_pieces-time t [] ps = omega arith
hash_pieces-time t (e ∷ es) ps = ground (arith, hash_pieces-time t es ps)

-- With LOG_FULL the times in the entries of the log add up to IPM_HASH_GET_COMMTIME.
pub table_pieces-time :
    (t : Written) → has t.flags log_full ≡ true → hent_time (table_pieces t) ≡ commtime t.hash
unfolding table_pieces hent_time flatten
table_pieces-time t full = rw full (hash_pieces-time t t.hash (closes hash ∷ []) ∙ omega arith)
