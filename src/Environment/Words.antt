-- ===== src/Environment/Words.antt =====
-- The words that src/ipm_env.c compares with, as the bytes that they are spelled with.
use ipm_nci.Base.{[], ◌∷◌}
use ipm_nci.Base.Strings.{Str}

-- "IPM_"
abbrev pub word_ipm : Str
word_ipm = 73 ∷ 80 ∷ 77 ∷ 95 ∷ []

-- "none"
abbrev pub word_none : Str
word_none = 110 ∷ 111 ∷ 110 ∷ 101 ∷ []

-- "terse"
abbrev pub word_terse : Str
word_terse = 116 ∷ 101 ∷ 114 ∷ 115 ∷ 101 ∷ []

-- "full"
abbrev pub word_full : Str
word_full = 102 ∷ 117 ∷ 108 ∷ 108 ∷ []

-- "labelio"
abbrev pub word_labelio : Str
word_labelio = 108 ∷ 97 ∷ 98 ∷ 101 ∷ 108 ∷ 105 ∷ 111 ∷ []

-- "no"
abbrev pub word_no : Str
word_no = 110 ∷ 111 ∷ []

-- "scan"
abbrev pub word_scan : Str
word_scan = 115 ∷ 99 ∷ 97 ∷ 110 ∷ []

-- "*"
abbrev pub word_star : Str
word_star = 42 ∷ []

-- "bmw"
abbrev pub word_bmw : Str
word_bmw = 98 ∷ 109 ∷ 119 ∷ []

-- "bbs"
abbrev pub word_bbs : Str
word_bbs = 98 ∷ 98 ∷ 115 ∷ []

-- "n"
abbrev pub word_n : Str
word_n = 110 ∷ []

-- "y"
abbrev pub word_y : Str
word_y = 121 ∷ []

-- "region:"
abbrev pub word_region : Str
word_region = 114 ∷ 101 ∷ 103 ∷ 105 ∷ 111 ∷ 110 ∷ 58 ∷ []

-- "rank:"
abbrev pub word_rank : Str
word_rank = 114 ∷ 97 ∷ 110 ∷ 107 ∷ 58 ∷ []

-- "time:"
abbrev pub word_time : Str
word_time = 116 ∷ 105 ∷ 109 ∷ 101 ∷ 58 ∷ []

-- "call:"
abbrev pub word_call : Str
word_call = 99 ∷ 97 ∷ 108 ∷ 108 ∷ 58 ∷ []

-- "mem:"
abbrev pub word_mem : Str
word_mem = 109 ∷ 101 ∷ 109 ∷ 58 ∷ []

-- "even"
abbrev pub word_even : Str
word_even = 101 ∷ 118 ∷ 101 ∷ 110 ∷ []

-- "odd"
abbrev pub word_odd : Str
word_odd = 111 ∷ 100 ∷ 100 ∷ []

-- "MPI_P2P"
abbrev pub word_p2p : Str
word_p2p = 77 ∷ 80 ∷ 73 ∷ 95 ∷ 80 ∷ 50 ∷ 80 ∷ []

-- "MPI_COL"
abbrev pub word_col : Str
word_col = 77 ∷ 80 ∷ 73 ∷ 95 ∷ 67 ∷ 79 ∷ 76 ∷ []

-- "IPM_DEBUG"
abbrev pub key_debug : Str
key_debug = 73 ∷ 80 ∷ 77 ∷ 95 ∷ 68 ∷ 69 ∷ 66 ∷ 85 ∷ 71 ∷ []

-- "IPM_REPORT"
abbrev pub key_report : Str
key_report = 73 ∷ 80 ∷ 77 ∷ 95 ∷ 82 ∷ 69 ∷ 80 ∷ 79 ∷ 82 ∷ 84 ∷ []

-- "IPM_LOG"
abbrev pub key_log : Str
key_log = 73 ∷ 80 ∷ 77 ∷ 95 ∷ 76 ∷ 79 ∷ 71 ∷ []

-- "IPM_HPM"
abbrev pub key_hpm : Str
key_hpm = 73 ∷ 80 ∷ 77 ∷ 95 ∷ 72 ∷ 80 ∷ 77 ∷ []

-- "IPM_MPI_NOOP"
abbrev pub key_noop : Str
key_noop = 73 ∷ 80 ∷ 77 ∷ 95 ∷ 77 ∷ 80 ∷ 73 ∷ 95 ∷ 78 ∷ 79 ∷ 79 ∷ 80 ∷ []

-- "IPM_MPI_PASS"
abbrev pub key_pass : Str
key_pass = 73 ∷ 80 ∷ 77 ∷ 95 ∷ 77 ∷ 80 ∷ 73 ∷ 95 ∷ 80 ∷ 65 ∷ 83 ∷ 83 ∷ []

-- "IPM_MPI_TRACE"
abbrev pub key_trace : Str
key_trace = 73 ∷ 80 ∷ 77 ∷ 95 ∷ 77 ∷ 80 ∷ 73 ∷ 95 ∷ 84 ∷ 82 ∷ 65 ∷ 67 ∷ 69 ∷ []

-- "IPM_CODENAME"
abbrev pub key_codename : Str
key_codename = 73 ∷ 80 ∷ 77 ∷ 95 ∷ 67 ∷ 79 ∷ 68 ∷ 69 ∷ 78 ∷ 65 ∷ 77 ∷ 69 ∷ []

-- "IPM_PRELOAD"
abbrev pub key_preload : Str
key_preload = 73 ∷ 80 ∷ 77 ∷ 95 ∷ 80 ∷ 82 ∷ 69 ∷ 76 ∷ 79 ∷ 65 ∷ 68 ∷ []

-- "IPM_MPI_MOD"
abbrev pub key_mod : Str
key_mod = 73 ∷ 80 ∷ 77 ∷ 95 ∷ 77 ∷ 80 ∷ 73 ∷ 95 ∷ 77 ∷ 79 ∷ 68 ∷ []

-- "IPM_LOGFILE"
abbrev pub key_logfile : Str
key_logfile = 73 ∷ 80 ∷ 77 ∷ 95 ∷ 76 ∷ 79 ∷ 71 ∷ 70 ∷ 73 ∷ 76 ∷ 69 ∷ []

-- "IPM_PARALLEL_IO"
abbrev pub key_parallel_io : Str
key_parallel_io = 73 ∷ 80 ∷ 77 ∷ 95 ∷ 80 ∷ 65 ∷ 82 ∷ 65 ∷ 76 ∷ 76 ∷ 69 ∷ 76 ∷ 95 ∷ 73 ∷ 79 ∷ []

-- "IPM_LOGDIR"
abbrev pub key_logdir : Str
key_logdir = 73 ∷ 80 ∷ 77 ∷ 95 ∷ 76 ∷ 79 ∷ 71 ∷ 68 ∷ 73 ∷ 82 ∷ []
