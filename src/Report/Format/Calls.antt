-- ===== src/Report/Format/Calls.antt =====
-- src/ipm_report_internal.c: the rows by call among all lines of a report.
use ipm_nci.Base.{◌≡◌, List, [], arith}
use ipm_nci.Report.Format.Listing.{calls_of}
use ipm_nci.Report.Format.{Line, Reduced, Subject, terse_lines}

-- Lines without a row by call.
abbrev Rowless : List Line → Type 0
Rowless ls = calls_of ls ≡ []

terse_lines-Rowless : (s : Subject) (g : Reduced) → Rowless (terse_lines s g)
unfolding terse_lines calls_of
terse_lines-Rowless s g = ground arith
