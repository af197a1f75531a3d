-- ===== src/Log/Write/Job.antt =====
-- src/ipm_log_write.c: the log of a whole job, which the tasks write one after the other.
use ipm_nci.Base.{
  ℕ, suc, ◌+◌, ◌≤◌, ◌≡◌, refl, subst, if◌then◌else◌, ◌==◌, List, [], ◌∷◌, ◌++◌, map, some, arith,
}
use ipm_nci.Base.Bits.Flags.{has}
use ipm_nci.Base.Strings.{Str}
use ipm_nci.Flags.{log_full}
use ipm_nci.Layout.{identity}
use ipm_nci.Log.Write.Nesting.{
  nest, Leads, Leads-append, Leads-if, finish, next, Leads-flatten, flat_env, flat_masks, flat_hash,
  flat_exec, flat_exec_bin, flat_regions,
}
use ipm_nci.Log.Write.{
  table_pieces, Name, Piece, opens, closes, leaf, text, rusage, prolog, groups, Sizes, Written,
  Around, ipm_log_write, ipm_job_profile, task, call_mask, regions, hash,
}

-- The one element that is open between two tasks.
abbrev within : List Name
within = ipm_job_profile ∷ []

abbrev before_task : ℕ → List Name
before_task rank = if rank == 0 then [] else within

abbrev after_task : ℕ → ℕ → List Name
after_task size rank = if rank + 1 == size then [] else within

begins :
    (rank : ℕ)
    → Leads
        (before_task rank)
        within
        (if rank == 0 then prolog ∷ opens ipm_job_profile ∷ [] else [])
unfolding nest
begins rank = ground arith

ends :
    (size rank : ℕ)
    → Leads within
        (after_task size rank)
        (if rank + 1 == size then closes ipm_job_profile ∷ [] else [])
unfolding nest
ends size rank = ground arith

flat_literal :
    (s : Str) (st : List Name) → Leads st st (elim s [ [] ↦ [] | c ∷ r ↦ text (c ∷ r) ∷ [] ])
unfolding nest
flat_literal [] st = refl
flat_literal (c ∷ r) st = refl

flat_usage : (st : List Name) → Leads st st (map (λ i. leaf (rusage i)) (identity 4))
unfolding identity nest
flat_usage st = refl

flat_table : (t : Written) (st : List Name) → Leads st st (table_pieces t)
unfolding table_pieces nest
flat_table t st =
    Leads-if st st (has t.flags log_full) _ []
      (Leads-flatten st st _ (
        next (hash ∷ st) refl
          (next (hash ∷ st) (flat_hash t t.hash (hash ∷ st)) (next st refl (finish refl)))))
      refl

write-Leads :
    (z : Sizes) (y : Around) (t : Written)
    → Leads (before_task t.mpi_rank) (after_task t.mpi_size t.mpi_rank) (ipm_log_write z y t)
unfolding ipm_log_write groups nest
write-Leads z y t =
    let a = task ∷ within in
    Leads-flatten (after_task t.mpi_size t.mpi_rank) (before_task t.mpi_rank) _ (
      next within (begins t.mpi_rank) (
        next a refl (
          next a (flat_exec t.mpi_rank y.exe_file a) (
            next a (flat_exec_bin t.mpi_rank y.ldd_file a) (
              next a (flat_literal y.literal a) (
                next a (Leads-if a a (t.mpi_rank == 0) _ [] (flat_env y.environ a) refl) (
                  next a (flat_usage a) (
                    next (call_mask ∷ a) refl (
                      next (call_mask ∷ a)
                        (flat_masks t.call_mask (identity (suc z.max_calls)) (call_mask ∷ a))
                        (next (regions ∷ a) refl (
                          next (regions ∷ a)
                            (flat_regions z t (identity t.region_nregion) (regions ∷ a))
                            (next a refl (
                              next a (flat_table t a) (
                                next within refl
                                  (next _ (ends t.mpi_size t.mpi_rank) (finish refl))))))))))))))))

-- The log that the tasks write in the order of their ranks.
pub job_log : Sizes → List (Around × Written) → List Piece
job_log z [] = []
job_log z ((y, t) ∷ ts) = ipm_log_write z y t ++ job_log z ts

-- The tasks of a job of n, from rank i on.
abbrev pub IsJob : ℕ → ℕ → List (Around × Written) → Type 0
IsJob n i [] = i ≡ n
IsJob n i (t ∷ ts) = ((t.1).mpi_rank ≡ i) × ((t.1).mpi_size ≡ n) × (i + 1 ≤ n) × IsJob n (i + 1) ts

-- What is open before the task i writes, and after the last.
abbrev between : ℕ → ℕ → List Name
between n i = if i == n then [] else before_task i

from_rank :
    (z : Sizes) (n i : ℕ) (ts : List (Around × Written))
    → IsJob n i ts
    → Leads (between n i) [] (job_log z ts)
unfolding job_log nest
from_rank z n i [] job = ground (arith, job)
from_rank z n i ((y, t) ∷ ts) (rank, size, inside, rest) =
    Leads-append (between n i) (between n (i + 1)) [] (ipm_log_write z y t) (job_log z ts)
      (subst (λ (a : List Name). Leads a (between n (i + 1)) (ipm_log_write z y t)) starts
        (subst (λ (c : List Name). Leads (before_task t.mpi_rank) c (ipm_log_write z y t)) stops
          (write-Leads z y t)))
      (from_rank z n (i + 1) ts rest)
  where
    starts : before_task t.mpi_rank ≡ between n i
    starts = ground (arith, rank, inside)

    stops : after_task t.mpi_size t.mpi_rank ≡ between n (i + 1)
    stops = ground (arith, rank, size, inside)

-- The log of a job, which its tasks write in the order of their ranks, is well nested: every closing
-- tag closes the element that was opened last, and at the end none is open.
pub job_log-nested :
    (z : Sizes) (n : ℕ) (ts : List (Around × Written))
    → IsJob n 0 ts
    → nest (job_log z ts) [] ≡ some []
job_log-nested z n ts job =
    subst (λ (a : List Name). Leads a [] (job_log z ts)) (ground arith) (from_rank z n 0 ts job)
