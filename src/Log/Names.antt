-- ===== src/Log/Names.antt =====
-- src/ipm_mpi_log.c and src/checkpoints/ipm_chkpt_log.c: the files that are written.
use ipm_nci.Base.{
  ℕ, ◌≡◌, refl, sym, ◌∙◌, Bool, true, [], ◌∷◌, ◌++◌, some, arith, Bool-cases, inl, inr,
}
use ipm_nci.Base.Bits.Flags.{has, has-set_flag}
use ipm_nci.Base.Strings.{Str, str_eq}
use ipm_nci.Flags.{ipm_wrotelog}
use ipm_nci.Log.{
  Answers, LogJob, skipped, ipm_log, ipm_chkpt_log, chkpt_name, find_dir, dev_null, chkpt,
}

append-cancel : (xs : Str) {ys zs : Str} → xs ++ ys ≡ xs ++ zs → ys ≡ zs
append-cancel [] e = e
append-cancel (x ∷ xs) e = append-cancel xs (cc e)

again :
    (decimal : ℕ → Str) (size : ℕ) (b : Answers) (flags : ℕ) (j : LogJob)
    → has flags ipm_wrotelog ≡ true
    → ipm_log decimal size b flags j ≡ (flags, j, skipped)
unfolding ipm_log
again decimal size b flags j wrote = rw wrote refl

marks :
    (decimal : ℕ → Str) (size : ℕ) (a : Answers) (flags : ℕ) (j : LogJob)
    → has (ipm_log decimal size a flags j).0 ipm_wrotelog ≡ true
unfolding ipm_log
marks decimal size a flags j = elim (Bool-cases (has flags ipm_wrotelog)) [
  | inl wrote ↦ rw wrote wrote
  | inr fresh ↦ rw fresh (elim (Bool-cases (str_eq j.log_dir dev_null)) [
    | inl bail ↦ rw bail (has-set_flag flags ipm_wrotelog ipm_wrotelog)
    | inr go ↦ rw go (has-set_flag flags ipm_wrotelog ipm_wrotelog)
  ])
]

-- A second call of ipm_log, whatever MPI answers to it, changes nothing and writes nothing.
ipm_log-once :
    (decimal : ℕ → Str) (size : ℕ) (a b : Answers) (flags : ℕ) (j : LogJob)
    → let first = ipm_log decimal size a flags j in
      ipm_log decimal size b (first.0) (first.1) ≡ (first.0, first.1, skipped)
ipm_log-once decimal size a b flags j =
    let first = ipm_log decimal size a flags j in
    again decimal size b (first.0) (first.1) (marks decimal size a flags j)

-- A name up to its next separator.
cut : (c : ℕ) (xs : Str) {ys zs : Str} → xs ++ c ∷ ys ≡ xs ++ c ∷ zs → ys ≡ zs
cut c xs e = cc (append-cancel xs e)

same_rank :
    (decimal : ℕ → Str) (rank rank' : ℕ) (j : LogJob)
    → ((m n : ℕ) → decimal m ≡ decimal n → m ≡ n)
    → chkpt_name decimal rank j ≡ chkpt_name decimal rank' j
    → rank ≡ rank'
unfolding chkpt_name
same_rank decimal rank rank' j different e =
    different rank rank' (cut 46 chkpt (cut 46 j.cookie (cut 46 j.username (cut 47 j.log_dir e))))

some-injective : {A : Type 0} {x y : A} → some x ≡ some y → x ≡ y
some-injective e = cc

opened :
    (decimal : ℕ → Str) (rank : ℕ) (no_dir : Bool) (j : LogJob) (name : Str)
    → (ipm_chkpt_log decimal rank no_dir j).0 ≡ some name
    → chkpt_name decimal rank (find_dir no_dir j) ≡ name
unfolding ipm_chkpt_log
opened decimal rank no_dir j name e = ground (arith, e)

-- If %d prints different ranks differently, two tasks with the same names in ipm_jobdata open the
-- same checkpoint file only if they have the same rank.
pub ipm_chkpt_log-distinct :
    (decimal : ℕ → Str) (rank rank' : ℕ) (no_dir : Bool) (j : LogJob) (name : Str)
    → ((m n : ℕ) → decimal m ≡ decimal n → m ≡ n)
    → (ipm_chkpt_log decimal rank no_dir j).0 ≡ some name
    → (ipm_chkpt_log decimal rank' no_dir j).0 ≡ some name
    → rank ≡ rank'
ipm_chkpt_log-distinct decimal rank rank' no_dir j name different e f =
    same_rank decimal rank rank' (find_dir no_dir j) different
      (opened decimal rank no_dir j name e ∙ sym (opened decimal rank' no_dir j name f))
