-- ===== src/Store/QuotaReset/Active.antt =====
-- internal/store/quota_reset.go: the jobs that the recovery at start-up finds.
use sub2api5hlimit.Base.{
  ℕ, ◌≡◌, ◌≤◌, refl, ap, inl, inr, true, false, ◌==◌, List, [], ◌∷◌, some, arith, count_where,
  find_where, select_where, Bool-cases, ==_self,
}
use sub2api5hlimit.Store.Model.{QuotaResetJob}
use sub2api5hlimit.Store.QuotaReset.Statements.{is_job_active}
use sub2api5hlimit.Store.QuotaReset.Jobs.{ids_of}
use sub2api5hlimit.Store.QuotaReset.Invariant.Rows.{active_jobs}

-- The active jobs are none, or one that its id finds.
pub data OneActive (jobs : List QuotaResetJob) : Type 0 where
  idle :
      ids_of (select_where (λ j. is_job_active j.status) jobs) ≡ []
      → active_jobs jobs ≡ 0
      → OneActive jobs
  busy :
      (k : ℕ) (j : QuotaResetJob)
      → ids_of (select_where (λ j. is_job_active j.status) jobs) ≡ k ∷ []
      → find_where (λ j. j.id == k) jobs ≡ some j
      → is_job_active j.status ≡ true
      → OneActive jobs

none_active :
    (jobs : List QuotaResetJob)
    → active_jobs jobs ≡ 0
    → ids_of (select_where (λ j. is_job_active j.status) jobs) ≡ []
unfolding ids_of
none_active [] h = refl
none_active (j ∷ jobs) h = ground (arith, none_active jobs)

found-count :
    (k : ℕ) (jobs : List QuotaResetJob) (j : QuotaResetJob)
    → find_where (λ j. j.id == k) jobs ≡ some j
    → 1 ≤ count_where (λ j. j.id == k) jobs
found-count k [] j e = absurd (cc)
found-count k (i ∷ jobs) j e = ground (arith, found-count k jobs j)

pub OneActive-cases :
    (jobs : List QuotaResetJob)
    → ((k : ℕ) → count_where (λ j. j.id == k) jobs ≤ 1)
    → active_jobs jobs ≤ 1
    → OneActive jobs
unfolding ids_of
OneActive-cases [] u h = idle refl refl
OneActive-cases (j ∷ jobs) u h = elim (Bool-cases (is_job_active j.status)) [
  | inl e ↦
      busy j.id j (rw e (ap (λ (l : List ℕ). j.id ∷ l) (none_active jobs (ground arith))))
        (rw (==_self j.id)) e
  | inr e ↦ later e (OneActive-cases jobs (λ k. ground (arith, u k)) (ground arith))
]
  where
    later : is_job_active j.status ≡ false → OneActive jobs → OneActive (j ∷ jobs)
    later e (idle n z) = idle (rw e n) (rw e (omega (arith, z)))
    later e (busy k i ids found act) =
        busy k i (rw e ids) (ground (arith, u k, found-count k jobs i found)) act
