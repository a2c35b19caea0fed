-- ===== src/Store/QuotaReset/Invariant/Valid.antt =====
-- The invariant of the reset jobs, stated of the database.
use sub2api5hlimit.Base.{ℕ, ◌≡◌, ◌≤◌, true, List, All, ◌==◌, count_where}
use sub2api5hlimit.Store.Model.{QuotaResetJob, QuotaResetJobItem, Db}
use sub2api5hlimit.Store.QuotaReset.Statements.{is_safe_quota_reset_error_code}
use sub2api5hlimit.Store.QuotaReset.Invariant.Rows.{Counted, Settled, active_jobs}

-- The error codes in the table pass the check that guards them.
abbrev pub Safe : List QuotaResetJobItem → Type 0
Safe = All (λ i. is_safe_quota_reset_error_code i.error_code ≡ true)

-- The invariant of the two tables and the sequence of job ids.
pub record AreValid (last : ℕ) (items : List QuotaResetJobItem) (jobs : List QuotaResetJob)
    : Type 0 where
  pub jobs_below : All (λ j. j.id ≤ last) jobs
  pub items_below : All (λ i. i.job_id ≤ last) items
  pub counted : Counted items jobs
  pub settled : Settled jobs
  pub unique : (k : ℕ) → count_where (λ j. j.id == k) jobs ≤ 1
  pub one_active : active_jobs jobs ≤ 1
  pub safe : Safe items

abbrev pub IsValid : Db → Type 0
IsValid db = AreValid db.last_job_id db.quota_reset_job_items db.quota_reset_jobs
