-- ===== src/Http/ResetJob/Ends.antt =====
-- internal/httpapi/quota_resets.go: the finish and the abort of a running job leave no job active.
use sub2api5hlimit.Base.{
  ℕ, ◌+◌, ◌≤◌, ◌≡◌, refl, true, not, ◌&&◌, ◌==◌, some, List, [], ◌∷◌, count_where,
  count_where-update_where_eq, update_where, find_where, codes, arith,
}
use sub2api5hlimit.Store.Model.{Text, QuotaResetJob, counters_of_job, Db}
use sub2api5hlimit.Store.Tx.{quota_reset_transition, Result, ok, err, settle, unless, >>=-eq-ok}
use sub2api5hlimit.Store.QuotaReset.Statements.{
  is_job_running, is_safe_quota_reset_error_code, counters_of, quota_reset_job_by_id,
  recompute_quota_reset_counters, is_actor, add_audit,
}
use sub2api5hlimit.Store.QuotaReset.Jobs.{
  complete_job, lift, finish_row, read_back, abort_quota_reset_job,
}
use sub2api5hlimit.Store.QuotaReset.Items.{finish_quota_reset_job_tx, finish_quota_reset_job}
use sub2api5hlimit.Http.ResetJob.{logged_abort}
use sub2api5hlimit.Base.{◌&&◌}
use sub2api5hlimit.Store.QuotaReset.Invariant.Rows.{
  active_jobs, active_jobs-recount, set_counters, of_id, find-update,
}
use sub2api5hlimit.Store.QuotaReset.Invariant.Valid.{IsValid}
use sub2api5hlimit.Store.QuotaReset.Invariant.Close.{Completes}
use sub2api5hlimit.Store.QuotaReset.Invariant.Abort.{
  Completes-IsValid, finish_lem, abort_quota_reset_job-IsValid,
}
use sub2api5hlimit.Store.QuotaReset.Abort.{abort_quota_reset_job_active}
use sub2api5hlimit.Http.ResetJob.{finished_or_aborted}
use sub2api5hlimit.Http.ResetJob.Ready.{Ready}

aborts_idle :
    (k actor now c : ℕ) (cs : Text) (db : Db)
    → is_safe_quota_reset_error_code (c ∷ cs) ≡ true
    → is_actor actor db ≡ true
    → Ready k db
    → active_jobs (abort_quota_reset_job k actor (c ∷ cs) now db).0.quota_reset_jobs ≡ 0
aborts_idle k actor now c cs db safe known (v, (j, found, runs)) =
    (abort_quota_reset_job_active k actor c cs now db j v known safe found (ground (arith, runs))).1

active_jobs-complete_running :
    (k now : ℕ) (jobs : List QuotaResetJob)
    → active_jobs (update_where (of_id k is_job_running) (complete_job now) jobs)
        + count_where (of_id k is_job_running) jobs
      ≡ active_jobs jobs
active_jobs-complete_running k now [] = refl
active_jobs-complete_running k now (j ∷ jobs) =
    ground (arith, active_jobs-complete_running k now jobs)

found_running :
    (k : ℕ) (jobs : List QuotaResetJob) (j : QuotaResetJob)
    → find_where (λ j. j.id == k) jobs ≡ some j
    → is_job_running j.status ≡ true
    → 1 ≤ count_where (of_id k is_job_running) jobs
found_running k [] j e r = absurd (cc)
found_running k (i ∷ jobs) j e r = ground (arith, found_running k jobs j)

-- A finish that succeeds leaves no job active, and names the job.
finished_idle :
    (k now : ℕ) (db db' : Db)
    → Ready k db
    → Completes k now is_job_running db db'
    → active_jobs db'.quota_reset_jobs ≡ 0
finished_idle k now db db' (v, (j, found, runs)) c =
    let out = counters_of k db.quota_reset_job_items in
    let mid = update_where (λ j. j.id == k) (set_counters out now) db.quota_reset_jobs in
    rw c.completes (
      omega (
        arith,
        v.one_active,
        active_jobs-complete_running k now mid,
        active_jobs-recount k now out db.quota_reset_jobs,
        found_running k db.quota_reset_jobs j found runs,
        count_where-update_where_eq (of_id k is_job_running) (λ (j : QuotaResetJob). j.id == k)
            (set_counters out now) db.quota_reset_jobs (λ j _. refl),
      ))

finish_names :
    (now k actor : ℕ) (db : Db) (a : ℕ) (db' : Db)
    → finish_quota_reset_job_tx now k actor db ≡ ok (a, db')
    → a ≡ k
unfolding finish_quota_reset_job_tx
finish_names now k actor db a db' h =
    let (job, db1, _, h1) = >>=-eq-ok (lift (quota_reset_job_by_id k)) _ db h in
    let (_, db2, _, h2) =
      >>=-eq-ok (unless (is_job_running job.status) quota_reset_transition) _ db1 h1 in
    let (c, db3, _, h3) = >>=-eq-ok (recompute_quota_reset_counters k now) _ db2 h2 in
    let (_, db4, _, h4) =
      >>=-eq-ok (unless (c.pending == 0 && c.running == 0) quota_reset_transition) _ db3 h3 in
    let (_, db5, _, h5) =
      >>=-eq-ok (finish_row is_job_running (λ n. not (n == 0)) k now) _ db4 h4 in
    let (_, db6, _, h6) =
      >>=-eq-ok
        (add_audit actor "quota_reset.batch.complete" "quota_reset_job" k (counters_of_job c) now) _
        db5 h5 in
    ground arith

pub found_by_id :
    (k : ℕ) (db : Db) (jobs : List QuotaResetJob) (j : QuotaResetJob)
    → db.quota_reset_jobs ≡ jobs
    → find_where (λ j. j.id == k) jobs ≡ some j
    → quota_reset_job_by_id k db ≡ ok j
unfolding quota_reset_job_by_id
found_by_id k db jobs j same e = rw (quota_reset_job_by_id, same, e) refl

reads_back :
    (k now : ℕ) (db db' : Db)
    → Ready k db
    → Completes k now is_job_running db db'
    → (j : QuotaResetJob) × (quota_reset_job_by_id k db' ≡ ok j)
unfolding quota_reset_job_by_id
reads_back k now db db' (v, (j, found, runs)) c =
    let out = counters_of k db.quota_reset_job_items in
    let mid = update_where (λ j. j.id == k) (set_counters out now) db.quota_reset_jobs in
    let e =
      find-update k (of_id k is_job_running) (complete_job now) (λ j. refl) mid _
        (find-update k (λ j. j.id == k) (set_counters out now) (λ j. refl) db.quota_reset_jobs j
          found) in
    (_, found_by_id k db' _ _ c.completes e)

-- The database has no active job and is valid.
abbrev pub IsIdle : Db → Type 0
IsIdle db = IsValid db × (active_jobs db.quota_reset_jobs ≡ 0)

pub abort-IsIdle :
    (k actor now c : ℕ) (cs : Text) (db : Db)
    → is_safe_quota_reset_error_code (c ∷ cs) ≡ true
    → is_actor actor db ≡ true
    → Ready k db
    → IsIdle (abort_quota_reset_job k actor (c ∷ cs) now db).0
abort-IsIdle k actor now c cs db safe known (v, r) = (
  abort_quota_reset_job-IsValid k actor (c ∷ cs) now db v,
  aborts_idle k actor now c cs db safe known (v, r),
)

pub interrupted-IsIdle :
    (now k actor : ℕ) (db : Db)
    → is_actor actor db ≡ true
    → Ready k db
    → IsIdle (logged_abort true k actor (codes "INTERNAL_INTERRUPTION") now db)
unfolding logged_abort is_safe_quota_reset_error_code
interrupted-IsIdle now k actor db known h =
    abort-IsIdle k actor now b'I' (codes "NTERNAL_INTERRUPTION") db refl known h

pub finish-IsIdle :
    (now k actor : ℕ) (db : Db)
    → is_actor actor db ≡ true
    → Ready k db
    → IsIdle (finished_or_aborted true now k actor (finish_quota_reset_job now k actor db))
unfolding finish_quota_reset_job
finish-IsIdle now k actor db known h = go (finish_quota_reset_job_tx now k actor db) refl
  where
    completed :
        (a : ℕ) (db' : Db)
        → finish_quota_reset_job_tx now k actor db ≡ ok (a, db')
        → IsIdle (finished_or_aborted true now k actor (read_back (db', ok a)))
    completed a db' e =
        let c = finish_lem now k actor db a db' e in
        let (j, found) = reads_back k now db db' h c in
        rw (finish_names now k actor db a db' e, found)
          (Completes-IsValid k now is_job_running h.0 c, finished_idle k now db db' h c)

    go :
        (r : Result (ℕ × Db))
        → finish_quota_reset_job_tx now k actor db ≡ r
        → IsIdle (finished_or_aborted true now k actor (read_back (settle db r)))
    go (ok (a, db')) e = completed a db' e
    go (err x) e = interrupted-IsIdle now k actor db known h
