-- ===== src/Store/QuotaReset/Invariant/Close.antt =====
-- The statements by which finish and abort complete a job, and what they keep.
use sub2api5hlimit.Base.{
  ℕ, ◌≡◌, ◌≢◌, ◌≤◌, refl, ap, ◌∙◌, Bool, true, ◌&&◌, ◌==◌, List, arith, update_where, All,
  All-update_where, count_where-update_where_eq, All-imp, String,
}
use sub2api5hlimit.Store.Model.{JobStatus, Counters, QuotaResetJob, QuotaResetJobItem, Metadata, Db}
use sub2api5hlimit.Store.Tx.{
  ok, Tx, ◌>>=◌, ◌>>◌, return, unless, >>=-eq-ok, unless-eq-ok, quota_reset_transition,
}
use sub2api5hlimit.Store.QuotaReset.Statements.{
  counters_of, add_audit, recompute_quota_reset_counters, is_safe_quota_reset_error_code,
}
use sub2api5hlimit.Store.QuotaReset.Jobs.{complete_job, finish_row}
use sub2api5hlimit.Store.QuotaReset.Invariant.Rows.{
  IsClosed, set_counters, of_id, Counted-recount, Settled-recount, Recounted, Counted-complete,
  Settled-complete, active_jobs-recount, active_jobs_complete,
}
use sub2api5hlimit.Store.QuotaReset.Invariant.Valid.{AreValid, IsValid}

-- The tables of the invariant are the same in both databases.
pub record SameJobs (db db' : Db) : Type 0 where
  pub same_items : db'.quota_reset_job_items ≡ db.quota_reset_job_items
  pub same_jobs : db'.quota_reset_jobs ≡ db.quota_reset_jobs
  pub same_last : db'.last_job_id ≡ db.last_job_id

pub SameJobs-IsValid : {db db' : Db} → SameJobs db db' → IsValid db → IsValid db'
SameJobs-IsValid s v = rw (s.same_items, s.same_jobs, s.same_last) v

pub add_audit-SameJobs :
    (actor : ℕ) (action kind : String) (target : ℕ) (m : Metadata) (now : ℕ) (db : Db)
    {a : Unit {0}} {db' : Db}
    → add_audit actor action kind target m now db ≡ ok (a, db')
    → SameJobs db db'
unfolding add_audit
add_audit-SameJobs actor action kind target m now db h = record {
  same_items = ground arith;
  same_jobs = ground arith;
  same_last = ground arith;
}

pub recompute_lem :
    (k now : ℕ) (db : Db) {out : Counters} {db' : Db}
    → recompute_quota_reset_counters k now db ≡ ok (out, db')
    → (out ≡ counters_of k db.quota_reset_job_items)
      × (db'.quota_reset_job_items ≡ db.quota_reset_job_items)
      × (db'.quota_reset_jobs
          ≡ update_where
              (λ j. j.id == k)
              (set_counters (counters_of k db.quota_reset_job_items) now)
              db.quota_reset_jobs)
      × (db'.last_job_id ≡ db.last_job_id)
unfolding recompute_quota_reset_counters
recompute_lem k now db h = ground arith

pub finish_row_lem :
    (status_ok : JobStatus → Bool) (affected : ℕ → Bool) (k now : ℕ) (db : Db) {a : Unit {0}}
    {db' : Db}
    → finish_row status_ok affected k now db ≡ ok (a, db')
    → (db'.quota_reset_job_items ≡ db.quota_reset_job_items)
      × (db'.quota_reset_jobs
          ≡ update_where (of_id k status_ok) (complete_job now) db.quota_reset_jobs)
      × (db'.last_job_id ≡ db.last_job_id)
unfolding finish_row
finish_row_lem status_ok affected k now db h = ground arith

-- Once the counters of job k are recomputed and closed, its active rows may be completed.
module _ (k now : ℕ) (status_ok : JobStatus → Bool) where
  pub closed_AreValid :
      (last : ℕ) (items items' : List QuotaResetJobItem) (jobs : List QuotaResetJob)
      → AreValid last items jobs
      → ((n : ℕ) → n ≢ k → counters_of n items' ≡ counters_of n items)
      → IsClosed (counters_of k items')
      → All (λ i. i.job_id ≤ last) items'
      → All (λ i. is_safe_quota_reset_error_code i.error_code ≡ true) items'
      → AreValid last items' (
          update_where
            (of_id k status_ok)
            (complete_job now)
            (update_where (λ j. j.id == k) (set_counters (counters_of k items') now) jobs))
  closed_AreValid last items items' jobs v same closed below safe =
      let out = counters_of k items' in
      let mid = update_where (λ j. j.id == k) (set_counters out now) jobs in
      record {
        jobs_below =
            All-update_where (λ j. j.id ≤ last) (of_id k status_ok) (complete_job now) mid
              (λ j h _. h)
              (All-update_where (λ j. j.id ≤ last) (λ j. j.id == k) (set_counters out now) jobs
                (λ j h _. h) v.jobs_below);
        items_below = below;
        counted =
            Counted-complete k now status_ok items' mid
              (Counted-recount k now items items' jobs same v.counted);
        settled =
            Settled-complete k now status_ok mid
              (All-imp (λ (j : QuotaResetJob). j.id ≡ k → j.counters ≡ out)
                (λ (j : QuotaResetJob). j.id ≡ k → IsClosed j.counters) mid
                (λ j h e. (
                  ap (λ (c : Counters). c.pending) (h e) ∙ closed.0,
                  ap (λ (c : Counters). c.running) (h e) ∙ closed.1,
                ))
                (Recounted k now out jobs))
              (Settled-recount k now out jobs
                (All-imp (λ (j : QuotaResetJob). j.id ≤ last)
                  (λ (j : QuotaResetJob). j.id ≡ k → j.status ≡ JobStatus.completed → IsClosed out)
                  jobs (λ j _ _ _. closed) v.jobs_below)
                v.settled);
        unique = λ m. omega (
          arith,
          v.unique m,
          count_where-update_where_eq (λ (j : QuotaResetJob). j.id == m) (of_id k status_ok)
              (complete_job now) mid (λ j _. refl),
          count_where-update_where_eq (λ (j : QuotaResetJob). j.id == m) (λ j. j.id == k)
              (set_counters out now) jobs (λ j _. refl),
        );
        one_active = omega (
          arith,
          active_jobs_complete k now status_ok mid,
          active_jobs-recount k now out jobs,
          v.one_active,
        );
        safe = safe;
      }

-- The statements after the items are settled: recount, check, complete the rows, write the audit.
pub record Completes (k now : ℕ) (status_ok : JobStatus → Bool) (db db' : Db) : Type 0 where
  pub same_items : db'.quota_reset_job_items ≡ db.quota_reset_job_items
  pub closed : IsClosed (counters_of k db.quota_reset_job_items)
  pub completes :
      db'.quota_reset_jobs
      ≡ update_where (of_id k status_ok) (complete_job now) (
          update_where
            (λ j. j.id == k)
            (set_counters (counters_of k db.quota_reset_job_items) now)
            db.quota_reset_jobs)
  pub same_last : db'.last_job_id ≡ db.last_job_id

IsClosed-of_test : (c : Counters) → (c.pending == 0 && c.running == 0) ≡ true → IsClosed c
IsClosed-of_test c h = ground arith

module _ (k now actor : ℕ) (status_ok : JobStatus → Bool) (affected : ℕ → Bool) (action : String)
    {A : Type 0} (metadata : Counters → Metadata) (result : A) where
  abbrev pub tail_tx : Tx A
  tail_tx = do
    counters ← recompute_quota_reset_counters k now
    unless (counters.pending == 0 && counters.running == 0) quota_reset_transition
    finish_row status_ok affected k now
    add_audit actor action "quota_reset_job" k (metadata counters) now
    return result

  pub tail-Completes :
      (db : Db) (a : A) (db' : Db) → tail_tx db ≡ ok (a, db') → Completes k now status_ok db db'
  tail-Completes db a db' h =
      let (counters, db1, e1, h1) = >>=-eq-ok (recompute_quota_reset_counters k now) _ db h in
      let (_, db2, e2, h2) =
        >>=-eq-ok (unless (counters.pending == 0 && counters.running == 0) quota_reset_transition) _
          db1 h1 in
      let (_, db3, e3, h3) = >>=-eq-ok (finish_row status_ok affected k now) _ db2 h2 in
      let (_, db4, e4, h4) =
        >>=-eq-ok (add_audit actor action "quota_reset_job" k (metadata counters) now) _ db3 h3 in
      let (out, items1, jobs1, last1) = recompute_lem k now db e1 in
      let (zero_open, same2) =
        unless-eq-ok (counters.pending == 0 && counters.running == 0) quota_reset_transition db1
          e2 in
      let (items3, jobs3, last3) = finish_row_lem status_ok affected k now db2 e3 in
      let audit =
        add_audit-SameJobs actor action "quota_reset_job" k (metadata counters) now db3 e4 in
      let last4 : db' ≡ db4 = ground arith in
      record {
        same_items = rw (last4, audit.same_items, items3, same2) items1;
        closed = IsClosed-of_test (counters_of k db.quota_reset_job_items) (rw (← out) zero_open);
        completes = rw (last4, audit.same_jobs, jobs3, same2, jobs1);
        same_last = rw (last4, audit.same_last, last3, same2) last1;
      }
