-- ===== src/Store/QuotaReset/Invariant/Abort.antt =====
-- Finish, abort and the recovery at start-up keep the invariant.
use sub2api5hlimit.Base.{
  ℕ, ◌≡◌, ◌≤◌, refl, ◌∙◌, inl, inr, Bool, true, not, ◌&&◌, ◌==◌, List, [], ◌∷◌, arith, update_where,
  All-update_where, Bool-cases, String, codes, select_where,
}
use sub2api5hlimit.Store.Model.{
  Text, JobStatus, QuotaResetJobItem, Db, counters_of_job, counters_and_code,
}
use sub2api5hlimit.Store.Tx.{
  in_tx-keeps, ok, err, Result, unless, in_tx, >>=-eq-ok, unless-eq-ok, quota_reset_transition,
}
use sub2api5hlimit.Store.QuotaReset.Statements.{
  is_pending, is_running, is_job_active, is_job_running, counters_of,
  is_safe_quota_reset_error_code, quota_reset_job_by_id,
}
use sub2api5hlimit.Store.QuotaReset.Jobs.{
  is_item_open, close_item, close_open_items, lift, read_back, abort_active_tx, abort_by_status,
  abort_quota_reset_job_tx, abort_quota_reset_job, abort_each, recover_interrupted_quota_reset_jobs,
  ids_of,
}
use sub2api5hlimit.Store.QuotaReset.Items.{finish_quota_reset_job_tx, finish_quota_reset_job}
use sub2api5hlimit.Store.QuotaReset.Counts.{counters_of-other, count_status-close}
use sub2api5hlimit.Store.QuotaReset.Invariant.Rows.{IsClosed}
use sub2api5hlimit.Store.QuotaReset.Invariant.Close.{Completes, tail-Completes, closed_AreValid}
use sub2api5hlimit.Store.QuotaReset.Invariant.Valid.{IsValid}

pub Completes-IsValid :
    (k now : ℕ) (status_ok : JobStatus → Bool) {db db' : Db}
    → IsValid db
    → Completes k now status_ok db db'
    → IsValid db'
Completes-IsValid k now status_ok {db} {db'} v c =
    rw (c.same_items, c.completes, c.same_last)
      (closed_AreValid k now status_ok db.last_job_id db.quota_reset_job_items
        db.quota_reset_job_items db.quota_reset_jobs v (λ n _. refl) c.closed v.items_below v.safe)

pub lift-eq-ok :
    {A : Type 0} (f : Db → Result A) (db : Db) {a : A} {db' : Db}
    → lift f db ≡ ok (a, db')
    → (f db ≡ ok a) × (db' ≡ db)
unfolding lift
lift-eq-ok f db h = ground arith

-- A finish that succeeds found the job running.
pub finish_lem :
    (now k actor : ℕ) (db : Db) (a : ℕ) (db' : Db)
    → finish_quota_reset_job_tx now k actor db ≡ ok (a, db')
    → Completes k now is_job_running db db'
unfolding finish_quota_reset_job_tx
finish_lem now k actor db a db' h =
    let (job, db1, e1, h1) = >>=-eq-ok (lift (quota_reset_job_by_id k)) _ db h in
    let (_, db2, e2, h2) =
      >>=-eq-ok (unless (is_job_running job.status) quota_reset_transition) _ db1 h1 in
    let same : db2 ≡ db =
      (unless-eq-ok (is_job_running job.status) quota_reset_transition db1 e2).1
      ∙ (lift-eq-ok (quota_reset_job_by_id k) db e1).1 in
    tail-Completes k now actor is_job_running (λ n. not (n == 0)) "quota_reset.batch.complete"
      counters_of_job k db a db' (rw same at h2)

pub read_back-same : (r : Db × Result ℕ) → (read_back r).0 ≡ r.0
read_back-same (db, ok k) = refl
read_back-same (db, err e) = refl

-- Finishing a job keeps the invariant.
pub finish_quota_reset_job-IsValid :
    (now k actor : ℕ) (db : Db) → IsValid db → IsValid (finish_quota_reset_job now k actor db).0
unfolding finish_quota_reset_job
finish_quota_reset_job-IsValid now k actor db v =
    let m = finish_quota_reset_job_tx now k actor in
    rw (read_back-same (in_tx m db)) (
      in_tx-keeps IsValid m db v
        (λ a db' h. Completes-IsValid k now is_job_running v (finish_lem now k actor db a db' h)))

abbrev pub is_open_in : ℕ → QuotaResetJobItem → Bool
is_open_in k i = i.job_id == k && is_item_open i.status

abbrev pub closed_items : ℕ → Text → ℕ → List QuotaResetJobItem → List QuotaResetJobItem
closed_items k code now = update_where (is_open_in k) (close_item code now)

pub closed_items-IsClosed :
    (k : ℕ) (code : Text) (now : ℕ) (items : List QuotaResetJobItem)
    → IsClosed (counters_of k (closed_items k code now items))
unfolding counters_of
closed_items-IsClosed k code now items = (
  count_status-close k is_pending code now items (λ s h. ground arith),
  count_status-close k is_running code now items (λ s h. ground arith),
)

-- What an abort of an active job did.
pub abort_active_lem :
    (k actor : ℕ) (code : Text) (action : String) (now : ℕ) (db : Db) (a : Bool) (db' : Db)
    → abort_active_tx k actor code action now db ≡ ok (a, db')
    → Completes k now is_job_active
        (record db { quota_reset_job_items = closed_items k code now db.quota_reset_job_items })
        db'
unfolding abort_active_tx close_open_items
abort_active_lem k actor code action now db a db' h =
    tail-Completes k now actor is_job_active (λ n. n == 1) action (λ c. counters_and_code c code)
      true (record db { quota_reset_job_items = closed_items k code now db.quota_reset_job_items })
      a db' h

aborted_IsValid :
    (k : ℕ) (code : Text) (now : ℕ) (db db' : Db)
    → is_safe_quota_reset_error_code code ≡ true
    → IsValid db
    → Completes k now is_job_active
        (record db { quota_reset_job_items = closed_items k code now db.quota_reset_job_items })
        db'
    → IsValid db'
aborted_IsValid k code now db db' safe v c =
    let items = closed_items k code now db.quota_reset_job_items in
    rw (c.same_items, c.completes, c.same_last)
      (closed_AreValid k now is_job_active db.last_job_id db.quota_reset_job_items items
        db.quota_reset_jobs v
        (λ n ne.
          counters_of-other k (is_open_in k) (close_item code now)
            (record { touches = λ i h. ground arith; keeps = λ i. refl }) n db.quota_reset_job_items
            ne)
        c.closed
        (All-update_where (λ i. i.job_id ≤ db.last_job_id) (is_open_in k) (close_item code now)
          db.quota_reset_job_items (λ i h _. h) v.items_below)
        (All-update_where (λ i. is_safe_quota_reset_error_code i.error_code ≡ true) (is_open_in k)
          (close_item code now) db.quota_reset_job_items (λ i _ _. safe) v.safe))

-- The body of every abort keeps the invariant, if its code is safe.
pub abort_tx-IsValid :
    (k actor : ℕ) (code : Text) (action : String) (now : ℕ) (db : Db) (a : Bool) (db' : Db)
    → is_safe_quota_reset_error_code code ≡ true
    → IsValid db
    → abort_quota_reset_job_tx k actor code action now db ≡ ok (a, db')
    → IsValid db'
unfolding abort_quota_reset_job_tx abort_by_status
abort_tx-IsValid k actor code action now db a db' safe v h =
    let (job, db1, e1, h1) = >>=-eq-ok (lift (quota_reset_job_by_id k)) _ db h in
    let same : db1 ≡ db = (lift-eq-ok (quota_reset_job_by_id k) db e1).1 in
    by_status job.status (rw same at h1)
  where
    by_status :
        (s : JobStatus) → abort_by_status s k actor code action now db ≡ ok (a, db') → IsValid db'
    by_status JobStatus.completed h = let e : db' ≡ db = ground arith in rw e v
    by_status JobStatus.queued h =
        aborted_IsValid k code now db db' safe v
          (abort_active_lem k actor code action now db a db' h)
    by_status JobStatus.running h =
        aborted_IsValid k code now db db' safe v
          (abort_active_lem k actor code action now db a db' h)

-- Aborting a job keeps the invariant.
pub abort_quota_reset_job-IsValid :
    (k actor : ℕ) (code : Text) (now : ℕ) (db : Db)
    → IsValid db
    → IsValid (abort_quota_reset_job k actor code now db).0
unfolding abort_quota_reset_job
abort_quota_reset_job-IsValid k actor [] now db v = v
abort_quota_reset_job-IsValid k actor (c ∷ cs) now db v =
    elim (Bool-cases (is_safe_quota_reset_error_code (c ∷ cs))) [
      | inr e ↦ rw e v
      | inl e ↦ rw e (
          in_tx-keeps IsValid
            (abort_quota_reset_job_tx k actor (c ∷ cs) "quota_reset.batch.abort" now) db v
            (λ a db' h.
              abort_tx-IsValid k actor (c ∷ cs) "quota_reset.batch.abort" now db a db' e v h))
    ]

abort_each-IsValid :
    (ks : List ℕ) (actor : ℕ) (code : Text) (now : ℕ) (db : Db) (a : Unit {0}) (db' : Db)
    → is_safe_quota_reset_error_code code ≡ true
    → IsValid db
    → abort_each ks actor code now db ≡ ok (a, db')
    → IsValid db'
unfolding abort_each
abort_each-IsValid [] actor code now db a db' safe v h = let e : db' ≡ db = ground arith in rw e v
abort_each-IsValid (k ∷ ks) actor code now db a db' safe v h =
    let (b, db1, e1, h1) =
      >>=-eq-ok (abort_quota_reset_job_tx k actor code "quota_reset.batch.recovered" now) _ db h in
    abort_each-IsValid ks actor code now db1 a db' safe
      (abort_tx-IsValid k actor code "quota_reset.batch.recovered" now db b db1 safe v e1) h1

restarted_safe : is_safe_quota_reset_error_code (codes "PROCESS_RESTARTED") ≡ true
unfolding is_safe_quota_reset_error_code
restarted_safe = refl

-- The recovery at start-up keeps the invariant.
pub recover-IsValid :
    (now : ℕ) (db : Db) → IsValid db → IsValid (recover_interrupted_quota_reset_jobs now db).0
unfolding recover_interrupted_quota_reset_jobs
recover-IsValid now db v =
    in_tx-keeps IsValid
      (abort_each (ids_of (select_where (λ j. is_job_active j.status) db.quota_reset_jobs)) 0
        (codes "PROCESS_RESTARTED") now)
      db v
      (λ a db' h.
        abort_each-IsValid (ids_of (select_where (λ j. is_job_active j.status) db.quota_reset_jobs))
          0 (codes "PROCESS_RESTARTED") now db a db' restarted_safe v h)
