-- ===== src/Store/QuotaReset/Abort.antt =====
-- What an abort and the recovery at start-up achieve: they do not fail on an active job, and leave
-- no job active.
use sub2api5hlimit.Base.{
  ℕ, if◌then◌else◌, ◌+◌, ◌≡◌, ◌≢◌, ◌≤◌, refl, Bool, true, false, ◌&&◌, ◌==◌, List, [], ◌∷◌, ◌++◌,
  some, arith, count_where, update_where, find_where, String, count_where_mono,
  count_where-update_where_eq, length, length-append,
}
use sub2api5hlimit.Store.Model.{
  Text, JobStatus, ItemStatus, Counters, QuotaResetJob, QuotaResetJobItem, Db, counters_and_code,
}
use sub2api5hlimit.Store.Tx.{ok, ◌>>=◌, ◌>>◌}
use sub2api5hlimit.Store.QuotaReset.Statements.{
  is_job_active, counters_of, audit_event, is_actor, add_audit, recompute_quota_reset_counters,
  quota_reset_job_by_id, is_safe_quota_reset_error_code,
}
use sub2api5hlimit.Store.QuotaReset.Jobs.{
  complete_job, is_item_open, close_item, close_open_items, finish_row, lift, abort_active_tx,
  abort_by_status, abort_quota_reset_job_tx, abort_quota_reset_job,
}
use sub2api5hlimit.Store.QuotaReset.Invariant.Rows.{
  IsClosed, set_counters, of_id, active_jobs, active_jobs-recount, find-update,
}
use sub2api5hlimit.Store.QuotaReset.Invariant.Abort.{closed_items, closed_items-IsClosed}
use sub2api5hlimit.Store.QuotaReset.Invariant.Valid.{IsValid}

abbrev recounted : ℕ → ℕ → Db → Db
recounted k now db = record db {
  quota_reset_jobs =
      update_where (λ j. j.id == k) (set_counters (counters_of k db.quota_reset_job_items) now)
        db.quota_reset_jobs;
}

recompute_total :
    (k now : ℕ) (db : Db)
    → count_where (λ j. j.id == k) db.quota_reset_jobs ≢ 0
    → recompute_quota_reset_counters k now db
      ≡ ok (counters_of k db.quota_reset_job_items, recounted k now db)
unfolding recompute_quota_reset_counters
recompute_total k now db h = ground arith

finish_row_total :
    (status_ok : JobStatus → Bool) (affected : ℕ → Bool) (k now : ℕ) (db : Db)
    → affected (count_where (of_id k status_ok) db.quota_reset_jobs) ≡ true
    → finish_row status_ok affected k now db
      ≡ ok (
        tt,
        record db {
          quota_reset_jobs =
              update_where (of_id k status_ok) (complete_job now) db.quota_reset_jobs;
        },
      )
unfolding finish_row
finish_row_total status_ok affected k now db h = rw h

test_of_closed : (c : Counters) → IsClosed c → (c.pending == 0 && c.running == 0) ≡ true
test_of_closed c h = ground arith

recount_of_id :
    (k now : ℕ) (out : Counters) (status_ok : JobStatus → Bool) (jobs : List QuotaResetJob)
    → count_where (of_id k status_ok) (update_where (λ j. j.id == k) (set_counters out now) jobs)
      ≡ count_where (of_id k status_ok) jobs
recount_of_id k now out status_ok jobs =
    count_where-update_where_eq (of_id k status_ok) (λ j. j.id == k) (set_counters out now) jobs
      (λ j _. refl)

pub found_id :
    (k : ℕ) (jobs : List QuotaResetJob) (j : QuotaResetJob)
    → find_where (λ j. j.id == k) jobs ≡ some j
    → (j.id == k) ≡ true
found_id k [] j e = absurd (cc)
found_id k (i ∷ jobs) j e = ground (arith, found_id k jobs j)

-- The database with the open items of job k closed, and with the job aborted.
abbrev pub with_closed_items : ℕ → Text → ℕ → Db → Db
with_closed_items k code now db = record db {
  quota_reset_job_items = closed_items k code now db.quota_reset_job_items;
}

abbrev pub aborted : ℕ → ℕ → Text → String → ℕ → Db → Db
aborted k actor code action now db =
    let mid = recounted k now (with_closed_items k code now db) in
    record mid {
      quota_reset_jobs =
          update_where (of_id k is_job_active) (complete_job now) mid.quota_reset_jobs;
      audit_events =
          db.audit_events
          ++ audit_event actor action "quota_reset_job" k
              (counters_and_code (counters_of k mid.quota_reset_job_items) code) now
            ∷ [];
    }

-- With exactly one active row of id k, the abort of job k goes through.
abort_active_total :
    (k actor : ℕ) (code : Text) (action : String) (now : ℕ) (db : Db)
    → is_actor actor db ≡ true
    → count_where (of_id k is_job_active) db.quota_reset_jobs ≡ 1
    → abort_active_tx k actor code action now db ≡ ok (true, aborted k actor code action now db)
unfolding abort_active_tx close_open_items add_audit is_actor
abort_active_total k actor code action now db known one =
    rw (recompute_total k now closed_db some_row, ◌>>=◌)
      (rw
        (test_of_closed (counters_of k closed_db.quota_reset_job_items)
          (closed_items-IsClosed k code now db.quota_reset_job_items))
        (rw
          (
            finish_row_total is_job_active (λ n. n == 1) k now (recounted k now closed_db) one_row,
            ◌>>=◌,
          )
          (rw (◌>>◌, ◌>>=◌, known) refl)))
  where
    closed_db : Db
    closed_db = with_closed_items k code now db

    some_row : count_where (λ j. j.id == k) db.quota_reset_jobs ≢ 0
    some_row e = absurd (
        omega (
          arith,
          one,
          count_where_mono (of_id k is_job_active) (λ (j : QuotaResetJob). j.id == k)
              db.quota_reset_jobs (λ j h. ground arith),
        ))

    one_row :
        (count_where (of_id k is_job_active) (recounted k now closed_db).quota_reset_jobs == 1)
        ≡ true
    one_row =
        rw
          (
            recount_of_id k now (counters_of k closed_db.quota_reset_job_items) is_job_active
                db.quota_reset_jobs,
            one,
          )
          refl

-- An active row found by id is the only one.
pub found_one :
    (k : ℕ) (jobs : List QuotaResetJob) (j : QuotaResetJob)
    → find_where (λ j. j.id == k) jobs ≡ some j
    → is_job_active j.status ≡ true
    → active_jobs jobs ≤ 1
    → count_where (of_id k is_job_active) jobs ≡ 1
found_one k jobs j e act one = omega (
  arith,
  at_least k jobs j e act,
  count_where_mono (of_id k is_job_active) (λ (j : QuotaResetJob). is_job_active j.status) jobs
      (λ j h. ground arith),
)
  where
    at_least :
        (k : ℕ) (jobs : List QuotaResetJob) (j : QuotaResetJob)
        → find_where (λ j. j.id == k) jobs ≡ some j
        → is_job_active j.status ≡ true
        → 1 ≤ count_where (of_id k is_job_active) jobs
    at_least k [] j e act = absurd (cc)
    at_least k (i ∷ jobs) j e act = ground (arith, at_least k jobs j)

-- The body of an abort, by the status of the job that it finds.
pub abort_tx_active :
    (k actor : ℕ) (code : Text) (action : String) (now : ℕ) (db : Db) (j : QuotaResetJob)
    → IsValid db
    → is_actor actor db ≡ true
    → find_where (λ j. j.id == k) db.quota_reset_jobs ≡ some j
    → is_job_active j.status ≡ true
    → abort_quota_reset_job_tx k actor code action now db
      ≡ ok (true, aborted k actor code action now db)
unfolding abort_quota_reset_job_tx lift quota_reset_job_by_id
abort_tx_active k actor code action now db j v known e act = rw (e, ◌>>=◌) (by_status j.status act)
  where
    total :
        abort_active_tx k actor code action now db ≡ ok (true, aborted k actor code action now db)
    total =
        abort_active_total k actor code action now db known
          (found_one k db.quota_reset_jobs j e act v.one_active)

    by_status :
        (s : JobStatus)
        → is_job_active s ≡ true
        → abort_by_status s k actor code action now db
          ≡ ok (true, aborted k actor code action now db)
    by_status JobStatus.queued h = total
    by_status JobStatus.running h = total
    by_status JobStatus.completed h = absurd (cc)

-- Completing the active rows of job k takes them off the active jobs.
active_jobs-complete_active :
    (k now : ℕ) (jobs : List QuotaResetJob)
    → active_jobs (update_where (of_id k is_job_active) (complete_job now) jobs)
        + count_where (of_id k is_job_active) jobs
      ≡ active_jobs jobs
active_jobs-complete_active k now [] = refl
active_jobs-complete_active k now (j ∷ jobs) =
    ground (arith, active_jobs-complete_active k now jobs)

pub active_jobs-aborted :
    (k actor : ℕ) (code : Text) (action : String) (now : ℕ) (db : Db)
    → count_where (of_id k is_job_active) db.quota_reset_jobs ≡ 1
    → active_jobs db.quota_reset_jobs ≤ 1
    → active_jobs (aborted k actor code action now db).quota_reset_jobs ≡ 0
active_jobs-aborted k actor code action now db one le =
    let out = counters_of k (closed_items k code now db.quota_reset_job_items) in
    omega (
      arith,
      active_jobs-complete_active k now
          (update_where (λ j. j.id == k) (set_counters out now) db.quota_reset_jobs),
      recount_of_id k now out is_job_active db.quota_reset_jobs,
      active_jobs-recount k now out db.quota_reset_jobs,
    )

abbrev was_open : ItemStatus → Bool
was_open ItemStatus.pending = true
was_open ItemStatus.running = true
was_open _ = false

-- What an abort makes of an item: of an open one of its job only the outcome and the times change.
abbrev Ends : Bool → Text → ℕ → QuotaResetJobItem → QuotaResetJobItem → Type 0
Ends false code now i i' = i' ≡ i
Ends true code now i i' =
    (i'.status ≡ ItemStatus.unknown)
    × (i'.error_code ≡ code)
    × (i'.completed_at ≡ some now)
    × (i'.updated_at ≡ now)
    × (i'.id ≡ i.id)
    × (i'.job_id ≡ i.job_id)
    × (i'.user_id ≡ i.user_id)
    × (i'.upstream_key_id ≡ i.upstream_key_id)
    × (i'.started_at ≡ i.started_at)

abbrev pub AreEnded : ℕ → Text → ℕ → List QuotaResetJobItem → List QuotaResetJobItem → Type 0
AreEnded k code now [] [] = Unit
AreEnded k code now [] (_ ∷ _) = ⊥
AreEnded k code now (_ ∷ _) [] = ⊥
AreEnded k code now (i ∷ is) (i' ∷ is') =
    Ends (i.job_id == k && was_open i.status) code now i i' × AreEnded k code now is is'

closed_items-AreEnded :
    (k : ℕ) (code : Text) (now : ℕ) (items : List QuotaResetJobItem)
    → AreEnded k code now items (closed_items k code now items)
closed_items-AreEnded k code now [] = tt
closed_items-AreEnded k code now (i ∷ is) = (row i.status refl, closed_items-AreEnded k code now is)
  where
    by_job :
        (mine : Bool) (s : ItemStatus)
        → Ends
            (mine && was_open s)
            code
            now
            i
            (if mine && is_item_open s then close_item code now i else i)
    by_job false s = refl
    by_job true ItemStatus.pending = (refl, refl, refl, refl, refl, refl, refl, refl, refl)
    by_job true ItemStatus.running = (refl, refl, refl, refl, refl, refl, refl, refl, refl)
    by_job true ItemStatus.succeeded = refl
    by_job true ItemStatus.failed = refl
    by_job true ItemStatus.unknown = refl
    by_job true ItemStatus.skipped = refl

    row :
        (s : ItemStatus)
        → i.status ≡ s
        → Ends
            (i.job_id == k && was_open i.status)
            code
            now
            i
            (if i.job_id == k && is_item_open i.status then close_item code now i else i)
    row s e = by_job (i.job_id == k) i.status

-- Job k is found completed, at the time of the abort.
abbrev pub IsCompletedAt : ℕ → ℕ → List QuotaResetJob → Type 0
IsCompletedAt k now jobs =
    (j : QuotaResetJob) × (find_where (λ j. j.id == k) jobs ≡ some j)
    × (j.status ≡ JobStatus.completed)
    × (j.completed_at ≡ some now)

aborted-IsCompletedAt :
    (k actor : ℕ) (code : Text) (action : String) (now : ℕ) (db : Db) (j : QuotaResetJob)
    → find_where (λ j. j.id == k) db.quota_reset_jobs ≡ some j
    → is_job_active j.status ≡ true
    → IsCompletedAt k now (aborted k actor code action now db).quota_reset_jobs
aborted-IsCompletedAt k actor code action now db j found act =
    let out = counters_of k (closed_items k code now db.quota_reset_job_items) in
    let e =
      find-update k (of_id k is_job_active) (complete_job now) (λ j. refl)
        (update_where (λ j. j.id == k) (set_counters out now) db.quota_reset_jobs) _
        (find-update k (λ j. j.id == k) (set_counters out now) (λ j. refl) db.quota_reset_jobs j
          found) in
    let own = found_id k db.quota_reset_jobs j found in
    (complete_job now (set_counters out now j), ground (arith, e, own, act), refl, refl)

-- Aborting the queued or running job k of a valid database with a safe, non-empty code, by a user of
-- the database or by none, succeeds: job k is completed now and no job is active, each pending or
-- running item of job k is unknown with that code and ended now, every other item is unchanged, and
-- the audit gains one event.
pub abort_quota_reset_job_active :
    (k actor c : ℕ) (cs : Text) (now : ℕ) (db : Db) (j : QuotaResetJob)
    → IsValid db
    → is_actor actor db ≡ true
    → is_safe_quota_reset_error_code (c ∷ cs) ≡ true
    → find_where (λ j. j.id == k) db.quota_reset_jobs ≡ some j
    → is_job_active j.status ≡ true
    → let (db', r) = abort_quota_reset_job k actor (c ∷ cs) now db in
      (r ≡ ok true)
      × (active_jobs db'.quota_reset_jobs ≡ 0)
      × IsCompletedAt k now db'.quota_reset_jobs
      × AreEnded k (c ∷ cs) now db.quota_reset_job_items db'.quota_reset_job_items
      × (length db'.audit_events ≡ length db.audit_events + 1)
unfolding abort_quota_reset_job
abort_quota_reset_job_active k actor c cs now db j v known safe e act =
    let action : String = "quota_reset.batch.abort" in
    rw (safe, abort_tx_active k actor (c ∷ cs) action now db j v known e act)
      (
        refl,
        active_jobs-aborted k actor (c ∷ cs) action now db
            (found_one k db.quota_reset_jobs j e act v.one_active) v.one_active,
        aborted-IsCompletedAt k actor (c ∷ cs) action now db j e act,
        closed_items-AreEnded k (c ∷ cs) now db.quota_reset_job_items,
        length-append db.audit_events _,
      )
