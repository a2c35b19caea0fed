-- ===== src/Store/QuotaReset/Invariant/Create.antt =====
-- The calls that make and start a job keep the invariant.
use sub2api5hlimit.Base.{
  ℕ, suc, ◌+◌, ◌≡◌, ◌≤◌, ◌<◌, refl, sym, ◌∙◌, inl, inr, Bool, true, false, ◌&&◌, ◌==◌, List, [],
  ◌∷◌, ◌++◌, some, arith, count_where, update_where, All, All-update_where, All-imp, All-append,
  Bool-cases, ==_iff, select_where, count_where-append, count_where-update_where_eq,
  count_where-zero,
}
use sub2api5hlimit.Store.Model.{
  Text, User, KeyBinding, JobStatus, ItemStatus, QuotaResetJob, QuotaResetJobItem, Db,
}
use sub2api5hlimit.Store.Tx.{in_tx-keeps, ok, in_tx}
use sub2api5hlimit.Store.QuotaReset.Statements.{
  is_quota_reset_terminal_status, of_job, is_job_active, is_job_queued, counters_of, is_actor,
  add_audit, is_safe_quota_reset_error_code,
}
use sub2api5hlimit.Store.QuotaReset.Jobs.{
  insert_job, insert_items, items_for, set_counts, create_quota_reset_job_tx,
  create_quota_reset_job, is_target, queued_job, set_total,
}
use sub2api5hlimit.Store.QuotaReset.Items.{
  mark_quota_reset_job_running, record_single_quota_reset_audit,
}
use sub2api5hlimit.Store.QuotaReset.Counts.{counters_of-append_other, counters_of-new}
use sub2api5hlimit.Store.QuotaReset.Invariant.Rows.{Counted, IsClosed, active_jobs}
use sub2api5hlimit.Store.QuotaReset.Invariant.Abort.{read_back-same}
use sub2api5hlimit.Store.QuotaReset.Invariant.Valid.{IsValid}

-- The items that a create inserts are pending items of the new job, without an error code.
items_for-pending :
    (bs : List KeyBinding) (k now last : ℕ) (us : List User)
    → All (λ i. (i.job_id ≡ k) × (i.status ≡ ItemStatus.pending)) (items_for bs k now last us)
unfolding items_for
items_for-pending bs k now last [] = tt
items_for-pending bs k now last (u ∷ us) = ((refl, refl), items_for-pending bs k now (suc last) us)

items_for-safe :
    (bs : List KeyBinding) (k now last : ℕ) (us : List User)
    → All (λ i. is_safe_quota_reset_error_code i.error_code ≡ true) (items_for bs k now last us)
unfolding items_for is_safe_quota_reset_error_code
items_for-safe bs k now last [] = tt
items_for-safe bs k now last (u ∷ us) = (refl, items_for-safe bs k now (suc last) us)

abbrev with_job : ℕ → ℕ → List QuotaResetJob → QuotaResetJob → List QuotaResetJob
with_job k n jobs new = update_where (λ j. j.id == k) (set_total n) (jobs ++ new ∷ [])

-- The old jobs are left alone, and the new one gets its totals.
with_job-All {ℓ} :
    (P : QuotaResetJob → Type ℓ) (k n : ℕ) (jobs : List QuotaResetJob) (new : QuotaResetJob)
    → All (λ j. j.id < k) jobs
    → All P jobs
    → new.id ≡ k
    → P (set_total n new)
    → All P (with_job k n jobs new)
with_job-All P k n [] new below h e p = (rw ((==_iff new.id k).1 e) p, tt)
with_job-All P k n (j ∷ jobs) new below h e p =
    let skip : (j.id == k) ≡ false = ground (arith, below.0) in
    (rw skip h.0, with_job-All P k n jobs new below.1 h.1 e p)

-- What a successful create did.
pub create_lem :
    (now actor : ℕ) (db : Db) (a : ℕ) (db' : Db)
    → create_quota_reset_job_tx now actor db ≡ ok (a, db')
    → let k = suc db.last_job_id in
      let more =
        items_for db.key_bindings k now db.last_item_id (select_where is_target db.users) in
      let items = db.quota_reset_job_items ++ more in
      (active_jobs db.quota_reset_jobs ≡ 0)
      × (a ≡ k)
      × (db'.last_job_id ≡ k)
      × (db'.quota_reset_job_items ≡ items)
      × (db'.quota_reset_jobs
          ≡ with_job k (count_where (of_job k) items) db.quota_reset_jobs (queued_job k now actor))
unfolding create_quota_reset_job_tx insert_job insert_items set_counts add_audit
create_lem now actor db a db' h = ground arith

active_jobs-with_job :
    (k n : ℕ) (jobs : List QuotaResetJob) (new : QuotaResetJob)
    → active_jobs (with_job k n jobs new) ≡ active_jobs (jobs ++ new ∷ [])
active_jobs-with_job k n jobs new =
    count_where-update_where_eq (λ j. is_job_active j.status) (λ j. j.id == k) (set_total n)
      (jobs ++ new ∷ []) (λ j _. refl)

create_tx-IsValid :
    (now actor : ℕ) (db : Db) (a : ℕ) (db' : Db)
    → IsValid db
    → create_quota_reset_job_tx now actor db ≡ ok (a, db')
    → IsValid db'
create_tx-IsValid now actor db a db' v h =
    let (idle, _, e_last, e_items, e_jobs) = create_lem now actor db a db' h in
    rw (e_last, e_items, e_jobs)
      (record {
        jobs_below =
            with_job-All (λ j. j.id ≤ k) k n jobs new old
              (All-imp (λ (j : QuotaResetJob). j.id ≤ db.last_job_id)
                (λ (j : QuotaResetJob). j.id ≤ k) jobs (λ j le. omega arith) v.jobs_below)
              refl (omega arith);
        items_below =
            All-append (λ (i : QuotaResetJobItem). i.job_id ≤ k) db.quota_reset_job_items more
              (All-imp (λ (i : QuotaResetJobItem). i.job_id ≤ db.last_job_id)
                (λ (i : QuotaResetJobItem). i.job_id ≤ k) db.quota_reset_job_items
                (λ i le. omega arith) v.items_below)
              (All-imp (λ (i : QuotaResetJobItem). (i.job_id ≡ k) × (i.status ≡ ItemStatus.pending))
                (λ (i : QuotaResetJobItem). i.job_id ≤ k) more (λ i e. omega (arith, e.0)) fresh);
        counted =
            with_job-All (λ j. j.counters ≡ counters_of j.id items) k n jobs new old
              (older_counted jobs old v.counted) refl
              (sym (
                counters_of-new k db.quota_reset_job_items more
                  (All-imp (λ (i : QuotaResetJobItem). i.job_id ≤ db.last_job_id)
                    (λ (i : QuotaResetJobItem). i.job_id < k) db.quota_reset_job_items
                    (λ i le. omega arith) v.items_below)
                  fresh));
        settled =
            with_job-All (λ j. j.status ≡ JobStatus.completed → IsClosed j.counters) k n jobs new
              old v.settled refl (λ e. absurd (cc));
        unique = λ m.
            rw
              (
                count_where-update_where_eq (λ (j : QuotaResetJob). j.id == m) (λ j. j.id == k)
                    (set_total n) (jobs ++ new ∷ []) (λ j _. refl),
                count_where-append (λ (j : QuotaResetJob). j.id == m) jobs (new ∷ []),
              )
              (at_most_one m);
        one_active = omega (
          arith,
          active_jobs-with_job k n jobs new,
          count_where-append (λ (j : QuotaResetJob). is_job_active j.status) jobs (new ∷ []),
          idle,
        );
        safe =
            All-append
              (λ (i : QuotaResetJobItem). is_safe_quota_reset_error_code i.error_code ≡ true)
              db.quota_reset_job_items more v.safe
              (items_for-safe db.key_bindings k now db.last_item_id
                (select_where is_target db.users));
      })
  where
    k : ℕ
    k = suc db.last_job_id

    jobs : List QuotaResetJob
    jobs = db.quota_reset_jobs

    new : QuotaResetJob
    new = queued_job k now actor

    more : List QuotaResetJobItem
    more = items_for db.key_bindings k now db.last_item_id (select_where is_target db.users)

    items : List QuotaResetJobItem
    items = db.quota_reset_job_items ++ more

    n : ℕ
    n = count_where (of_job k) items

    fresh : All (λ i. (i.job_id ≡ k) × (i.status ≡ ItemStatus.pending)) more
    fresh =
        items_for-pending db.key_bindings k now db.last_item_id (select_where is_target db.users)

    old : All (λ j. j.id < k) jobs
    old =
        All-imp (λ (j : QuotaResetJob). j.id ≤ db.last_job_id) (λ (j : QuotaResetJob). j.id < k)
          jobs (λ j le. omega arith) v.jobs_below

    at_most_one :
        (m : ℕ) → count_where (λ j. j.id == m) jobs + count_where (λ j. j.id == m) (new ∷ []) ≤ 1
    at_most_one m = elim (Bool-cases (k == m)) [
      | inl e ↦ rw e (
          omega (
            arith,
            count_where-zero (λ (j : QuotaResetJob). j.id < k) (λ (j : QuotaResetJob). j.id == m)
                jobs (λ j h. ground arith) old,
          ))
      | inr e ↦ rw e (omega (arith, v.unique m))
    ]

    older_counted :
        (js : List QuotaResetJob)
        → All (λ j. j.id < k) js
        → Counted db.quota_reset_job_items js
        → Counted items js
    older_counted [] below c = tt
    older_counted (j ∷ js) below c = (
      c.0
          ∙ sym (
              counters_of-append_other k j.id db.quota_reset_job_items more (omega (arith, below.0))
                (All-imp
                  (λ (i : QuotaResetJobItem). (i.job_id ≡ k) × (i.status ≡ ItemStatus.pending))
                  (λ (i : QuotaResetJobItem). i.job_id ≡ k) more (λ i e. e.0) fresh)),
      older_counted js below.1 c.1,
    )

-- Creating a job keeps the invariant, also where another job is active.
pub create_quota_reset_job-IsValid :
    (now actor : ℕ) (db : Db) → IsValid db → IsValid (create_quota_reset_job now actor db).0
unfolding create_quota_reset_job
create_quota_reset_job-IsValid now actor db v =
    let m = create_quota_reset_job_tx now actor in
    rw (read_back-same (in_tx m db))
      (in_tx-keeps IsValid m db v (λ a db' h. create_tx-IsValid now actor db a db' v h))

abbrev start_job : ℕ → QuotaResetJob → QuotaResetJob
start_job now j = record j { status = JobStatus.running; started_at = some now; updated_at = now }

abbrev is_queued_row : ℕ → QuotaResetJob → Bool
is_queued_row k j = j.id == k && is_job_queued j.status

-- Starting a job keeps the invariant.
pub mark_quota_reset_job_running-IsValid :
    (now k : ℕ) (db : Db) → IsValid db → IsValid (mark_quota_reset_job_running now k db).0
unfolding mark_quota_reset_job_running
mark_quota_reset_job_running-IsValid now k db v =
    let jobs = db.quota_reset_jobs in
    record {
      items_below = v.items_below;
      safe = v.safe;
      jobs_below =
          All-update_where (λ j. j.id ≤ db.last_job_id) (is_queued_row k) (start_job now) jobs
            (λ j h _. h) v.jobs_below;
      counted =
          All-update_where (λ j. j.counters ≡ counters_of j.id db.quota_reset_job_items)
            (is_queued_row k) (start_job now) jobs (λ j h _. h) v.counted;
      settled =
          All-update_where (λ j. j.status ≡ JobStatus.completed → IsClosed j.counters)
            (is_queued_row k) (start_job now) jobs (λ j h _ e. absurd (cc)) v.settled;
      unique = λ m. omega (
        arith,
        v.unique m,
        count_where-update_where_eq (λ (j : QuotaResetJob). j.id == m) (is_queued_row k)
            (start_job now) jobs (λ j _. refl),
      );
      one_active = omega (
        arith,
        v.one_active,
        count_where-update_where_eq (λ (j : QuotaResetJob). is_job_active j.status)
            (is_queued_row k) (start_job now) jobs (λ j e. ground arith),
      );
    }

-- The audit of a single reset leaves the jobs alone.
pub record_single-IsValid :
    (now actor user key : ℕ) (status : ItemStatus) (code : Text) (db : Db)
    → IsValid db
    → IsValid (record_single_quota_reset_audit now actor user key status code db).0
unfolding record_single_quota_reset_audit add_audit
record_single-IsValid now actor user key status code db v =
    elim (Bool-cases (is_quota_reset_terminal_status status)) [
      | inr e ↦ rw e v
      | inl e ↦ elim (Bool-cases (is_safe_quota_reset_error_code code)) [
        | inr u ↦ rw (e, u) v
        | inl u ↦ elim (Bool-cases (is_actor actor db)) [
          | inl a ↦ rw (e, u, a) v
          | inr a ↦ rw (e, u, a) v
        ]
      ]
    ]
