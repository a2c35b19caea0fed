-- ===== src/Store/QuotaReset/Invariant/Items.antt =====
-- The calls that change one item keep the invariant.
use sub2api5hlimit.Base.{
  ℕ, ◌+◌, ◌≡◌, ◌≢◌, ◌≤◌, refl, inl, inr, Bool, true, ◌&&◌, ◌==◌, List, [], ◌∷◌, arith, count_where,
  update_where, All-update_where, count_where_mono, count_where-update_where_eq, Bool-cases,
  All-imp,
}
use sub2api5hlimit.Store.Model.{Text, JobStatus, ItemStatus, QuotaResetJob, QuotaResetJobItem, Db}
use sub2api5hlimit.Store.Tx.{in_tx-keeps, ok}
use sub2api5hlimit.Store.QuotaReset.Statements.{
  is_quota_reset_terminal_status, is_pending, counters_of, recompute_quota_reset_counters,
  is_safe_quota_reset_error_code,
}
use sub2api5hlimit.Store.QuotaReset.Jobs.{is_item_open}
use sub2api5hlimit.Store.QuotaReset.Items.{
  item_row, update_item_tx, start_item, end_item, mark_quota_reset_item_running,
  complete_quota_reset_item,
}
use sub2api5hlimit.Store.QuotaReset.Counts.{IsLocal, counters_of-other}
use sub2api5hlimit.Store.QuotaReset.Invariant.Rows.{
  IsClosed, set_counters, Counted-recount, Settled-recount, completed-IsClosed, active_jobs-recount,
}
use sub2api5hlimit.Store.QuotaReset.Invariant.Valid.{AreValid, IsValid}

-- What a successful update of an item did.
pub update_item_lem :
    (k item : ℕ) (p : ItemStatus → Bool) (f : QuotaResetJobItem → QuotaResetJobItem) (now : ℕ)
    (db : Db) (a : Unit {0}) (db' : Db)
    → update_item_tx k item p f now db ≡ ok (a, db')
    → let items = update_where (item_row k item p db) f db.quota_reset_job_items in
      (count_where (item_row k item p db) db.quota_reset_job_items ≢ 0)
      × (db'.quota_reset_job_items ≡ items)
      × (db'.quota_reset_jobs
          ≡ update_where
              (λ j. j.id == k)
              (set_counters (counters_of k items) now)
              db.quota_reset_jobs)
      × (db'.last_job_id ≡ db.last_job_id)
unfolding update_item_tx recompute_quota_reset_counters
update_item_lem k item p f now db a db' h = ground arith

open_items :
    (k : ℕ) (items : List QuotaResetJobItem)
    → count_where (λ i. i.job_id == k && is_item_open i.status) items
      ≡ (counters_of k items).pending + (counters_of k items).running
unfolding counters_of
open_items k [] = refl
open_items k (i ∷ items) = ground (arith, open_items k items)

module _ (k item : ℕ) (p : ItemStatus → Bool) (f : QuotaResetJobItem → QuotaResetJobItem) (now : ℕ)
    (opens : (s : ItemStatus) → p s ≡ true → is_item_open s ≡ true)
    (keeps : (i : QuotaResetJobItem) → (f i).job_id ≡ i.job_id)
    (codes_ok : (i : QuotaResetJobItem)
      → is_safe_quota_reset_error_code (f i).error_code ≡ true) where
  row-IsLocal : (db : Db) → IsLocal k (item_row k item p db) f
  row-IsLocal db = record { touches = λ i h. ground arith; keeps = keeps }

  -- Where a row is met, job k has an open item.
  met_open :
      (db : Db)
      → count_where (item_row k item p db) db.quota_reset_job_items ≢ 0
      → ¬ IsClosed (counters_of k db.quota_reset_job_items)
  met_open db met closed = met (
      omega (
        arith,
        open_items k db.quota_reset_job_items,
        count_where_mono (item_row k item p db)
            (λ (i : QuotaResetJobItem). i.job_id == k && is_item_open i.status)
            db.quota_reset_job_items (λ i h. ground (arith, opens i.status)),
      ))

  updated_AreValid :
      (db : Db)
      → IsValid db
      → count_where (item_row k item p db) db.quota_reset_job_items ≢ 0
      → let items = update_where (item_row k item p db) f db.quota_reset_job_items in
        AreValid db.last_job_id items (
          update_where
            (λ j. j.id == k)
            (set_counters (counters_of k items) now)
            db.quota_reset_jobs)
  updated_AreValid db v met =
      let row = item_row k item p db in
      let items = update_where row f db.quota_reset_job_items in
      let jobs = db.quota_reset_jobs in
      record {
        jobs_below =
            All-update_where (λ j. j.id ≤ db.last_job_id) (λ j. j.id == k)
              (set_counters (counters_of k items) now) jobs (λ j h _. h) v.jobs_below;
        items_below =
            All-update_where (λ i. i.job_id ≤ db.last_job_id) row f db.quota_reset_job_items
              (λ i h _. rw (keeps i) h) v.items_below;
        counted =
            Counted-recount k now db.quota_reset_job_items items jobs
              (λ n ne. counters_of-other k row f (row-IsLocal db) n db.quota_reset_job_items ne)
              v.counted;
        settled =
            Settled-recount k now (counters_of k items) jobs
              (All-imp _
                (λ (j : QuotaResetJob).
                  j.id ≡ k → j.status ≡ JobStatus.completed → IsClosed (counters_of k items))
                jobs (λ j g e d. absurd (met_open db met (g e d)))
                (completed-IsClosed k db.quota_reset_job_items jobs v.counted v.settled))
              v.settled;
        unique = λ m. omega (
          arith,
          v.unique m,
          count_where-update_where_eq (λ (j : QuotaResetJob). j.id == m) (λ j. j.id == k)
              (set_counters (counters_of k items) now) jobs (λ j _. refl),
        );
        one_active =
            omega (arith, active_jobs-recount k now (counters_of k items) jobs, v.one_active);
        safe =
            All-update_where (λ i. is_safe_quota_reset_error_code i.error_code ≡ true) row f
              db.quota_reset_job_items (λ i _ _. codes_ok i) v.safe;
      }

  update_item-IsValid :
      (db : Db)
      → IsValid db
      → (a : Unit {0}) (db' : Db) → update_item_tx k item p f now db ≡ ok (a, db')
      → IsValid db'
  update_item-IsValid db v a db' h =
      let (met, e_items, e_jobs, e_last) = update_item_lem k item p f now db a db' h in
      rw (e_items, e_jobs, e_last) (updated_AreValid db v met)

-- Starting an item keeps the invariant.
pub mark_quota_reset_item_running-IsValid :
    (now k item : ℕ) (db : Db)
    → IsValid db
    → IsValid (mark_quota_reset_item_running now k item db).0
unfolding mark_quota_reset_item_running is_safe_quota_reset_error_code
mark_quota_reset_item_running-IsValid now k item db v =
    in_tx-keeps IsValid (update_item_tx k item is_pending (start_item now) now) db v (
      update_item-IsValid k item is_pending (start_item now) now (λ s h. ground arith) (λ i. refl)
        (λ i. refl) db v)

-- Ending an item keeps the invariant, on the refusals too.
pub complete_quota_reset_item-IsValid :
    (now k item : ℕ) (status : ItemStatus) (code : Text) (db : Db)
    → IsValid db
    → IsValid (complete_quota_reset_item now k item status code db).0
unfolding complete_quota_reset_item
complete_quota_reset_item-IsValid now k item status code db v =
    elim (Bool-cases (is_quota_reset_terminal_status status)) [
      | inr e ↦ rw e v
      | inl e ↦ elim (Bool-cases (is_safe_quota_reset_error_code code)) [
        | inr u ↦ rw (e, u) v
        | inl s ↦
            rw (e, s)
              (in_tx-keeps IsValid
                (update_item_tx k item is_item_open (end_item status code now) now) db v
                (update_item-IsValid k item is_item_open (end_item status code now) now (λ s h. h)
                  (λ i. refl) (λ i. s) db v))
      ]
    ]
