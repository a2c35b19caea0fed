-- ===== src/Store/QuotaReset/Items.antt =====
-- The calls of internal/store/quota_reset.go that run a job: its items one by one, its end, and
-- what the HTTP layer reads of it.
use sub2api5hlimit.Base.{
  ℕ, Bool, true, false, not, ◌&&◌, ◌==◌, ltb, if◌then◌else◌, some, List, [], ◌∷◌, count_where,
  update_where, select_where,
}
use sub2api5hlimit.Store.Model.{
  Text, JobStatus, ItemStatus, QuotaResetJob, QuotaResetJobItem, counters_of_job, single_reset, Db,
}
use sub2api5hlimit.Store.Tx.{
  not_found, quota_reset_transition, unsafe_error_code, Result, ok, err, Tx, ◌>>=◌, ◌>>◌, return,
  unless, in_tx,
}
use sub2api5hlimit.Store.QuotaReset.Statements.{
  is_job_queued, is_job_running, is_job_active, is_pending, is_quota_reset_terminal_status,
  is_safe_quota_reset_error_code, add_audit, of_job, recompute_quota_reset_counters,
  quota_reset_job_by_id, quota_reset_transition_result, quota_reset_item_transition_error,
}
use sub2api5hlimit.Store.QuotaReset.Jobs.{is_item_open, update_job, lift, finish_row, read_back}

unfoldable pub mark_quota_reset_job_running : ℕ → ℕ → Db → Db × Result (Unit {0})
unfolding quota_reset_transition_result
mark_quota_reset_job_running now job_id db =
    let p = λ (j : QuotaResetJob). j.id == job_id && is_job_queued j.status in
    let start = λ (j : QuotaResetJob). record j {
      status = JobStatus.running;
      started_at = some now;
      updated_at = now;
    } in
    (
      update_job p start db,
      quota_reset_transition_result (count_where p db.quota_reset_jobs) job_id
          (update_job p start db),
    )

-- id=? AND job_id=? AND p AND EXISTS (the job, running)
abbrev pub item_row : ℕ → ℕ → (ItemStatus → Bool) → Db → QuotaResetJobItem → Bool
item_row job_id item_id p db i =
    i.id == item_id
    && (i.job_id == job_id
        && (p i.status
            && not (
                count_where (λ j. j.id == job_id && is_job_running j.status) db.quota_reset_jobs
                == 0)))

-- An UPDATE of one item, the check of the rows that it met, and the new counters of its job.
unfoldable pub update_item_tx :
    ℕ → ℕ → (ItemStatus → Bool) → (QuotaResetJobItem → QuotaResetJobItem) → ℕ → Tx (Unit {0})
unfolding quota_reset_item_transition_error
update_item_tx job_id item_id p f now db =
    let row = item_row job_id item_id p db in
    let changed = record db {
      quota_reset_job_items = update_where row f db.quota_reset_job_items;
    } in
    if count_where row db.quota_reset_job_items == 0
    then quota_reset_item_transition_error job_id item_id changed
    else elim (recompute_quota_reset_counters job_id now changed) [
      | ok (_, counted) ↦ ok (tt, counted)
      | err e ↦ err e
    ]

abbrev pub start_item : ℕ → QuotaResetJobItem → QuotaResetJobItem
start_item now i = record i {
  status = ItemStatus.running;
  started_at = some now;
  error_code = [];
  updated_at = now;
}

abbrev pub end_item : ItemStatus → Text → ℕ → QuotaResetJobItem → QuotaResetJobItem
end_item status code now i = record i {
  status = status;
  error_code = code;
  completed_at = some now;
  updated_at = now;
}

unfoldable pub mark_quota_reset_item_running : ℕ → ℕ → ℕ → Db → Db × Result (Unit {0})
unfolding update_item_tx
mark_quota_reset_item_running now job_id item_id db =
    in_tx (update_item_tx job_id item_id is_pending (start_item now) now) db

unfoldable pub complete_quota_reset_item :
    ℕ → ℕ → ℕ → ItemStatus → Text → Db → Db × Result (Unit {0})
unfolding update_item_tx
complete_quota_reset_item now job_id item_id status code db =
    if not (is_quota_reset_terminal_status status)
    then (db, err quota_reset_transition)
    else if not (is_safe_quota_reset_error_code code)
    then (db, err unsafe_error_code)
    else in_tx (update_item_tx job_id item_id is_item_open (end_item status code now) now) db

unfoldable pub finish_quota_reset_job_tx : ℕ → ℕ → ℕ → Tx ℕ
unfolding lift
finish_quota_reset_job_tx now job_id actor_id = do
  job ← lift (quota_reset_job_by_id job_id)
  unless (is_job_running job.status) quota_reset_transition
  counters ← recompute_quota_reset_counters job_id now
  unless (counters.pending == 0 && counters.running == 0) quota_reset_transition
  finish_row is_job_running (λ n. not (n == 0)) job_id now
  add_audit actor_id "quota_reset.batch.complete" "quota_reset_job" job_id
      (counters_of_job counters) now
  return job_id

unfoldable pub finish_quota_reset_job : ℕ → ℕ → ℕ → Db → Db × Result QuotaResetJob
unfolding finish_quota_reset_job_tx
finish_quota_reset_job now job_id actor_id db =
    read_back (in_tx (finish_quota_reset_job_tx now job_id actor_id) db)

unfoldable pub record_single_quota_reset_audit :
    ℕ → ℕ → ℕ → ℕ → ItemStatus → Text → Db → Db × Result (Unit {0})
record_single_quota_reset_audit now actor_id user_id key_id status code db =
    if not (is_quota_reset_terminal_status status)
    then (db, err quota_reset_transition)
    else if not (is_safe_quota_reset_error_code code)
    then (db, err unsafe_error_code)
    else in_tx
        (add_audit actor_id "quota_reset.single" "user" user_id (single_reset key_id status code)
          now)
        db

-- `ORDER BY` active jobs first, then created_at and id downwards; the first row.
unfoldable pub comes_before : QuotaResetJob → QuotaResetJob → Bool
comes_before j k =
    if is_job_active j.status
    then (if is_job_active k.status then newer else true)
    else (if is_job_active k.status then false else newer)
  where
    newer : Bool
    newer =
        if ltb k.created_at j.created_at
        then true
        else if j.created_at == k.created_at
        then ltb k.id j.id
        else false

unfoldable pub first_job : QuotaResetJob → List QuotaResetJob → QuotaResetJob
unfolding comes_before
first_job j [] = j
first_job j (k ∷ ks) = first_job (if comes_before k j then k else j) ks

unfoldable pub current_of : List QuotaResetJob → Result QuotaResetJob
unfolding first_job
current_of [] = err not_found
current_of (j ∷ js) = ok (first_job j js)

unfoldable pub current_quota_reset_job : Db → Result QuotaResetJob
unfolding current_of
current_quota_reset_job db = current_of db.quota_reset_jobs

abbrev pub with_items :
    ℕ → Db → Result QuotaResetJob → Result (QuotaResetJob × List QuotaResetJobItem)
with_items job_id db (ok j) = ok (j, select_where (of_job job_id) db.quota_reset_job_items)
with_items job_id db (err e) = err e

unfoldable pub quota_reset_job_with_items : ℕ → Db → Result (QuotaResetJob × List QuotaResetJobItem)
unfolding quota_reset_job_by_id
quota_reset_job_with_items job_id db = with_items job_id db (quota_reset_job_by_id job_id db)
