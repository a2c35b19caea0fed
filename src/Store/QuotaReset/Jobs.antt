-- ===== src/Store/QuotaReset/Jobs.antt =====
-- The calls of internal/store/quota_reset.go.
use sub2api5hlimit.Base.{
  ℕ, suc, ◌+◌, Bool, true, false, not, ◌&&◌, ◌||◌, ◌==◌, if◌then◌else◌, Option, none, some, List,
  [], ◌∷◌, ◌++◌, String, count_where, update_where, select_where, find_where, codes,
}
use sub2api5hlimit.Store.Model.{
  Text, User, KeyBinding, JobStatus, ItemStatus, Counters, QuotaResetJob, QuotaResetJobItem,
  total_count, counters_and_code, Db, is_user, is_deleted,
}
use sub2api5hlimit.Store.Tx.{
  quota_reset_job_active, quota_reset_transition, unsafe_error_code, constraint, Result, ok, err,
  Tx, ◌>>=◌, ◌>>◌, return, unless, read, write, in_tx,
}
use sub2api5hlimit.Store.QuotaReset.Statements.{
  is_job_active, is_pending, is_running, is_safe_quota_reset_error_code, actor_of, is_actor,
  add_audit, of_job, recompute_quota_reset_counters, quota_reset_job_by_id,
}

abbrev pub no_counters : Counters
no_counters = record {
  total = 0;
  pending = 0;
  running = 0;
  succeeded = 0;
  failed = 0;
  unknown = 0;
  skipped = 0;
}

-- The row of the INSERT of a job.
abbrev pub queued_job : ℕ → ℕ → ℕ → QuotaResetJob
queued_job job_id now actor_id = record {
  id = job_id;
  status = JobStatus.queued;
  counters = no_counters;
  requested_by_user_id = actor_of actor_id;
  created_at = now;
  started_at = none;
  completed_at = none;
  updated_at = now;
}

-- The partial unique index on active jobs refuses a second one.
unfoldable pub insert_job : ℕ → ℕ → Tx ℕ
insert_job now actor_id db =
    let job_id = suc db.last_job_id in
    if not (count_where (λ j. is_job_active j.status) db.quota_reset_jobs == 0)
    then err quota_reset_job_active
    else if is_actor actor_id db
    then ok (
      job_id,
      record db {
        last_job_id = job_id;
        quota_reset_jobs = db.quota_reset_jobs ++ queued_job job_id now actor_id ∷ [];
      },
    )
    else err constraint

-- `LEFT JOIN key_bindings b ON b.user_id = u.id`
abbrev pub binding_of : List KeyBinding → ℕ → Option KeyBinding
binding_of bindings user_id = find_where (λ b. b.user_id == user_id) bindings

abbrev pub key_of : Option KeyBinding → Option ℕ
key_of none = none
key_of (some b) = some b.upstream_key_id

abbrev pub mask_of : Option KeyBinding → Text
mask_of none = []
mask_of (some b) = b.key_mask

-- u.role = 'user' AND u.status IN ('active', 'disabled')
abbrev pub is_target : User → Bool
is_target u = is_user u.role && not (is_deleted u.status)

-- One pending item for each user, numbered on from the last item.
unfoldable pub items_for : List KeyBinding → ℕ → ℕ → ℕ → List User → List QuotaResetJobItem
items_for bindings job_id now last_id [] = []
items_for bindings job_id now last_id (u ∷ us) =
    record {
      id = suc last_id;
      job_id = job_id;
      user_id = u.id;
      username = u.username;
      display_name = u.display_name;
      user_status = u.status;
      upstream_key_id = key_of (binding_of bindings u.id);
      key_mask = mask_of (binding_of bindings u.id);
      status = ItemStatus.pending;
      error_code = [];
      created_at = now;
      updated_at = now;
      started_at = none;
      completed_at = none;
    }
    ∷ items_for bindings job_id now (suc last_id) us

-- The INSERT … SELECT of the items.
unfoldable pub insert_items : ℕ → ℕ → Tx (Unit {0})
insert_items job_id now db =
    let targets = select_where is_target db.users in
    ok (
      tt,
      record db {
        quota_reset_job_items =
            db.quota_reset_job_items
            ++ items_for db.key_bindings job_id now db.last_item_id targets;
        last_item_id = db.last_item_id + count_where is_target db.users;
      },
    )

-- UPDATE quota_reset_jobs SET … WHERE id=?
abbrev pub update_job : (QuotaResetJob → Bool) → (QuotaResetJob → QuotaResetJob) → Db → Db
update_job p f db = record db { quota_reset_jobs = update_where p f db.quota_reset_jobs }

-- SET total_count=?, pending_count=?
abbrev pub set_total : ℕ → QuotaResetJob → QuotaResetJob
set_total n j = let c = j.counters in record j { counters = record c { total = n; pending = n } }

unfoldable pub set_counts : ℕ → ℕ → Tx (Unit {0})
set_counts job_id total = write (update_job (λ j. j.id == job_id) (set_total total))

unfoldable pub create_quota_reset_job_tx : ℕ → ℕ → Tx ℕ
unfolding insert_job insert_items items_for set_counts add_audit
create_quota_reset_job_tx now actor_id = do
  job_id ← insert_job now actor_id
  insert_items job_id now
  total ← read (λ db. count_where (of_job job_id) db.quota_reset_job_items)
  set_counts job_id total
  add_audit actor_id "quota_reset.batch.create" "quota_reset_job" job_id (total_count total) now
  return job_id

-- After the commit the job is read back.
abbrev pub read_back : Db × Result ℕ → Db × Result QuotaResetJob
read_back (db, ok job_id) = (db, quota_reset_job_by_id job_id db)
read_back (db, err e) = (db, err e)

unfoldable pub create_quota_reset_job : ℕ → ℕ → Db → Db × Result QuotaResetJob
unfolding create_quota_reset_job_tx
create_quota_reset_job now actor_id db =
    read_back (in_tx (create_quota_reset_job_tx now actor_id) db)

abbrev pub is_item_open : ItemStatus → Bool
is_item_open s = is_pending s || is_running s

-- SET status='unknown' for what is still open in the job.
abbrev pub close_item : Text → ℕ → QuotaResetJobItem → QuotaResetJobItem
close_item code now i = record i {
  status = ItemStatus.unknown;
  error_code = code;
  completed_at = some now;
  updated_at = now;
}

abbrev pub complete_job : ℕ → QuotaResetJob → QuotaResetJob
complete_job now j = record j {
  status = JobStatus.completed;
  completed_at = some now;
  updated_at = now;
}

unfoldable pub close_open_items : ℕ → Text → ℕ → Tx (Unit {0})
close_open_items job_id code now = write λ db. record db {
  quota_reset_job_items =
      update_where (λ i. i.job_id == job_id && is_item_open i.status) (close_item code now)
        db.quota_reset_job_items;
}

-- The final UPDATE of a job; it must meet exactly the rows that `affected` accepts.
unfoldable pub finish_row : (JobStatus → Bool) → (ℕ → Bool) → ℕ → ℕ → Tx (Unit {0})
finish_row status_ok affected job_id now db =
    let p = λ (j : QuotaResetJob). j.id == job_id && status_ok j.status in
    if affected (count_where p db.quota_reset_jobs)
    then ok (tt, update_job p (complete_job now) db)
    else err quota_reset_transition

unfoldable pub abort_active_tx : ℕ → ℕ → Text → String → ℕ → Tx Bool
unfolding close_open_items recompute_quota_reset_counters finish_row add_audit
abort_active_tx job_id actor_id code action now = do
  close_open_items job_id code now
  counters ← recompute_quota_reset_counters job_id now
  unless (counters.pending == 0 && counters.running == 0) quota_reset_transition
  finish_row is_job_active (λ n. n == 1) job_id now
  add_audit actor_id action "quota_reset_job" job_id (counters_and_code counters code) now
  return true

unfoldable pub abort_by_status : JobStatus → ℕ → ℕ → Text → String → ℕ → Tx Bool
unfolding abort_active_tx
abort_by_status JobStatus.completed job_id actor_id code action now = return false
abort_by_status _ job_id actor_id code action now = abort_active_tx job_id actor_id code action now

unfoldable pub lift : {A : Type 0} → (Db → Result A) → Tx A
lift f db = elim (f db) [ ok a ↦ ok (a, db) | err e ↦ err e ]

unfoldable pub abort_quota_reset_job_tx : ℕ → ℕ → Text → String → ℕ → Tx Bool
unfolding abort_by_status lift quota_reset_job_by_id
abort_quota_reset_job_tx job_id actor_id code action now = do
  job ← lift (quota_reset_job_by_id job_id)
  abort_by_status job.status job_id actor_id code action now

unfoldable pub abort_quota_reset_job : ℕ → ℕ → Text → ℕ → Db → Db × Result Bool
unfolding abort_quota_reset_job_tx
abort_quota_reset_job job_id actor_id [] now db = (db, err unsafe_error_code)
abort_quota_reset_job job_id actor_id (c ∷ cs) now db =
    if is_safe_quota_reset_error_code (c ∷ cs)
    then in_tx (abort_quota_reset_job_tx job_id actor_id (c ∷ cs) "quota_reset.batch.abort" now) db
    else (db, err unsafe_error_code)

unfoldable pub abort_each : List ℕ → ℕ → Text → ℕ → Tx (Unit {0})
abort_each [] actor_id code now = return tt
abort_each (job_id ∷ rest) actor_id code now = do
  _ ← abort_quota_reset_job_tx job_id actor_id code "quota_reset.batch.recovered" now
  abort_each rest actor_id code now

unfoldable pub ids_of : List QuotaResetJob → List ℕ
ids_of [] = []
ids_of (j ∷ js) = j.id ∷ ids_of js

unfoldable pub recover_interrupted_quota_reset_jobs : ℕ → Db → Db × Result (Unit {0})
unfolding abort_each ids_of
recover_interrupted_quota_reset_jobs now db =
    in_tx
      (do
        jobs ← read (λ db. ids_of (select_where (λ j. is_job_active j.status) db.quota_reset_jobs))
        abort_each jobs 0 (codes "PROCESS_RESTARTED") now)
      db
