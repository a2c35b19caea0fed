-- ===== src/Store/QuotaReset/Statements.antt =====
-- The parts that the calls of internal/store/quota_reset.go share: tests on statuses and codes, and
-- the SQL statements. `now` is the clock's reading for the whole call.
use sub2api5hlimit.Base.{
  ℕ, Bool, true, false, not, ◌&&◌, ◌||◌, ◌==◌, ltb, leb, if◌then◌else◌, Option, none, some, List,
  [], ◌∷◌, ◌++◌, String, length, count_where, update_where, find_where,
}
use sub2api5hlimit.Store.Model.{
  Text, JobStatus, ItemStatus, Counters, QuotaResetJob, QuotaResetJobItem, Metadata, AuditEvent, Db,
}
use sub2api5hlimit.Store.Tx.{constraint, not_found, quota_reset_transition, Result, ok, err, Tx}

abbrev pub is_job_queued : JobStatus → Bool
is_job_queued JobStatus.queued = true
is_job_queued _ = false

abbrev pub is_job_running : JobStatus → Bool
is_job_running JobStatus.running = true
is_job_running _ = false

abbrev pub is_job_completed : JobStatus → Bool
is_job_completed JobStatus.completed = true
is_job_completed _ = false

-- status IN ('queued', 'running')
abbrev pub is_job_active : JobStatus → Bool
is_job_active JobStatus.completed = false
is_job_active _ = true

abbrev pub is_pending : ItemStatus → Bool
is_pending ItemStatus.pending = true
is_pending _ = false

abbrev pub is_running : ItemStatus → Bool
is_running ItemStatus.running = true
is_running _ = false

abbrev pub is_succeeded : ItemStatus → Bool
is_succeeded ItemStatus.succeeded = true
is_succeeded _ = false

abbrev pub is_failed : ItemStatus → Bool
is_failed ItemStatus.failed = true
is_failed _ = false

abbrev pub is_unknown : ItemStatus → Bool
is_unknown ItemStatus.unknown = true
is_unknown _ = false

abbrev pub is_skipped : ItemStatus → Bool
is_skipped ItemStatus.skipped = true
is_skipped _ = false

abbrev pub is_quota_reset_terminal_status : ItemStatus → Bool
is_quota_reset_terminal_status ItemStatus.pending = false
is_quota_reset_terminal_status ItemStatus.running = false
is_quota_reset_terminal_status _ = true

abbrev is_upper : ℕ → Bool
is_upper c = leb b'A' c && leb c b'Z'

abbrev is_code_char : ℕ → Bool
is_code_char c = is_upper c || leb b'0' c && leb c b'9' || c == b'_'

abbrev all_code_chars : Text → Bool
all_code_chars [] = true
all_code_chars (c ∷ cs) = is_code_char c && all_code_chars cs

unfoldable pub is_safe_quota_reset_error_code : Text → Bool
is_safe_quota_reset_error_code [] = true
is_safe_quota_reset_error_code (c ∷ cs) =
    if ltb 64 (length (c ∷ cs)) || not (is_upper c) then false else all_code_chars cs

-- `if actorID > 0 { actor = actorID }`
abbrev pub actor_of : ℕ → Option ℕ
actor_of actor_id = if ltb 0 actor_id then some actor_id else none

-- The row of an audit event.
abbrev pub audit_event : ℕ → String → String → ℕ → Metadata → ℕ → AuditEvent
audit_event actor_id action target_type target_id metadata now = record {
  actor_user_id = actor_of actor_id;
  action = action;
  target_type = target_type;
  target_id = target_id;
  metadata = metadata;
  created_at = now;
}

-- The foreign key of an actor into `users`; no actor is NULL.
unfoldable pub is_actor : ℕ → Db → Bool
is_actor actor_id db = actor_id == 0 || not (count_where (λ u. u.id == actor_id) db.users == 0)

unfoldable pub add_audit : ℕ → String → String → ℕ → Metadata → ℕ → Tx (Unit {0})
add_audit actor_id action target_type target_id metadata now db =
    if is_actor actor_id db
    then ok (
      tt,
      record db {
        audit_events =
            db.audit_events ++ audit_event actor_id action target_type target_id metadata now ∷ [];
      },
    )
    else err constraint

abbrev pub of_job : ℕ → QuotaResetJobItem → Bool
of_job job_id i = i.job_id == job_id

-- `SELECT COUNT(*), SUM(status='pending'), … WHERE job_id=?`
abbrev pub count_status : ℕ → (ItemStatus → Bool) → List QuotaResetJobItem → ℕ
count_status job_id p = count_where (λ i. i.job_id == job_id && p i.status)

unfoldable pub counters_of : ℕ → List QuotaResetJobItem → Counters
counters_of job_id items = record {
  total = count_where (of_job job_id) items;
  pending = count_status job_id is_pending items;
  running = count_status job_id is_running items;
  succeeded = count_status job_id is_succeeded items;
  failed = count_status job_id is_failed items;
  unknown = count_status job_id is_unknown items;
  skipped = count_status job_id is_skipped items;
}

unfoldable pub recompute_quota_reset_counters : ℕ → ℕ → Tx Counters
recompute_quota_reset_counters job_id now db =
    let out = counters_of job_id db.quota_reset_job_items in
    if count_where (λ j. j.id == job_id) db.quota_reset_jobs == 0
    then err not_found
    else ok (
      out,
      record db {
        quota_reset_jobs =
            update_where (λ j. j.id == job_id) (λ j. record j { counters = out; updated_at = now })
              db.quota_reset_jobs;
      },
    )

unfoldable pub quota_reset_job_by_id : ℕ → Db → Result QuotaResetJob
quota_reset_job_by_id job_id db = elim (find_where (λ j. j.id == job_id) db.quota_reset_jobs) [
  | none ↦ err not_found
  | some j ↦ ok j
]

-- What an UPDATE that met no row says of the job.
unfoldable pub quota_reset_transition_result : ℕ → ℕ → Db → Result (Unit {0})
quota_reset_transition_result affected job_id db =
    if not (affected == 0)
    then ok tt
    else if count_where (λ j. j.id == job_id) db.quota_reset_jobs == 0
    then err not_found
    else err quota_reset_transition

-- The same of an item, inside its transaction.
unfoldable pub quota_reset_item_transition_error : {A : Type 0} → ℕ → ℕ → Tx A
quota_reset_item_transition_error job_id item_id db =
    if count_where (λ i. i.id == item_id && i.job_id == job_id) db.quota_reset_job_items == 0
    then err not_found
    else err quota_reset_transition
