-- ===== src/Store/QuotaReset/Calls.antt =====
-- The calls on reset jobs as one type, so that a history of the store is a list of calls.
use sub2api5hlimit.Base.{ℕ, List, [], ◌∷◌}
use sub2api5hlimit.Store.Model.{Text, ItemStatus, Db}
use sub2api5hlimit.Store.QuotaReset.Jobs.{
  create_quota_reset_job, abort_quota_reset_job, recover_interrupted_quota_reset_jobs,
}
use sub2api5hlimit.Store.QuotaReset.Items.{
  mark_quota_reset_job_running, mark_quota_reset_item_running, complete_quota_reset_item,
  finish_quota_reset_job, record_single_quota_reset_audit,
}

-- The first number of each call is the clock's reading.
pub data Call : Type 0 where
  create : ℕ → ℕ → Call
  start_job : ℕ → ℕ → Call
  start_item : ℕ → ℕ → ℕ → Call
  complete : ℕ → ℕ → ℕ → ItemStatus → Text → Call
  finish : ℕ → ℕ → ℕ → Call
  abort : ℕ → ℕ → ℕ → Text → Call
  recover : ℕ → Call
  record_single : ℕ → ℕ → ℕ → ℕ → ItemStatus → Text → Call

-- The database after a call, whether it succeeds or fails.
unfoldable pub step : Db → Call → Db
step db (create now actor_id) = (create_quota_reset_job now actor_id db).0
step db (start_job now job_id) = (mark_quota_reset_job_running now job_id db).0
step db (start_item now job_id item_id) = (mark_quota_reset_item_running now job_id item_id db).0
step db (complete now job_id item_id status code) =
    (complete_quota_reset_item now job_id item_id status code db).0
step db (finish now job_id actor_id) = (finish_quota_reset_job now job_id actor_id db).0
step db (abort now job_id actor_id code) = (abort_quota_reset_job job_id actor_id code now db).0
step db (recover now) = (recover_interrupted_quota_reset_jobs now db).0
step db (record_single now actor_id user_id key_id status code) =
    (record_single_quota_reset_audit now actor_id user_id key_id status code db).0

unfoldable pub run : Db → List Call → Db
run db [] = db
run db (c ∷ cs) = run (step db c) cs
