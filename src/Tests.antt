-- ===== src/Tests.antt =====
-- Concrete databases, and the properties of the reset jobs at them.
mod Members
mod Runs
mod Boards
mod Versions
mod Sites
mod Updates
mod Pools
mod Logins
mod Syncs
use sub2api5hlimit.Base.{
  ℕ, ◌≡◌, ◌≤◌, ◌≢◌, refl, Bool, true, false, Option, none, some, List, [], ◌∷◌, codes, arith,
  count_where, length, ==_self, ◌==◌, if◌then◌else◌, ltb, find_where, select_where, map, All, ◌++◌,
  ◌<◌, ◌+◌, not, ◌↔◌, trim_space, trim_left,
}
use sub2api5hlimit.Store.Model.{
  Text, Role, UserStatus, JobStatus, ItemStatus, BindingState, Float64, User, KeyBinding,
  KeySnapshot, SessionRow, Counters, QuotaResetJob, QuotaResetJobItem, Db,
}
use sub2api5hlimit.Store.Tx.{err, not_found, ok, quota_reset_job_active}
use sub2api5hlimit.Store.QuotaReset.Statements.{
  is_actor, counters_of, is_safe_quota_reset_error_code,
}
use sub2api5hlimit.Store.QuotaReset.Jobs.{
  create_quota_reset_job, abort_quota_reset_job, recover_interrupted_quota_reset_jobs, queued_job,
  set_total, items_for, is_target,
}
use sub2api5hlimit.Store.QuotaReset.Calls
use sub2api5hlimit.Store.QuotaReset.Calls.{run}
use sub2api5hlimit.Store.QuotaReset.Invariant.Rows.{active_jobs, IsClosed}
use sub2api5hlimit.Store.QuotaReset.Invariant.Valid.{IsValid}
use sub2api5hlimit.Store.QuotaReset.Invariant.Calls.{run-IsValid}
use sub2api5hlimit.Store.QuotaReset.Invariant.Abort.{closed_items}
use sub2api5hlimit.Store.QuotaReset.Abort.{IsCompletedAt, AreEnded, abort_quota_reset_job_active}
use sub2api5hlimit.Store.QuotaReset.Recover.{recover_closes-All, AllAwait, created, create_total}
use sub2api5hlimit.Store.QuotaReset.Counts.{counters_of_total}
use sub2api5hlimit.Store.Sessions.{Session, session, find_session, touch, with_token}
use sub2api5hlimit.Store.Accounts.Calls as Accounts
use sub2api5hlimit.Store.Accounts.Valid.{AreOwned}
use sub2api5hlimit.Store.Accounts.History.{run-AreOwned}
use sub2api5hlimit.Store.Accounts.Sessions.{
  session_ok, session_over, Revoking, by_delete, Revoking-refuses,
}
use sub2api5hlimit.Store.Accounts.Snapshots.{AreSynced, apply_key_snapshots_lem}
use sub2api5hlimit.Store.QuotaReset.Frozen.{Frozen, run-Frozen}
use sub2api5hlimit.Store.Users.{delete_user, delete_user_tx, update_user_row, delete_sessions}
use sub2api5hlimit.Store.Bindings.{apply_key_snapshots, delete_of_user}
use sub2api5hlimit.Store.QuotaReset.Statements.{add_audit}
use sub2api5hlimit.Http.ResetJob.{
  World, idle, Event, work, answers, begin_single, end_single, react_all,
}
use sub2api5hlimit.Http.ResetJob.Exclusive.{IsExclusive, react_all-IsExclusive}
use sub2api5hlimit.Version.Identifiers.{split, cut, is_numeric_identifier}
use sub2api5hlimit.Version.Updater.{SemVersion, same, parse_sem_version, compare_sem_version}
use sub2api5hlimit.Version.Portal.{
  Version, parse_version, validate_identifiers, validate_parts, at_least, is_less,
}
use sub2api5hlimit.Version.Order.{flip, compare_sem_version-flip, compare_sem_version-same}
use sub2api5hlimit.Version.Agree.{sem_version, at_least-agrees}

abbrev pub one : Float64
one = Float64.finite false 1 1074

abbrev pub ann : User
ann = record {
  id = 2;
  username = codes "ann";
  display_name = codes "Ann";
  password_hash = codes "h";
  role = Role.user;
  status = UserStatus.active;
  last_login_at = none;
  deleted_at = none;
  created_at = 5;
  updated_at = 5;
}

abbrev pub ann_key : KeyBinding
ann_key = record {
  user_id = 2;
  upstream_key_id = 7;
  key_name = codes "k";
  key_mask = codes "sk-1";
  upstream_status = codes "active";
  binding_state = BindingState.healthy;
  rate_limit_5h = one;
  usage_5h = one;
  reset_5h_at = none;
  rate_limit_7d = one;
  usage_7d = one;
  reset_7d_at = none;
  source_updated_at = none;
  last_success_at = none;
  last_error_code = [];
  created_at = 5;
  updated_at = 5;
}

-- One user with a key, and no job.
abbrev pub fresh : Db
fresh = record {
  users = ann ∷ [];
  sessions = [];
  key_bindings = ann_key ∷ [];
  quota_reset_jobs = [];
  quota_reset_job_items = [];
  audit_events = [];
  last_user_id = 2;
  last_job_id = 0;
  last_item_id = 0;
}

fresh-IsValid : IsValid fresh
fresh-IsValid = record {
  jobs_below = tt;
  items_below = tt;
  counted = tt;
  settled = tt;
  unique = λ k. omega arith;
  one_active = omega arith;
  safe = tt;
}

abbrev batch : List Calls.Call
batch =
    Calls.Call.create 10 2
    ∷ Calls.Call.start_job 11 1
    ∷ Calls.Call.start_item 12 1 1
    ∷ Calls.Call.complete 13 1 1 ItemStatus.succeeded []
    ∷ Calls.Call.finish 14 1 2
    ∷ []

run-IsValid_example : IsValid (run fresh batch)
run-IsValid_example = run-IsValid fresh batch fresh-IsValid

abbrev counts : Counters
counts = record {
  total = 1;
  pending = 1;
  running = 0;
  succeeded = 0;
  failed = 0;
  unknown = 0;
  skipped = 0;
}

abbrev pub waiting_job : QuotaResetJob
waiting_job = record {
  id = 1;
  status = JobStatus.running;
  counters = counts;
  requested_by_user_id = some 2;
  created_at = 10;
  started_at = some 11;
  completed_at = none;
  updated_at = 11;
}

abbrev pub waiting_item : QuotaResetJobItem
waiting_item = record {
  id = 1;
  job_id = 1;
  user_id = 2;
  username = codes "ann";
  display_name = codes "Ann";
  user_status = UserStatus.active;
  upstream_key_id = some 7;
  key_mask = codes "sk-1";
  status = ItemStatus.pending;
  error_code = [];
  created_at = 10;
  updated_at = 10;
  started_at = none;
  completed_at = none;
}

-- A running job with one pending item.
abbrev pub waiting : Db
waiting = record fresh {
  quota_reset_jobs = waiting_job ∷ [];
  quota_reset_job_items = waiting_item ∷ [];
  last_job_id = 1;
  last_item_id = 1;
}

pub waiting-IsValid : IsValid waiting
unfolding counters_of is_safe_quota_reset_error_code
waiting-IsValid = record {
  jobs_below = (omega arith, tt);
  items_below = (omega arith, tt);
  counted = (refl, tt);
  settled = (ground arith, tt);
  unique = λ k. ground arith;
  one_active = omega arith;
  safe = (refl, tt);
}

-- A job whose one item succeeded.
abbrev served : List QuotaResetJobItem
served = record waiting_item { status = ItemStatus.succeeded; completed_at = some 13 } ∷ []

run-Frozen_example :
    Frozen served
      (run (record waiting { quota_reset_job_items = served }) batch).quota_reset_job_items
run-Frozen_example = run-Frozen (record waiting { quota_reset_job_items = served }) batch

safe_code : is_safe_quota_reset_error_code (codes "STORE_ERROR") ≡ true
unfolding is_safe_quota_reset_error_code
safe_code = refl

waiting-is_actor : is_actor 2 waiting ≡ true
unfolding is_actor
waiting-is_actor = refl

abort_quota_reset_job_active_example :
    let (db', r) = abort_quota_reset_job 1 2 (codes "STORE_ERROR") 20 waiting in
    (r ≡ ok true)
    × (active_jobs db'.quota_reset_jobs ≡ 0)
    × IsCompletedAt 1 20 db'.quota_reset_jobs
    × AreEnded 1 (codes "STORE_ERROR") 20 (waiting_item ∷ []) db'.quota_reset_job_items
    × (length db'.audit_events ≡ 1)
abort_quota_reset_job_active_example =
    abort_quota_reset_job_active 1 2 b'S' (codes "TORE_ERROR") 20 waiting waiting_job
      waiting-IsValid waiting-is_actor safe_code refl refl

recover_closes-All_example :
    let (db', r) = recover_interrupted_quota_reset_jobs 20 waiting in
    (r ≡ ok tt)
    × All
        (λ j.
          (j.status ≡ JobStatus.completed) × IsClosed (counters_of j.id db'.quota_reset_job_items))
        db'.quota_reset_jobs
recover_closes-All_example = recover_closes-All 20 waiting waiting-IsValid

fresh-is_actor : is_actor 2 fresh ≡ true
unfolding is_actor
fresh-is_actor = refl

create_total_example :
    let (db', r) = create_quota_reset_job 10 2 fresh in
    (r ≡ ok (created 1 10 2 counts))
    × ((items : List QuotaResetJobItem) × (db'.quota_reset_job_items ≡ [] ++ items)
        × AllAwait (ann_key ∷ []) 1 10 (ann ∷ []) items)
create_total_example =
    create_total 10 2 fresh fresh-IsValid fresh-is_actor (λ h. absurd (omega (arith, h))) refl

counters_of_total_example :
    let c = counters_of 1 served in
    c.total ≡ c.pending + c.running + c.succeeded + c.failed + c.unknown + c.skipped
counters_of_total_example = counters_of_total 1 served
