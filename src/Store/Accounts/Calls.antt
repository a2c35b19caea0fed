-- ===== src/Store/Accounts/Calls.antt =====
-- The calls on users, bindings and sessions as one type, so that a history is a list of calls.
use sub2api5hlimit.Base.{ℕ, Option, List, [], ◌∷◌}
use sub2api5hlimit.Store.Model.{Text, UserStatus, KeySnapshot, Db}
use sub2api5hlimit.Store.Bindings.{
  LimitEcho, set_binding, delete_binding, apply_key_snapshots, apply_key_limit_change,
  mark_key_sync_failed, apply_quota_reset_snapshot,
}
use sub2api5hlimit.Store.Users.{create_user, update_user, set_user_password, delete_user}
use sub2api5hlimit.Store.Sessions.{create_session, session, delete_session, record_login}

pub data Call : Type 0 where
  create : Text → Text → Text → Option KeySnapshot → ℕ → ℕ → Call
  update : ℕ → Text → UserStatus → ℕ → ℕ → Call
  password : ℕ → Text → ℕ → ℕ → Call
  delete : ℕ → ℕ → ℕ → Call
  bind : ℕ → KeySnapshot → ℕ → ℕ → Call
  unbind : ℕ → ℕ → ℕ → Call
  snapshots : List KeySnapshot → ℕ → Call
  limit_change : ℕ → LimitEcho → ℕ → ℕ → Call
  sync_failed : Text → ℕ → Call
  reset_snapshot : ℕ → LimitEcho → ℕ → Call
  log_in : Text → Text → ℕ → ℕ → ℕ → ℕ → Call
  use_session : Text → ℕ → ℕ → Call
  log_out : Text → Call
  logged_in : ℕ → ℕ → Call

-- The database after a call, whether it succeeds or fails.
unfoldable pub step : Db → Call → Db
step db (create name display hash k actor now) = (create_user name display hash k actor now db).0
step db (update id display status actor now) = (update_user id display status actor now db).0
step db (password id hash actor now) = (set_user_password id hash actor now db).0
step db (delete id actor now) = (delete_user id actor now db).0
step db (bind id k actor now) = (set_binding id k actor now db).0
step db (unbind id actor now) = (delete_binding id actor now db).0
step db (snapshots ks at) = (apply_key_snapshots ks at db).0
step db (limit_change key e at actor) = (apply_key_limit_change key e at actor db).0
step db (sync_failed code now) = mark_key_sync_failed code now db
step db (reset_snapshot key e at) = (apply_quota_reset_snapshot key e at db).0
step db (log_in token csrf id now idle end) = (create_session token csrf id now idle end db).0
step db (use_session token now next_idle) = (session token now next_idle db).0
step db (log_out token) = delete_session token db
step db (logged_in id now) = record_login id now db

unfoldable pub run : Db → List Call → Db
run db [] = db
run db (c ∷ cs) = run (step db c) cs
