-- ===== src/Store/Users.antt =====
-- internal/store/users.go: the accounts of the portal. Deleting is soft: the row stays, with its
-- name taken.
use sub2api5hlimit.Base.{
  ℕ, suc, Bool, true, false, not, ◌&&◌, ◌==◌, if◌then◌else◌, Option, none, some, [], ◌∷◌, ◌++◌,
  count_where, update_where, delete_where, find_where, trim_space, nocase_eq,
}
use sub2api5hlimit.Store.Model.{
  Text, Role, UserStatus, User, KeyBinding, KeySnapshot, compliant, empty, Db, is_user, is_deleted,
}
use sub2api5hlimit.Store.Tx.{
  not_found, username_exists, not_compliant, invalid_user_status, Result, ok, err, Tx, ◌>>=◌, ◌>>◌,
  return, unless, write, in_tx,
}
use sub2api5hlimit.Store.QuotaReset.Statements.{add_audit}
use sub2api5hlimit.Store.Bindings.{insert_binding, of_user, delete_of_user}

abbrev pub not_deleted : User → Bool
not_deleted u = not (is_deleted u.status)

unfoldable pub user_by_username : Text → Db → Result User
user_by_username name db =
    elim (find_where (λ u. nocase_eq u.username (trim_space name) && not_deleted u) db.users) [
      | none ↦ err not_found
      | some u ↦ ok u
    ]

-- The row with its binding, which may be missing.
unfoldable pub user_by_id : ℕ → Db → Result (User × Option KeyBinding)
user_by_id id db = elim (find_where (λ u. u.id == id) db.users) [
  | none ↦ err not_found
  | some u ↦ ok (u, find_where (of_user id) db.key_bindings)
]

abbrev pub user_row : ℕ → Text → Text → Text → Role → ℕ → User
user_row id username display_name password_hash role now = record {
  id = id;
  username = trim_space username;
  display_name = trim_space display_name;
  password_hash = password_hash;
  role = role;
  status = UserStatus.active;
  last_login_at = none;
  deleted_at = none;
  created_at = now;
  updated_at = now;
}

-- The unique index on names ignores the case of ASCII letters, and knows deleted rows too.
unfoldable pub insert_user : Text → Text → Text → Role → ℕ → Tx ℕ
insert_user username display_name password_hash role now db =
    let id = suc db.last_user_id in
    if count_where (λ u. nocase_eq u.username (trim_space username)) db.users == 0
    then ok (
      id,
      record db {
        last_user_id = id;
        users = db.users ++ user_row id username display_name password_hash role now ∷ [];
      },
    )
    else err username_exists

unfoldable pub bind_new : ℕ → Option KeySnapshot → ℕ → Tx (Unit {0})
unfolding insert_binding
bind_new id none now = return tt
bind_new id (some k) now = do unless (compliant k) not_compliant; insert_binding id k now

unfoldable pub create_user_tx : Text → Text → Text → Option KeySnapshot → ℕ → ℕ → Tx ℕ
unfolding insert_user bind_new
create_user_tx username display_name password_hash snapshot actor_id now = do
  id ← insert_user username display_name password_hash Role.user now
  bind_new id snapshot now
  add_audit actor_id "user.create" "user" id empty now
  return id

-- After the commit the user is read back.
abbrev pub with_row : Db × Result ℕ → Db × Result (User × Option KeyBinding)
with_row (db, ok id) = (db, user_by_id id db)
with_row (db, err e) = (db, err e)

unfoldable pub create_user :
    Text → Text → Text → Option KeySnapshot → ℕ → ℕ → Db → Db × Result (User × Option KeyBinding)
unfolding create_user_tx
create_user username display_name password_hash snapshot actor_id now db =
    with_row (in_tx (create_user_tx username display_name password_hash snapshot actor_id now) db)

-- An UPDATE of users that must meet a row.
unfoldable pub update_user_row : (User → Bool) → (User → User) → Tx (Unit {0})
update_user_row p f db =
    if count_where p db.users == 0
    then err not_found
    else ok (tt, record db { users = update_where p f db.users })

unfoldable pub delete_sessions : ℕ → Tx (Unit {0})
delete_sessions user_id =
    write λ db. record db { sessions = delete_where (λ s. s.user_id == user_id) db.sessions }

-- role='user' AND status!='deleted'
abbrev pub is_member : ℕ → User → Bool
is_member id u = u.id == id && (is_user u.role && not_deleted u)

abbrev pub is_disabled : UserStatus → Bool
is_disabled UserStatus.disabled = true
is_disabled _ = false

unfoldable pub sessions_of_disabled : Bool → ℕ → Tx (Unit {0})
unfolding delete_sessions
sessions_of_disabled true id = delete_sessions id
sessions_of_disabled false id = return tt

unfoldable pub update_user_tx : ℕ → Text → UserStatus → ℕ → ℕ → Tx (Unit {0})
unfolding update_user_row sessions_of_disabled
update_user_tx id display_name status actor_id now = do
  update_user_row (is_member id)
      (λ u. record u { display_name = trim_space display_name; status = status; updated_at = now })
  sessions_of_disabled (is_disabled status) id
  add_audit actor_id "user.update" "user" id empty now

unfoldable pub update_user : ℕ → Text → UserStatus → ℕ → ℕ → Db → Db × Result (Unit {0})
unfolding update_user_tx
update_user id display_name UserStatus.deleted actor_id now db = (db, err invalid_user_status)
update_user id display_name status actor_id now db =
    in_tx (update_user_tx id display_name status actor_id now) db

unfoldable pub set_user_password_tx : ℕ → Text → ℕ → ℕ → Tx (Unit {0})
unfolding update_user_row delete_sessions
set_user_password_tx id hash actor_id now = do
  update_user_row (λ u. u.id == id && not_deleted u)
      (λ u. record u { password_hash = hash; updated_at = now })
  delete_sessions id
  add_audit actor_id "user.password_reset" "user" id empty now

unfoldable pub set_user_password : ℕ → Text → ℕ → ℕ → Db → Db × Result (Unit {0})
unfolding set_user_password_tx
set_user_password id hash actor_id now = in_tx (set_user_password_tx id hash actor_id now)

unfoldable pub delete_user_tx : ℕ → ℕ → ℕ → Tx (Unit {0})
unfolding update_user_row delete_sessions delete_of_user
delete_user_tx id actor_id now = do
  update_user_row (is_member id)
      (λ u. record u { status = UserStatus.deleted; deleted_at = some now; updated_at = now })
  delete_sessions id
  delete_of_user id
  add_audit actor_id "user.delete" "user" id empty now

unfoldable pub delete_user : ℕ → ℕ → ℕ → Db → Db × Result (Unit {0})
unfolding delete_user_tx
delete_user id actor_id now = in_tx (delete_user_tx id actor_id now)
