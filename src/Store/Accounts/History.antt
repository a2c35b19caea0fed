-- ===== src/Store/Accounts/History.antt =====
-- The calls on users and sessions keep what holds of users and bindings, and so does every history.
use sub2api5hlimit.Base.{
  ℕ, suc, ◌≡◌, refl, Bool, true, false, ◌&&◌, ◌==◌, Option, none, some, List, [], ◌∷◌, ◌++◌, arith,
  update_where, delete_where, All-imp, All-delete_where, Bool-cases, inl, inr, trim_space,
  count_where-append, count_where-update_where_eq, Option-cases,
}
use sub2api5hlimit.Store.Model.{
  Text, User, UserStatus, KeyBinding, KeySnapshot, Role, compliant, empty, Db,
}
use sub2api5hlimit.Store.Tx.{
  in_tx-keeps, Result, ok, err, ◌>>◌, in_tx, unless, not_compliant, >>=-eq-ok, unless-eq-ok,
}
use sub2api5hlimit.Store.QuotaReset.Statements.{add_audit}
use sub2api5hlimit.Store.Bindings.{
  of_user, of_key, binding_row, delete_of_user, key_ids, all_have_numbers, apply_key_snapshots,
  mark_key_sync_failed, apply_quota_reset_snapshot, apply_reset,
}
use sub2api5hlimit.Store.Users.{
  is_disabled, is_member, insert_user, bind_new, user_row, create_user_tx, create_user, with_row,
  update_user_row, delete_sessions, sessions_of_disabled, update_user_tx, update_user,
  set_user_password_tx, set_user_password, delete_user_tx, delete_user, not_deleted,
}
use sub2api5hlimit.Store.Sessions.{
  create_session, session, touch, find_session, delete_session, record_login, is_over,
}
use sub2api5hlimit.Store.Accounts.Calls.{Call, step, run}
use sub2api5hlimit.Store.Accounts.Valid.{
  IsLive, IsValid, AreOwned-update, AreOwned-delete, AreOwned-insert, AreOwned-users,
}
use sub2api5hlimit.Store.Accounts.Keeps.{
  insert_binding_lem, add_audit-same, set_binding-IsValid, delete_binding-IsValid,
  apply_each-AreOwned, limit_change-IsValid, keeps_IsLive,
}

insert_user_lem :
    (name display hash : Text) (now : ℕ) (db : Db) {id : ℕ} {db' : Db}
    → insert_user name display hash Role.user now db ≡ ok (id, db')
    → (id ≡ suc db.last_user_id)
      × (db'.users ≡ db.users ++ user_row id name display hash Role.user now ∷ [])
      × (db'.key_bindings ≡ db.key_bindings)
unfolding insert_user
insert_user_lem name display hash now db h = ground arith

-- The row of a new user is live.
new-IsLive :
    (us : List User) (name display hash : Text) (id now : ℕ)
    → IsLive (us ++ user_row id name display hash Role.user now ∷ []) id
new-IsLive us name display hash id now e =
    let row = user_row id name display hash Role.user now in
    absurd (ground (arith, count_where-append (is_member id) us (row ∷ [])))

append-IsLive : (us : List User) (new : User) (id : ℕ) → IsLive us id → IsLive (us ++ new ∷ []) id
append-IsLive us new id h e = h (omega (arith, e, count_where-append (is_member id) us (new ∷ [])))

bind_new-AreOwned :
    (id : ℕ) (snapshot : Option KeySnapshot) (now : ℕ) (db : Db) (a : Unit {0}) (db' : Db)
    → IsLive db.users id
    → IsValid db
    → bind_new id snapshot now db ≡ ok (a, db')
    → IsValid db'
unfolding bind_new
bind_new-AreOwned id none now db a db' live v h = let e : db' ≡ db = ground arith in rw e v
bind_new-AreOwned id (some k) now db a db' live v h =
    let (_, db1, e1, h1) = >>=-eq-ok (unless (compliant k) not_compliant) _ db h in
    let (_, same) = unless-eq-ok (compliant k) not_compliant db e1 in
    let (free, rows, users) = insert_binding_lem id k now db (rw same at h1) in
    rw (rows, users) (AreOwned-insert db.users db.key_bindings (binding_row id k now) free live v)

create_tx-IsValid :
    (name display hash : Text) (snapshot : Option KeySnapshot) (actor now : ℕ) (db : Db) (a : ℕ)
    (db' : Db)
    → IsValid db
    → create_user_tx name display hash snapshot actor now db ≡ ok (a, db')
    → IsValid db'
unfolding create_user_tx
create_tx-IsValid name display hash snapshot actor now db a db' v h =
    let (id, db1, e1, h1) = >>=-eq-ok (insert_user name display hash Role.user now) _ db h in
    let (_, db2, e2, h2) = >>=-eq-ok (bind_new id snapshot now) _ db1 h1 in
    let (_, db3, e3, h3) = >>=-eq-ok (add_audit actor "user.create" "user" id empty now) _ db2 h2 in
    let (_, users1, rows1) = insert_user_lem name display hash now db e1 in
    let last : db' ≡ db3 = ground arith in
    let v2 =
      bind_new-AreOwned id snapshot now db1 tt db2
        (rw users1 (new-IsLive db.users name display hash id now))
        (rw (users1, rows1)
          (AreOwned-users db.users (db.users ++ user_row id name display hash Role.user now ∷ [])
            db.key_bindings
            (λ b live.
              append-IsLive db.users (user_row id name display hash Role.user now) b.user_id live)
            v))
        e2 in
    let (rows3, users3) = add_audit-same actor "user.create" "user" id empty now db2 e3 in
    rw (last, rows3, users3) v2

with_row-same : (r : Db × Result ℕ) → (with_row r).0 ≡ r.0
with_row-same (db, ok id) = refl
with_row-same (db, err e) = refl

create_user-IsValid :
    (name display hash : Text) (snapshot : Option KeySnapshot) (actor now : ℕ) (db : Db)
    → IsValid db
    → IsValid (create_user name display hash snapshot actor now db).0
unfolding create_user
create_user-IsValid name display hash snapshot actor now db v =
    let m = create_user_tx name display hash snapshot actor now in
    rw (with_row-same (in_tx m db)) (
      in_tx-keeps IsValid m db v
        (λ a db' h. create_tx-IsValid name display hash snapshot actor now db a db' v h))

update_user_row_lem :
    (p : User → Bool) (f : User → User) (db : Db) {a : Unit {0}} {db' : Db}
    → update_user_row p f db ≡ ok (a, db')
    → db' ≡ record db { users = update_where p f db.users }
unfolding update_user_row
update_user_row_lem p f db h = ground arith

-- The effect of the transactions that update a row of users.
update_tx-users :
    (id : ℕ) (display : Text) (status : UserStatus) (actor now : ℕ) (db : Db) (a : Unit {0})
    (db' : Db)
    → update_user_tx id display status actor now db ≡ ok (a, db')
    → (db'.users
        ≡ update_where
            (is_member id)
            (λ u. record u { display_name = trim_space display; status = status; updated_at = now })
            db.users)
      × (db'.key_bindings ≡ db.key_bindings)
unfolding update_user_tx sessions_of_disabled delete_sessions add_audit
update_tx-users id display status actor now db a db' h =
    let row = λ (u : User). record u {
      display_name = trim_space display;
      status = status;
      updated_at = now;
    } in
    let (_, db1, e1, h1) = >>=-eq-ok (update_user_row (is_member id) row) _ db h in
    by_status status (rw (update_user_row_lem (is_member id) row db e1) at h1)
  where
    changed : Db
    changed = record db {
      users =
          update_where (is_member id)
            (λ u. record u { display_name = trim_space display; status = status; updated_at = now })
            db.users;
    }

    by_status :
        (s : UserStatus)
        → (do
          sessions_of_disabled (is_disabled s) id
          add_audit actor "user.update" "user" id empty now)
            changed
          ≡ ok (a, db')
        → (db'.users ≡ changed.users) × (db'.key_bindings ≡ db.key_bindings)
    by_status UserStatus.active h = ground arith
    by_status UserStatus.disabled h = ground arith
    by_status UserStatus.deleted h = ground arith

password_tx-users :
    (id : ℕ) (hash : Text) (actor now : ℕ) (db : Db) (a : Unit {0}) (db' : Db)
    → set_user_password_tx id hash actor now db ≡ ok (a, db')
    → (db'.users
        ≡ update_where
            (λ u. u.id == id && not_deleted u)
            (λ u. record u { password_hash = hash; updated_at = now })
            db.users)
      × (db'.key_bindings ≡ db.key_bindings)
unfolding set_user_password_tx delete_sessions add_audit
password_tx-users id hash actor now db a db' h =
    let row = λ (u : User). record u { password_hash = hash; updated_at = now } in
    let mine = λ (u : User). u.id == id && not_deleted u in
    let (_, db1, e1, h1) = >>=-eq-ok (update_user_row mine row) _ db h in
    let e = update_user_row_lem mine row db e1 in ground arith

abbrev deleted_row : ℕ → User → User
deleted_row now u = record u {
  status = UserStatus.deleted;
  deleted_at = some now;
  updated_at = now;
}

delete_tx-users :
    (id actor now : ℕ) (db : Db) (a : Unit {0}) (db' : Db)
    → delete_user_tx id actor now db ≡ ok (a, db')
    → (db'.users ≡ update_where (is_member id) (deleted_row now) db.users)
      × (db'.key_bindings ≡ delete_where (of_user id) db.key_bindings)
unfolding delete_user_tx delete_sessions delete_of_user add_audit
delete_tx-users id actor now db a db' h =
    let (_, db1, e1, h1) = >>=-eq-ok (update_user_row (is_member id) (deleted_row now)) _ db h in
    let e = update_user_row_lem (is_member id) (deleted_row now) db e1 in ground arith

-- Deleting a user takes nobody else's account away.
others-IsLive :
    (id now n : ℕ) (us : List User)
    → (n == id) ≡ false
    → IsLive us n
    → IsLive (update_where (is_member id) (deleted_row now) us) n
others-IsLive id now n us ne h e = h (
    omega (
      arith,
      e,
      count_where-update_where_eq (is_member n) (is_member id) (deleted_row now) us
          (λ u t. ground arith),
    ))

delete_user-IsValid :
    (id actor now : ℕ) (db : Db) → IsValid db → IsValid (delete_user id actor now db).0
unfolding delete_user
delete_user-IsValid id actor now db v =
    in_tx-keeps IsValid (delete_user_tx id actor now) db v λ a db' h.
      let (users, rows) = delete_tx-users id actor now db a db' h in
      let kept = AreOwned-delete db.users db.key_bindings (of_user id) v in
      rw (users, rows)
        (record {
          one_key = kept.one_key;
          one_user = kept.one_user;
          live =
              All-imp (λ (b : KeyBinding). IsLive db.users b.user_id × (of_user id b ≡ false))
                (λ (b : KeyBinding).
                  IsLive (update_where (is_member id) (deleted_row now) db.users) b.user_id)
                (delete_where (of_user id) db.key_bindings)
                (λ b h. others-IsLive id now b.user_id db.users h.1 h.0)
                (All-delete_where (λ (b : KeyBinding). IsLive db.users b.user_id) (of_user id)
                  db.key_bindings v.live);
        })

update_user-IsValid :
    (id : ℕ) (display : Text) (status : UserStatus) (actor now : ℕ) (db : Db)
    → IsValid db
    → IsValid (update_user id display status actor now db).0
unfolding update_user
update_user-IsValid id display UserStatus.deleted actor now db v = v
update_user-IsValid id display UserStatus.active actor now db v =
    in_tx-keeps IsValid (update_user_tx id display UserStatus.active actor now) db v λ a db' h.
      let (users, rows) = update_tx-users id display UserStatus.active actor now db a db' h in
      rw (users, rows)
        (AreOwned-users db.users _ db.key_bindings
          (λ b live.
            keeps_IsLive (is_member id)
              (λ u. record u {
                display_name = trim_space display;
                status = UserStatus.active;
                updated_at = now;
              })
              db.users (λ u. refl) (λ u. refl) (λ u t. ground arith) b.user_id live)
          v)
update_user-IsValid id display UserStatus.disabled actor now db v =
    in_tx-keeps IsValid (update_user_tx id display UserStatus.disabled actor now) db v λ a db' h.
      let (users, rows) = update_tx-users id display UserStatus.disabled actor now db a db' h in
      rw (users, rows)
        (AreOwned-users db.users _ db.key_bindings
          (λ b live.
            keeps_IsLive (is_member id)
              (λ u. record u {
                display_name = trim_space display;
                status = UserStatus.disabled;
                updated_at = now;
              })
              db.users (λ u. refl) (λ u. refl) (λ u t. ground arith) b.user_id live)
          v)

password-IsValid :
    (id : ℕ) (hash : Text) (actor now : ℕ) (db : Db)
    → IsValid db
    → IsValid (set_user_password id hash actor now db).0
unfolding set_user_password
password-IsValid id hash actor now db v =
    in_tx-keeps IsValid (set_user_password_tx id hash actor now) db v λ a db' h.
      let (users, rows) = password_tx-users id hash actor now db a db' h in
      rw (users, rows)
        (AreOwned-users db.users _ db.key_bindings
          (λ b live.
            keeps_IsLive (λ u. u.id == id && not_deleted u)
              (λ u. record u { password_hash = hash; updated_at = now }) db.users (λ u. refl)
              (λ u. refl) (λ u t. refl) b.user_id live)
          v)

record_login-IsValid : (id now : ℕ) (db : Db) → IsValid db → IsValid (record_login id now db)
unfolding record_login
record_login-IsValid id now db v =
    AreOwned-users db.users _ db.key_bindings
      (λ b live.
        keeps_IsLive (λ u. u.id == id)
          (λ u. record u { last_login_at = some now; updated_at = now }) db.users (λ u. refl)
          (λ u. refl) (λ u t. refl) b.user_id live)
      v

session-IsValid :
    (token : Text) (now next_idle : ℕ) (db : Db)
    → IsValid db
    → IsValid (session token now next_idle db).0
unfolding session touch delete_session
session-IsValid token now next_idle db v = elim (Option-cases (find_session token db)) [
  | inl e ↦ rw (e, session) v
  | inr (s, e) ↦
      rw (e, session)
        (elim (Bool-cases (is_over now s)) [ inl over ↦ rw over v | inr live ↦ rw live v ])
]

create_session-IsValid :
    (token csrf : Text) (id now idle end : ℕ) (db : Db)
    → IsValid db
    → IsValid (create_session token csrf id now idle end db).0
unfolding create_session
create_session-IsValid token csrf id now idle end db v = ground arith

-- Each call on users, bindings and sessions keeps the ownership of keys.
step-IsValid : (db : Db) (c : Call) → IsValid db → IsValid (step db c)
unfolding step apply_key_snapshots mark_key_sync_failed apply_quota_reset_snapshot delete_session
step-IsValid db (Call.create name display hash k actor now) v =
    create_user-IsValid name display hash k actor now db v
step-IsValid db (Call.update id display status actor now) v =
    update_user-IsValid id display status actor now db v
step-IsValid db (Call.password id hash actor now) v = password-IsValid id hash actor now db v
step-IsValid db (Call.delete id actor now) v = delete_user-IsValid id actor now db v
step-IsValid db (Call.bind id k actor now) v = set_binding-IsValid id k actor now db v
step-IsValid db (Call.unbind id actor now) v = delete_binding-IsValid id actor now db v
step-IsValid db (Call.snapshots ks at) v =
    elim (Bool-cases (all_have_numbers ks (key_ids db.key_bindings))) [
      | inl e ↦
          rw (step, e)
            (apply_each-AreOwned db.users at ks (key_ids db.key_bindings) db.key_bindings v)
      | inr e ↦ rw (step, e) v
    ]
step-IsValid db (Call.limit_change key e at actor) v = limit_change-IsValid key e at actor db v
step-IsValid db (Call.sync_failed code now) v =
    AreOwned-update db.users db.key_bindings (λ _. true) _ (λ b. refl) (λ b. refl) v
step-IsValid db (Call.reset_snapshot key e at) v =
    AreOwned-update db.users db.key_bindings (of_key key) (apply_reset e at) (λ b. refl) (λ b. refl)
      v
step-IsValid db (Call.log_in token csrf id now idle end) v =
    create_session-IsValid token csrf id now idle end db v
step-IsValid db (Call.use_session token now next_idle) v = session-IsValid token now next_idle db v
step-IsValid db (Call.log_out token) v = v
step-IsValid db (Call.logged_in id now) v = record_login-IsValid id now db v

-- From a database where it holds, every history of calls on users, bindings and sessions leads to
-- one where a user holds at most one upstream key, an upstream key is held by at most one user, and
-- whoever holds a key is an account with role 'user' that is not deleted.
pub run-AreOwned : (db : Db) (cs : List Call) → IsValid db → IsValid (run db cs)
unfolding run
run-AreOwned db [] v = v
run-AreOwned db (c ∷ cs) v = run-AreOwned (step db c) cs (step-IsValid db c v)
