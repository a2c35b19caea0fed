-- ===== src/Store/Accounts/Sessions.antt =====
-- What a session lookup grants, and how the calls on users revoke sessions.
use sub2api5hlimit.Base.{
  ℕ, not, text_eq, ◌≡◌, ◌≢◌, ◌≤◌, ◌<◌, refl, sym, subst, trim_space, ◌∙◌, inl, inr, Bool, true,
  false, ◌&&◌, ◌==◌, some, List, [], ◌∷◌, arith, count_where, delete_where, find_where, All,
  count_where-delete_where_self, Bool-cases, Option-cases,
}
use sub2api5hlimit.Store.Model.{Text, User, UserStatus, SessionRow, Db}
use sub2api5hlimit.Store.Tx.{Result, ok, err, Tx, in_tx, settle, not_found, >>=-eq-ok}
use sub2api5hlimit.Store.QuotaReset.Statements.{add_audit}
use sub2api5hlimit.Store.Bindings.{delete_of_user}
use sub2api5hlimit.Store.Users.{
  is_member, not_deleted, update_user_row, delete_sessions, sessions_of_disabled, update_user_tx,
  update_user, set_user_password_tx, set_user_password, delete_user_tx, delete_user,
}
use sub2api5hlimit.Store.Sessions.{
  Session, with_token, find_session, is_over, delete_session, touch, session,
}

-- What a lookup that accepts a token returns.
touch_ok :
    (token : Text) (now next_idle : ℕ) (s : Session) (db : Db) (s' : Session)
    → (touch token now next_idle s db).1 ≡ ok s'
    → (s'.user.status ≡ UserStatus.active)
      × (now < s'.row.absolute_expires_at)
      × (s'.row.idle_expires_at ≤ s'.row.absolute_expires_at)
      × (s'.row.idle_expires_at ≤ next_idle)
      × (s'.row.last_seen_at ≡ now)
      × (s.row.user_id ≡ s'.row.user_id)
      × (s.user ≡ s'.user)
      × (now < s.row.idle_expires_at)
unfolding touch
touch_ok token now next_idle s db s' h = ground arith

-- A token is accepted only for an active user, before the row's idle end and its absolute end; the
-- new idle end is never beyond the absolute one, nor beyond the one asked for.
pub session_ok :
    (token : Text) (now next_idle : ℕ) (db : Db) (s' : Session)
    → (session token now next_idle db).1 ≡ ok s'
    → (s : Session) × (find_session token db ≡ some s)
      × (now < s.row.idle_expires_at)
      × (now < s'.row.absolute_expires_at)
      × (s'.user.status ≡ UserStatus.active)
      × (s'.user ≡ s.user)
      × (s'.row.idle_expires_at ≤ s'.row.absolute_expires_at)
      × (s'.row.idle_expires_at ≤ next_idle)
unfolding session
session_ok token now next_idle db s' h = elim (Option-cases (find_session token db)) [
  | inl e ↦ absurd (cc (rw (e, session) at h))
  | inr (s, e) ↦
      let (act, abs, capped, asked, _, _, same, idle) =
        touch_ok token now next_idle s db s' (rw (e, session) at h) in
      (s, e, idle, abs, act, sym same, capped, asked)
]

-- What ends a session: its idle end, its absolute end, or its user.
pub data HasEnded (now : ℕ) (row : SessionRow) (u : User) : Type 0 where
  idle_ended : row.idle_expires_at ≤ now → HasEnded now row u
  absolute_ended : row.absolute_expires_at ≤ now → HasEnded now row u
  disabled : u.status ≡ UserStatus.disabled → HasEnded now row u
  deleted : u.status ≡ UserStatus.deleted → HasEnded now row u

HasEnded-is_over :
    (now : ℕ) (row : SessionRow) (u : User)
    → HasEnded now row u
    → is_over now (record { row = row; user = u }) ≡ true
HasEnded-is_over now row u (idle_ended h) = ground (arith, h)
HasEnded-is_over now row u (absolute_ended h) = ground (arith, h)
HasEnded-is_over now row u (disabled h) = ground (arith, h)
HasEnded-is_over now row u (deleted h) = ground (arith, h)

found_session :
    (token : Text) (db : Db) (row : SessionRow) (u : User)
    → find_where (λ s. text_eq s.token_hash token) db.sessions ≡ some row
    → find_where (λ u. u.id == row.user_id) db.users ≡ some u
    → find_session token db ≡ some (record { row = row; user = u })
unfolding find_session
found_session token db row u found owner = ground (arith, found, owner)

-- A token whose row has reached its idle end or its absolute end, or whose user is disabled or
-- deleted, is refused and forgotten: no row carries it any more, as many rows carry any other token
-- as before, and no other table changes.
pub session_over :
    (token : Text) (now next_idle : ℕ) (db : Db) (row : SessionRow) (u : User)
    → find_where (λ s. text_eq s.token_hash token) db.sessions ≡ some row
    → find_where (λ u. u.id == row.user_id) db.users ≡ some u
    → HasEnded now row u
    → let (db', r) = session token now next_idle db in
      (r ≡ err not_found)
      × (count_where (λ s. text_eq s.token_hash token) db'.sessions ≡ 0)
      × ((other : Text)
          → count_where
              (λ s. text_eq s.token_hash other && not (text_eq s.token_hash token))
              db'.sessions
            ≡ count_where
                (λ s. text_eq s.token_hash other && not (text_eq s.token_hash token))
                db.sessions)
      × (db' ≡ record db { sessions = db'.sessions })
unfolding session touch delete_session
session_over token now next_idle db row u found owner h =
    rw (found_session token db row u found owner, session)
      (rw (HasEnded-is_over now row u h) (
        refl,
        count_where-delete_where_self (with_token token) db.sessions,
        λ other. others_kept other db.sessions,
        refl,
      ))
  where
    others_kept :
        (other : Text) (rows : List SessionRow)
        → count_where
            (λ s. text_eq s.token_hash other && not (text_eq s.token_hash token))
            (delete_where (with_token token) rows)
          ≡ count_where (λ s. text_eq s.token_hash other && not (text_eq s.token_hash token)) rows
    others_kept other [] = refl
    others_kept other (s ∷ rows) = elim (Bool-cases (text_eq s.token_hash token)) [
      | inl e ↦ rw e (ground (arith, others_kept other rows))
      | inr e ↦ rw e (ground (arith, others_kept other rows))
    ]

-- No row belongs to the user.
abbrev pub Revoked : ℕ → Db → Type 0
Revoked id db = All (λ s. (s.user_id == id) ≡ false) db.sessions

found_All {ℓ} :
    (P : SessionRow → Type ℓ) (p : SessionRow → Bool) (xs : List SessionRow) (x : SessionRow)
    → All P xs
    → find_where p xs ≡ some x
    → P x
found_All P p [] x h e = absurd (cc)
found_All P p (y ∷ xs) x h e = elim (Bool-cases (p y)) [
  | inl t ↦ subst P (some_eq (rw t at e)) h.0
  | inr f ↦ found_All P p xs x h.1 (rw f at e)
]
  where
    some_eq : some y ≡ some x → y ≡ x
    some_eq q = cc

joined :
    (token : Text) (db : Db) (s : Session)
    → find_session token db ≡ some s
    → find_where (with_token token) db.sessions ≡ some s.row
unfolding find_session
joined token db s h = ground arith

Revoked-refuses :
    (id : ℕ) (db : Db)
    → Revoked id db
    → (token : Text) (now next_idle : ℕ) (s : Session) → (session token now next_idle db).1 ≡ ok s
    → s.row.user_id ≢ id
unfolding session
Revoked-refuses id db r token now next_idle s h e = elim (Option-cases (find_session token db)) [
  | inl n ↦ absurd (cc (rw (n, session) at h))
  | inr (s0, f) ↦
      let (_, _, _, _, _, same, _, _) =
        touch_ok token now next_idle s0 db s (rw (f, session) at h) in
      let gone =
        found_All (λ (s : SessionRow). (s.user_id == id) ≡ false) (with_token token) db.sessions
          s0.row r (joined token db s0 f) in
      absurd (ground arith)
]

deleted_Revoked :
    (id : ℕ) (rows : List SessionRow)
    → All (λ s. (s.user_id == id) ≡ false) (delete_where (λ s. s.user_id == id) rows)
deleted_Revoked id [] = tt
deleted_Revoked id (s ∷ rows) = elim (Bool-cases (s.user_id == id)) [
  | inl e ↦ rw e (deleted_Revoked id rows)
  | inr e ↦ rw e (e, deleted_Revoked id rows)
]

-- What a successful transaction did to the sessions.
in_tx-ok :
    {A : Type 0} (m : Tx A) (db db' : Db) (a : A) → in_tx m db ≡ (db', ok a) → m db ≡ ok (a, db')
in_tx-ok {A} m db db' a h = go (m db) refl h
  where
    go : (r : Result (A × Db)) → m db ≡ r → settle db r ≡ (db', ok a) → m db ≡ ok (a, db')
    go (ok (b, d)) e h = e ∙ ground arith
    go (err x) e h = absurd (ground arith)

password-Revoked :
    (id : ℕ) (hash : Text) (actor now : ℕ) (db db' : Db)
    → set_user_password id hash actor now db ≡ (db', ok tt)
    → Revoked id db'
unfolding set_user_password set_user_password_tx delete_sessions add_audit
password-Revoked id hash actor now db db' h =
    let row = λ (u : User). record u { password_hash = hash; updated_at = now } in
    let mine = λ (u : User). u.id == id && not_deleted u in
    let (_, db1, e1, h1) =
      >>=-eq-ok (update_user_row mine row) _ db
        (in_tx-ok (set_user_password_tx id hash actor now) db db' tt h) in
    let e : db'.sessions ≡ delete_where (λ s. s.user_id == id) db1.sessions = ground arith in
    rw e (deleted_Revoked id db1.sessions)

delete-Revoked :
    (id actor now : ℕ) (db db' : Db) → delete_user id actor now db ≡ (db', ok tt) → Revoked id db'
unfolding delete_user delete_user_tx delete_sessions delete_of_user add_audit
delete-Revoked id actor now db db' h =
    let row = λ (u : User). record u {
      status = UserStatus.deleted;
      deleted_at = some now;
      updated_at = now;
    } in
    let (_, db1, e1, h1) =
      >>=-eq-ok (update_user_row (is_member id) row) _ db
        (in_tx-ok (delete_user_tx id actor now) db db' tt h) in
    let e : db'.sessions ≡ delete_where (λ s. s.user_id == id) db1.sessions = ground arith in
    rw e (deleted_Revoked id db1.sessions)

disable-Revoked :
    (id : ℕ) (display : Text) (actor now : ℕ) (db db' : Db)
    → update_user id display UserStatus.disabled actor now db ≡ (db', ok tt)
    → Revoked id db'
unfolding update_user update_user_tx sessions_of_disabled delete_sessions add_audit
disable-Revoked id display actor now db db' h =
    let row = λ (u : User). record u {
      display_name = trim_space display;
      status = UserStatus.disabled;
      updated_at = now;
    } in
    let (_, db1, e1, h1) =
      >>=-eq-ok (update_user_row (is_member id) row) _ db
        (in_tx-ok (update_user_tx id display UserStatus.disabled actor now) db db' tt h) in
    let e : db'.sessions ≡ delete_where (λ s. s.user_id == id) db1.sessions = ground arith in
    rw e (deleted_Revoked id db1.sessions)

-- The calls that revoke a user's sessions.
pub data Revoking (id : ℕ) (db db' : Db) : Type 0 where
  by_password :
      (hash : Text) (actor now : ℕ)
      → set_user_password id hash actor now db ≡ (db', ok tt)
      → Revoking id db db'
  by_delete : (actor now : ℕ) → delete_user id actor now db ≡ (db', ok tt) → Revoking id db db'
  by_disable :
      (display : Text) (actor now : ℕ)
      → update_user id display UserStatus.disabled actor now db ≡ (db', ok tt)
      → Revoking id db db'

-- After a successful password change, deletion or disabling of a user, no token is accepted for that
-- user: whatever session a lookup returns belongs to another user.
pub Revoking-refuses :
    (id : ℕ) (db db' : Db)
    → Revoking id db db'
    → (token : Text) (now next_idle : ℕ) (s : Session) → (session token now next_idle db').1 ≡ ok s
    → s.row.user_id ≢ id
Revoking-refuses id db db' (by_password hash actor at h) =
    Revoked-refuses id db' (password-Revoked id hash actor at db db' h)
Revoking-refuses id db db' (by_delete actor at h) =
    Revoked-refuses id db' (delete-Revoked id actor at db db' h)
Revoking-refuses id db db' (by_disable display actor at h) =
    Revoked-refuses id db' (disable-Revoked id display actor at db db' h)
