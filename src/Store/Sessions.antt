-- ===== src/Store/Sessions.antt =====
-- internal/store/sessions.go: login sessions, with an idle and an absolute end.
use sub2api5hlimit.Base.{
  ℕ, Bool, not, ◌||◌, ◌==◌, ltb, leb, if◌then◌else◌, Option, none, some, [], ◌∷◌, ◌++◌, count_where,
  update_where, delete_where, find_where, text_eq,
}
use sub2api5hlimit.Store.Model.{Text, User, SessionRow, Db, is_active}
use sub2api5hlimit.Store.Tx.{not_found, constraint, Result, ok, err}

-- A session as the caller gets it: the row and its user.
pub record Session : Type 0 where
  pub row : SessionRow
  pub user : User

abbrev pub with_token : Text → SessionRow → Bool
with_token token_hash s = text_eq s.token_hash token_hash

-- The INSERT meets the primary key on tokens and the reference to users.
unfoldable pub create_session : Text → Text → ℕ → ℕ → ℕ → ℕ → Db → Db × Result (Unit {0})
create_session token_hash csrf_hash user_id now idle_expires absolute_expires db =
    if not (count_where (with_token token_hash) db.sessions == 0)
      || count_where (λ u. u.id == user_id) db.users == 0
    then (db, err constraint)
    else (
      record db {
        sessions =
            db.sessions
            ++ record {
              token_hash = token_hash;
              csrf_hash = csrf_hash;
              user_id = user_id;
              created_at = now;
              last_seen_at = now;
              idle_expires_at = idle_expires;
              absolute_expires_at = absolute_expires;
            }
              ∷ [];
      },
      ok tt,
    )

-- `sessions s JOIN users u ON u.id=s.user_id WHERE s.token_hash=?`, the first row.
abbrev join_user : Option SessionRow → Db → Option Session
join_user none db = none
join_user (some s) db = elim (find_where (λ u. u.id == s.user_id) db.users) [
  | none ↦ none
  | some u ↦ some (record { row = s; user = u })
]

unfoldable pub find_session : Text → Db → Option Session
find_session token_hash db = join_user (find_where (with_token token_hash) db.sessions) db

abbrev pub is_over : ℕ → Session → Bool
is_over now s =
    leb s.row.idle_expires_at now
    || leb s.row.absolute_expires_at now
    || not (is_active s.user.status)

unfoldable pub delete_session : Text → Db → Db
delete_session token_hash db = record db {
  sessions = delete_where (with_token token_hash) db.sessions;
}

abbrev pub seen_at : ℕ → ℕ → SessionRow → SessionRow
seen_at now next_idle s = record s { last_seen_at = now; idle_expires_at = next_idle }

-- `if nextIdle > session.AbsoluteExpiresAt { nextIdle = session.AbsoluteExpiresAt }`
abbrev pub capped_idle : ℕ → Session → ℕ
capped_idle next_idle s =
    if ltb s.row.absolute_expires_at next_idle then s.row.absolute_expires_at else next_idle

unfoldable pub touch : Text → ℕ → ℕ → Session → Db → Db × Result Session
unfolding delete_session
touch token_hash now next_idle s db =
    if is_over now s then (delete_session token_hash db, err not_found) else (
      record db {
        sessions =
            update_where (with_token token_hash) (seen_at now (capped_idle next_idle s))
              db.sessions;
      },
      ok (record s { row = seen_at now (capped_idle next_idle s) s.row }),
    )

unfoldable pub session : Text → ℕ → ℕ → Db → Db × Result Session
unfolding find_session touch
session token_hash now next_idle db = elim (find_session token_hash db) [
  | none ↦ (db, err not_found)
  | some s ↦ touch token_hash now next_idle s db
]

unfoldable pub record_login : ℕ → ℕ → Db → Db
record_login user_id now db = record db {
  users =
      update_where (λ u. u.id == user_id)
        (λ u. record u { last_login_at = some now; updated_at = now }) db.users;
}
