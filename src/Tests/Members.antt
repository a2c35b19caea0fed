-- ===== src/Tests/Members.antt =====
-- The properties of users, bindings and sessions at concrete databases.
use sub2api5hlimit.Base.{
  not, ◌&&◌, text_eq, ◌≡◌, ◌≤◌, ◌≢◌, refl, none, some, List, [], ◌∷◌, codes, arith, count_where,
  ◌<◌,
}
use sub2api5hlimit.Store.Model.{Text, UserStatus, User, KeySnapshot, SessionRow, Db}
use sub2api5hlimit.Store.Tx.{err, not_found, ok}
use sub2api5hlimit.Store.Sessions.{Session, session, find_session, touch}
use sub2api5hlimit.Store.Accounts.Calls as Accounts
use sub2api5hlimit.Store.Accounts.Valid.{AreOwned}
use sub2api5hlimit.Store.Accounts.History.{run-AreOwned}
use sub2api5hlimit.Store.Accounts.Sessions.{
  session_ok, idle_ended, session_over, by_delete, Revoking-refuses,
}
use sub2api5hlimit.Store.Accounts.Snapshots.{AreSynced, apply_key_snapshots_lem}
use sub2api5hlimit.Store.Users.{delete_user, delete_user_tx, update_user_row, delete_sessions}
use sub2api5hlimit.Store.Bindings.{snapshot_of, apply_key_snapshots, delete_of_user}
use sub2api5hlimit.Store.QuotaReset.Statements.{is_actor, add_audit}
use sub2api5hlimit.Tests.{one, ann, ann_key, fresh}

fresh-AreOwned : AreOwned (ann ∷ []) (ann_key ∷ [])
fresh-AreOwned = record {
  one_key = λ id. ground arith;
  one_user = λ key. ground arith;
  live = (omega arith, tt);
}

abbrev members : List Accounts.Call
members =
    Accounts.Call.update 2 (codes "A") UserStatus.disabled 1 20
    ∷ Accounts.Call.unbind 2 1 21
    ∷ Accounts.Call.delete 2 1 22
    ∷ []

run-AreOwned_example :
    AreOwned (Accounts.run fresh members).users (Accounts.run fresh members).key_bindings
run-AreOwned_example = run-AreOwned fresh members fresh-AreOwned

abbrev row : SessionRow
row = record {
  token_hash = codes "t";
  csrf_hash = codes "c";
  user_id = 2;
  created_at = 10;
  last_seen_at = 10;
  idle_expires_at = 20;
  absolute_expires_at = 30;
}

abbrev logged_in : Db
logged_in = record fresh { sessions = row ∷ [] }

abbrev accepted : Session
accepted = record { row = record row { last_seen_at = 15; idle_expires_at = 25 }; user = ann }

accepts : (session (codes "t") 15 25 logged_in).1 ≡ ok accepted
unfolding session touch find_session
accepts = refl

session_ok_example :
    (s : Session) × (find_session (codes "t") logged_in ≡ some s)
    × (15 < s.row.idle_expires_at)
    × (15 < 30)
    × (UserStatus.active ≡ UserStatus.active)
    × (ann ≡ s.user)
    × (25 ≤ 30)
    × (25 ≤ 25)
session_ok_example = session_ok (codes "t") 15 25 logged_in accepted accepts

-- At 20 the session has reached its idle end.
session_over_example :
    let (db', r) = session (codes "t") 20 50 logged_in in
    (r ≡ err not_found)
    × (count_where (λ s. text_eq s.token_hash (codes "t")) db'.sessions ≡ 0)
    × ((other : Text)
        → count_where
            (λ s. text_eq s.token_hash other && not (text_eq s.token_hash (codes "t")))
            db'.sessions
          ≡ count_where
              (λ s. text_eq s.token_hash other && not (text_eq s.token_hash (codes "t")))
              (row ∷ []))
    × (db' ≡ record logged_in { sessions = db'.sessions })
session_over_example =
    session_over (codes "t") 20 50 logged_in row ann refl refl (idle_ended (omega arith))

-- A second user, who is logged in with the token `u`.
abbrev bob : User
bob = record ann { id = 3; username = codes "bob" }

abbrev bob_row : SessionRow
bob_row = record row { token_hash = codes "u"; user_id = 3 }

abbrev both : Db
both = record fresh { users = ann ∷ bob ∷ []; sessions = row ∷ bob_row ∷ []; last_user_id = 3 }

abbrev without_ann : Db
without_ann = (delete_user 2 3 12 both).0

deletes : delete_user 2 3 12 both ≡ (without_ann, ok tt)
unfolding delete_user delete_user_tx update_user_row delete_sessions add_audit delete_of_user
    is_actor
deletes = refl

abbrev bob_accepted : Session
bob_accepted = record {
  row = record bob_row { last_seen_at = 15; idle_expires_at = 25 };
  user = bob;
}

accepts_bob : (session (codes "u") 15 25 without_ann).1 ≡ ok bob_accepted
unfolding session touch find_session delete_user delete_user_tx update_user_row delete_sessions
    add_audit delete_of_user is_actor
accepts_bob = refl

Revoking-refuses_example : bob.id ≢ 2
Revoking-refuses_example =
    Revoking-refuses 2 both without_ann (by_delete 3 12 deletes) (codes "u") 15 25 bob_accepted
      accepts_bob

abbrev key_list : List KeySnapshot
key_list =
    record {
      upstream_key_id = 7;
      name = codes "k2";
      mask = codes "sk-2";
      status = codes "active";
      rate_limit_5h = one;
      usage_5h = one;
      reset_5h_at = some 99;
      rate_limit_7d = one;
      usage_7d = one;
      reset_7d_at = none;
      source_updated_at = some 40;
    }
    ∷ []

abbrev renewed : Db
renewed = (apply_key_snapshots key_list 50 fresh).0

renews : apply_key_snapshots key_list 50 fresh ≡ (renewed, ok tt)
unfolding apply_key_snapshots snapshot_of
renews = refl

apply_key_snapshots_example :
    AreSynced 50 key_list (ann_key ∷ []) renewed.key_bindings
    × (renewed ≡ record fresh { key_bindings = renewed.key_bindings })
apply_key_snapshots_example = apply_key_snapshots_lem key_list 50 fresh renewed renews
