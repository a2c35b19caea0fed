-- ===== src/Tests/Logins.antt =====
-- Logins and the guard at a concrete server.
use sub2api5hlimit.Base.{
  ℕ, List, ◌+◌, ◌*◌, ◌≤◌, true, Option, none, some, [], ◌∷◌, ◌++◌, codes, count_where, text_eq,
  trim_space, trim_left, ◌≡◌, refl, arith,
}
use sub2api5hlimit.Store.Model.{User, Text, Role, SessionRow}
use sub2api5hlimit.Store.Users.{user_by_username}
use sub2api5hlimit.Store.Sessions.{
  Session, session, find_session, touch, create_session, record_login,
}
use sub2api5hlimit.Http.Login.{
  Outside, Request, other, Server, Response, refused, logged_in, second, decoded, is_parsed_same,
  same_origin, checked_user, start_session, after_check, login_blocked, record_login_failure,
  clear_login_failures, login_as, login, login_key, with_body, passed, check_request, guard_found,
  found_session, require_cookie, require_auth, require_role,
}
use sub2api5hlimit.Http.Login.Sections.{Section, asks, goes_on, play}
use sub2api5hlimit.Http.Login.Counted.{is_within}
use sub2api5hlimit.Http.Login.Limits.{AreOrdered, AreWrong, denied_bounded}
use sub2api5hlimit.Http.Login.Entered.{start_session_accepted}
use sub2api5hlimit.Store.Tx.{ok}
use sub2api5hlimit.Http.Login.Guarded.{IsAuthentic, require_role-IsAuthentic}
use sub2api5hlimit.Tests.{ann, fresh}

-- The hash of a password and of a token is the text with a `#` before it.
abbrev outside : Outside
outside = record {
  verify_password = λ hash password. text_eq hash (codes "#" ++ password);
  hash_password = λ password. some (codes "#" ++ password);
  hash_token = λ token. codes "#" ++ token;
  to_lower = λ s. s;
  equal_fold = text_eq;
}

abbrev server : Server
server = record {
  db = record fresh { users = record ann { password_hash = codes "#secret" } ∷ [] };
  login_fails = λ _. [];
}

abbrev post : Option Text → Text → Request
post cookie csrf = record {
  method = other;
  origin = codes "https://portal";
  parsed_origin = some (record { scheme = codes "https"; host = codes "portal"; path = [] });
  tls = true;
  forwarded_proto = [];
  host = codes "portal";
  remote_ip = codes "10.0.0.1";
  session_cookie = cookie;
  csrf_header = csrf;
}

abbrev answer : Server × Response → Response
answer r = r.1

abbrev status : Response → ℕ
status (refused n code) = n
status _ = 200

abbrev attempt : Text → ℕ → Server → Server × Response
unfolding login
attempt password now s =
    login outside (post none []) (decoded (codes "ann", password)) now now (some (codes "token"))
      (some (codes "csrf")) s

wrong_password : status (attempt (codes "guess") 5 server).1 ≡ 401
unfolding login login_as login_key login_blocked record_login_failure clear_login_failures
    checked_user user_by_username start_session create_session record_login after_check same_origin
    is_parsed_same with_body trim_space trim_left
wrong_password = refl

right_password : status (attempt (codes "secret") 5 server).1 ≡ 200
unfolding login login_as login_key login_blocked record_login_failure clear_login_failures
    checked_user user_by_username start_session create_session record_login after_check same_origin
    is_parsed_same with_body trim_space trim_left
right_password = refl

abbrev guess : Text → ℕ → Section
guess password now = asks (codes "ann") password now

abbrev fails_at : ℕ → Section
fails_at now = goes_on 0 now none none

-- Two guesses side by side, then one by one; the last of them after 20 minutes.
abbrev guesses : List Section
guesses =
    guess (codes "a") 1
    ∷ guess (codes "b") 2
    ∷ goes_on 1 3 none none
    ∷ fails_at 3
    ∷ guess (codes "c") 4
    ∷ fails_at 4
    ∷ guess (codes "d") 5
    ∷ fails_at 5
    ∷ guess (codes "e") 6
    ∷ fails_at 6
    ∷ guess (codes "f") 7
    ∷ fails_at 7
    ∷ guess (codes "g") (20 * 60 * second)
    ∷ fails_at (20 * 60 * second)
    ∷ []

abbrev key : Text
key = codes "ann|10.0.0.1"

-- The sixth guess is not checked, the one after 20 minutes is.
denies :
    play outside key guesses [] server
    ≡ record { denied = 3 ∷ 3 ∷ 4 ∷ 5 ∷ 6 ∷ 20 * 60 * second ∷ []; peak = 2 }
unfolding login_blocked record_login_failure clear_login_failures checked_user user_by_username
    start_session create_session record_login after_check trim_space trim_left play
denies = refl

guesses-AreWrong : AreWrong outside server.db guesses
unfolding checked_user user_by_username trim_space trim_left
guesses-AreWrong = (refl, (refl, (refl, (refl, (refl, (refl, (refl, tt)))))))

guesses-AreOrdered : AreOrdered 0 guesses
guesses-AreOrdered = (
  omega arith,
  (
    omega arith,
    (
      omega arith,
      (
        omega arith,
        (
          omega arith,
          (
            omega arith,
            (
              omega arith,
              (
                omega arith,
                (
                  omega arith,
                  (omega arith, (omega arith, (omega arith, (omega arith, (omega arith, tt))))),
                ),
              ),
            ),
          ),
        ),
      ),
    ),
  ),
)

denied_bounded_example :
    count_where (is_within 7) (play outside key guesses [] server).denied
    ≤ 4 + (play outside key guesses [] server).peak
denied_bounded_example =
    denied_bounded outside key guesses server 7 guesses-AreOrdered guesses-AreWrong

abbrev row : SessionRow
row = record {
  token_hash = codes "#token";
  csrf_hash = codes "#csrf";
  user_id = 2;
  created_at = 10;
  last_seen_at = 10;
  idle_expires_at = 20;
  absolute_expires_at = 30;
}

abbrev entered : Server
entered = record server { db = record fresh { sessions = row ∷ [] } }

abbrev found : Session
found = record { row = record row { last_seen_at = 15; idle_expires_at = 30 }; user = ann }

passes :
    (require_role outside Role.user
      (post (some (codes "token")) (codes "csrf"))
      (15 * second)
      entered).1
    ≡ passed found
unfolding require_role require_auth require_cookie found_session guard_found check_request
    same_origin is_parsed_same session find_session touch trim_space trim_left
passes = refl

require_role-IsAuthentic_example :
    IsAuthentic outside (post (some (codes "token")) (codes "csrf")) (15 * second) entered.db found
    × (found.user.role ≡ Role.user)
require_role-IsAuthentic_example =
    require_role-IsAuthentic outside Role.user (post (some (codes "token")) (codes "csrf"))
      (15 * second) entered found passes

abbrev secret_ann : User
secret_ann = record ann { password_hash = codes "#secret" }

starts :
    (start_session outside secret_ann (codes "token") (codes "csrf") (10 * second) server).1
    ≡ logged_in secret_ann (codes "token") (codes "csrf")
unfolding start_session create_session record_login
starts = refl

start_session_accepted_example :
    (found : Session) × ((session
        (codes "#token")
        20
        30
        (start_session outside secret_ann
          (codes "token")
          (codes "csrf")
          (10 * second)
          server).0.db).1
      ≡ ok found)
    × (found.user.id ≡ 2)
    × (found.row.csrf_hash ≡ codes "#csrf")
start_session_accepted_example =
    start_session_accepted outside secret_ann (codes "token") (codes "csrf") (10 * second) 20 30
      server starts refl refl (omega arith) (omega arith)
