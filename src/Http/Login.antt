-- ===== src/Http/Login.antt =====
-- internal/httpapi/auth.go and server.go: logging in and out, the limit on failed logins, and the guard in
-- front of the handlers. Passwords and tokens (internal/secure), parsed URLs and folding of case are
-- parameters. The clock gives nanoseconds, the store takes seconds.
pub mod Sections
pub mod Counted
pub mod Limits
pub mod Guarded
pub mod Entered
use sub2api5hlimit.Base.{
  ℕ, zero, suc, get_elem?, ◌+◌, ◌*◌, ◌/◌, ◌^◌, Bool, true, false, not, ◌&&◌, ◌||◌, ◌==◌, ltb, leb,
  if◌then◌else◌, Option, none, some, List, [], ◌∷◌, ◌++◌, codes, length, text_eq, trim_space,
  trim_left, select_where,
}
use sub2api5hlimit.Store.Model.{Text, Role, User, KeyBinding, Db, is_active}
use sub2api5hlimit.Store.Tx.{Error, Result, ok, err}
use sub2api5hlimit.Store.Users.{
  user_by_username, user_by_id, set_user_password, set_user_password_tx,
}
use sub2api5hlimit.Store.Sessions.{
  Session, find_session, touch, create_session, session, delete_session, record_login,
}

-- What the handlers call of other packages.
pub record Outside : Type 0 where
  pub verify_password : Text → Text → Bool
  pub hash_password : Text → Option Text
  pub hash_token : Text → Text
  pub to_lower : Text → Text
  pub equal_fold : Text → Text → Bool

pub record Origin : Type 0 where
  pub scheme : Text
  pub host : Text
  pub path : Text

pub data Method : Type 0 where
  get head options other : Method

-- The parsed origin is absent where url.Parse fails.
pub record Request : Type 0 where
  pub method : Method
  pub origin : Text
  pub parsed_origin : Option Origin
  pub tls : Bool
  pub forwarded_proto : Text
  pub host : Text
  pub remote_ip : Text
  pub session_cookie : Option Text
  pub csrf_header : Text

pub record Server : Type 0 where
  pub db : Db
  pub login_fails : Text → List ℕ

-- decodeJSON: another content type, no JSON object of the wanted form, or its value.
pub data Body (A : Type 0) : Type 0 where
  not_json malformed : Body A
  decoded : A → Body A

pub data Response : Type 0 where
  refused : ℕ → Text → Response
  store_error : Error → Response
  logged_in : User → Text → Text → Response
  logged_out changed : Response

abbrev pub is_empty : Text → Bool
is_empty [] = true
is_empty (_ ∷ _) = false

unfoldable pub is_parsed_same : Outside → Request → Option Origin → Bool
is_parsed_same o r none = false
is_parsed_same o r (some u) =
    not (is_empty u.scheme)
    && not (is_empty u.host)
    && is_empty u.path
    && o.equal_fold u.scheme (
        if r.tls || o.equal_fold r.forwarded_proto (codes "https")
        then codes "https"
        else codes "http")
    && o.equal_fold u.host r.host

unfoldable pub same_origin : Outside → Request → Bool
unfolding is_parsed_same trim_space trim_left
same_origin o r = not (is_empty (trim_space r.origin)) && is_parsed_same o r r.parsed_origin

abbrev pub is_safe_method : Method → Bool
is_safe_method other = false
is_safe_method _ = true

abbrev pub second : ℕ
second = 10 ^ 9

abbrev pub in_seconds : ℕ → ℕ
in_seconds t = t / second

-- 15 minutes, 12 hours and 7 days.
abbrev pub fail_window : ℕ
fail_window = 15 * 60 * second

abbrev pub idle_ttl : ℕ
idle_ttl = 12 * 60 * 60 * second

abbrev pub absolute_ttl : ℕ
absolute_ttl = 7 * 24 * 60 * 60 * second

abbrev pub put_fails : Text → List ℕ → Server → Server
put_fails key values s = record s {
  login_fails = λ k. if text_eq k key then values else s.login_fails k;
}

-- `value.After(now - 15 minutes)`
abbrev pub is_recent : ℕ → ℕ → Bool
is_recent now value = ltb now (value + fail_window)

unfoldable pub login_blocked : Text → ℕ → Server → Server × Bool
login_blocked key now s =
    let values = select_where (is_recent now) (s.login_fails key) in
    (put_fails key values s, leb 5 (length values))

unfoldable pub record_login_failure : Text → ℕ → Server → Server
record_login_failure key now s = put_fails key (s.login_fails key ++ (now ∷ [])) s

unfoldable pub clear_login_failures : Text → Server → Server
clear_login_failures key s = put_fails key [] s

unfoldable pub login_key : Outside → Text → Text → Text
unfolding trim_space trim_left
login_key o username remote_ip = o.to_lower (trim_space username) ++ codes "|" ++ remote_ip

-- The user with this name and password who may log in.
unfoldable pub checked_user : Outside → Text → Text → Db → Option User
unfolding user_by_username
checked_user o username password db = elim (user_by_username username db) [
  | err e ↦ none
  | ok u ↦ if is_active u.status && o.verify_password u.password_hash password then some u else none
]

abbrev pub with_db : Db → Server → Server
with_db db s = record s { db = db }

abbrev pub after_create :
    User → Text → Text → ℕ → Server → Db × Result (Unit {0}) → Server × Response
unfolding record_login
after_create u token csrf now s (db', err e) = (with_db db' s, store_error e)
after_create u token csrf now s (db', ok _) =
    (with_db (record_login u.id (in_seconds now) db') s, logged_in u token csrf)

-- CreateSession and RecordLogin.
unfoldable pub start_session : Outside → User → Text → Text → ℕ → Server → Server × Response
unfolding create_session record_login
start_session o u token csrf now s = after_create u token csrf now s (
    create_session (o.hash_token token) (o.hash_token csrf) u.id (in_seconds now)
      (in_seconds (now + idle_ttl)) (in_seconds (now + absolute_ttl)) s.db)

-- After the check of the password; a random token is absent where none could be made.
unfoldable pub after_check :
    Outside → Text → ℕ → Option Text → Option Text → Option User → Server → Server × Response
unfolding record_login_failure clear_login_failures start_session
after_check o key now token csrf none s =
    (record_login_failure key now s, refused 401 (codes "INVALID_CREDENTIALS"))
after_check o key now none csrf (some u) s =
    (clear_login_failures key s, refused 500 (codes "RANDOM_ERROR"))
after_check o key now (some t) none (some u) s =
    (clear_login_failures key s, refused 500 (codes "RANDOM_ERROR"))
after_check o key now (some t) (some c) (some u) s =
    start_session o u t c now (clear_login_failures key s)

-- `login` from the test of the limit on, with no other handler between its sections: the limit is
-- tested at `asked`, and the password's outcome is recorded at `now`.
unfoldable pub login_as :
    Outside → Text → Text → Text → ℕ → ℕ → Option Text → Option Text → Server → Server × Response
unfolding login_blocked checked_user after_check
login_as o key username password asked now token csrf s =
    let (s', blocked) = login_blocked key asked s in
    if blocked
    then (s', refused 429 (codes "LOGIN_RATE_LIMITED"))
    else after_check o key now token csrf (checked_user o username password s'.db) s'

-- `if !decodeJSON(w, r, &request) { return }`
unfoldable pub with_body :
    {A : Type 0} → Server → Body A → (A → Server × Response) → Server × Response
with_body s not_json next = (s, refused 415 (codes "JSON_REQUIRED"))
with_body s malformed next = (s, refused 400 (codes "INVALID_JSON"))
with_body s (decoded a) next = next a

-- The body is the user name with the password.
unfoldable pub login :
    Outside
    → Request
    → Body (Text × Text)
    → ℕ
    → ℕ
    → Option Text
    → Option Text
    → Server
    → Server × Response
unfolding same_origin login_as login_key with_body
login o r body asked now token csrf s =
    if not (same_origin o r)
    then (s, refused 403 (codes "ORIGIN_REJECTED"))
    else with_body s body λ credentials.
      login_as o (login_key o credentials.0 r.remote_ip) credentials.0 credentials.1 asked now token
        csrf s

unfoldable pub logout : Outside → Request → Server → Server × Response
unfolding delete_session
logout o r s = elim r.session_cookie [
  | none ↦ (s, logged_out)
  | some token ↦ (with_db (delete_session (o.hash_token token) s.db) s, logged_out)
]

-- requireAuth after the session was found: whether the request goes on to the handler.
unfoldable pub check_request : Outside → Request → Session → Option Response
unfolding same_origin
check_request o r session =
    if is_safe_method r.method
    then none
    else if not (same_origin o r)
    then some (refused 403 (codes "ORIGIN_REJECTED"))
    else if is_empty r.csrf_header
        || not (text_eq (o.hash_token r.csrf_header) session.row.csrf_hash)
    then some (refused 403 (codes "CSRF_REJECTED"))
    else none

-- The session with which the handler runs, or the refusal.
pub data Guard : Type 0 where
  passed : Session → Guard
  stopped : Response → Guard

abbrev pub guard_of : Option Response → Session → Guard
guard_of none session = passed session
guard_of (some r) session = stopped r

unfoldable pub guard_found : Outside → Request → Result Session → Guard
unfolding check_request
guard_found o r (err e) = stopped (refused 401 (codes "UNAUTHENTICATED"))
guard_found o r (ok session) = guard_of (check_request o r session) session

unfoldable pub found_session : Outside → Request → ℕ → Server → Text → Server × Guard
unfolding session guard_found
found_session o r now s token =
    let (db', found) =
      session (o.hash_token token) (in_seconds now) (in_seconds (now + idle_ttl)) s.db in
    (with_db db' s, guard_found o r found)

unfoldable pub require_cookie : Outside → Request → ℕ → Server → Option Text → Server × Guard
unfolding found_session trim_space trim_left
require_cookie o r now s none = (s, stopped (refused 401 (codes "UNAUTHENTICATED")))
require_cookie o r now s (some token) =
    if is_empty (trim_space token)
    then (s, stopped (refused 401 (codes "UNAUTHENTICATED")))
    else found_session o r now s token

unfoldable pub require_auth : Outside → Request → ℕ → Server → Server × Guard
unfolding require_cookie
require_auth o r now s = require_cookie o r now s r.session_cookie

abbrev pub has_role : Role → Role → Bool
has_role Role.admin Role.admin = true
has_role Role.user Role.user = true
has_role _ _ = false

-- The rest of requireRole.
abbrev pub with_role : Role → Guard → Guard
with_role role (stopped r) = stopped r
with_role role (passed session) =
    if has_role session.user.role role
    then passed session
    else stopped (refused 403 (codes "FORBIDDEN"))

unfoldable pub require_role : Outside → Role → Request → ℕ → Server → Server × Guard
unfolding require_auth
require_role o role r now s = let (s', guard) = require_auth o r now s in (s', with_role role guard)

abbrev pub after_set : Server → Db × Result (Unit {0}) → Server × Response
after_set s (db', err e) = (with_db db' s, store_error e)
after_set s (db', ok _) = (with_db db' s, changed)

abbrev pub set_hash : ℕ → ℕ → Server → Option Text → Server × Response
unfolding set_user_password
set_hash id now s none = (s, refused 400 (codes "INVALID_PASSWORD"))
set_hash id now s (some hash) = after_set s (set_user_password id hash id (in_seconds now) s.db)

abbrev pub is_password_of : Outside → Text → Result (User × Option KeyBinding) → Bool
is_password_of o password (err e) = false
is_password_of o password (ok (u, _)) = o.verify_password u.password_hash password

-- The body is the current password with the new one.
unfoldable pub change_password :
    Outside → Session → Body (Text × Text) → ℕ → Server → Server × Response
unfolding user_by_id set_user_password with_body
change_password o session body now s = with_body s body λ passwords.
    if is_password_of o passwords.0 (user_by_id session.user.id s.db)
    then set_hash session.user.id now s (o.hash_password passwords.1)
    else (s, refused 401 (codes "INVALID_CREDENTIALS"))
