-- ===== src/Http/Login/Guarded.antt =====
-- What a request that passes the guard has.
use sub2api5hlimit.Base.{
  ℕ, ◌+◌, ◌<◌, Bool, true, false, not, ◌&&◌, ◌||◌, if◌then◌else◌, Option, none, some, text_eq,
  trim_space, codes, ◌≡◌, refl, ap, ◌∙◌, subst,
}
use sub2api5hlimit.Store.Model.{Text, Role, UserStatus, Db}
use sub2api5hlimit.Store.Tx.{Result, ok, err}
use sub2api5hlimit.Store.Sessions.{Session, session}
use sub2api5hlimit.Store.Accounts.Sessions.{session_ok}
use sub2api5hlimit.Http.Login.{
  Outside, Request, Server, Response, refused, Guard, passed, stopped, guard_of, is_empty,
  is_safe_method, same_origin, in_seconds, idle_ttl, check_request, guard_found, found_session,
  require_cookie, require_auth, has_role, with_role, require_role,
}

-- A request that may change something comes from the portal's own pages with the session's CSRF token.
abbrev pub is_trusted : Outside → Request → Session → Bool
is_trusted o r session =
    is_safe_method r.method
    || same_origin o r && text_eq (o.hash_token r.csrf_header) session.row.csrf_hash

-- What is behind a session that passed.
pub record IsAuthentic (o : Outside) (r : Request) (now : ℕ) (db : Db) (s : Session) : Type 0 where
  pub token : Text
  pub has_cookie : r.session_cookie ≡ some token
  pub is_session :
      (session (o.hash_token token) (in_seconds now) (in_seconds (now + idle_ttl)) db).1 ≡ ok s
  pub is_active_user : s.user.status ≡ UserStatus.active
  pub before_end : in_seconds now < s.row.absolute_expires_at
  pub trusted : is_trusted o r s ≡ true

check_request-none :
    (o : Outside) (r : Request) (s : Session) → check_request o r s ≡ none → is_trusted o r s ≡ true
unfolding check_request
check_request-none o r s h =
    go (is_safe_method r.method) (same_origin o r) (is_empty r.csrf_header)
      (text_eq (o.hash_token r.csrf_header) s.row.csrf_hash) h
  where
    go :
        (a b c d : Bool)
        → (if a
            then none
            else if not b
            then some (refused 403 (codes "ORIGIN_REJECTED"))
            else if c || not d
            then some (refused 403 (codes "CSRF_REJECTED"))
            else none)
          ≡ none
        → (a || b && d) ≡ true
    go true b c d h = refl
    go false false c d h = absurd (cc)
    go false true true d h = absurd (cc)
    go false true false true h = refl
    go false true false false h = absurd (cc)

module _ (o : Outside) (r : Request) (now : ℕ) (s : Server) (found : Session) where
  checked_found :
      (token : Text) (f : Session)
      → r.session_cookie ≡ some token
      → (session (o.hash_token token) (in_seconds now) (in_seconds (now + idle_ttl)) s.db).1 ≡ ok f
      → (q : Option Response) → check_request o r f ≡ q
      → guard_of q f ≡ passed found
      → IsAuthentic o r now s.db found
  checked_found token f c i (some q) e h = absurd (cc)
  checked_found token f c i none e h =
      let same : f ≡ found = cc in
      let i' =
        subst
          (λ x.
            (session (o.hash_token token) (in_seconds now) (in_seconds (now + idle_ttl)) s.db).1
            ≡ ok x)
          same i in
      let (_, _, _, before, act, _, _, _) =
        session_ok (o.hash_token token) (in_seconds now) (in_seconds (now + idle_ttl)) s.db found
          i' in
      record {
        token = token;
        has_cookie = c;
        is_session = i';
        is_active_user = act;
        before_end = before;
        trusted = check_request-none o r found (subst (λ x. check_request o r x ≡ none) same e);
      }

  accepted_found :
      (token : Text)
      → r.session_cookie ≡ some token
      → (x : Result Session)
      → (session (o.hash_token token) (in_seconds now) (in_seconds (now + idle_ttl)) s.db).1 ≡ x
      → guard_found o r x ≡ passed found
      → IsAuthentic o r now s.db found
  unfolding guard_found
  accepted_found token c (err e) i h = absurd (cc)
  accepted_found token c (ok f) i h = checked_found token f c i (check_request o r f) refl h

  blank_found :
      (token : Text) (b : Bool)
      → r.session_cookie ≡ some token
      → (if b
          then (s, stopped (refused 401 (codes "UNAUTHENTICATED")))
          else found_session o r now s token).1
        ≡ passed found
      → IsAuthentic o r now s.db found
  unfolding found_session
  blank_found token true c h = absurd (cc)
  blank_found token false c h = accepted_found token c _ refl h

  cookie_found :
      (c : Option Text)
      → r.session_cookie ≡ c
      → (require_cookie o r now s c).1 ≡ passed found
      → IsAuthentic o r now s.db found
  unfolding require_cookie
  cookie_found none c h = absurd (cc)
  cookie_found (some token) c h = blank_found token (is_empty (trim_space token)) c h

-- A request that passes requireRole has the cookie of a session that the store accepts, whose user is
-- active with that role and which is before its absolute end; and it is a GET, HEAD or OPTIONS, or it
-- comes from the same origin with the session's CSRF token.
pub require_role-IsAuthentic :
    (o : Outside) (role : Role) (r : Request) (now : ℕ) (s : Server) (found : Session)
    → (require_role o role r now s).1 ≡ passed found
    → IsAuthentic o r now s.db found × (found.user.role ≡ role)
unfolding require_role require_auth
require_role-IsAuthentic o role r now s found h =
    go (require_cookie o r now s r.session_cookie).1 refl h
  where
    same_role : (a b : Role) → has_role a b ≡ true → a ≡ b
    same_role Role.admin Role.admin h = refl
    same_role Role.user Role.user h = refl
    same_role Role.admin Role.user h = absurd (cc)
    same_role Role.user Role.admin h = absurd (cc)

    role_passed :
        (f : Session) (b : Bool)
        → has_role f.user.role role ≡ b
        → (if b then passed f else stopped (refused 403 (codes "FORBIDDEN"))) ≡ passed found
        → (f ≡ found) × (has_role f.user.role role ≡ true)
    role_passed f true e h = (cc, e)
    role_passed f false e h = absurd (cc)

    go :
        (g : Guard)
        → (require_cookie o r now s r.session_cookie).1 ≡ g
        → with_role role g ≡ passed found
        → IsAuthentic o r now s.db found × (found.user.role ≡ role)
    go (stopped q) e h = absurd (cc)
    go (passed f) e h =
        let both = role_passed f (has_role f.user.role role) refl h in
        (
          cookie_found o r now s found r.session_cookie refl (e ∙ ap passed both.0),
          subst (λ x. x.user.role ≡ role) both.0 (same_role f.user.role role both.1),
        )
