-- ===== src/Http/Login/Entered.antt =====
-- A session that a login made is accepted afterwards.
use sub2api5hlimit.Base.{
  ℕ, ◌+◌, ◌<◌, Bool, true, false, not, ◌||◌, ◌==◌, if◌then◌else◌, Option, none, some, List, [], ◌∷◌,
  ◌++◌, count_where, find_where, update_where, Bool-cases, inl, inr, text_eq_self, ◌≡◌, refl, ◌∙◌,
  ap, arith,
}
use sub2api5hlimit.Store.Model.{Text, User, UserStatus, SessionRow, Db}
use sub2api5hlimit.Store.Tx.{Result, ok, err, constraint}
use sub2api5hlimit.Store.Sessions.{
  Session, session, find_session, touch, with_token, is_over, create_session, record_login,
}
use sub2api5hlimit.Http.Login.{
  Outside, Server, logged_in, in_seconds, idle_ttl, absolute_ttl, after_create, start_session,
}

module _ {A : Type 0} where
  find_where-snoc :
      (p : A → Bool) (xs : List A) (y : A)
      → (count_where p xs == 0) ≡ true
      → p y ≡ true
      → find_where p (xs ++ (y ∷ [])) ≡ some y
  find_where-snoc p [] y z e = rw e refl
  find_where-snoc p (x ∷ xs) y z e = ground (arith, find_where-snoc p xs y)

  find_where-update_where :
      (p : A → Bool) (f : A → A) (xs : List A) (x : A)
      → ((a : A) → p (f a) ≡ p a)
      → find_where p xs ≡ some x
      → find_where p (update_where p f xs) ≡ some (f x)
  find_where-update_where p f [] x same h = absurd (cc)
  find_where-update_where p f (y ∷ xs) x same h = elim (Bool-cases (p y)) [
    | inl e ↦
        let found : some y ≡ some x = rw e at h in
        let kept = same y ∙ e in
        rw e (
          rw kept (ap (λ o. elim o as (λ _. Option A) [ none ↦ none | some a ↦ some (f a) ]) found))
    | inr e ↦
        let rest : find_where p xs ≡ some x = rw e at h in
        rw e (rw e (find_where-update_where p f xs x same rest))
  ]

abbrev has_user_id : ℕ → User → Bool
has_user_id id u = u.id == id

finds :
    (token : Text) (db : Db) (row : SessionRow) (u : User)
    → find_where (with_token token) db.sessions ≡ some row
    → find_where (has_user_id row.user_id) db.users ≡ some u
    → find_session token db ≡ some (record { row = row; user = u })
unfolding find_session
finds token db row u e f =
    rw (e, find_session)
      (ap
        (λ o. elim o as (λ _. Option Session) [
          | none ↦ none
          | some x ↦ some (record { row = row; user = x })
        ])
        f)

-- A row that has not ended, of an active user who is found by id, is accepted.
session_accepts :
    (token : Text) (now next_idle : ℕ) (db : Db) (row : SessionRow) (u : User)
    → find_where (with_token token) db.sessions ≡ some row
    → find_where (has_user_id row.user_id) db.users ≡ some u
    → is_over now (record { row = row; user = u }) ≡ false
    → (found : Session) × ((session token now next_idle db).1 ≡ ok found)
      × (found.user ≡ u)
      × (found.row.csrf_hash ≡ row.csrf_hash)
unfolding session touch
session_accepts token now next_idle db row u e f over =
    rw (finds token db row u e f, session) (rw over (_, refl, refl, refl))

module _ (o : Outside) (u : User) (token csrf : Text) (now later next_idle : ℕ) where
  abbrev new_row : SessionRow
  new_row = record {
    token_hash = o.hash_token token;
    csrf_hash = o.hash_token csrf;
    user_id = u.id;
    created_at = in_seconds now;
    last_seen_at = in_seconds now;
    idle_expires_at = in_seconds (now + idle_ttl);
    absolute_expires_at = in_seconds (now + absolute_ttl);
  }

  abbrev seen : User
  seen = record u { last_login_at = some (in_seconds now); updated_at = in_seconds now }

  abbrev entered_db : Db → Db
  unfolding record_login
  entered_db db =
      record_login u.id (in_seconds now) (record db { sessions = db.sessions ++ (new_row ∷ []) })

  accepted :
      (db : Db)
      → (count_where (with_token (o.hash_token token)) db.sessions == 0) ≡ true
      → find_where (has_user_id u.id) db.users ≡ some u
      → u.status ≡ UserStatus.active
      → later < in_seconds (now + idle_ttl)
      → later < in_seconds (now + absolute_ttl)
      → (found : Session) × ((session (o.hash_token token) later next_idle (entered_db db)).1
          ≡ ok found)
        × (found.user ≡ seen)
        × (found.row.csrf_hash ≡ o.hash_token csrf)
  unfolding entered_db record_login
  accepted db fresh known active before_idle before_end =
      session_accepts (o.hash_token token) later next_idle (entered_db db) new_row seen
        (find_where-snoc (with_token (o.hash_token token)) db.sessions new_row fresh
          (text_eq_self (o.hash_token token)))
        (find_where-update_where (has_user_id u.id)
          (λ x. record x { last_login_at = some (in_seconds now); updated_at = in_seconds now })
          db.users u (λ a. refl) known)
        (rw active (ground arith))

-- A login that starts a session for an active user, found by the id: until the idle and the absolute end, the
-- store accepts the token that the login answered with, for this user, with the CSRF token of the
-- answer.
pub start_session_accepted :
    (o : Outside) (u : User) (token csrf : Text) (now later next_idle : ℕ) (s : Server)
    → (start_session o u token csrf now s).1 ≡ logged_in u token csrf
    → find_where (λ x. x.id == u.id) s.db.users ≡ some u
    → u.status ≡ UserStatus.active
    → later < in_seconds (now + idle_ttl)
    → later < in_seconds (now + absolute_ttl)
    → (found : Session) × ((session
          (o.hash_token token)
          later
          next_idle
          (start_session o u token csrf now s).0.db).1
        ≡ ok found)
      × (found.user.id ≡ u.id)
      × (found.row.csrf_hash ≡ o.hash_token csrf)
unfolding start_session create_session after_create
start_session_accepted o u token csrf now later next_idle s h known active before_idle before_end =
    go (count_where (with_token (o.hash_token token)) s.db.sessions == 0)
      (count_where (λ x. x.id == u.id) s.db.users == 0) refl h
  where
    result : Bool → Bool → Db × Result (Unit {0})
    result fresh missing = if not fresh || missing then (s.db, err constraint) else (
      record (s.db) {
        sessions = s.db.sessions ++ (new_row o u token csrf now later next_idle ∷ []);
      },
      ok tt,
    )

    go :
        (fresh missing : Bool)
        → (count_where (with_token (o.hash_token token)) s.db.sessions == 0) ≡ fresh
        → (after_create u token csrf now s (result fresh missing)).1 ≡ logged_in u token csrf
        → (found : Session) × ((session
              (o.hash_token token)
              later
              next_idle
              (after_create u token csrf now s (result fresh missing)).0.db).1
            ≡ ok found)
          × (found.user.id ≡ u.id)
          × (found.row.csrf_hash ≡ o.hash_token csrf)
    go false missing e h = absurd (cc)
    go true true e h = absurd (cc)
    go true false e h =
        let r =
          accepted o u token csrf now later next_idle s.db e known active before_idle before_end in
        (r.0, r.1, ap (λ x. x.id) r.2, r.3)
