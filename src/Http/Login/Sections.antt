-- ===== src/Http/Login/Sections.antt =====
-- internal/httpapi/auth.go: handlers of `login` side by side, section by section of `loginMu`.
use sub2api5hlimit.Base.{
  ℕ, zero, suc, get_elem?, Bool, false, ◌==◌, ltb, if◌then◌else◌, Option, none, some, List, [], ◌∷◌,
  length,
}
use sub2api5hlimit.Store.Model.{Text}
use sub2api5hlimit.Http.Login.{
  Outside, Server, Response, refused, login_blocked, checked_user, after_check,
}

-- Handlers of logins with one key that run side by side: one starts and tests the limit, or one of
-- those that passed the test goes on, in any order.
pub data Section : Type 0 where
  asks : Text → Text → ℕ → Section
  goes_on : ℕ → ℕ → Option Text → Option Text → Section

abbrev pub drop_at {ℓ} : {A : Type ℓ} → List A → ℕ → List A
drop_at [] n = []
drop_at (x ∷ xs) zero = xs
drop_at (x ∷ xs) (suc n) = x ∷ drop_at xs n

abbrev pub is_denied : Response → Bool
is_denied (refused status code) = status == 401
is_denied _ = false

-- The times of the answers 401, and the most handlers that were past the test at once.
pub record Played : Type 0 where
  pub denied : List ℕ
  pub peak : ℕ

abbrev pub at_least : ℕ → Played → Played
at_least n p = record p { peak = if ltb p.peak n then n else p.peak }

abbrev pub answered : Bool → ℕ → Played → Played
answered deny now p = record p { denied = if deny then now ∷ p.denied else p.denied }

-- The handlers with the credentials `flight` are past the test and before the check.
unfoldable pub play : Outside → Text → List Section → List (Text × Text) → Server → Played
unfolding login_blocked checked_user after_check
play o key [] flight s = record { denied = []; peak = length flight }
play o key (asks username password now ∷ sections) flight s =
    let (s', blocked) = login_blocked key now s in
    at_least (length flight)
      (play o key sections (if blocked then flight else (username, password) ∷ flight) s')
play o key (goes_on n now token csrf ∷ sections) flight s = elim (get_elem? flight n) [
  | none ↦ play o key sections flight s
  | some c ↦
      let (s', r) = after_check o key now token csrf (checked_user o c.0 c.1 s.db) s in
      at_least (length flight)
        (answered (is_denied r) now (play o key sections (drop_at flight n) s'))
]
