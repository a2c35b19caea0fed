-- ===== src/Store/Announcements.antt =====
-- internal/store/announcements.go, and its two tables with their constraints
-- (migrations/004_announcements_codex.sql). The users that the foreign keys ask for are a list of ids.
pub mod Views
pub mod Posted
use sub2api5hlimit.Base.{
  ℕ, suc, ◌+◌, Bool, true, false, not, ◌&&◌, ◌||◌, ◌==◌, ltb, leb, if◌then◌else◌, Option, none,
  some, List, [], ◌∷◌, ◌++◌, length, count_where, update_where, delete_where, find_where,
  trim_space, trim_right,
}
use sub2api5hlimit.Store.Model.{Text}
use sub2api5hlimit.Store.Tx.{
  Error, not_found, announcement_title, announcement_body, constraint, Result, ok, err,
}
use sub2api5hlimit.Store.QuotaReset.Statements.{actor_of}

pub record Announcement : Type 0 where
  pub id : ℕ
  pub title : Text
  pub body : Text
  pub published_at : ℕ
  pub created_by_user_id : Option ℕ
  pub created_at : ℕ
  pub updated_at : ℕ

pub record Dismissal : Type 0 where
  pub announcement_id : ℕ
  pub user_id : ℕ
  pub dismissed_at : ℕ

pub record Board : Type 0 where
  pub announcements : List Announcement
  pub dismissals : List Dismissal
  pub user_ids : List ℕ
  pub last_id : ℕ

abbrev is_blank : ℕ → Bool
is_blank c = c == 32 || c == 9 || c == 13 || c == 10

abbrev pub between : ℕ → ℕ → ℕ → Bool
between low high n = leb low n && leb n high

unfoldable pub normalize_announcement : Text → Text → Result (Text × Text)
unfolding trim_space trim_right
normalize_announcement title body =
    let t = trim_space title in
    let b = trim_right is_blank body in
    if not (between 1 120 (length t))
    then err announcement_title
    else if not (between 1 4000 (length b))
    then err announcement_body
    else ok (t, b)

-- SQLite's length ends at a NUL, and its trim takes spaces only.
unfoldable pub sql_length : Text → ℕ
sql_length [] = 0
sql_length (c ∷ s) = if c == 0 then 0 else suc (sql_length s)

unfoldable pub left_spaces : Text → Text
left_spaces [] = []
left_spaces (c ∷ s) = if c == 32 then left_spaces s else c ∷ s

abbrev sql_trim : Text → Text
unfolding left_spaces trim_right
sql_trim s = trim_right (λ c. c == 32) (left_spaces s)

-- The CHECK constraints.
unfoldable pub fits : Text → Text → Bool
unfolding sql_length sql_trim
fits title body = between 1 120 (sql_length (sql_trim title)) && between 1 4000 (sql_length body)

abbrev pub with_id : ℕ → Announcement → Bool
with_id id a = a.id == id

-- `REFERENCES users(id)`, where NULL refers to nobody.
abbrev pub known : Option ℕ → List ℕ → Bool
known none ids = true
known (some id) ids = not (count_where (λ k. k == id) ids == 0)

unfoldable pub announcement : ℕ → Board → Result Announcement
announcement id b = elim (find_where (with_id id) b.announcements) [
  | none ↦ err not_found
  | some a ↦ ok a
]

abbrev pub posted : Text → Text → ℕ → ℕ → Board → Board
posted title body actor_id now b = record b {
  announcements =
      b.announcements
      ++ record {
        id = suc b.last_id;
        title = title;
        body = body;
        published_at = now;
        created_by_user_id = actor_of actor_id;
        created_at = now;
        updated_at = now;
      }
        ∷ [];
  last_id = suc b.last_id;
}

abbrev pub insert_announcement : ℕ → ℕ → Board → Result (Text × Text) → Board × Result Announcement
unfolding fits announcement
insert_announcement actor_id now b (err e) = (b, err e)
insert_announcement actor_id now b (ok (title, body)) =
    if not (fits title body && known (actor_of actor_id) b.user_ids) then (b, err constraint) else (
      posted title body actor_id now b,
      announcement (suc b.last_id) (posted title body actor_id now b),
    )

unfoldable pub create_announcement : Text → Text → ℕ → ℕ → Board → Board × Result Announcement
unfolding normalize_announcement insert_announcement
create_announcement title body actor_id now b =
    insert_announcement actor_id now b (normalize_announcement title body)

abbrev pub edited : ℕ → Text → Text → ℕ → Board → Board
edited id title body now b = record b {
  announcements =
      update_where (with_id id) (λ a. record a { title = title; body = body; updated_at = now })
        b.announcements;
}

-- The row's CHECK is evaluated only where a row is met.
abbrev pub edit_announcement : ℕ → ℕ → Board → Result (Text × Text) → Board × Result Announcement
unfolding fits announcement
edit_announcement id now b (err e) = (b, err e)
edit_announcement id now b (ok (title, body)) =
    if count_where (with_id id) b.announcements == 0
    then (b, err not_found)
    else if not (fits title body)
    then (b, err constraint)
    else (edited id title body now b, announcement id (edited id title body now b))

unfoldable pub update_announcement : ℕ → Text → Text → ℕ → Board → Board × Result Announcement
unfolding normalize_announcement edit_announcement
update_announcement id title body now b =
    edit_announcement id now b (normalize_announcement title body)

-- The dismissals go with their announcement (ON DELETE CASCADE).
unfoldable pub delete_announcement : ℕ → Board → Board × Result (Unit {0})
delete_announcement id b =
    if count_where (with_id id) b.announcements == 0 then (b, err not_found) else (
      record b {
        announcements = delete_where (with_id id) b.announcements;
        dismissals = delete_where (λ d. d.announcement_id == id) b.dismissals;
      },
      ok tt,
    )

abbrev pub of_pair : ℕ → ℕ → Dismissal → Bool
of_pair id user_id d = d.announcement_id == id && d.user_id == user_id

abbrev pub dismissed : ℕ → ℕ → Board → Bool
dismissed id user_id b = not (count_where (of_pair id user_id) b.dismissals == 0)

abbrev pub with_dismissal : ℕ → ℕ → ℕ → Board → Board
with_dismissal id user_id now b = record b {
  dismissals =
      b.dismissals ++ record { announcement_id = id; user_id = user_id; dismissed_at = now } ∷ [];
}

-- `INSERT … SELECT … ON CONFLICT DO NOTHING`; where no row was inserted the record decides.
unfoldable pub dismiss_announcement : ℕ → ℕ → ℕ → Board → Board × Result (Unit {0})
dismiss_announcement id user_id now b =
    if dismissed id user_id b
    then (b, ok tt)
    else if count_where (with_id id) b.announcements == 0
    then (b, err not_found)
    else if not (known (some user_id) b.user_ids)
    then (b, err constraint)
    else (with_dismissal id user_id now b, ok tt)

-- `ORDER BY published_at DESC, id DESC`
unfoldable pub newer : Announcement → Announcement → Bool
newer a c =
    if ltb c.published_at a.published_at
    then true
    else if a.published_at == c.published_at
    then ltb c.id a.id
    else false

unfoldable pub put : Announcement → List Announcement → List Announcement
unfolding newer
put a [] = a ∷ []
put a (c ∷ rest) = let later = put a rest in if newer c a then c ∷ later else a ∷ c ∷ rest

unfoldable pub announcements : List Announcement → List Announcement
unfolding put
announcements [] = []
announcements (a ∷ rest) = put a (announcements rest)

abbrev mark : ℕ → Board → List Announcement → List (Announcement × Bool)
mark user_id b [] = []
mark user_id b (a ∷ rest) = (a, dismissed a.id user_id b) ∷ mark user_id b rest

unfoldable pub announcements_for_user : ℕ → Board → List (Announcement × Bool)
unfolding announcements
announcements_for_user user_id b = mark user_id b (announcements b.announcements)
