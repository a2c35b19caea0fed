-- ===== src/Store/Announcements/Posted.antt =====
-- internal/store/announcements.go: what every history of calls keeps.
use sub2api5hlimit.Base.{
  ℕ, suc, ◌≤◌, ◌<◌, ◌≡◌, ◌≢◌, refl, Bool, true, false, ◌&&◌, ◌==◌, List, [], ◌∷◌, some,
  delete_where, length, All, All-imp, All-append, All-update_where, All-delete_where, count_where,
  count_where-append, count_where-update_where_eq, count_where-delete_where_le, Bool-cases, inl,
  inr, arith,
}
use sub2api5hlimit.Store.Model.{Text}
use sub2api5hlimit.Store.QuotaReset.Statements.{actor_of}
use sub2api5hlimit.Store.Tx.{Result, ok, err}
use sub2api5hlimit.Store.Announcements.{
  Announcement, Dismissal, Board, normalize_announcement, between, fits, with_id, of_pair,
  dismissed, known, with_dismissal, posted, edited, insert_announcement, edit_announcement,
  create_announcement, update_announcement, delete_announcement, dismiss_announcement,
}

pub data Call : Type 0 where
  create : Text → Text → ℕ → ℕ → Call
  update : ℕ → Text → Text → ℕ → Call
  delete : ℕ → Call
  dismiss : ℕ → ℕ → ℕ → Call

unfoldable pub step : Board → Call → Board
step b (create title body actor now) = (create_announcement title body actor now b).0
step b (update id title body now) = (update_announcement id title body now b).0
step b (delete id) = (delete_announcement id b).0
step b (dismiss id user_id now) = (dismiss_announcement id user_id now b).0

unfoldable pub run : Board → List Call → Board
run b [] = b
run b (c ∷ cs) = run (step b c) cs

-- Titles have 1 to 120 and bodies 1 to 4000 characters.
abbrev pub IsSized : Announcement → Type 0
IsSized a = (between 1 120 (length a.title) ≡ true) × (between 1 4000 (length a.body) ≡ true)

pub record IsPosted (b : Board) : Type 0 where
  pub sized : All IsSized b.announcements
  pub below : All (λ a. a.id ≤ b.last_id) b.announcements
  pub unique : (id : ℕ) → count_where (with_id id) b.announcements ≤ 1
  pub one_dismissal : (id user_id : ℕ) → count_where (of_pair id user_id) b.dismissals ≤ 1
  pub refers : All (λ d. count_where (with_id d.announcement_id) b.announcements ≢ 0) b.dismissals

normalize_sized :
    (title body t s : Text)
    → normalize_announcement title body ≡ ok (t, s)
    → (between 1 120 (length t) ≡ true) × (between 1 4000 (length s) ≡ true)
unfolding normalize_announcement
normalize_sized title body t s h = ground arith

posted-IsPosted :
    (title body : Text) (actor now : ℕ) (b : Board)
    → between 1 120 (length title) ≡ true
    → between 1 4000 (length body) ≡ true
    → IsPosted b
    → IsPosted (posted title body actor now b)
posted-IsPosted title body actor now b t s v = record {
  sized = All-append IsSized b.announcements _ v.sized ((t, s), tt);
  below =
      All-append (λ (a : Announcement). a.id ≤ suc b.last_id) b.announcements _
        (All-imp (λ (a : Announcement). a.id ≤ b.last_id)
          (λ (a : Announcement). a.id ≤ suc b.last_id) b.announcements (λ a h. omega (arith, h))
          v.below)
        (omega arith, tt);
  unique = λ id. fresh_id id;
  one_dismissal = v.one_dismissal;
  refers =
      All-imp (λ (d : Dismissal). count_where (with_id d.announcement_id) b.announcements ≢ 0)
        (λ (d : Dismissal).
          count_where (with_id d.announcement_id) (posted title body actor now b).announcements ≢ 0)
        b.dismissals
        (λ d h.
          omega
            (arith, h, count_where-append (with_id d.announcement_id) b.announcements (new ∷ [])))
        v.refers;
}
  where
    new : Announcement
    new = record {
      id = suc b.last_id;
      title = title;
      body = body;
      published_at = now;
      created_by_user_id = actor_of actor;
      created_at = now;
      updated_at = now;
    }

    none_above :
        (id : ℕ) (rows : List Announcement)
        → All (λ a. a.id ≤ b.last_id) rows
        → b.last_id < id
        → count_where (with_id id) rows ≡ 0
    none_above id [] h k = refl
    none_above id (a ∷ rows) h k = ground (arith, none_above id rows h.1 k, h.0)

    fresh_id : (id : ℕ) → count_where (with_id id) (posted title body actor now b).announcements ≤ 1
    fresh_id id = ground (
      arith,
      v.unique id,
      none_above id b.announcements v.below,
      count_where-append (with_id id) b.announcements (new ∷ []),
    )

edited-IsPosted :
    (id : ℕ) (title body : Text) (now : ℕ) (b : Board)
    → between 1 120 (length title) ≡ true
    → between 1 4000 (length body) ≡ true
    → IsPosted b
    → IsPosted (edited id title body now b)
edited-IsPosted id title body now b t s v = record {
  sized = All-update_where IsSized (with_id id) edit b.announcements (λ a _ _. (t, s)) v.sized;
  below =
      All-update_where (λ a. a.id ≤ b.last_id) (with_id id) edit b.announcements (λ a h _. h)
        v.below;
  unique = λ m. omega (arith, v.unique m, same m);
  one_dismissal = v.one_dismissal;
  refers =
      All-imp (λ (d : Dismissal). count_where (with_id d.announcement_id) b.announcements ≢ 0)
        (λ (d : Dismissal).
          count_where (with_id d.announcement_id) (edited id title body now b).announcements ≢ 0)
        b.dismissals (λ d h. omega (arith, h, same d.announcement_id)) v.refers;
}
  where
    edit : Announcement → Announcement
    edit a = record a { title = title; body = body; updated_at = now }

    same :
        (m : ℕ)
        → count_where (with_id m) (edited id title body now b).announcements
          ≡ count_where (with_id m) b.announcements
    same m = count_where-update_where_eq (with_id m) (with_id id) edit b.announcements (λ a _. refl)

create-IsPosted :
    (title body : Text) (actor now : ℕ) (b : Board)
    → IsPosted b
    → IsPosted (create_announcement title body actor now b).0
unfolding create_announcement
create-IsPosted title body actor now b v = go (normalize_announcement title body) refl
  where
    go :
        (r : Result (Text × Text))
        → normalize_announcement title body ≡ r
        → IsPosted (insert_announcement actor now b r).0
    go (err e) h = v
    go (ok (t, s)) h = elim (Bool-cases (fits t s && known (actor_of actor) b.user_ids)) [
      | inl e ↦ rw e (
          posted-IsPosted t s actor now b (normalize_sized title body t s h).0
            (normalize_sized title body t s h).1 v)
      | inr e ↦ rw e v
    ]

update-IsPosted :
    (id : ℕ) (title body : Text) (now : ℕ) (b : Board)
    → IsPosted b
    → IsPosted (update_announcement id title body now b).0
unfolding update_announcement
update-IsPosted id title body now b v = go (normalize_announcement title body) refl
  where
    go :
        (r : Result (Text × Text))
        → normalize_announcement title body ≡ r
        → IsPosted (edit_announcement id now b r).0
    go (err e) h = v
    go (ok (t, s)) h = elim (Bool-cases (count_where (with_id id) b.announcements == 0)) [
      | inl z ↦ rw z v
      | inr z ↦ elim (Bool-cases (fits t s)) [
        | inl e ↦
            rw (z, e)
              (edited-IsPosted id t s now b (normalize_sized title body t s h).0
                (normalize_sized title body t s h).1 v)
        | inr e ↦ rw (z, e) v
      ]
    ]

delete_where-other :
    (q p : Announcement → Bool) (rows : List Announcement)
    → ((a : Announcement) → p a ≡ true → q a ≡ false)
    → count_where q (delete_where p rows) ≡ count_where q rows
delete_where-other q p [] h = refl
delete_where-other q p (a ∷ rows) h = ground (arith, h a, delete_where-other q p rows h)

deleted-IsPosted :
    (id : ℕ) (b : Board)
    → IsPosted b
    → IsPosted (record b {
      announcements = delete_where (with_id id) b.announcements;
      dismissals = delete_where (λ d. d.announcement_id == id) b.dismissals;
    })
deleted-IsPosted id b v = record {
  sized = kept IsSized v.sized;
  below = kept (λ a. a.id ≤ b.last_id) v.below;
  unique = λ m.
      omega
        (arith, v.unique m, count_where-delete_where_le (with_id m) (with_id id) b.announcements);
  one_dismissal = λ m u. omega (
    arith,
    v.one_dismissal m u,
    count_where-delete_where_le (of_pair m u) (λ (d : Dismissal). d.announcement_id == id)
        b.dismissals,
  );
  refers =
      All-imp
        (λ (d : Dismissal).
          (count_where (with_id d.announcement_id) b.announcements ≢ 0)
          × ((d.announcement_id == id) ≡ false))
        (λ (d : Dismissal).
          count_where (with_id d.announcement_id) (delete_where (with_id id) b.announcements) ≢ 0)
        (delete_where (λ (d : Dismissal). d.announcement_id == id) b.dismissals)
        (λ d h. omega (
          arith,
          h.0,
          delete_where-other (with_id d.announcement_id) (with_id id) b.announcements
              (λ a e. ground (arith, h.1, e)),
        ))
        (All-delete_where
          (λ (d : Dismissal). count_where (with_id d.announcement_id) b.announcements ≢ 0)
          (λ (d : Dismissal). d.announcement_id == id) b.dismissals v.refers);
}
  where
    kept :
        (P : Announcement → Type 0)
        → All P b.announcements
        → All P (delete_where (with_id id) b.announcements)
    kept P h =
        All-imp (λ (a : Announcement). P a × (with_id id a ≡ false)) P
          (delete_where (with_id id) b.announcements) (λ a k. k.0)
          (All-delete_where P (with_id id) b.announcements h)

delete-IsPosted : (id : ℕ) (b : Board) → IsPosted b → IsPosted (delete_announcement id b).0
unfolding delete_announcement
delete-IsPosted id b v = elim (Bool-cases (count_where (with_id id) b.announcements == 0)) [
  | inl e ↦ rw e v
  | inr e ↦ rw e (deleted-IsPosted id b v)
]

dismissed-IsPosted :
    (id user_id now : ℕ) (b : Board)
    → dismissed id user_id b ≡ false
    → (count_where (with_id id) b.announcements == 0) ≡ false
    → IsPosted b
    → IsPosted (with_dismissal id user_id now b)
dismissed-IsPosted id user_id now b fresh there v = record {
  sized = v.sized;
  below = v.below;
  unique = v.unique;
  one_dismissal = λ m u.
      ground (
        arith,
        fresh,
        v.one_dismissal m u,
        count_where-append (of_pair m u) b.dismissals (new ∷ []),
      );
  refers =
      All-append (λ (d : Dismissal). count_where (with_id d.announcement_id) b.announcements ≢ 0)
        b.dismissals (new ∷ []) v.refers (ground (arith, there), tt);
}
  where
    new : Dismissal
    new = record { announcement_id = id; user_id = user_id; dismissed_at = now }

dismiss-IsPosted :
    (id user_id now : ℕ) (b : Board)
    → IsPosted b
    → IsPosted (dismiss_announcement id user_id now b).0
unfolding dismiss_announcement
dismiss-IsPosted id user_id now b v = elim (Bool-cases (dismissed id user_id b)) [
  | inl e ↦ rw e v
  | inr e ↦ elim (Bool-cases (count_where (with_id id) b.announcements == 0)) [
    | inl z ↦ rw (e, z) v
    | inr z ↦ elim (Bool-cases (known (some user_id) b.user_ids)) [
      | inl k ↦ rw (e, z, k) (dismissed-IsPosted id user_id now b e z v)
      | inr k ↦ rw (e, z, k) v
    ]
  ]
]

step-IsPosted : (b : Board) (c : Call) → IsPosted b → IsPosted (step b c)
unfolding step
step-IsPosted b (create title body actor now) v = create-IsPosted title body actor now b v
step-IsPosted b (update id title body now) v = update-IsPosted id title body now b v
step-IsPosted b (delete id) v = delete-IsPosted id b v
step-IsPosted b (dismiss id user_id now) v = dismiss-IsPosted id user_id now b v

-- From a board where it holds, every history of calls leads to one where titles have 1 to 120 and
-- bodies 1 to 4000 characters, ids are distinct and none is beyond the sequence, a user dismisses an
-- announcement at most once, and every dismissal refers to an announcement of the table.
pub run-IsPosted : (b : Board) (cs : List Call) → IsPosted b → IsPosted (run b cs)
unfolding run
run-IsPosted b [] v = v
run-IsPosted b (c ∷ cs) v = run-IsPosted (step b c) cs (step-IsPosted b c v)
