-- ===== src/Store/Announcements/Views.antt =====
-- internal/store/announcements.go: the order of the list, and who sees an announcement as dismissed.
use sub2api5hlimit.Base.{
  ℕ, ltb, ◌<◌, ◌≤◌, ◌≡◌, refl, Bool, true, false, ◌&&◌, ◌||◌, ◌==◌, List, [], ◌∷◌, All, All-imp,
  count_where, count_where-append, Bool-cases, ◌⊎◌, inl, inr, arith,
}
use sub2api5hlimit.Store.Tx.{ok}
use sub2api5hlimit.Store.Announcements.{
  Announcement, Dismissal, Board, of_pair, dismissed, with_dismissal, dismiss_announcement, newer,
  put, announcements,
}

-- No later row of the list is newer.
abbrev pub IsSorted : List Announcement → Type 0
IsSorted [] = Unit
IsSorted (a ∷ rest) = All (λ c. newer c a ≡ false) rest × IsSorted rest

newer_asym : (a c : Announcement) → newer c a ≡ true → newer a c ≡ false
unfolding newer
newer_asym a c h = ground arith

newer_trans : (a c d : Announcement) → newer c a ≡ false → newer d c ≡ false → newer d a ≡ false
unfolding newer
newer_trans a c d h k = ground arith

All-put {κ} :
    (P : Announcement → Type κ) (a : Announcement) (rest : List Announcement)
    → P a
    → All P rest
    → All P (put a rest)
unfolding put
All-put P a [] h k = (h, tt)
All-put P a (c ∷ rest) h k = elim (Bool-cases (newer c a)) [
  | inl e ↦ rw e (k.0, All-put P a rest h k.1)
  | inr e ↦ rw e (h, k)
]

put-IsSorted : (a : Announcement) (rest : List Announcement) → IsSorted rest → IsSorted (put a rest)
unfolding put
put-IsSorted a [] h = (tt, tt)
put-IsSorted a (c ∷ rest) h = elim (Bool-cases (newer c a)) [
  | inl e ↦ rw e (
    All-put (λ (d : Announcement). newer d c ≡ false) a rest (newer_asym a c e) h.0,
    put-IsSorted a rest h.1,
  )
  | inr e ↦ rw e (
    (
      e,
      All-imp (λ (d : Announcement). newer d c ≡ false) (λ (d : Announcement). newer d a ≡ false)
          rest (λ d k. newer_trans a c d e k) h.0,
    ),
    h,
  )
]

all-IsSorted : (rows : List Announcement) → IsSorted (announcements rows)
unfolding announcements
all-IsSorted [] = tt
all-IsSorted (a ∷ rows) = put-IsSorted a (announcements rows) (all-IsSorted rows)

put-count :
    (p : Announcement → Bool) (a : Announcement) (rest : List Announcement)
    → count_where p (put a rest) ≡ count_where p (a ∷ rest)
unfolding put
put-count p a [] = refl
put-count p a (c ∷ rest) = ground (arith, put-count p a rest)

all_counted :
    (p : Announcement → Bool) (rows : List Announcement)
    → count_where p (announcements rows) ≡ count_where p rows
unfolding announcements
all_counted p [] = refl
all_counted p (a ∷ rows) = omega (arith, put-count p a (announcements rows), all_counted p rows)

-- a was published after c, or at the same time under an id that is not smaller.
abbrev Precedes : Announcement → Announcement → Type 0
Precedes a c =
    (c.published_at < a.published_at) ⊎ ((c.published_at ≡ a.published_at) × (c.id ≤ a.id))

abbrev pub AreNewestFirst : List Announcement → Type 0
AreNewestFirst [] = Unit
AreNewestFirst (a ∷ rest) = All (Precedes a) rest × AreNewestFirst rest

not_newer-Precedes : (a c : Announcement) → newer c a ≡ false → Precedes a c
unfolding newer
not_newer-Precedes a c h = elim (Bool-cases (ltb c.published_at a.published_at)) [
  | inl e ↦ inl (ground (arith, e))
  | inr e ↦ inr (ground (arith, e, h), ground (arith, e, h))
]

sorted-AreNewestFirst : (rows : List Announcement) → IsSorted rows → AreNewestFirst rows
sorted-AreNewestFirst [] h = tt
sorted-AreNewestFirst (a ∷ rest) h = (
  All-imp (λ (c : Announcement). newer c a ≡ false) (Precedes a) rest (not_newer-Precedes a) h.0,
  sorted-AreNewestFirst rest h.1,
)

-- The list of announcements has the rows of the table, each as often, newest first: each row was
-- published after every later one, or at the same time under an id that is not smaller.
pub announcements_lem :
    (rows : List Announcement)
    → AreNewestFirst (announcements rows)
      × ((p : Announcement → Bool) → count_where p (announcements rows) ≡ count_where p rows)
announcements_lem rows = (sorted-AreNewestFirst _ (all-IsSorted rows), λ p. all_counted p rows)

-- What a dismissal that succeeds did.
dismiss_cases :
    (id user_id now : ℕ) (b b' : Board)
    → dismiss_announcement id user_id now b ≡ (b', ok tt)
    → ((dismissed id user_id b ≡ true) × (b' ≡ b)) ⊎ (b' ≡ with_dismissal id user_id now b)
unfolding dismiss_announcement
dismiss_cases id user_id now b b' h = ground arith

dismissed-with_dismissal :
    (id user_id now : ℕ) (b : Board) (a v : ℕ)
    → dismissed a v (with_dismissal id user_id now b)
      ≡ (dismissed a v b || (id == a && user_id == v))
dismissed-with_dismissal id user_id now b a v = ground (
  arith,
  count_where-append (of_pair a v) b.dismissals
      (record { announcement_id = id; user_id = user_id; dismissed_at = now } ∷ []),
)

dismissed_already :
    (id user_id : ℕ) (b : Board) (a v : ℕ)
    → dismissed id user_id b ≡ true
    → dismissed a v b ≡ (dismissed a v b || (id == a && user_id == v))
dismissed_already id user_id b a v h = elim (Bool-cases (id == a && user_id == v)) [
  | inr e ↦ ground (arith, e)
  | inl e ↦
      (let one : id ≡ a = ground (arith, e) in
        let two : user_id ≡ v = ground (arith, e) in
        let seen : dismissed a v b ≡ true = rw (← one, ← two) h in rw seen refl)
]

-- A dismissal that succeeds marks the announcement for that user and does nothing else: a user sees
-- an announcement as dismissed exactly where it was before, or where it is the user and the
-- announcement of the dismissal; the announcements and the users are as before, and every earlier
-- dismissal is kept as it is.
pub dismiss_announcement_lem :
    (id user_id now : ℕ) (b b' : Board)
    → dismiss_announcement id user_id now b ≡ (b', ok tt)
    → ((a v : ℕ) → dismissed a v b' ≡ (dismissed a v b || (id == a && user_id == v)))
      × (b'.announcements ≡ b.announcements)
      × (b'.user_ids ≡ b.user_ids)
      × ((p : Dismissal → Bool) → count_where p b.dismissals ≤ count_where p b'.dismissals)
unfolding dismiss_announcement
dismiss_announcement_lem id user_id now b b' h = elim (dismiss_cases id user_id now b b' h) [
  | inl (e, same) ↦
      rw same (λ a v. dismissed_already id user_id b a v e, refl, refl, λ p. omega arith)
  | inr e ↦ rw e (
    λ a v. dismissed-with_dismissal id user_id now b a v,
    refl,
    refl,
    λ p. omega (
      arith,
      count_where-append p b.dismissals
          (record { announcement_id = id; user_id = user_id; dismissed_at = now } ∷ []),
    ),
  )
]
