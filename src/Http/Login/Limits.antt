-- ===== src/Http/Login/Limits.antt =====
-- The limit on failed logins, with handlers that run side by side.
use sub2api5hlimit.Base.{
  ℕ, zero, suc, ◌+◌, ◌≤◌, true, false, leb, Option, none, some, List, [], ◌∷◌, ◌++◌, length,
  select_where, count_where, All, text_eq_self, Bool-cases, Option-cases, inl, inr, ◌≡◌, refl,
  get_elem?, arith,
}
use sub2api5hlimit.Store.Model.{Text, Db}
use sub2api5hlimit.Http.Login.{
  Outside, Server, is_recent, put_fails, login_blocked, record_login_failure, checked_user,
  after_check,
}
use sub2api5hlimit.Http.Login.Sections.{
  Section, asks, goes_on, drop_at, Played, at_least, answered, play,
}
use sub2api5hlimit.Http.Login.Counted.{
  is_within, Counted, with_answer, Counted-blocked, Counted-passed, Counted-later, Counted-denied,
}

-- No section is earlier than the one before it.
abbrev pub AreOrdered : ℕ → List Section → Type 0
AreOrdered last [] = Unit
AreOrdered last (asks _ _ now ∷ sections) = (last ≤ now) × AreOrdered now sections
AreOrdered last (goes_on _ now _ _ ∷ sections) = (last ≤ now) × AreOrdered now sections

abbrev pub IsWrong : Outside → Db → Text × Text → Type 0
IsWrong o db c = checked_user o c.0 c.1 db ≡ none

-- No handler has the password of a user.
abbrev pub AreWrong : Outside → Db → List Section → Type 0
AreWrong o db [] = Unit
AreWrong o db (asks username password _ ∷ sections) =
    IsWrong o db (username, password) × AreWrong o db sections
AreWrong o db (goes_on _ _ _ _ ∷ sections) = AreWrong o db sections

length-drop_at :
    (flight : List (Text × Text)) (n : ℕ) (c : Text × Text)
    → get_elem? flight n ≡ some c
    → length (drop_at flight n) + 1 ≡ length flight
length-drop_at [] n c h = absurd (cc)
length-drop_at (x ∷ xs) zero c h = omega arith
length-drop_at (x ∷ xs) (suc n) c h = let rest = length-drop_at xs n c h in omega arith

All-drop_at :
    (o : Outside) (db : Db) (flight : List (Text × Text)) (n : ℕ)
    → All (IsWrong o db) flight
    → All (IsWrong o db) (drop_at flight n)
All-drop_at o db [] n h = h
All-drop_at o db (x ∷ xs) zero h = h.1
All-drop_at o db (x ∷ xs) (suc n) h = (h.0, All-drop_at o db xs n h.1)

All-found :
    (o : Outside) (db : Db) (flight : List (Text × Text)) (n : ℕ) (c : Text × Text)
    → All (IsWrong o db) flight
    → get_elem? flight n ≡ some c
    → IsWrong o db c
All-found o db [] n c h e = absurd (cc)
All-found o db (x ∷ xs) zero c h e = let q : x ≡ c = cc in rw (← q) h.0
All-found o db (x ∷ xs) (suc n) c h e = All-found o db xs n c h.1 e

fails-put_fails :
    (key : Text) (values : List ℕ) (s : Server) → (put_fails key values s).login_fails key ≡ values
fails-put_fails key values s = rw (text_eq_self key) refl

at_least_lem : (n m : ℕ) (p : Played) → (at_least n p).peak ≤ m → (n ≤ m) × (p.peak ≤ m)
at_least_lem n m p h = ground (arith, h)

-- The peak counts those in flight at the start.
length-peak :
    (o : Outside) (key : Text) (sections : List Section) (flight : List (Text × Text)) (s : Server)
    → length flight ≤ (play o key sections flight s).peak
unfolding play
length-peak o key [] flight s = omega arith
length-peak o key (asks username password now ∷ sections) flight s = ground arith
length-peak o key (goes_on n now token csrf ∷ sections) flight s =
    elim (Option-cases (get_elem? flight n)) [
      | inl e ↦ rw (play, e) (length-peak o key sections flight s)
      | inr (c, e) ↦ rw (play, e) (ground arith)
    ]

asks-blocked :
    (o : Outside) (key username password : Text) (now : ℕ) (sections : List Section)
    (flight : List (Text × Text)) (s : Server)
    → leb 5 (length (select_where (is_recent now) (s.login_fails key))) ≡ true
    → play o key (asks username password now ∷ sections) flight s
      ≡ at_least (length flight) (
          play o key sections flight
            (put_fails key (select_where (is_recent now) (s.login_fails key)) s))
unfolding play login_blocked
asks-blocked o key username password now sections flight s e = rw e refl

asks-passed :
    (o : Outside) (key username password : Text) (now : ℕ) (sections : List Section)
    (flight : List (Text × Text)) (s : Server)
    → leb 5 (length (select_where (is_recent now) (s.login_fails key))) ≡ false
    → play o key (asks username password now ∷ sections) flight s
      ≡ at_least (length flight) (
          play o key sections
            ((username, password) ∷ flight)
            (put_fails key (select_where (is_recent now) (s.login_fails key)) s))
unfolding play login_blocked
asks-passed o key username password now sections flight s e = rw e refl

none_denied :
    (o : Outside) (key : Text) (flight : List (Text × Text)) (s : Server)
    → (play o key [] flight s).denied ≡ []
unfolding play
none_denied o key flight s = refl

goes_on-none :
    (o : Outside) (key : Text) (n now : ℕ) (token csrf : Option Text) (sections : List Section)
    (flight : List (Text × Text)) (s : Server)
    → get_elem? flight n ≡ none
    → play o key (goes_on n now token csrf ∷ sections) flight s ≡ play o key sections flight s
unfolding play
goes_on-none o key n now token csrf sections flight s e = rw (play, e) refl

goes_on-denied :
    (o : Outside) (key : Text) (n now : ℕ) (token csrf : Option Text) (sections : List Section)
    (flight : List (Text × Text)) (s : Server) (c : Text × Text)
    → get_elem? flight n ≡ some c
    → IsWrong o s.db c
    → play o key (goes_on n now token csrf ∷ sections) flight s
      ≡ at_least (length flight) (
          answered true now (
            play o key sections
              (drop_at flight n)
              (put_fails key (s.login_fails key ++ (now ∷ [])) s)))
unfolding play after_check record_login_failure
goes_on-denied o key n now token csrf sections flight s c e w = rw (play, e) (rw w refl)

denied-count :
    (o : Outside) (key : Text) (m : ℕ) (sections : List Section) (last : ℕ)
    (flight : List (Text × Text)) (s : Server) (c : ℕ → ℕ) (t : ℕ)
    → AreOrdered last sections
    → AreWrong o s.db sections
    → All (IsWrong o s.db) flight
    → (play o key sections flight s).peak ≤ m
    → Counted m last (s.login_fails key) (length flight) c
    → c t + count_where (is_within t) (play o key sections flight s).denied ≤ 4 + m
denied-count o key m [] last flight s c t ordered wrong flying peak k =
    let at_most = k.bounded t in rw (none_denied o key flight s) (omega arith)
denied-count o key m (asks username password now ∷ sections) last flight s c t ordered wrong flying
      peak k =
    let recent = select_where (is_recent now) (s.login_fails key) in
    let s' = put_fails key recent s in
    elim (Bool-cases (leb 5 (length recent))) [
      | inl b ↦
          let step = asks-blocked o key username password now sections flight s b in
          let (_, less) =
            at_least_lem (length flight) m (play o key sections flight s') (rw step at peak) in
          rw step (
            denied-count o key m sections now flight s' c t ordered.1 wrong.1 flying less (
              rw (fails-put_fails key recent s)
                (Counted-blocked m last now (s.login_fails key) (length flight) c ordered.0 k)))
      | inr b ↦
          let step = asks-passed o key username password now sections flight s b in
          let more = (username, password) ∷ flight in
          let (_, less) =
            at_least_lem (length flight) m (play o key sections more s') (rw step at peak) in
          let starts = length-peak o key sections more s' in
          rw step (
            denied-count o key m sections now more s' c t ordered.1 wrong.1 (wrong.0, flying) less
              (rw (fails-put_fails key recent s) (
                Counted-passed m last now (s.login_fails key) (length flight) c ordered.0
                  (ground arith) (omega arith) k)))
    ]
denied-count o key m (goes_on n now token csrf ∷ sections) last flight s c t ordered wrong flying
      peak k =
    elim (Option-cases (get_elem? flight n)) [
      | inl e ↦
          let step = goes_on-none o key n now token csrf sections flight s e in
          let rest =
            denied-count o key m sections now flight s c t ordered.1 wrong flying (rw step at peak)
              (Counted-later m last now (s.login_fails key) (length flight) c ordered.0 k) in
          rw step rest
      | inr (x, e) ↦
          let step =
            goes_on-denied o key n now token csrf sections flight s x e
              (All-found o s.db flight n x flying e) in
          let fails = s.login_fails key ++ (now ∷ []) in
          let s' = put_fails key fails s in
          let fewer = drop_at flight n in
          let (_, less) =
            at_least_lem (length flight) m (answered true now (play o key sections fewer s'))
              (rw step at peak) in
          let rest =
            denied-count o key m sections now fewer s' (with_answer now c) t ordered.1 wrong
              (All-drop_at o s.db flight n flying) less
              (rw (fails-put_fails key fails s) (
                Counted-denied m last now (s.login_fails key) (length fewer) c ordered.0
                  (rw (length-drop_at flight n x e) k))) in
          rw step (ground (arith, rest))
    ]

-- Handlers of logins with one key, none of them with a right password, that take their sections in
-- the order of time and in any interleaving: within any 15 minutes at most four and as many of them
-- are answered by 401 as were past the test of the limit at once.
pub denied_bounded :
    (o : Outside) (key : Text) (sections : List Section) (s : Server) (t : ℕ)
    → AreOrdered 0 sections
    → AreWrong o s.db sections
    → let p = play o key sections [] s in count_where (is_within t) p.denied ≤ 4 + p.peak
denied_bounded o key sections s t ordered wrong =
    let p = play o key sections [] s in
    let bound =
      denied-count o key p.peak sections 0 [] s (λ _. 0) t ordered wrong tt (omega arith)
        (record {
          bounded = λ t. omega arith;
          room = λ t h. omega arith;
          are_kept = λ t h. omega arith;
        }) in
    omega arith
