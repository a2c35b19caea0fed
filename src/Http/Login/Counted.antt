-- ===== src/Http/Login/Counted.antt =====
-- The failures of one key that are kept, against the answers 401 so far.
use sub2api5hlimit.Base.{
  ℕ, suc, ◌+◌, ◌<◌, ◌≤◌, Bool, ◌&&◌, leb, if◌then◌else◌, List, [], ◌∷◌, ◌++◌, length, select_where,
  count_where, count_where-append, Bool-cases, inl, inr, ◌≡◌, refl, arith,
}
use sub2api5hlimit.Http.Login.{is_recent}

-- The failures of the 15 minutes up to `t`.
abbrev pub is_within : ℕ → ℕ → Bool
is_within t value = leb value t && is_recent t value

count-length : (p : ℕ → Bool) (values : List ℕ) → count_where p values ≤ length values
count-length p [] = omega arith
count-length p (v ∷ values) = ground (arith, count-length p values)

-- What is dropped does not count any more.
dropped-count :
    (now t : ℕ) (values : List ℕ)
    → now ≤ t
    → count_where (is_within t) (select_where (is_recent now) values)
      ≡ count_where (is_within t) values
dropped-count now t [] h = refl
dropped-count now t (v ∷ values) h = ground (arith, dropped-count now t values h)

-- How many of the answers so far lie within the 15 minutes up to each time: none more than four and
-- the handlers allowed, from the last section on with room for those in flight, and all recorded.
pub record Counted (m last : ℕ) (values : List ℕ) (flying : ℕ) (c : ℕ → ℕ) : Type 0 where
  pub bounded : (t : ℕ) → c t ≤ 4 + m
  pub room : (t : ℕ) → last ≤ t → c t + flying ≤ 4 + m
  pub are_kept : (t : ℕ) → last ≤ t → c t ≤ count_where (is_within t) values

pub Counted-blocked :
    (m last now : ℕ) (values : List ℕ) (flying : ℕ) (c : ℕ → ℕ)
    → last ≤ now
    → Counted m last values flying c
    → Counted m now (select_where (is_recent now) values) flying c
Counted-blocked m last now values flying c le k = record {
  bounded = k.bounded;
  room = λ t h. k.room t (omega arith);
  are_kept = λ t h.
      let kept = k.are_kept t (omega arith) in
      let same = dropped-count now t values h in omega arith;
}

-- A handler passes the test: fewer than five failures are kept.
pub Counted-passed :
    (m last now : ℕ) (values : List ℕ) (flying : ℕ) (c : ℕ → ℕ)
    → last ≤ now
    → length (select_where (is_recent now) values) < 5
    → suc flying ≤ m
    → Counted m last values flying c
    → Counted m now (select_where (is_recent now) values) (suc flying) c
Counted-passed m last now values flying c le short few k = record {
  bounded = k.bounded;
  room = λ t h.
      let kept = (Counted-blocked m last now values flying c le k).are_kept t h in
      let at_most = count-length (is_within t) (select_where (is_recent now) values) in omega arith;
  are_kept = (Counted-blocked m last now values flying c le k).are_kept;
}

pub Counted-later :
    (m last now : ℕ) (values : List ℕ) (flying : ℕ) (c : ℕ → ℕ)
    → last ≤ now
    → Counted m last values flying c
    → Counted m now values flying c
Counted-later m last now values flying c le k = record {
  bounded = k.bounded;
  room = λ t h. k.room t (omega arith);
  are_kept = λ t h. k.are_kept t (omega arith);
}

abbrev pub with_answer : ℕ → (ℕ → ℕ) → ℕ → ℕ
with_answer now c t = c t + (if is_within t now then 1 else 0)

-- A handler in flight is denied.
pub Counted-denied :
    (m last now : ℕ) (values : List ℕ) (flying : ℕ) (c : ℕ → ℕ)
    → last ≤ now
    → Counted m last values (flying + 1) c
    → Counted m now (values ++ (now ∷ [])) flying (with_answer now c)
Counted-denied m last now values flying c le k = record {
  bounded = λ t. elim (Bool-cases (leb now t)) [
    | inl e ↦ let room = k.room t (ground (arith, e)) in ground arith
    | inr e ↦ let at_most = k.bounded t in ground arith
  ];
  room = λ t h. let room = k.room t (omega arith) in ground arith;
  are_kept = λ t h.
      let kept = k.are_kept t (omega arith) in
      let both = count_where-append (is_within t) values (now ∷ []) in omega arith;
}
