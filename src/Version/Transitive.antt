-- ===== src/Version/Transitive.antt =====
-- cmd/sub2api-limit-updater/semver.go: the comparison of versions is transitive.
use sub2api5hlimit.Base.{
  ℕ, suc, ◌≡◌, refl, sym, ◌∙◌, ◌⊎◌, inl, inr, true, false, if◌then◌else◌, List, [], ◌∷◌, length,
  text_eq, text_eq→eq, text_eq_self, text_lt, Bool-cases, arith,
}
use sub2api5hlimit.Version.Updater.{
  SemVersion, Comparison, less, same, greater, compare_uint, compare_numeric_identifier,
  compare_identifier, compare_identifiers, compare_pre, or_else, compare_sem_version,
}
use sub2api5hlimit.Version.Order.{flip, compare_identifier-flip}

text_lt_trans : (s t u : List ℕ) → text_lt s t ≡ true → text_lt t u ≡ true → text_lt s u ≡ true
text_lt_trans [] [] u h k = absurd (cc)
text_lt_trans [] (d ∷ t) [] h k = absurd (cc)
text_lt_trans [] (d ∷ t) (e ∷ u) h k = refl
text_lt_trans (c ∷ s) [] u h k = absurd (cc)
text_lt_trans (c ∷ s) (d ∷ t) [] h k = absurd (cc)
text_lt_trans (c ∷ s) (d ∷ t) (e ∷ u) h k = ground (arith, text_lt_trans s t u)

numeric_trans :
    (l m r : List ℕ)
    → compare_numeric_identifier l m ≡ less
    → compare_numeric_identifier m r ≡ less
    → compare_numeric_identifier l r ≡ less
unfolding compare_numeric_identifier
numeric_trans l m r h k = ground (arith, text_lt_trans l m r)

identifier_trans :
    (l m r : List ℕ)
    → compare_identifier l m ≡ less
    → compare_identifier m r ≡ less
    → compare_identifier l r ≡ less
unfolding compare_identifier
identifier_trans l m r h k = ground (arith, text_lt_trans l m r, numeric_trans l m r)

-- The comparison of prereleases with the lengths worked in.
lex : List (List ℕ) → List (List ℕ) → Comparison
lex [] [] = same
lex [] (r ∷ rs) = less
lex (l ∷ ls) [] = greater
lex (l ∷ ls) (r ∷ rs) = let rest = lex ls rs in if text_eq l r then rest else compare_identifier l r

suc_uint : (m n : ℕ) → compare_uint (suc m) (suc n) ≡ compare_uint m n
unfolding compare_uint
suc_uint m n = ground arith

lex_eq :
    (e : Comparison) (ls rs : List (List ℕ))
    → e ≡ compare_uint (length ls) (length rs)
    → compare_identifiers e ls rs ≡ lex ls rs
unfolding compare_identifiers lex compare_uint
lex_eq e [] [] h = ground (arith, h)
lex_eq e [] (r ∷ rs) h = ground (arith, h)
lex_eq e (l ∷ ls) [] h = ground (arith, h)
lex_eq e (l ∷ ls) (r ∷ rs) h = ground (arith, lex_eq e ls rs (ground (arith, h)))

not_below_itself :
    (l m : List ℕ)
    → text_eq l m ≡ false
    → compare_identifier l m ≡ less
    → compare_identifier m l ≡ less
    → ⊥
unfolding flip
not_below_itself l m d h k = absurd (cc (compare_identifier-flip l m d))

-- The heads of both lists, by the tests on them.
heads :
    (l m : List ℕ) (ls ms : List (List ℕ))
    → lex (l ∷ ls) (m ∷ ms) ≡ less
    → ((l ≡ m) × (lex ls ms ≡ less)) ⊎ ((text_eq l m ≡ false) × (compare_identifier l m ≡ less))
unfolding lex
heads l m ls ms h = elim (Bool-cases (text_eq l m)) [
  | inl e ↦ inl (text_eq→eq l m e, rw e at h)
  | inr e ↦ inr (e, rw e at h)
]

equal_heads : (l : List ℕ) (ls rs : List (List ℕ)) → lex ls rs ≡ less → lex (l ∷ ls) (l ∷ rs) ≡ less
unfolding lex
equal_heads l ls rs h = rw (text_eq_self l) h

less_heads :
    (l r : List ℕ) (ls rs : List (List ℕ))
    → text_eq l r ≡ false
    → compare_identifier l r ≡ less
    → lex (l ∷ ls) (r ∷ rs) ≡ less
unfolding lex
less_heads l r ls rs d h = rw d h

differ :
    (l m r : List ℕ)
    → text_eq l m ≡ false
    → compare_identifier l m ≡ less
    → compare_identifier m r ≡ less
    → text_eq l r ≡ false
differ l m r d h k = elim (Bool-cases (text_eq l r)) [
  | inr e ↦ e
  | inl e ↦
      (let one : r ≡ l = sym (text_eq→eq l r e) in absurd (not_below_itself l m d h (rw one at k)))
]

lex_trans : (ls ms rs : List (List ℕ)) → lex ls ms ≡ less → lex ms rs ≡ less → lex ls rs ≡ less
unfolding lex
lex_trans [] [] rs h k = absurd (cc)
lex_trans [] (m ∷ ms) [] h k = absurd (cc)
lex_trans [] (m ∷ ms) (r ∷ rs) h k = refl
lex_trans (l ∷ ls) [] rs h k = absurd (cc)
lex_trans (l ∷ ls) (m ∷ ms) [] h k = absurd (cc)
lex_trans (l ∷ ls) (m ∷ ms) (r ∷ rs) h k =
    go (lex_trans ls ms rs) (heads l m ls ms h) (heads m r ms rs k)
  where
    go :
        (lex ls ms ≡ less → lex ms rs ≡ less → lex ls rs ≡ less)
        → ((l ≡ m) × (lex ls ms ≡ less)) ⊎ ((text_eq l m ≡ false) × (compare_identifier l m ≡ less))
        → ((m ≡ r) × (lex ms rs ≡ less)) ⊎ ((text_eq m r ≡ false) × (compare_identifier m r ≡ less))
        → lex (l ∷ ls) (r ∷ rs) ≡ less
    go rest (inl (e, a)) (inl (f, b)) = rw (e, f) (equal_heads r ls rs (rest a b))
    go rest (inl (e, a)) (inr (d, b)) = rw e (less_heads m r ls rs d b)
    go rest (inr (d, a)) (inl (f, b)) = rw (← f) (less_heads l m ls rs d a)
    go rest (inr (d, a)) (inr (g, b)) =
        less_heads l r ls rs (differ l m r d a b) (identifier_trans l m r a b)

pre_lex :
    (l r : List ℕ) (ls rs : List (List ℕ)) → compare_pre (l ∷ ls) (r ∷ rs) ≡ lex (l ∷ ls) (r ∷ rs)
unfolding compare_pre
pre_lex l r ls rs = lex_eq _ (l ∷ ls) (r ∷ rs) refl

pre_trans :
    (ls ms rs : List (List ℕ))
    → compare_pre ls ms ≡ less
    → compare_pre ms rs ≡ less
    → compare_pre ls rs ≡ less
unfolding compare_pre
pre_trans [] [] rs h k = absurd (cc)
pre_trans [] (m ∷ ms) rs h k = absurd (cc)
pre_trans (l ∷ ls) [] [] h k = refl
pre_trans (l ∷ ls) [] (r ∷ rs) h k = absurd (cc)
pre_trans (l ∷ ls) (m ∷ ms) [] h k = refl
pre_trans (l ∷ ls) (m ∷ ms) (r ∷ rs) h k =
    pre_lex l r ls rs
    ∙ lex_trans (l ∷ ls) (m ∷ ms) (r ∷ rs) (sym (pre_lex l m ls ms) ∙ h)
        (sym (pre_lex m r ms rs) ∙ k)

or_else_less : (x y : Comparison) → or_else x y ≡ less → (x ≡ less) ⊎ ((x ≡ same) × (y ≡ less))
or_else_less less y h = inl refl
or_else_less same y h = inr (refl, h)
or_else_less greater y h = absurd (cc)

-- A level of the order: numbers before what decides between equal ones.
level_trans :
    (a b c : ℕ) (x y z : Comparison)
    → (x ≡ less → y ≡ less → z ≡ less)
    → or_else (compare_uint a b) x ≡ less
    → or_else (compare_uint b c) y ≡ less
    → or_else (compare_uint a c) z ≡ less
unfolding compare_uint
level_trans a b c x y z t h k = ground (arith, t)

-- Where one version is below a second and the second below a third, the first is below the third.
pub compare_sem_version_trans :
    (u v w : SemVersion)
    → compare_sem_version u v ≡ less
    → compare_sem_version v w ≡ less
    → compare_sem_version u w ≡ less
unfolding compare_sem_version
compare_sem_version_trans u v w = level_trans u.major v.major w.major _ _ _ (
    level_trans u.minor v.minor w.minor _ _ _
      (level_trans u.patch v.patch w.patch _ _ _ (pre_trans u.pre v.pre w.pre)))
