-- ===== src/Version/Order.antt =====
-- cmd/sub2api-limit-updater/semver.go: the comparison is an order on versions.
use sub2api5hlimit.Base.{
  ℕ, ◌≡◌, refl, ◌≢◌, ◌==◌, ◌↔◌, ◌⊎◌, inl, inr, true, false, List, [], ◌∷◌, length, text_eq,
  text_eq→eq, text_eq_self, text_lt, Bool-cases, arith,
}
use sub2api5hlimit.Version.Updater.{
  SemVersion, Comparison, less, same, greater, compare_uint, compare_numeric_identifier,
  compare_identifier, compare_identifiers, compare_pre, or_else, compare_sem_version,
}

-- The result with both sides exchanged.
unfoldable pub flip : Comparison → Comparison
flip less = greater
flip same = same
flip greater = less

compare_uint-flip : (a b : ℕ) → compare_uint b a ≡ flip (compare_uint a b)
unfolding compare_uint flip
compare_uint-flip a b = ground arith

compare_uint-same : (a b : ℕ) → compare_uint a b ≡ same → a ≡ b
unfolding compare_uint
compare_uint-same a b h = ground arith

or_else-flip :
    (a a' b b' : Comparison) → a' ≡ flip a → b' ≡ flip b → or_else a' b' ≡ flip (or_else a b)
unfolding flip
or_else-flip less a' b b' ha hb = rw ha refl
or_else-flip same a' b b' ha hb = rw ha hb
or_else-flip greater a' b b' ha hb = rw ha refl

or_else-same : (a b : Comparison) → or_else a b ≡ same → (a ≡ same) × (b ≡ same)
or_else-same same b h = (refl, h)
or_else-same less b h = absurd (cc)
or_else-same greater b h = absurd (cc)

-- Two texts that differ are ordered one way.
text_lt-flip :
    (s t : List ℕ)
    → text_eq s t ≡ false
    → ((text_lt s t ≡ true) × (text_lt t s ≡ false))
      ⊎ ((text_lt s t ≡ false) × (text_lt t s ≡ true))
text_lt-flip [] [] h = absurd (cc)
text_lt-flip [] (d ∷ t) h = inl (refl, refl)
text_lt-flip (c ∷ s) [] h = inr (refl, refl)
text_lt-flip (c ∷ s) (d ∷ t) h = ground (arith, text_lt-flip s t)

pub text_eq_sym : (s t : List ℕ) → text_eq t s ≡ text_eq s t
text_eq_sym [] [] = refl
text_eq_sym [] (d ∷ t) = refl
text_eq_sym (c ∷ s) [] = refl
text_eq_sym (c ∷ s) (d ∷ t) = ground (arith, text_eq_sym s t)

compare_numeric_identifier-flip :
    (l r : List ℕ)
    → text_eq l r ≡ false
    → compare_numeric_identifier r l ≡ flip (compare_numeric_identifier l r)
unfolding compare_numeric_identifier flip
compare_numeric_identifier-flip l r h = ground (arith, text_lt-flip l r h)

pub compare_identifier-flip :
    (l r : List ℕ) → text_eq l r ≡ false → compare_identifier r l ≡ flip (compare_identifier l r)
unfolding compare_identifier flip
compare_identifier-flip l r h =
    ground (arith, text_lt-flip l r h, compare_numeric_identifier-flip l r h)

compare_identifiers-flip :
    (e e' : Comparison) (ls rs : List (List ℕ))
    → e' ≡ flip e
    → compare_identifiers e' rs ls ≡ flip (compare_identifiers e ls rs)
unfolding compare_identifiers
compare_identifiers-flip e e' [] [] h = h
compare_identifiers-flip e e' [] (r ∷ rs) h = h
compare_identifiers-flip e e' (l ∷ ls) [] h = h
compare_identifiers-flip e e' (l ∷ ls) (r ∷ rs) h =
    ground
      (arith, compare_identifiers-flip e e' ls rs h, compare_identifier-flip l r, text_eq_sym l r)

compare_pre-flip : (ls rs : List (List ℕ)) → compare_pre rs ls ≡ flip (compare_pre ls rs)
unfolding compare_pre flip
compare_pre-flip [] [] = refl
compare_pre-flip [] (r ∷ rs) = refl
compare_pre-flip (l ∷ ls) [] = refl
compare_pre-flip (l ∷ ls) (r ∷ rs) =
    compare_identifiers-flip _ _ (l ∷ ls) (r ∷ rs)
      (compare_uint-flip (length (l ∷ ls)) (length (r ∷ rs)))

-- Exchanging the two versions turns the result of the comparison around.
pub compare_sem_version-flip :
    (l r : SemVersion) → compare_sem_version r l ≡ flip (compare_sem_version l r)
unfolding compare_sem_version
compare_sem_version-flip l r = or_else-flip _ _ _ _ (compare_uint-flip l.major r.major) (
    or_else-flip _ _ _ _ (compare_uint-flip l.minor r.minor)
      (or_else-flip _ _ _ _ (compare_uint-flip l.patch r.patch) (compare_pre-flip l.pre r.pre)))

compare_identifier-differ : (l r : List ℕ) → compare_identifier l r ≡ same → text_eq l r ≡ true
unfolding compare_identifier compare_numeric_identifier
compare_identifier-differ l r h = ground arith

cons_eq : (l r : List ℕ) (ls rs : List (List ℕ)) → l ≡ r → ls ≡ rs → (l ∷ ls) ≡ (r ∷ rs)
cons_eq l r ls rs h k = rw (h, k) refl

compare_identifiers_self :
    (e : Comparison) (ls : List (List ℕ)) → e ≡ same → compare_identifiers e ls ls ≡ same
unfolding compare_identifiers
compare_identifiers_self e [] h = h
compare_identifiers_self e (l ∷ ls) h =
    ground (arith, compare_identifiers_self e ls h, text_eq_self l)

compare_identifiers-ends :
    (e : Comparison) (ls rs : List (List ℕ)) → e ≢ same → compare_identifiers e ls rs ≢ same
unfolding compare_identifiers
compare_identifiers-ends e [] rs n h = n h
compare_identifiers-ends e (l ∷ ls) [] n h = n h
compare_identifiers-ends e (l ∷ ls) (r ∷ rs) n h =
    ground (arith, compare_identifiers-ends e ls rs n, compare_identifier-differ l r)

record_eq :
    (l r : SemVersion)
    → l.major ≡ r.major
    → l.minor ≡ r.minor
    → l.patch ≡ r.patch
    → l.pre ≡ r.pre
    → l ≡ r
record_eq l r a b c d i = record { major = a i; minor = b i; patch = c i; pre = d i }

compare_identifiers-same :
    (e : Comparison) (ls rs : List (List ℕ))
    → length ls ≡ length rs
    → compare_identifiers e ls rs ≡ same
    → ls ≡ rs
unfolding compare_identifiers
compare_identifiers-same e [] [] n h = refl
compare_identifiers-same e [] (r ∷ rs) n h = absurd (omega (arith, n))
compare_identifiers-same e (l ∷ ls) [] n h = absurd (omega (arith, n))
compare_identifiers-same e (l ∷ ls) (r ∷ rs) n h = ground (
  arith,
  compare_identifiers-same e ls rs,
  compare_identifier-differ l r,
  text_eq→eq l r,
  cons_eq l r ls rs,
)

compare_pre-same : (ls rs : List (List ℕ)) → compare_pre ls rs ≡ same → ls ≡ rs
unfolding compare_pre compare_identifiers compare_uint
compare_pre-same [] [] h = refl
compare_pre-same [] (r ∷ rs) h = absurd (cc)
compare_pre-same (l ∷ ls) [] h = absurd (cc)
compare_pre-same (l ∷ ls) (r ∷ rs) h = elim (Bool-cases (length ls == length rs)) [
  | inl e ↦ compare_identifiers-same _ (l ∷ ls) (r ∷ rs) (ground (arith, e)) h
  | inr e ↦ absurd (compare_identifiers-ends _ (l ∷ ls) (r ∷ rs) (ground arith) h)
]

pub compare_pre_self : (ls : List (List ℕ)) → compare_pre ls ls ≡ same
unfolding compare_pre compare_uint
compare_pre_self [] = refl
compare_pre_self (l ∷ ls) = compare_identifiers_self _ (l ∷ ls) (ground arith)

sem_version_same : (l r : SemVersion) → compare_sem_version l r ≡ same → l ≡ r
unfolding compare_sem_version
sem_version_same l r h =
    let a = or_else-same _ _ h in
    let b = or_else-same _ _ a.1 in
    let c = or_else-same _ _ b.1 in
    record_eq l r (compare_uint-same _ _ a.0) (compare_uint-same _ _ b.0)
      (compare_uint-same _ _ c.0) (compare_pre-same _ _ c.1)

sem_version_self : (l : SemVersion) → compare_sem_version l l ≡ same
unfolding compare_sem_version compare_uint
sem_version_self l = ground (arith, compare_pre_self l.pre)

-- The comparison calls two versions the same exactly where they are equal.
pub compare_sem_version-same : (l r : SemVersion) → (compare_sem_version l r ≡ same) ↔ (l ≡ r)
compare_sem_version-same l r = (sem_version_same l r, λ e. rw e (sem_version_self r))
