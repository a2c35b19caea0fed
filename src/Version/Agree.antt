-- ===== src/Version/Agree.antt =====
-- internal/sub2api/version.go against cmd/sub2api-limit-updater/semver.go: two separate comparisons of
-- versions, one of joined and one of split prereleases.
use sub2api5hlimit.Base.{
  ℕ, ◌≡◌, refl, sym, ◌∙◌, ap, inl, inr, true, false, not, ltb, ◌==◌, if◌then◌else◌, List, [], ◌∷◌,
  length, text_eq, text_eq→eq, Bool-cases, arith,
}
use sub2api5hlimit.Version.Identifiers.{split, is_empty}
use sub2api5hlimit.Version.Updater.{
  SemVersion, Comparison, less, greater, compare_uint, compare_numeric_identifier,
  compare_identifier, compare_identifiers, compare_pre, compare_sem_version,
}
use sub2api5hlimit.Version.Order.{compare_pre_self}
use sub2api5hlimit.Version.Portal.{
  Version, compare_part, compare_parts, compare_prerelease, is_less, at_least,
}

-- A version of the portal as the updater keeps it.
unfoldable pub sem_version : Version → SemVersion
unfolding split
sem_version v = record {
  major = v.major;
  minor = v.minor;
  patch = v.patch;
  pre = if is_empty v.pre_release then [] else split b'.' v.pre_release;
}

compare_part-eq : (l r : List ℕ) → compare_part l r ≡ compare_identifier l r
unfolding compare_part compare_identifier compare_numeric_identifier
compare_part-eq l r = ground arith

compare_parts-eq :
    (e : Comparison) (ls rs : List (List ℕ)) → compare_parts e ls rs ≡ compare_identifiers e ls rs
unfolding compare_parts compare_identifiers
compare_parts-eq e [] rs = refl
compare_parts-eq e (l ∷ ls) [] = refl
compare_parts-eq e (l ∷ ls) (r ∷ rs) = ground (arith, compare_parts-eq e ls rs, compare_part-eq l r)

compare_identifiers-ends_less :
    (d e : Comparison) (ls rs : List (List ℕ))
    → is_less d ≡ is_less e
    → is_less (compare_identifiers d ls rs) ≡ is_less (compare_identifiers e ls rs)
unfolding compare_identifiers
compare_identifiers-ends_less d e [] rs h = h
compare_identifiers-ends_less d e (l ∷ ls) [] h = h
compare_identifiers-ends_less d e (l ∷ ls) (r ∷ rs) h =
    ground (arith, compare_identifiers-ends_less d e ls rs h)

ends_less : (m n : ℕ) → is_less (if ltb m n then less else greater) ≡ is_less (compare_uint m n)
unfolding compare_uint
ends_less m n = ground arith

split-cons : (sep : ℕ) (s : List ℕ) → (p : List ℕ) × (ps : List (List ℕ)) × (split sep s ≡ p ∷ ps)
unfolding split
split-cons sep [] = ([], [], refl)
split-cons sep (c ∷ s) = elim (Bool-cases (c == sep)) [
  | inl e ↦ rw e ([], split sep s, refl)
  | inr e ↦ (let (p, ps, h) = split-cons sep s in rw (e, h) (c ∷ p, ps, refl))
]

parts_less :
    (ls rs : List (List ℕ))
    → is_less (compare_parts (if ltb (length ls) (length rs) then less else greater) ls rs)
      ≡ is_less (compare_identifiers (compare_uint (length ls) (length rs)) ls rs)
parts_less ls rs =
    ap is_less (compare_parts-eq _ ls rs)
    ∙ compare_identifiers-ends_less _ _ ls rs (ends_less (length ls) (length rs))

compare_pre-nonempty :
    (ls rs : List (List ℕ)) {l r : List ℕ} {ls' rs' : List (List ℕ)}
    → ls ≡ l ∷ ls'
    → rs ≡ r ∷ rs'
    → compare_pre ls rs ≡ compare_identifiers (compare_uint (length ls) (length rs)) ls rs
unfolding compare_pre
compare_pre-nonempty ls rs h k = rw (h, k) refl

pre-release :
    (rs : List (List ℕ)) {r : List ℕ} {rs' : List (List ℕ)}
    → rs ≡ r ∷ rs'
    → is_less (compare_pre [] rs) ≡ false
unfolding compare_pre
pre-release rs h = rw h refl

release-pre :
    (ls : List (List ℕ)) {l : List ℕ} {ls' : List (List ℕ)}
    → ls ≡ l ∷ ls'
    → is_less (compare_pre ls []) ≡ true
unfolding compare_pre
release-pre ls h = rw h refl

abbrev pre_of : List ℕ → List (List ℕ)
pre_of s = if is_empty s then [] else split b'.' s

compare_prerelease-less :
    (l r : List ℕ) → is_less (compare_prerelease l r) ≡ is_less (compare_pre (pre_of l) (pre_of r))
unfolding compare_prerelease
compare_prerelease-less l r = elim (Bool-cases (text_eq l r)) [
  | inl e ↦ rw (e, text_eq→eq l r e, compare_pre_self (pre_of r)) refl
  | inr e ↦ rw e (differ l r e)
]
  where
    differ :
        (l r : List ℕ)
        → text_eq l r ≡ false
        → is_less (
            if is_empty l
            then greater
            else if is_empty r
            then less
            else compare_parts
                (if ltb (length (split b'.' l)) (length (split b'.' r)) then less else greater)
                (split b'.' l)
                (split b'.' r))
          ≡ is_less (compare_pre (pre_of l) (pre_of r))
    differ [] [] e = absurd (cc)
    differ [] (d ∷ r) e = sym (pre-release _ (split-cons b'.' (d ∷ r)).2)
    differ (c ∷ l) [] e = sym (release-pre _ (split-cons b'.' (c ∷ l)).2)
    differ (c ∷ l) (d ∷ r) e =
        parts_less _ _
        ∙ sym (
            ap is_less
              (compare_pre-nonempty _ _ (split-cons b'.' (c ∷ l)).2 (split-cons b'.' (d ∷ r)).2))

-- The portal's AtLeast answers as the updater's comparison of the same two versions does.
pub at_least-agrees :
    (v minimum : Version)
    → at_least v minimum ≡ not (is_less (compare_sem_version (sem_version v) (sem_version minimum)))
unfolding at_least compare_sem_version compare_uint sem_version
at_least-agrees v m = ground (arith, compare_prerelease-less v.pre_release m.pre_release)
