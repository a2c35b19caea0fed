-- ===== src/Version/Portal.antt =====
-- internal/sub2api/version.go. A result `>= 0` of comparePrerelease is one that is not less.
use sub2api5hlimit.Base.{
  ℕ, ◌^◌, Bool, true, false, not, ◌&&◌, ◌||◌, ◌==◌, ltb, if◌then◌else◌, Option, none, some, List,
  [], ◌∷◌, length, text_eq, text_lt, trim_space,
}
use sub2api5hlimit.Version.Identifiers.{
  split, cut, is_identifier_character, every, is_empty, is_numeric_identifier, has_leading_zero,
  decimal, ◌>>=◌,
}
use sub2api5hlimit.Version.Updater.{Comparison, less, same, greater}

pub record Version : Type 0 where
  pub raw : List ℕ
  pub major : ℕ
  pub minor : ℕ
  pub patch : ℕ
  pub pre_release : List ℕ

-- The loop of validateIdentifiers, over the split value; true where it returns no error.
unfoldable pub validate_parts : Bool → List (List ℕ) → Bool
unfolding is_numeric_identifier
validate_parts strict [] = true
validate_parts strict (s ∷ parts) =
    not (is_empty s)
    && every is_identifier_character s
    && not (strict && has_leading_zero s && is_numeric_identifier s)
    && validate_parts strict parts

unfoldable pub validate_identifiers : List ℕ → Bool → Bool
unfolding validate_parts split
validate_identifiers value strict = not (is_empty value) && validate_parts strict (split b'.' value)

abbrev strip_v : List ℕ → List ℕ
strip_v [] = []
strip_v (c ∷ s) = if c == b'v' || c == b'V' then s else c ∷ s

-- `strconv.Atoi` of a part without sign, which the cuts leave none of.
abbrev parse_part : List ℕ → Option ℕ
unfolding is_numeric_identifier
parse_part s =
    if is_empty s || has_leading_zero s
    then none
    else if is_numeric_identifier s && ltb (decimal 0 s) (2 ^ 63)
    then some (decimal 0 s)
    else none

abbrev version_of_parts : List ℕ → List ℕ → List (List ℕ) → Option Version
version_of_parts raw pre (a ∷ b ∷ c ∷ []) = do
  major ← parse_part a
  minor ← parse_part b
  patch ← parse_part c
  some (record { raw = raw; major = major; minor = minor; patch = patch; pre_release = pre })
version_of_parts raw pre _ = none

abbrev without_build : List ℕ × Option (List ℕ) → Option (List ℕ)
unfolding validate_identifiers
without_build (core, none) = some core
without_build (core, some build) = if validate_identifiers build false then some core else none

abbrev with_pre : List ℕ → List ℕ × Option (List ℕ) → Option Version
unfolding validate_identifiers split
with_pre raw (core, none) = version_of_parts raw [] (split b'.' core)
with_pre raw (core, some pre) =
    if is_empty pre
    then none
    else if validate_identifiers pre true
    then version_of_parts raw pre (split b'.' core)
    else none

unfoldable pub parse_version : List ℕ → Option Version
unfolding trim_space cut without_build with_pre
parse_version value =
    let raw = trim_space value in
    if is_empty raw
    then none
    else do core ← without_build (cut b'+' (strip_v raw)); with_pre raw (cut b'-' core)

-- The `switch` on two parts that differ.
unfoldable pub compare_part : List ℕ → List ℕ → Comparison
unfolding is_numeric_identifier
compare_part l r =
    if is_numeric_identifier l && is_numeric_identifier r
    then (if not (length l == length r)
        then (if ltb (length l) (length r) then less else greater)
        else if text_lt l r
        then less
        else greater)
    else if is_numeric_identifier l
    then less
    else if is_numeric_identifier r
    then greater
    else if text_lt l r
    then less
    else greater

unfoldable pub compare_parts : Comparison → List (List ℕ) → List (List ℕ) → Comparison
unfolding compare_part
compare_parts end [] rs = end
compare_parts end (l ∷ ls) [] = end
compare_parts end (l ∷ ls) (r ∷ rs) =
    let rest = compare_parts end ls rs in if text_eq l r then rest else compare_part l r

unfoldable pub compare_prerelease : List ℕ → List ℕ → Comparison
unfolding compare_parts split
compare_prerelease l r =
    let ls = split b'.' l in
    let rs = split b'.' r in
    if text_eq l r
    then same
    else if is_empty l
    then greater
    else if is_empty r
    then less
    else compare_parts (if ltb (length ls) (length rs) then less else greater) ls rs

abbrev pub is_less : Comparison → Bool
is_less less = true
is_less _ = false

unfoldable pub at_least : Version → Version → Bool
unfolding compare_prerelease
at_least v minimum =
    if not (v.major == minimum.major)
    then ltb minimum.major v.major
    else if not (v.minor == minimum.minor)
    then ltb minimum.minor v.minor
    else if not (v.patch == minimum.patch)
    then ltb minimum.patch v.patch
    else not (is_less (compare_prerelease v.pre_release minimum.pre_release))
