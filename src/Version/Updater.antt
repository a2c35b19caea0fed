-- ===== src/Version/Updater.antt =====
-- cmd/sub2api-limit-updater/semver.go. The pattern's language is read off directly: the first `+` opens the
-- build, the first `-` before it the prerelease, and three numbers without leading zeros stand
-- before both. The results -1, 0 and 1 of a comparison are less, same and greater.
use sub2api5hlimit.Base.{
  ℕ, ◌^◌, Bool, true, not, ◌&&◌, ltb, if◌then◌else◌, Option, none, some, List, [], ◌∷◌, length,
  text_eq, text_lt,
}
use sub2api5hlimit.Version.Identifiers.{
  split, cut, is_identifier_character, every, is_empty, is_numeric_identifier, has_leading_zero,
  decimal, ◌>>=◌,
}

pub record SemVersion : Type 0 where
  pub major : ℕ
  pub minor : ℕ
  pub patch : ℕ
  pub pre : List (List ℕ)

pub data Comparison : Type 0 where
  less same greater : Comparison

-- `(0|[1-9][0-9]*)`
abbrev is_number : List ℕ → Bool
unfolding is_numeric_identifier
is_number s = is_numeric_identifier s && not (has_leading_zero s)

-- `[0-9A-Za-z-]+(?:\.[0-9A-Za-z-]+)*`
abbrev are_identifiers : List (List ℕ) → Bool
are_identifiers [] = true
are_identifiers (s ∷ parts) =
    not (is_empty s) && every is_identifier_character s && are_identifiers parts

abbrev optional_identifiers : Option (List ℕ) → Option (List (List ℕ))
unfolding split
optional_identifiers none = some []
optional_identifiers (some s) = if are_identifiers (split b'.' s) then some (split b'.' s) else none

-- `strconv.ParseUint(s, 10, 64)`
abbrev parse_uint : List ℕ → Option ℕ
parse_uint s = if is_number s && ltb (decimal 0 s) (2 ^ 64) then some (decimal 0 s) else none

abbrev no_leading_zeros : List (List ℕ) → Bool
unfolding is_numeric_identifier
no_leading_zeros [] = true
no_leading_zeros (s ∷ parts) =
    not (is_numeric_identifier s && has_leading_zero s) && no_leading_zeros parts

abbrev checked_pre : List (List ℕ) → Option (List (List ℕ))
checked_pre pre = if no_leading_zeros pre then some pre else none

abbrev core_version : List (List ℕ) → List (List ℕ) → Option SemVersion
core_version (a ∷ b ∷ c ∷ []) pre = do
  major ← parse_uint a
  minor ← parse_uint b
  patch ← parse_uint c
  checked ← checked_pre pre
  some (record { major = major; minor = minor; patch = patch; pre = checked })
core_version _ pre = none

unfoldable pub parse_sem_version : List ℕ → Option SemVersion
unfolding split cut is_number no_leading_zeros
parse_sem_version raw =
    let versioned = cut b'+' raw in
    let parts = cut b'-' versioned.0 in
    do
      build ← optional_identifiers versioned.1
      pre ← optional_identifiers parts.1
      core_version (split b'.' parts.0) pre

unfoldable pub compare_uint : ℕ → ℕ → Comparison
compare_uint l r = if ltb l r then less else if ltb r l then greater else same

unfoldable pub compare_numeric_identifier : List ℕ → List ℕ → Comparison
compare_numeric_identifier l r =
    if ltb (length l) (length r)
    then less
    else if ltb (length r) (length l)
    then greater
    else if text_lt l r
    then less
    else greater

-- The `switch` on two identifiers that differ.
unfoldable pub compare_identifier : List ℕ → List ℕ → Comparison
unfolding is_numeric_identifier compare_numeric_identifier
compare_identifier l r =
    if is_numeric_identifier l && is_numeric_identifier r
    then compare_numeric_identifier l r
    else if is_numeric_identifier l
    then less
    else if is_numeric_identifier r
    then greater
    else if text_lt l r
    then less
    else greater

-- The loop over both lists, and the result past its end.
unfoldable pub compare_identifiers : Comparison → List (List ℕ) → List (List ℕ) → Comparison
unfolding compare_identifier
compare_identifiers end [] rs = end
compare_identifiers end (l ∷ ls) [] = end
compare_identifiers end (l ∷ ls) (r ∷ rs) =
    let rest = compare_identifiers end ls rs in if text_eq l r then rest else compare_identifier l r

unfoldable pub compare_pre : List (List ℕ) → List (List ℕ) → Comparison
unfolding compare_identifiers compare_uint
compare_pre [] [] = same
compare_pre [] (r ∷ rs) = greater
compare_pre (l ∷ ls) [] = less
compare_pre (l ∷ ls) (r ∷ rs) =
    compare_identifiers (compare_uint (length (l ∷ ls)) (length (r ∷ rs))) (l ∷ ls) (r ∷ rs)

-- `if comparison := first; comparison != 0 { return comparison }`
abbrev pub or_else : Comparison → Comparison → Comparison
or_else less next = less
or_else same next = next
or_else greater next = greater

unfoldable pub compare_sem_version : SemVersion → SemVersion → Comparison
unfolding compare_uint compare_pre
compare_sem_version l r = or_else (compare_uint l.major r.major) (
    or_else (compare_uint l.minor r.minor)
      (or_else (compare_uint l.patch r.patch) (compare_pre l.pre r.pre)))
