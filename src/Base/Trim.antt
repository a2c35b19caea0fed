-- ===== src/Base/Trim.antt =====
-- Go's strings.TrimSpace and SQLite's NOCASE, on code points.
use Prim.Native.Nat.{ℕ, ◌+◌}
use mathlib.Core.Bool.{Bool, ◌&&◌, ◌||◌}
use mathlib.Core.List.{List, [], ◌∷◌, reverse}
use sub2api5hlimit.Base.Tests.{◌==◌, leb, if◌then◌else◌}
use sub2api5hlimit.Base.Text.{text_eq}

-- unicode.IsSpace
abbrev pub is_space : ℕ → Bool
is_space c =
    leb 9 c && leb c 13
    || c == 32
    || c == 0x85
    || c == 0xa0
    || c == 0x1680
    || leb 0x2000 c && leb c 0x200a
    || c == 0x2028
    || c == 0x2029
    || c == 0x202f
    || c == 0x205f
    || c == 0x3000

unfoldable pub trim_left : List ℕ → List ℕ
trim_left [] = []
trim_left (c ∷ s) = if is_space c then trim_left s else c ∷ s

unfoldable pub trim_space : List ℕ → List ℕ
unfolding trim_left
trim_space s = reverse (trim_left (reverse (trim_left s)))

-- strings.TrimRight, with the cutset as a test.
unfoldable pub trim_right : (ℕ → Bool) → List ℕ → List ℕ
trim_right p [] = []
trim_right p (c ∷ s) = elim (trim_right p s) [
  | [] ↦ if p c then [] else c ∷ []
  | d ∷ rest ↦ c ∷ d ∷ rest
]

-- The letters A to Z in lower case.
abbrev pub fold_case : ℕ → ℕ
fold_case c = if leb b'A' c && leb c b'Z' then c + 32 else c

abbrev pub nocase : List ℕ → List ℕ
nocase [] = []
nocase (c ∷ s) = fold_case c ∷ nocase s

-- Equality under COLLATE NOCASE.
abbrev pub nocase_eq : List ℕ → List ℕ → Bool
nocase_eq s t = text_eq (nocase s) (nocase t)
