-- ===== src/Base/Lists.antt =====
-- Lists measured by native numbers, and tables: lists of rows with SQL's `WHERE` as a test.
use Prim.Native.Nat.{ℕ, zero, suc, ◌+◌, ◌≤◌}
use mathlib.Core.Path.{◌≡◌, refl}
use mathlib.Core.Logic.{◌≢◌, inl, inr}
use mathlib.Core.Bool.{Bool, true, false}
use mathlib.Core.List.{List, [], ◌∷◌, ◌++◌}
use mathlib.Core.Option.{Option, none, some}
use native.Mathlib.Omega.{arith}
use sub2api5hlimit.Base.Tests.{Bool-cases, if◌then◌else◌}

module _ {ℓ} {A : Type ℓ} where
  abbrev pub length : List A → ℕ
  length [] = 0
  length (x ∷ xs) = suc (length xs)

  abbrev pub get_elem? : List A → ℕ → Option A
  get_elem? [] i = none
  get_elem? (x ∷ xs) zero = some x
  get_elem? (x ∷ xs) (suc i) = get_elem? xs i

  -- `SELECT COUNT(*) … WHERE p`.
  abbrev pub count_where : (A → Bool) → List A → ℕ
  count_where p [] = 0
  count_where p (x ∷ xs) = (if p x then 1 else 0) + count_where p xs

  -- `UPDATE … SET f WHERE p`.
  abbrev pub update_where : (A → Bool) → (A → A) → List A → List A
  update_where p f [] = []
  update_where p f (x ∷ xs) = (if p x then f x else x) ∷ update_where p f xs

  -- `DELETE … WHERE p`.
  abbrev pub delete_where : (A → Bool) → List A → List A
  delete_where p [] = []
  delete_where p (x ∷ xs) = if p x then delete_where p xs else x ∷ delete_where p xs

  -- `SELECT … WHERE p`, all rows and the first.
  abbrev pub select_where : (A → Bool) → List A → List A
  select_where p [] = []
  select_where p (x ∷ xs) = if p x then x ∷ select_where p xs else select_where p xs

  abbrev pub find_where : (A → Bool) → List A → Option A
  find_where p [] = none
  find_where p (x ∷ xs) = if p x then some x else find_where p xs

  abbrev pub All {κ} : (A → Type κ) → List A → Type κ
  All P [] = Unit
  All P (x ∷ xs) = P x × All P xs

  pub All-append {κ} : (P : A → Type κ) (xs ys : List A) → All P xs → All P ys → All P (xs ++ ys)
  All-append P [] ys hx hy = hy
  All-append P (x ∷ xs) ys hx hy = (hx.0, All-append P xs ys hx.1 hy)

  pub All-imp {κ μ} :
      (P : A → Type κ) (Q : A → Type μ) (xs : List A) → ((x : A) → P x → Q x) → All P xs → All Q xs
  All-imp P Q [] f h = tt
  All-imp P Q (x ∷ xs) f h = (f x h.0, All-imp P Q xs f h.1)

  pub count_where-append :
      (p : A → Bool) (xs ys : List A)
      → count_where p (xs ++ ys) ≡ count_where p xs + count_where p ys
  count_where-append p [] ys = omega arith
  count_where-append p (x ∷ xs) ys = omega (arith, count_where-append p xs ys)

  pub All-update_where {κ} :
      (P : A → Type κ) (p : A → Bool) (f : A → A) (xs : List A)
      → ((x : A) → P x → p x ≡ true → P (f x))
      → All P xs
      → All P (update_where p f xs)
  All-update_where P p f [] k h = tt
  All-update_where P p f (x ∷ xs) k h = (row (p x) (k x h.0), All-update_where P p f xs k h.1)
    where
      row : (b : Bool) → (b ≡ true → P (f x)) → P (if b then f x else x)
      row true g = g refl
      row false g = h.0

  pub length-append : (xs ys : List A) → length (xs ++ ys) ≡ length xs + length ys
  length-append [] ys = omega arith
  length-append (x ∷ xs) ys = omega (arith, length-append xs ys)

  -- What an update does to a count, row by row.
  pub count_where-update_where_eq :
      (q p : A → Bool) (f : A → A) (xs : List A)
      → ((x : A) → p x ≡ true → q (f x) ≡ q x)
      → count_where q (update_where p f xs) ≡ count_where q xs
  count_where-update_where_eq q p f [] k = refl
  count_where-update_where_eq q p f (x ∷ xs) k =
      ground (arith, k x, count_where-update_where_eq q p f xs k)

  pub count_where-update_where_le :
      (q p : A → Bool) (f : A → A) (xs : List A)
      → ((x : A) → p x ≡ true → q (f x) ≡ true → q x ≡ true)
      → count_where q (update_where p f xs) ≤ count_where q xs
  count_where-update_where_le q p f [] k = omega arith
  count_where-update_where_le q p f (x ∷ xs) k =
      ground (arith, k x, count_where-update_where_le q p f xs k)

  pub count_where_mono :
      (p q : A → Bool) (xs : List A)
      → ((x : A) → p x ≡ true → q x ≡ true)
      → count_where p xs ≤ count_where q xs
  count_where_mono p q [] k = omega arith
  count_where_mono p q (x ∷ xs) k = ground (arith, k x, count_where_mono p q xs k)

  pub count_where-zero {κ} :
      (P : A → Type κ) (p : A → Bool) (xs : List A)
      → ((x : A) → P x → p x ≡ false)
      → All P xs
      → count_where p xs ≡ 0
  count_where-zero P p [] k h = refl
  count_where-zero P p (x ∷ xs) k h = ground (arith, k x h.0, count_where-zero P p xs k h.1)

  pub count_where-delete_where_le :
      (q p : A → Bool) (xs : List A) → count_where q (delete_where p xs) ≤ count_where q xs
  count_where-delete_where_le q p [] = omega arith
  count_where-delete_where_le q p (x ∷ xs) = ground (arith, count_where-delete_where_le q p xs)

  pub count_where-delete_where_self :
      (p : A → Bool) (xs : List A) → count_where p (delete_where p xs) ≡ 0
  count_where-delete_where_self p [] = refl
  count_where-delete_where_self p (x ∷ xs) = ground (arith, count_where-delete_where_self p xs)

  -- What a deletion keeps also satisfies its negated test.
  pub All-delete_where {κ} :
      (P : A → Type κ) (p : A → Bool) (xs : List A)
      → All P xs
      → All (λ x. P x × (p x ≡ false)) (delete_where p xs)
  All-delete_where P p [] h = tt
  All-delete_where P p (x ∷ xs) h =
      let rest = All-delete_where P p xs h.1 in
      elim (Bool-cases (p x)) [ inl e ↦ rw e rest | inr e ↦ rw e ((h.0, e), rest) ]

  pub find_where-found :
      (p : A → Bool) (xs : List A) (x : A)
      → find_where p xs ≡ some x
      → (p x ≡ true) × (count_where p xs ≢ 0)
  find_where-found p [] x e = absurd (cc)
  find_where-found p (y ∷ xs) x e = ground (arith, find_where-found p xs x)

  pub find_where-none : (p : A → Bool) (xs : List A) → find_where p xs ≡ none → count_where p xs ≡ 0
  find_where-none p [] e = refl
  find_where-none p (y ∷ xs) e = ground (arith, find_where-none p xs)

  -- An update that meets no row changes nothing.
  pub update_where-none :
      (p : A → Bool) (f : A → A) (xs : List A) → count_where p xs ≡ 0 → update_where p f xs ≡ xs
  update_where-none p f [] h = refl
  update_where-none p f (x ∷ xs) h = ground (arith, update_where-none p f xs)

module _ {ℓ} {A : Type ℓ} where
  -- A write out of bounds changes nothing.
  abbrev pub set : List A → ℕ → A → List A
  set [] i v = []
  set (x ∷ xs) zero v = v ∷ xs
  set (x ∷ xs) (suc i) v = x ∷ set xs i v

  -- Writing to a place that holds x trades x for v in every count.
  pub count_where-set :
      (p : A → Bool) (xs : List A) (i : ℕ) (x v : A)
      → get_elem? xs i ≡ some x
      → count_where p (set xs i v) + (if p x then 1 else 0)
        ≡ count_where p xs + (if p v then 1 else 0)
  count_where-set p [] i x v h = absurd (cc)
  count_where-set p (y ∷ xs) zero x v h = ground arith
  count_where-set p (y ∷ xs) (suc i) x v h = omega (arith, count_where-set p xs i x v h)
