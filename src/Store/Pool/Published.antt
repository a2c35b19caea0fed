-- ===== src/Store/Pool/Published.antt =====
-- A publication is one pass over the accounts, or nothing at all.
use sub2api5hlimit.Base.{
  ℕ, Bool, true, false, not, ◌&&◌, ◌||◌, ◌==◌, if◌then◌else◌, Option, none, some, List, [], ◌∷◌,
  count_where, update_where, count_where-update_where_eq, Bool-cases, inl, inr, ◌≡◌, refl, sym, ◌∙◌,
  ap, ap₂,
}
use sub2api5hlimit.Store.Pool.{
  PoolAccount, Pool, has_id, id_of, can_publish, set_published, publish_each, settle_publication,
  set_pool_published, account_not_found,
}

abbrev pub is_member : ℕ → List ℕ → Bool
is_member i [] = false
is_member i (id ∷ ids) = i == id || is_member i ids

-- The accounts that a publication of `ids` meets.
abbrev pub is_chosen : List ℕ → Bool → PoolAccount → Bool
is_chosen ids published a = is_member (id_of a) ids && not (published && a.missing)

-- One row, updated once by either of two tests.
row_once :
    (q : PoolAccount → Bool) (f : PoolAccount → PoolAccount) (a : PoolAccount) (b : Bool)
    → q (f a) ≡ q a
    → f (f a) ≡ f a
    → (if q (if b then f a else a) then f (if b then f a else a) else if b then f a else a)
      ≡ (if b || q a then f a else a)
row_once q f a false same twice = refl
row_once q f a true same twice = elim (Bool-cases (q (f a))) [
  | inl e ↦ rw e twice
  | inr e ↦ rw e refl
]

either : (e m k : Bool) → (e && k || m && k) ≡ ((e || m) && k)
either true true true = refl
either true true false = refl
either true false true = refl
either true false false = refl
either false m k = refl

set_again :
    (id : ℕ) (ids : List ℕ) (published : Bool) (now : ℕ) (accounts : List PoolAccount)
    → update_where
        (is_chosen ids published)
        (set_published published now)
        (update_where (can_publish id published) (set_published published now) accounts)
      ≡ update_where (is_chosen (id ∷ ids) published) (set_published published now) accounts
unfolding set_published
set_again id ids published now [] = refl
set_again id ids published now (a ∷ accounts) =
    ap₂ (λ x xs. x ∷ xs)
      (row_once (is_chosen ids published) (set_published published now) a
          (can_publish id published a) refl refl
        ∙ ap (λ b. if b then set_published published now a else a)
            (either (has_id id a) (is_member (id_of a) ids) (not (published && a.missing))))
      (set_again id ids published now accounts)

none_chosen :
    (published : Bool) (now : ℕ) (accounts : List PoolAccount)
    → update_where (is_chosen [] published) (set_published published now) accounts ≡ accounts
none_chosen published now [] = refl
none_chosen published now (a ∷ accounts) = ap (λ xs. a ∷ xs) (none_chosen published now accounts)

-- A row that can be published stays one that can.
still_there :
    (id id' : ℕ) (published : Bool) (now : ℕ) (accounts : List PoolAccount)
    → count_where
        (can_publish id published)
        (update_where (can_publish id' published) (set_published published now) accounts)
      ≡ count_where (can_publish id published) accounts
unfolding set_published
still_there id id' published now accounts =
    count_where-update_where_eq (can_publish id published) (can_publish id' published)
      (set_published published now) accounts (λ a h. refl)

-- Each id names an account, one that is not missing if it is to be published.
abbrev pub are_there : List ℕ → Bool → List PoolAccount → Bool
are_there [] published accounts = true
are_there (id ∷ ids) published accounts =
    not (count_where (can_publish id published) accounts == 0) && are_there ids published accounts

are_there_still :
    (ids : List ℕ) (id' : ℕ) (published : Bool) (now : ℕ) (accounts : List PoolAccount)
    → are_there ids published
        (update_where (can_publish id' published) (set_published published now) accounts)
      ≡ are_there ids published accounts
are_there_still [] id' published now accounts = refl
are_there_still (id ∷ ids) id' published now accounts =
    ap₂ (λ n b. not (n == 0) && b) (still_there id id' published now accounts)
      (are_there_still ids id' published now accounts)

publish_each_lem :
    (ids : List ℕ) (published : Bool) (now : ℕ) (accounts : List PoolAccount)
    → publish_each ids published now accounts ≡ (
        if are_there ids published accounts
        then some (update_where (is_chosen ids published) (set_published published now) accounts)
        else none)
unfolding publish_each
publish_each_lem [] published now accounts = ap some (sym (none_chosen published now accounts))
publish_each_lem (id ∷ ids) published now accounts =
    ap (λ o. if count_where (can_publish id published) accounts == 0 then none else o)
      (publish_each_lem ids published now
          (update_where (can_publish id published) (set_published published now) accounts)
        ∙ ap₂ (λ b xs. if b then some xs else none) (are_there_still ids id published now accounts)
            (set_again id ids published now accounts))
    ∙ go _ (count_where (can_publish id published) accounts == 0) (are_there ids published accounts)
  where
    go :
        (o : Option (List PoolAccount)) (z b : Bool)
        → (if z then none else if b then o else none) ≡ (if not z && b then o else none)
    go o true b = refl
    go o false b = refl

-- A publication of at least one account. Where each id names an account, one that is not missing if it is to be
-- published, it succeeds, is one pass that sets the column on the rows with these ids, and records
-- its actor; otherwise it fails and changes nothing.
pub set_pool_published_lem :
    (id : ℕ) (ids : List ℕ) (published : Bool) (actor_id now : ℕ) (p : Pool)
    → set_pool_published (id ∷ ids) published actor_id now p ≡ (
        if are_there (id ∷ ids) published p.accounts
        then (
          record {
            accounts =
                update_where
                  (is_chosen (id ∷ ids) published)
                  (set_published published now)
                  p.accounts;
            publications = actor_id ∷ p.publications;
          },
          none,
        )
        else (p, some account_not_found))
unfolding set_pool_published
set_pool_published_lem id ids published actor_id now p =
    ap (settle_publication actor_id p) (publish_each_lem (id ∷ ids) published now p.accounts)
    ∙ go _ (are_there (id ∷ ids) published p.accounts)
  where
    go :
        (xs : List PoolAccount) (b : Bool)
        → settle_publication actor_id p (if b then some xs else none) ≡ (
            if b
            then (record { accounts = xs; publications = actor_id ∷ p.publications }, none)
            else (p, some account_not_found))
    go xs true = refl
    go xs false = refl
