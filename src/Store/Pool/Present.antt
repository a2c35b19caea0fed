-- ===== src/Store/Pool/Present.antt =====
-- Which accounts of the pool are present after an inventory, and what every history of calls keeps.
use sub2api5hlimit.Base.{
  ℕ, ◌+◌, ◌≤◌, Bool, true, false, not, ◌&&◌, ◌||◌, ◌==◌, ltb, if◌then◌else◌, Option, none, some,
  List, [], ◌∷◌, count_where, update_where, All, All-update_where, count_where-update_where_eq,
  count_where_mono, Bool-cases, inl, inr, map, ◌≡◌, refl, sym, ◌∙◌, ap, subst, ◌≢◌, arith,
}
use sub2api5hlimit.Store.Model.{Text}
use sub2api5hlimit.Store.Tx.{ok}
use sub2api5hlimit.Store.Pool.{
  unavailable, PoolInventory, PoolAccount, Pool, id_of, mark_missing, new_account, seen_again,
  insert_account, has_id, has_alias, upsert, upsert_each, settle, apply_pool_inventory,
}

pub some-injective : {A : Type 0} {a b : A} → some a ≡ some b → a ≡ b
some-injective e = cc

-- An account that is missing is shown as unavailable.
pub record IsShown (a : PoolAccount) : Type 0 where
  pub missing_shown : a.missing ≡ true → a.normalized_status ≡ unavailable

pub record IsPool (accounts : List PoolAccount) : Type 0 where
  pub shown : All IsShown accounts
  pub distinct : (i : ℕ) → count_where (has_id i) accounts ≤ 1

-- An update of rows that keeps their ids.
pub update-IsPool :
    (p : PoolAccount → Bool) (f : PoolAccount → PoolAccount) (accounts : List PoolAccount)
    → ((a : PoolAccount) → id_of (f a) ≡ id_of a)
    → ((a : PoolAccount) → IsShown a → IsShown (f a))
    → IsPool accounts
    → IsPool (update_where p f accounts)
update-IsPool p f accounts ids k h = record {
  shown = All-update_where IsShown p f accounts (λ a s _. k a s) h.shown;
  distinct = λ i.
      rw (count_where-update_where_eq (has_id i) p f accounts (λ a _. ap (λ j. j == i) (ids a)))
        (h.distinct i);
}

mark-All : (now : ℕ) (accounts : List PoolAccount) → All IsShown (map (mark_missing now) accounts)
unfolding mark_missing
mark-All now [] = tt
mark-All now (a ∷ accounts) = (record { missing_shown = λ _. refl }, mark-All now accounts)

mark-count :
    (now i : ℕ) (accounts : List PoolAccount)
    → count_where (has_id i) (map (mark_missing now) accounts) ≡ count_where (has_id i) accounts
unfolding mark_missing
mark-count now i [] = refl
mark-count now i (a ∷ accounts) =
    ap (λ n. (if id_of a == i then 1 else 0) + n) (mark-count now i accounts)

insert-count :
    (q : PoolAccount → Bool) (new : PoolAccount) (accounts : List PoolAccount)
    → count_where q (insert_account new accounts)
      ≡ (if q new then 1 else 0) + count_where q accounts
insert-count q new [] = refl
insert-count q new (a ∷ accounts) = ground (arith, insert-count q new accounts)

insert-All :
    (new : PoolAccount) (accounts : List PoolAccount)
    → IsShown new
    → All IsShown accounts
    → All IsShown (insert_account new accounts)
insert-All new [] s h = (s, tt)
insert-All new (a ∷ accounts) s h = go (ltb (id_of new) (id_of a)) (insert-All new accounts s h.1)
  where
    go :
        (b : Bool)
        → All IsShown (insert_account new accounts)
        → All IsShown (if b then new ∷ a ∷ accounts else a ∷ insert_account new accounts)
    go true rest = (s, h)
    go false rest = (h.0, rest)

-- What an upsert does: a new row, or an update of the rows with the id.
data Upserted (item : PoolInventory) (alias : Text) (now : ℕ) (accounts : List PoolAccount)
    : List PoolAccount → Type 0 where
  inserted :
      count_where (has_id item.upstream_account_id) accounts ≡ 0
      → Upserted item alias now accounts (insert_account (new_account item alias now) accounts)
  updated :
      count_where (has_id item.upstream_account_id) accounts ≢ 0
      → Upserted item alias now accounts
          (update_where (has_id item.upstream_account_id) (seen_again item now) accounts)

upsert-Upserted :
    (item : PoolInventory) (alias : Text) (now : ℕ) (accounts accounts' : List PoolAccount)
    → upsert item alias now accounts ≡ some accounts'
    → Upserted item alias now accounts accounts'
unfolding upsert
upsert-Upserted item alias now accounts accounts' h =
    go (count_where (has_alias alias) accounts == 0)
      (count_where (has_id item.upstream_account_id) accounts == 0) refl h
  where
    id : ℕ
    id = item.upstream_account_id

    go :
        (a b : Bool)
        → (count_where (has_id id) accounts == 0) ≡ b
        → (if not a
            then none
            else if b
            then some (insert_account (new_account item alias now) accounts)
            else some (update_where (has_id id) (seen_again item now) accounts))
          ≡ some accounts'
        → Upserted item alias now accounts accounts'
    go false b e h = absurd (cc)
    go true true e h =
        subst (Upserted item alias now accounts) (some-injective h) (inserted (ground arith))
    go true false e h =
        subst (Upserted item alias now accounts) (some-injective h) (updated (ground arith))

upsert-IsPool :
    (item : PoolInventory) (alias : Text) (now : ℕ) (accounts accounts' : List PoolAccount)
    → Upserted item alias now accounts accounts'
    → IsPool accounts
    → IsPool accounts'
unfolding new_account seen_again
upsert-IsPool item alias now accounts _ (inserted z) h = record {
  shown =
      insert-All (new_account item alias now) accounts (record { missing_shown = λ e. absurd (cc) })
        h.shown;
  distinct = λ i.
      let d = h.distinct i in
      let c = insert-count (has_id i) (new_account item alias now) accounts in first i c d;
}
  where
    first :
        (i : ℕ)
        → count_where (has_id i) (insert_account (new_account item alias now) accounts)
          ≡ (if item.upstream_account_id == i then 1 else 0) + count_where (has_id i) accounts
        → count_where (has_id i) accounts ≤ 1
        → count_where (has_id i) (insert_account (new_account item alias now) accounts) ≤ 1
    first i c d = elim (Bool-cases (item.upstream_account_id == i)) [
      | inl e ↦
          let same : item.upstream_account_id ≡ i = ground arith in
          let zero_i = subst (λ k. count_where (has_id k) accounts ≡ 0) same z in ground arith
      | inr e ↦ ground arith
    ]
upsert-IsPool item alias now accounts _ (updated z) h = update_seen
  where
    id : ℕ
    id = item.upstream_account_id

    id_eq : (a : PoolAccount) → has_id id a ≡ true → id_of a ≡ id
    id_eq a e = ground arith

    update_seen : IsPool (update_where (has_id id) (seen_again item now) accounts)
    update_seen = record {
      shown =
          All-update_where IsShown (has_id id) (seen_again item now) accounts
            (λ a s _. record { missing_shown = λ e. absurd (cc) }) h.shown;
      distinct = λ i.
          rw
            (count_where-update_where_eq (has_id i) (has_id id) (seen_again item now) accounts
              (λ a e. ap (λ j. j == i) (sym (id_eq a e))))
            (h.distinct i);
    }

-- The account `i` is there and not missing.
abbrev pub is_present : ℕ → PoolAccount → Bool
is_present i a = has_id i a && not a.missing

abbrev pub is_listed : ℕ → List (PoolInventory × Option Text) → Bool
is_listed i [] = false
is_listed i ((item, _) ∷ items) = item.upstream_account_id == i || is_listed i items

present_le :
    (i : ℕ) (accounts : List PoolAccount)
    → count_where (is_present i) accounts ≤ count_where (has_id i) accounts
present_le i accounts = count_where_mono (is_present i) (has_id i) accounts (λ a h. ground arith)

mark-present :
    (now i : ℕ) (accounts : List PoolAccount)
    → count_where (is_present i) (map (mark_missing now) accounts) ≡ 0
unfolding mark_missing
mark-present now i [] = refl
mark-present now i (a ∷ accounts) = ground (arith, mark-present now i accounts)

seen-present :
    (item : PoolInventory) (now : ℕ) (accounts : List PoolAccount)
    → count_where
        (is_present item.upstream_account_id)
        (update_where (has_id item.upstream_account_id) (seen_again item now) accounts)
      ≡ count_where (has_id item.upstream_account_id) accounts
unfolding seen_again
seen-present item now [] = refl
seen-present item now (a ∷ accounts) = ground (arith, seen-present item now accounts)

seen-other :
    (item : PoolInventory) (now i : ℕ) (accounts : List PoolAccount)
    → (item.upstream_account_id == i) ≡ false
    → count_where
        (is_present i)
        (update_where (has_id item.upstream_account_id) (seen_again item now) accounts)
      ≡ count_where (is_present i) accounts
unfolding seen_again
seen-other item now i [] h = refl
seen-other item now i (a ∷ accounts) h = ground (arith, seen-other item now i accounts h)

upsert-present :
    (item : PoolInventory) (alias : Text) (now i : ℕ) (accounts accounts' : List PoolAccount)
    → Upserted item alias now accounts accounts'
    → IsPool accounts
    → count_where (is_present i) accounts'
      ≡ (if item.upstream_account_id == i then 1 else count_where (is_present i) accounts)
unfolding new_account
upsert-present item alias now i accounts _ (inserted z) h =
    let c = insert-count (is_present i) (new_account item alias now) accounts in
    let le = present_le i accounts in
    elim (Bool-cases (item.upstream_account_id == i)) [
      | inl e ↦
          let same : item.upstream_account_id ≡ i = ground arith in
          let none_there = subst (λ k. count_where (has_id k) accounts ≡ 0) same z in ground arith
      | inr e ↦ ground arith
    ]
upsert-present item alias now i accounts _ (updated z) h =
    elim (Bool-cases (item.upstream_account_id == i)) [
      | inl e ↦
          let same : item.upstream_account_id ≡ i = ground arith in
          let d = h.distinct item.upstream_account_id in
          let c = seen-present item now accounts in
          let one =
            subst
              (λ k.
                count_where (is_present k)
                  (update_where (has_id item.upstream_account_id) (seen_again item now) accounts)
                ≡ count_where (has_id item.upstream_account_id) accounts)
              same c in
          ground arith
      | inr e ↦ rw e (seen-other item now i accounts e)
    ]

upsert_each_lem :
    (items : List (PoolInventory × Option Text)) (now : ℕ) (accounts accounts' : List PoolAccount)
    → upsert_each items now accounts ≡ some accounts'
    → IsPool accounts
    → IsPool accounts'
      × ((i : ℕ)
          → count_where (is_present i) accounts'
            ≡ (if is_listed i items then 1 else count_where (is_present i) accounts))
unfolding upsert_each
upsert_each_lem [] now accounts accounts' e h =
    subst
      (λ xs.
        IsPool xs × ((i : ℕ) → count_where (is_present i) xs ≡ count_where (is_present i) accounts))
      (some-injective e) (h, λ i. refl)
upsert_each_lem ((item, none) ∷ items) now accounts accounts' e h = absurd (cc)
upsert_each_lem ((item, some alias) ∷ items) now accounts accounts' e h =
    go (upsert item alias now accounts) refl e (upsert_each_lem items now)
  where
    join :
        (l : Bool) (i n m : ℕ)
        → n ≡ (if item.upstream_account_id == i then 1 else m)
        → (if l then 1 else n) ≡ (if item.upstream_account_id == i || l then 1 else m)
    join l i n m h = ground arith

    go :
        (o : Option (List PoolAccount))
        → upsert item alias now accounts ≡ o
        → elim o [ none ↦ none | some xs ↦ upsert_each items now xs ] ≡ some accounts'
        → ((xs xs' : List PoolAccount)
            → upsert_each items now xs ≡ some xs'
            → IsPool xs
            → IsPool xs'
              × ((i : ℕ)
                  → count_where (is_present i) xs'
                    ≡ (if is_listed i items then 1 else count_where (is_present i) xs)))
        → IsPool accounts'
          × ((i : ℕ)
              → count_where (is_present i) accounts' ≡ (
                  if is_listed i ((item, some alias) ∷ items)
                  then 1
                  else count_where (is_present i) accounts))
    go none e h' rest = absurd (cc)
    go (some xs) e h' rest =
        let up = upsert-Upserted item alias now accounts xs e in
        let all = rest xs accounts' h' (upsert-IsPool item alias now accounts xs up h) in
        (
          all.0,
          λ i.
              all.1 i
              ∙ join (is_listed i items) i (count_where (is_present i) xs)
                  (count_where (is_present i) accounts)
                  (upsert-present item alias now i accounts xs up h),
        )

mark-IsPool :
    (now : ℕ) (accounts : List PoolAccount)
    → IsPool accounts
    → IsPool (map (mark_missing now) accounts)
mark-IsPool now accounts h = record {
  shown = mark-All now accounts;
  distinct = λ i. rw (mark-count now i accounts) (h.distinct i);
}

pub inventory_lem :
    (items : List (PoolInventory × Option Text)) (now : ℕ) (p : Pool)
    → IsPool p.accounts
    → (o : Option (List PoolAccount))
    → upsert_each items now (map (mark_missing now) p.accounts) ≡ o
    → (settle p o).1 ≡ ok tt
    → IsPool (settle p o).0.accounts
      × ((i : ℕ)
          → count_where (is_present i) (settle p o).0.accounts
            ≡ (if is_listed i items then 1 else 0))
inventory_lem items now p h none e r = absurd (cc)
inventory_lem items now p h (some accounts) e r =
    let marked = map (mark_missing now) p.accounts in
    let all = upsert_each_lem items now marked accounts e (mark-IsPool now p.accounts h) in
    (
      all.0,
      λ i. all.1 i ∙ ap (λ n. if is_listed i items then 1 else n) (mark-present now i p.accounts),
    )

-- On a pool with distinct ids, whose missing accounts are shown as unavailable, an inventory that
-- succeeds keeps this, and an account is present after it, in one row, exactly when the inventory lists it.
pub apply_pool_inventory-is_present :
    (items : List (PoolInventory × Option Text)) (now : ℕ) (p : Pool)
    → IsPool p.accounts
    → (apply_pool_inventory items now p).1 ≡ ok tt
    → IsPool (apply_pool_inventory items now p).0.accounts
      × ((i : ℕ)
          → count_where (is_present i) (apply_pool_inventory items now p).0.accounts
            ≡ (if is_listed i items then 1 else 0))
unfolding apply_pool_inventory
apply_pool_inventory-is_present items now p h r =
    inventory_lem items now p h (upsert_each items now (map (mark_missing now) p.accounts)) refl r
