-- ===== src/Store/Pool/History.antt =====
-- Histories of calls on the pool.
use sub2api5hlimit.Base.{
  ℕ, Bool, true, false, if◌then◌else◌, Option, none, some, List, [], ◌∷◌, update_where, count_where,
  ◌==◌, map, ◌≡◌, refl, subst, not, Option-cases, inl, inr,
}
use sub2api5hlimit.Store.Model.{Text}
use sub2api5hlimit.Store.Pool.{
  PoolInventory, PoolUsage, PoolAccount, Pool, normalize_status, is_empty, has_id, id_of,
  mark_missing, upsert_each, settle, apply_pool_inventory, used, usage_lost, usage_read,
  apply_each_usage, apply_pool_usage, can_publish, set_published, publish_each, set_pool_published,
  usage_failed, mark_pool_usage_failed,
}
use sub2api5hlimit.Store.Pool.Present.{
  IsShown, IsPool, update-IsPool, inventory_lem, some-injective,
}

pub data PoolCall : Type 0 where
  inventory : List (PoolInventory × Option Text) → PoolCall
  usage : List PoolUsage → PoolCall
  publish : List ℕ → Bool → ℕ → PoolCall
  failure : Text → PoolCall

-- One call at a time of the clock.
unfoldable pub step : PoolCall → ℕ → Pool → Pool
unfolding apply_pool_inventory apply_pool_usage set_pool_published mark_pool_usage_failed
step (inventory items) now p = (apply_pool_inventory items now p).0
step (usage items) now p = (apply_pool_usage items now p).0
step (publish ids published actor_id) now p = (set_pool_published ids published actor_id now p).0
step (failure code) now p = mark_pool_usage_failed code now p

unfoldable pub run : List (PoolCall × ℕ) → Pool → Pool
unfolding step
run [] p = p
run ((c, now) ∷ calls) p = run calls (step c now p)

used-IsShown :
    (item : PoolUsage) (now : ℕ) (a : PoolAccount) → IsShown a → IsShown (used item now a)
unfolding used usage_lost usage_read normalize_status
used-IsShown item now a h = go (not (is_empty item.error_code))
  where
    go : (b : Bool) → IsShown (if b then usage_lost item now a else usage_read item now a)
    go true = record { missing_shown = λ e. rw e refl }
    go false = record { missing_shown = λ e. rw e refl }

used-id : (item : PoolUsage) (now : ℕ) (a : PoolAccount) → id_of (used item now a) ≡ id_of a
unfolding used usage_lost usage_read
used-id item now a = go (not (is_empty item.error_code))
  where
    go : (b : Bool) → id_of (if b then usage_lost item now a else usage_read item now a) ≡ id_of a
    go true = refl
    go false = refl

apply_each_usage-IsPool :
    (items : List PoolUsage) (now : ℕ) (accounts : List PoolAccount)
    → IsPool accounts
    → IsPool (apply_each_usage items now accounts)
unfolding apply_each_usage
apply_each_usage-IsPool [] now accounts h = h
apply_each_usage-IsPool (item ∷ items) now accounts h =
    apply_each_usage-IsPool items now
      (update_where (has_id item.upstream_account_id) (used item now) accounts)
      (update-IsPool (has_id item.upstream_account_id) (used item now) accounts (used-id item now)
        (used-IsShown item now) h)

publish_each-IsPool :
    (ids : List ℕ) (published : Bool) (now : ℕ) (accounts accounts' : List PoolAccount)
    → publish_each ids published now accounts ≡ some accounts'
    → IsPool accounts
    → IsPool accounts'
unfolding publish_each set_published
publish_each-IsPool [] published now accounts accounts' e h = subst IsPool (some-injective e) h
publish_each-IsPool (id ∷ ids) published now accounts accounts' e h =
    go (count_where (can_publish id published) accounts == 0) e (λ e.
      publish_each-IsPool ids published now
        (update_where (can_publish id published) (set_published published now) accounts) accounts' e
        (update-IsPool (can_publish id published) (set_published published now) accounts (λ a. refl)
          (λ a s. record { missing_shown = s.missing_shown }) h))
  where
    go :
        (b : Bool) {o : Option (List PoolAccount)}
        → (if b then none else o) ≡ some accounts'
        → (o ≡ some accounts' → IsPool accounts')
        → IsPool accounts'
    go true e k = absurd (cc)
    go false e k = k e

publish-IsPool :
    (ids : List ℕ) (published : Bool) (actor_id now : ℕ) (p : Pool)
    → IsPool p.accounts
    → IsPool (set_pool_published ids published actor_id now p).0.accounts
unfolding set_pool_published
publish-IsPool [] published actor_id now p h = h
publish-IsPool (id ∷ ids) published actor_id now p h =
    elim (Option-cases (publish_each (id ∷ ids) published now p.accounts)) [
      | inl e ↦ rw (e, set_pool_published) h
      | inr (xs, e) ↦
          rw (e, set_pool_published)
            (publish_each-IsPool (id ∷ ids) published now p.accounts xs e h)
    ]

inventory-IsPool :
    (items : List (PoolInventory × Option Text)) (now : ℕ) (p : Pool)
    → IsPool p.accounts
    → IsPool (apply_pool_inventory items now p).0.accounts
unfolding apply_pool_inventory
inventory-IsPool items now p h = go (upsert_each items now (map (mark_missing now) p.accounts)) refl
  where
    go :
        (o : Option (List PoolAccount))
        → upsert_each items now (map (mark_missing now) p.accounts) ≡ o
        → IsPool (settle p o).0.accounts
    go none e = h
    go (some xs) e = (inventory_lem items now p h (some xs) e refl).0

failure-IsShown :
    (code : Text) (now : ℕ) (a : PoolAccount) → IsShown a → IsShown (usage_failed code now a)
unfolding usage_failed
failure-IsShown code now a h = record { missing_shown = λ e. rw e refl }

usage_failed-id :
    (code : Text) (now : ℕ) (a : PoolAccount) → id_of (usage_failed code now a) ≡ id_of a
unfolding usage_failed
usage_failed-id code now a = refl

step-IsPool :
    (c : PoolCall) (now : ℕ) (p : Pool) → IsPool p.accounts → IsPool (step c now p).accounts
unfolding step apply_pool_usage mark_pool_usage_failed
step-IsPool (inventory items) now p h = inventory-IsPool items now p h
step-IsPool (usage items) now p h = apply_each_usage-IsPool items now p.accounts h
step-IsPool (publish ids published actor_id) now p h = publish-IsPool ids published actor_id now p h
step-IsPool (failure code) now p h =
    update-IsPool (λ a. a.published) (usage_failed code now) p.accounts (usage_failed-id code now)
      (failure-IsShown code now) h

-- Every history of calls on the pool keeps its ids distinct and shows each missing account as
-- unavailable.
pub run-IsPool :
    (calls : List (PoolCall × ℕ)) (p : Pool) → IsPool p.accounts → IsPool (run calls p).accounts
unfolding run
run-IsPool [] p h = h
run-IsPool ((c, now) ∷ calls) p h = run-IsPool calls (step c now p) (step-IsPool c now p h)
