-- ===== src/Tests/Pools.antt =====
-- The pool of accounts at concrete accounts.
use sub2api5hlimit.Base.{
  ℕ, true, false, if◌then◌else◌, Option, none, some, List, [], ◌∷◌, codes, count_where,
  update_where, ◌≡◌, refl, arith,
}
use sub2api5hlimit.Store.Model.{Text}
use sub2api5hlimit.Store.Tx.{ok}
use sub2api5hlimit.Store.Pool.{
  PoolStatus, PoolInventory, PoolAccount, Pool, account_not_found, normalize_status, mark_missing,
  new_account, seen_again, upsert, upsert_each, apply_pool_inventory, set_published,
  set_pool_published, published_account_ids,
}
use sub2api5hlimit.Store.Pool.Present.{
  IsPool, is_present, is_listed, apply_pool_inventory-is_present,
}
use sub2api5hlimit.Store.Pool.History.{PoolCall, inventory, publish, failure, run, run-IsPool}
use sub2api5hlimit.Store.Pool.Published.{is_chosen, are_there, set_pool_published_lem}

abbrev item : ℕ → PoolInventory
item id = record {
  upstream_account_id = id;
  name = codes "account";
  email = [];
  platform = codes "openai";
  account_type = codes "oauth";
  plan_type = [];
  status = codes "active";
  schedulable = true;
}

abbrev account : ℕ → Text → PoolAccount
account id alias = record {
  inventory = item id;
  public_alias = alias;
  published = true;
  missing = false;
  normalized_status = PoolStatus.healthy;
  five = record { supported = false; utilization = none; reset_at = none };
  seven = record { supported = false; utilization = none; reset_at = none };
  usage_source = [];
  source_updated_at = none;
  last_success_at = none;
  last_error_code = [];
  last_seen_at = 1;
  created_at = 1;
  updated_at = 1;
}

abbrev stock : Pool
stock = record {
  accounts = account 1 (codes "Pool-A") ∷ account 2 (codes "Pool-B") ∷ [];
  publications = [];
}

stock-IsPool : IsPool stock.accounts
stock-IsPool = record {
  shown = (
    record { missing_shown = λ e. absurd (cc) },
    (record { missing_shown = λ e. absurd (cc) }, tt),
  );
  distinct = λ i. ground arith;
}

-- Account 1 is seen again, 2 goes missing, 3 is new.
abbrev listed : List (PoolInventory × Option Text)
listed = (item 3, some (codes "Pool-C")) ∷ (item 1, some (codes "Pool-D")) ∷ []

succeeds : (apply_pool_inventory listed 9 stock).1 ≡ ok tt
unfolding apply_pool_inventory upsert_each upsert new_account seen_again mark_missing
    normalize_status
succeeds = refl

-- A published account that is missing is not among those whose usage is fetched.
fetched : published_account_ids (apply_pool_inventory listed 9 stock).0 ≡ 1 ∷ []
unfolding published_account_ids apply_pool_inventory upsert_each upsert new_account seen_again
    mark_missing normalize_status
fetched = refl

apply_pool_inventory-is_present_example :
    IsPool (apply_pool_inventory listed 9 stock).0.accounts
    × ((i : ℕ)
        → count_where (is_present i) (apply_pool_inventory listed 9 stock).0.accounts
          ≡ (if is_listed i listed then 1 else 0))
apply_pool_inventory-is_present_example =
    apply_pool_inventory-is_present listed 9 stock stock-IsPool succeeds

abbrev calls : List (PoolCall × ℕ)
calls =
    (inventory listed, 9)
    ∷ (publish (3 ∷ []) true 1, 10)
    ∷ (failure (codes "UPSTREAM_UNAVAILABLE"), 11)
    ∷ []

run-IsPool_example : IsPool (run calls stock).accounts
run-IsPool_example = run-IsPool calls stock stock-IsPool

set_pool_published_lem_example : set_pool_published (1 ∷ 2 ∷ []) false 7 9 stock ≡ (
    if are_there (1 ∷ 2 ∷ []) false stock.accounts
    then (
      record {
        accounts =
            update_where (is_chosen (1 ∷ 2 ∷ []) false) (set_published false 9) stock.accounts;
        publications = 7 ∷ [];
      },
      none,
    )
    else (stock, some account_not_found))
set_pool_published_lem_example = set_pool_published_lem 1 (2 ∷ []) false 7 9 stock
