-- ===== src/Sync.antt =====
-- internal/syncer/manager.go: what a synchronisation publishes, the generations that drop stale results, and
-- the schedule. What the upstream answers is a parameter of each publication; each function here runs
-- under the locks that the code holds around it.
pub mod Stale
pub mod Delay
use sub2api5hlimit.Base.{
  ℕ, zero, suc, ◌+◌, ◌-◌, ◌*◌, ◌/◌, ◌%◌, ◌^◌, Bool, true, false, ◌&&◌, ◌==◌, leb, if◌then◌else◌,
  Option, none, some, List, [], ◌∷◌, codes,
}
use sub2api5hlimit.Store.Model.{Text, KeySnapshot, Db}
use sub2api5hlimit.Store.Tx.{Result, ok, err}
use sub2api5hlimit.Store.Bindings.{
  LimitEcho, apply_key_snapshots, apply_key_limit_change, apply_key_limit_change_tx,
  mark_key_sync_failed, apply_quota_reset_snapshot,
}
use sub2api5hlimit.Store.Setup.{Site, mark_sync}
use sub2api5hlimit.Store.Pool.{
  PoolInventory, PoolUsage, Pool, apply_pool_inventory, apply_pool_usage, mark_pool_usage_failed,
}

pub record KeyCache : Type 0 where
  pub items : List KeySnapshot
  pub fetched_at : ℕ
  pub last_error : Text

pub record Manager : Type 0 where
  pub site : Site
  pub pool : Pool
  pub connection_generation : ℕ
  pub key_generation : ℕ
  pub keys : KeyCache

-- A uint64 plus one.
abbrev pub next_generation : ℕ → ℕ
next_generation n = (n + 1) % 2 ^ 64

unfoldable pub begin_connection_rotation : Manager → Manager
begin_connection_rotation m = record m {
  connection_generation = next_generation m.connection_generation;
  keys = record { items = []; fetched_at = 0; last_error = [] };
}

abbrev pub with_connection_generation : ℕ → (Manager → Manager) → Manager → Manager
with_connection_generation generation apply m =
    if generation == m.connection_generation then apply m else m

abbrev pub with_key_generation : ℕ → (Manager → Manager) → Manager → Manager
with_key_generation generation apply m = if generation == m.key_generation then apply m else m

abbrev pub with_db : Db → Manager → Manager
with_db db m = record m { site = record (m.site) { db = db } }

-- MarkSync, and what follows where it succeeds.
abbrev pub after_mark : Site × Result (Unit {0}) → (Manager → Manager) → Manager → Manager
after_mark (site, ok _) next m = next (record m { site = site })
after_mark (site, err e) next m = m

abbrev pub keep_keys : List KeySnapshot → ℕ → Manager → Manager
keep_keys snapshots now m = record m {
  keys = record { items = snapshots; fetched_at = now; last_error = [] };
}

abbrev pub after_snapshots : List KeySnapshot → ℕ → Db × Result (Unit {0}) → Manager → Manager
unfolding mark_sync
after_snapshots snapshots now (db, err e) m = m
after_snapshots snapshots now (db, ok _) m =
    let m' = with_db db m in
    after_mark (mark_sync (codes "keys") now now m'.site) (keep_keys snapshots now) m'

-- The published part of syncKeys.
unfoldable pub publish_snapshots : List KeySnapshot → ℕ → Manager → Manager
unfolding apply_key_snapshots mark_sync
publish_snapshots snapshots now m =
    after_snapshots snapshots now (apply_key_snapshots snapshots now m.site.db) m

unfoldable pub publish_keys : ℕ → ℕ → List KeySnapshot → ℕ → Manager → Manager
unfolding publish_snapshots
publish_keys connection generation snapshots now m =
    with_connection_generation connection
      (with_key_generation generation (publish_snapshots snapshots now)) m

unfoldable pub mark_failed : Text → ℕ → Manager → Manager
unfolding mark_key_sync_failed
mark_failed code now m = record (with_db (mark_key_sync_failed code now m.site.db) m) {
  keys = record (m.keys) { last_error = code };
}

-- syncKeys after the upstream failed.
unfoldable pub fail_keys : ℕ → ℕ → Text → ℕ → Manager → Manager
unfolding mark_failed
fail_keys connection generation code now m =
    with_connection_generation connection (with_key_generation generation (mark_failed code now)) m

abbrev pub after_pool : Text → ℕ → Pool × Result (Unit {0}) → Manager → Manager
unfolding mark_sync
after_pool scope now (pool, err e) m = m
after_pool scope now (pool, ok _) m =
    let m' = record m { pool = pool } in after_mark (mark_sync scope now now m'.site) (λ m. m) m'

unfoldable pub store_accounts : List (PoolInventory × Option Text) → ℕ → Manager → Manager
unfolding apply_pool_inventory mark_sync
store_accounts items now m =
    after_pool (codes "accounts") now (apply_pool_inventory items now m.pool) m

unfoldable pub publish_accounts : ℕ → List (PoolInventory × Option Text) → ℕ → Manager → Manager
unfolding store_accounts
publish_accounts connection items now m =
    with_connection_generation connection (store_accounts items now) m

unfoldable pub store_usage : List PoolUsage → ℕ → Manager → Manager
unfolding apply_pool_usage mark_sync
store_usage items now m = after_pool (codes "usage") now (apply_pool_usage items now m.pool) m

unfoldable pub publish_usage : ℕ → List PoolUsage → ℕ → Manager → Manager
unfolding store_usage
publish_usage connection items now m =
    with_connection_generation connection (store_usage items now) m

unfoldable pub lose_usage : Text → ℕ → Manager → Manager
unfolding mark_pool_usage_failed
lose_usage code now m = record m { pool = mark_pool_usage_failed code now m.pool }

unfoldable pub fail_usage : ℕ → Text → ℕ → Manager → Manager
unfolding lose_usage
fail_usage connection code now m = with_connection_generation connection (lose_usage code now) m

abbrev pub counted : Manager → Manager
counted m = record m { key_generation = next_generation m.key_generation }

unfoldable pub store_reset : ℕ → LimitEcho → ℕ → Manager → Manager
unfolding apply_quota_reset_snapshot
store_reset key_id echo now m =
    with_db (apply_quota_reset_snapshot key_id echo now m.site.db).0 (counted m)

unfoldable pub store_limits : ℕ → LimitEcho → ℕ → ℕ → Manager → Manager
unfolding apply_key_limit_change
store_limits key_id echo actor_id now m =
    with_db (apply_key_limit_change key_id echo actor_id now m.site.db).0 (counted m)

-- The end of ResetQuota and of SetKeyLimits, once the upstream confirmed the change.
unfoldable pub confirm_reset : ℕ → ℕ → LimitEcho → ℕ → Manager → Manager
unfolding store_reset
confirm_reset connection key_id echo now m =
    with_connection_generation connection (store_reset key_id echo now) m

unfoldable pub confirm_limits : ℕ → ℕ → LimitEcho → ℕ → ℕ → Manager → Manager
unfolding store_limits
confirm_limits connection key_id echo actor_id now m =
    with_connection_generation connection (store_limits key_id echo actor_id now) m

-- syncErrorCode: the status of an UpstreamError, a SchemaError, a deadline, another error.
pub data Fault : Type 0 where
  upstream : ℕ → Fault
  schema deadline another : Fault

unfoldable pub sync_error_code : Fault → Text
sync_error_code (upstream status) =
    if status == 401
    then codes "UPSTREAM_AUTH"
    else if status == 403
    then codes "UPSTREAM_AUTH"
    else if status == 429
    then codes "UPSTREAM_RATE_LIMITED"
    else if leb 500 status
    then codes "UPSTREAM_UNAVAILABLE"
    else codes "UPSTREAM_ERROR"
sync_error_code schema = codes "UPSTREAM_SCHEMA"
sync_error_code deadline = codes "UPSTREAM_TIMEOUT"
sync_error_code another = codes "UPSTREAM_ERROR"

-- Five minutes, in nanoseconds.
abbrev pub max_backoff : ℕ
max_backoff = 300 * 10 ^ 9

-- The loop of nextDelay with `n` rounds left.
unfoldable pub doubled : ℕ → ℕ → ℕ
doubled zero delay = delay
doubled (suc n) delay =
    let rest = doubled n (delay * 2) in if leb (max_backoff / 2) delay then max_backoff else rest

abbrev pub min : ℕ → ℕ → ℕ
min a b = if leb a b then a else b

abbrev pub span : ℕ → ℕ
span value = if leb 1 (value / 5) then value / 5 else 1

-- `random` is what rand.Int64N of the span gives.
unfoldable pub jitter : ℕ → ℕ → ℕ
jitter value random = if value == 0 then 10 ^ 6 else value - value / 10 + random

unfoldable pub next_delay : ℕ → ℕ → ℕ → ℕ
unfolding doubled jitter
next_delay base failures random = jitter (min (doubled (min failures 8) base) max_backoff) random
