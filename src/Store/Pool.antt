-- ===== src/Store/Pool.antt =====
-- internal/store/pool.go: the pool of upstream accounts, and models.go's records of it. The random alias of
-- an account is a parameter, absent where none could be made. Of the audit events of a publication
-- only the actor stands here.
pub mod Present
pub mod Published
pub mod History
use sub2api5hlimit.Base.{
  ℕ, ◌*◌, ◌^◌, Bool, true, false, not, ◌&&◌, ◌||◌, ◌==◌, ltb, leb, if◌then◌else◌, Option, none,
  some, List, [], ◌∷◌, codes, count_where, update_where, select_where, find_where, text_eq, map,
}
use sub2api5hlimit.Store.Model.{Text, Float64, nan, infinite, finite}
use sub2api5hlimit.Store.Tx.{not_found, constraint, cipher_failed, Result, ok, err}

pub data PoolStatus : Type 0 where
  unavailable degraded rate_limited healthy : PoolStatus

-- What the upstream tells of an account.
pub record PoolInventory : Type 0 where
  pub upstream_account_id : ℕ
  pub name : Text
  pub email : Text
  pub platform : Text
  pub account_type : Text
  pub plan_type : Text
  pub status : Text
  pub schedulable : Bool

pub record Window : Type 0 where
  pub supported : Bool
  pub utilization : Option Float64
  pub reset_at : Option ℕ

pub record PoolUsage : Type 0 where
  pub upstream_account_id : ℕ
  pub five : Window
  pub seven : Window
  pub source : Text
  pub source_updated_at : Option ℕ
  pub error_code : Text

-- The columns that an inventory replaces are those of the inventory.
pub record PoolAccount : Type 0 where
  pub inventory : PoolInventory
  pub public_alias : Text
  pub published : Bool
  pub missing : Bool
  pub normalized_status : PoolStatus
  pub five : Window
  pub seven : Window
  pub usage_source : Text
  pub source_updated_at : Option ℕ
  pub last_success_at : Option ℕ
  pub last_error_code : Text
  pub last_seen_at : ℕ
  pub created_at : ℕ
  pub updated_at : ℕ

pub record Pool : Type 0 where
  pub accounts : List PoolAccount
  pub publications : List ℕ

-- x >= 100
abbrev pub is_exhausted : Option Float64 → Bool
is_exhausted none = false
is_exhausted (some nan) = false
is_exhausted (some (infinite negative)) = not negative
is_exhausted (some (finite true m e)) = false
is_exhausted (some (finite false m e)) = leb (100 * 2 ^ 1074) (m * 2 ^ e)

abbrev pub is_empty : Text → Bool
is_empty [] = true
is_empty (_ ∷ _) = false

unfoldable pub normalize_status :
    Text → Bool → Bool → Option Float64 → Option Float64 → Text → PoolStatus
normalize_status status schedulable missing five seven error_code =
    if missing || text_eq status (codes "disabled") || text_eq status (codes "error")
    then unavailable
    else if not (is_empty error_code) || not schedulable
    then degraded
    else if is_exhausted five || is_exhausted seven
    then rate_limited
    else healthy

abbrev pub id_of : PoolAccount → ℕ
id_of a = a.inventory.upstream_account_id

unfoldable pub mark_missing : ℕ → PoolAccount → PoolAccount
mark_missing now a = record a { missing = true; normalized_status = unavailable; updated_at = now }

abbrev pub no_window : Window
no_window = record { supported = false; utilization = none; reset_at = none }

unfoldable pub new_account : PoolInventory → Text → ℕ → PoolAccount
unfolding normalize_status
new_account item alias now = record {
  inventory = item;
  public_alias = alias;
  published = false;
  missing = false;
  normalized_status = normalize_status item.status item.schedulable false none none [];
  five = no_window;
  seven = no_window;
  usage_source = [];
  source_updated_at = none;
  last_success_at = none;
  last_error_code = [];
  last_seen_at = now;
  created_at = now;
  updated_at = now;
}

-- `DO UPDATE SET`
unfoldable pub seen_again : PoolInventory → ℕ → PoolAccount → PoolAccount
unfolding normalize_status
seen_again item now a = record a {
  inventory = item;
  missing = false;
  normalized_status =
      if not (is_empty a.last_error_code)
      then degraded
      else normalize_status item.status item.schedulable false none none [];
  last_seen_at = now;
  updated_at = now;
}

-- A new row, in the order of the primary key.
abbrev pub insert_account : PoolAccount → List PoolAccount → List PoolAccount
insert_account new [] = new ∷ []
insert_account new (a ∷ accounts) =
    if ltb (id_of new) (id_of a) then new ∷ a ∷ accounts else a ∷ insert_account new accounts

abbrev pub has_id : ℕ → PoolAccount → Bool
has_id id a = id_of a == id

abbrev pub has_alias : Text → PoolAccount → Bool
has_alias alias a = text_eq a.public_alias alias

-- `INSERT … ON CONFLICT(upstream_account_id)`: the other constraint, on the alias, is checked first.
unfoldable pub upsert : PoolInventory → Text → ℕ → List PoolAccount → Option (List PoolAccount)
unfolding new_account seen_again
upsert item alias now accounts =
    let id = item.upstream_account_id in
    if not (count_where (has_alias alias) accounts == 0)
    then none
    else if count_where (has_id id) accounts == 0
    then some (insert_account (new_account item alias now) accounts)
    else some (update_where (has_id id) (seen_again item now) accounts)

-- The loop over the items, each with its alias.
unfoldable pub upsert_each :
    List (PoolInventory × Option Text) → ℕ → List PoolAccount → Option (List PoolAccount)
unfolding upsert
upsert_each [] now accounts = some accounts
upsert_each ((item, none) ∷ items) now accounts = none
upsert_each ((item, some alias) ∷ items) now accounts = elim (upsert item alias now accounts) [
  | none ↦ none
  | some accounts' ↦ upsert_each items now accounts'
]

-- A transaction on the accounts: an error changes nothing.
abbrev pub settle : Pool → Option (List PoolAccount) → Pool × Result (Unit {0})
settle p none = (p, err constraint)
settle p (some accounts) = (record p { accounts = accounts }, ok tt)

unfoldable pub apply_pool_inventory :
    List (PoolInventory × Option Text) → ℕ → Pool → Pool × Result (Unit {0})
unfolding upsert_each mark_missing
apply_pool_inventory items now p =
    settle p (upsert_each items now (map (mark_missing now) p.accounts))

unfoldable pub published_account_ids : Pool → List ℕ
published_account_ids p = map id_of (select_where (λ a. a.published && not a.missing) p.accounts)

-- One row of ApplyPoolUsage: of an item with an error code, and of one without.
unfoldable pub usage_lost : PoolUsage → ℕ → PoolAccount → PoolAccount
unfolding normalize_status
usage_lost item now a = record a {
  normalized_status =
      normalize_status a.inventory.status a.inventory.schedulable a.missing none none
        item.error_code;
  last_error_code = item.error_code;
  updated_at = now;
}

unfoldable pub usage_read : PoolUsage → ℕ → PoolAccount → PoolAccount
unfolding normalize_status
usage_read item now a = record a {
  normalized_status =
      normalize_status a.inventory.status a.inventory.schedulable a.missing item.five.utilization
        item.seven.utilization item.error_code;
  five = item.five;
  seven = item.seven;
  usage_source = item.source;
  source_updated_at = item.source_updated_at;
  last_success_at = if is_empty item.error_code then some now else a.last_success_at;
  last_error_code = item.error_code;
  updated_at = now;
}

unfoldable pub used : PoolUsage → ℕ → PoolAccount → PoolAccount
unfolding usage_lost usage_read
used item now a =
    if not (is_empty item.error_code) then usage_lost item now a else usage_read item now a

unfoldable pub apply_each_usage : List PoolUsage → ℕ → List PoolAccount → List PoolAccount
unfolding used
apply_each_usage [] now accounts = accounts
apply_each_usage (item ∷ items) now accounts =
    apply_each_usage items now
      (update_where (has_id item.upstream_account_id) (used item now) accounts)

unfoldable pub apply_pool_usage : List PoolUsage → ℕ → Pool → Pool × Result (Unit {0})
unfolding apply_each_usage
apply_pool_usage items now p =
    (record p { accounts = apply_each_usage items now p.accounts }, ok tt)

-- Which rows an update of the publication meets.
abbrev pub can_publish : ℕ → Bool → PoolAccount → Bool
can_publish id published a = has_id id a && not (published && a.missing)

unfoldable pub set_published : Bool → ℕ → PoolAccount → PoolAccount
set_published published now a = record a { published = published; updated_at = now }

unfoldable pub publish_each : List ℕ → Bool → ℕ → List PoolAccount → Option (List PoolAccount)
unfolding set_published
publish_each [] published now accounts = some accounts
publish_each (id ∷ ids) published now accounts =
    let rest =
      publish_each ids published now
        (update_where (can_publish id published) (set_published published now) accounts) in
    if count_where (can_publish id published) accounts == 0 then none else rest

-- The error without any id has a message of its own.
pub data PublishError : Type 0 where
  no_account account_not_found : PublishError

abbrev pub settle_publication : ℕ → Pool → Option (List PoolAccount) → Pool × Option PublishError
settle_publication actor_id p none = (p, some account_not_found)
settle_publication actor_id p (some accounts) =
    (record { accounts = accounts; publications = actor_id ∷ p.publications }, none)

unfoldable pub set_pool_published : List ℕ → Bool → ℕ → ℕ → Pool → Pool × Option PublishError
unfolding publish_each
set_pool_published [] published actor_id now p = (p, some no_account)
set_pool_published (id ∷ ids) published actor_id now p =
    settle_publication actor_id p (publish_each (id ∷ ids) published now p.accounts)

unfoldable pub usage_failed : Text → ℕ → PoolAccount → PoolAccount
usage_failed code now a = record a {
  last_error_code = code;
  normalized_status = if a.missing then unavailable else degraded;
  updated_at = now;
}

unfoldable pub mark_pool_usage_failed : Text → ℕ → Pool → Pool
unfolding usage_failed
mark_pool_usage_failed code now p = record p {
  accounts = update_where (λ a. a.published) (usage_failed code now) p.accounts;
}
