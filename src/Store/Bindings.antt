-- ===== src/Store/Bindings.antt =====
-- internal/store/bindings.go: the upstream key that each user holds, and what the upstream last
-- said of it.
use sub2api5hlimit.Base.{
  ℕ, Bool, true, false, not, ◌&&◌, ◌||◌, ◌==◌, if◌then◌else◌, Option, none, some, List, [], ◌∷◌,
  ◌++◌, count_where, update_where, delete_where, find_where, codes, text_eq,
}
use sub2api5hlimit.Store.Model.{
  Text, Float64, is_positive, User, KeyBinding, KeySnapshot, BindingState, invalid_limits,
  upstream_inactive, healthy, missing, compliant, empty, limits, Db, is_user, is_deleted,
}
use sub2api5hlimit.Store.Tx.{
  not_found, key_bound, not_compliant, constraint, Result, ok, err, Tx, ◌>>=◌, ◌>>◌, unless,
  or_not_found, read, write, in_tx,
}
use sub2api5hlimit.Store.QuotaReset.Statements.{add_audit}

abbrev pub state_of : Bool → Text → BindingState
state_of false status = invalid_limits
state_of true status = if text_eq status (codes "active") then healthy else upstream_inactive

unfoldable pub binding_state : KeySnapshot → BindingState
binding_state k = state_of (compliant k) k.status

abbrev pub binding_row : ℕ → KeySnapshot → ℕ → KeyBinding
binding_row user_id k now = record {
  user_id = user_id;
  upstream_key_id = k.upstream_key_id;
  key_name = k.name;
  key_mask = k.mask;
  upstream_status = k.status;
  binding_state = state_of (compliant k) k.status;
  rate_limit_5h = k.rate_limit_5h;
  usage_5h = k.usage_5h;
  reset_5h_at = k.reset_5h_at;
  rate_limit_7d = k.rate_limit_7d;
  usage_7d = k.usage_7d;
  reset_7d_at = k.reset_7d_at;
  source_updated_at = k.source_updated_at;
  last_success_at = some now;
  last_error_code = [];
  created_at = now;
  updated_at = now;
}

abbrev pub of_user : ℕ → KeyBinding → Bool
of_user user_id b = b.user_id == user_id

abbrev pub of_key : ℕ → KeyBinding → Bool
of_key key_id b = b.upstream_key_id == key_id

-- The INSERT meets the primary key on users and the unique index on upstream keys.
unfoldable pub insert_binding : ℕ → KeySnapshot → ℕ → Tx (Unit {0})
insert_binding user_id k now db =
    if count_where (λ b. of_user user_id b || of_key k.upstream_key_id b) db.key_bindings == 0
    then ok (tt, record db { key_bindings = db.key_bindings ++ binding_row user_id k now ∷ [] })
    else err key_bound

unfoldable pub binding_by_user : ℕ → Db → Result KeyBinding
binding_by_user user_id db = elim (find_where (of_user user_id) db.key_bindings) [
  | none ↦ err not_found
  | some b ↦ ok b
]

abbrev pub is_bindable : User → Bool
is_bindable u = is_user u.role && not (is_deleted u.status)

unfoldable pub delete_of_user : ℕ → Tx (Unit {0})
delete_of_user user_id =
    write λ db. record db { key_bindings = delete_where (of_user user_id) db.key_bindings }

unfoldable pub set_binding_tx : ℕ → KeySnapshot → ℕ → ℕ → Tx (Unit {0})
unfolding insert_binding delete_of_user
set_binding_tx user_id k actor_id now = do
  owner ← (λ db. or_not_found (find_where (λ u. u.id == user_id) db.users) db)
  unless (is_bindable owner) not_found
  delete_of_user user_id
  insert_binding user_id k now
  add_audit actor_id "binding.set" "user" user_id empty now

unfoldable pub set_binding : ℕ → KeySnapshot → ℕ → ℕ → Db → Db × Result (Unit {0})
unfolding set_binding_tx
set_binding user_id k actor_id now db =
    if compliant k
    then in_tx (set_binding_tx user_id k actor_id now) db
    else (db, err not_compliant)

unfoldable pub delete_binding_tx : ℕ → ℕ → ℕ → Tx (Unit {0})
unfolding delete_of_user
delete_binding_tx user_id actor_id now = do
  affected ← read (λ db. count_where (of_user user_id) db.key_bindings)
  delete_of_user user_id
  unless (not (affected == 0)) not_found
  add_audit actor_id "binding.delete" "user" user_id empty now

unfoldable pub delete_binding : ℕ → ℕ → ℕ → Db → Db × Result (Unit {0})
unfolding delete_binding_tx
delete_binding user_id actor_id now = in_tx (delete_binding_tx user_id actor_id now)

-- `byID[id]`: the last snapshot of that key.
unfoldable pub snapshot_of : ℕ → List KeySnapshot → Option KeySnapshot
snapshot_of key_id [] = none
snapshot_of key_id (k ∷ ks) =
    let later = snapshot_of key_id ks in
    elim later [
      | some found ↦ some found
      | none ↦ if k.upstream_key_id == key_id then some k else none
    ]

-- The two UPDATEs of a binding: its key is not in the list, or it is.
abbrev pub mark_missing : ℕ → KeyBinding → KeyBinding
mark_missing at b = record b {
  binding_state = missing;
  last_error_code = codes "UPSTREAM_KEY_MISSING";
  updated_at = at;
}

abbrev pub apply_snapshot : ℕ → KeySnapshot → KeyBinding → KeyBinding
apply_snapshot at k b = record b {
  key_name = k.name;
  key_mask = k.mask;
  upstream_status = k.status;
  binding_state = state_of (compliant k) k.status;
  rate_limit_5h = k.rate_limit_5h;
  usage_5h = k.usage_5h;
  reset_5h_at = k.reset_5h_at;
  rate_limit_7d = k.rate_limit_7d;
  usage_7d = k.usage_7d;
  reset_7d_at = k.reset_7d_at;
  source_updated_at = k.source_updated_at;
  last_success_at = some at;
  last_error_code = [];
  updated_at = at;
}

abbrev pub refresh : ℕ → Option KeySnapshot → KeyBinding → KeyBinding
refresh at none b = mark_missing at b
refresh at (some k) b = apply_snapshot at k b

-- The loop over the ids of the bound keys, one UPDATE by key id in each round.
unfoldable pub apply_each : ℕ → List KeySnapshot → List ℕ → List KeyBinding → List KeyBinding
apply_each at ks [] rows = rows
apply_each at ks (id ∷ ids) rows =
    apply_each at ks ids (update_where (of_key id) (refresh at (snapshot_of id ks)) rows)

unfoldable pub key_ids : List KeyBinding → List ℕ
key_ids [] = []
key_ids (b ∷ bs) = b.upstream_key_id ∷ key_ids bs

-- The driver binds a NaN as NULL, which the NOT NULL columns refuse.
abbrev is_number : Float64 → Bool
is_number Float64.nan = false
is_number _ = true

abbrev has_numbers : Option KeySnapshot → Bool
has_numbers none = true
has_numbers (some k) =
    is_number k.rate_limit_5h
    && is_number k.usage_5h
    && is_number k.rate_limit_7d
    && is_number k.usage_7d

unfoldable pub all_have_numbers : List KeySnapshot → List ℕ → Bool
all_have_numbers ks [] = true
all_have_numbers ks (id ∷ ids) = has_numbers (snapshot_of id ks) && all_have_numbers ks ids

unfoldable pub apply_key_snapshots : List KeySnapshot → ℕ → Db → Db × Result (Unit {0})
unfolding apply_each key_ids all_have_numbers
apply_key_snapshots ks fetched_at = in_tx (do
  ids ← read (λ db. key_ids db.key_bindings)
  unless (all_have_numbers ks ids) constraint
  write λ db. record db { key_bindings = apply_each fetched_at ks ids db.key_bindings })

-- What the upstream echoes of a limit change, and of a reset (which leaves the limits out).
pub record LimitEcho : Type 0 where
  pub limit_5h : Float64
  pub limit_7d : Float64
  pub usage_5h : Float64
  pub usage_7d : Float64
  pub reset_5h : Option ℕ
  pub reset_7d : Option ℕ
  pub source_updated_at : Option ℕ

abbrev pub apply_limits : LimitEcho → BindingState → ℕ → KeyBinding → KeyBinding
apply_limits e state at b = record b {
  rate_limit_5h = e.limit_5h;
  rate_limit_7d = e.limit_7d;
  usage_5h = e.usage_5h;
  reset_5h_at = e.reset_5h;
  usage_7d = e.usage_7d;
  reset_7d_at = e.reset_7d;
  binding_state = state;
  source_updated_at = e.source_updated_at;
  last_success_at = some at;
  last_error_code = [];
  updated_at = at;
}

unfoldable pub apply_key_limit_change_tx : ℕ → LimitEcho → ℕ → ℕ → Tx (Unit {0})
apply_key_limit_change_tx key_id e at actor_id = do
  bound ← (λ db. or_not_found (find_where (of_key key_id) db.key_bindings) db)
  let state = state_of (is_positive e.limit_5h && is_positive e.limit_7d) bound.upstream_status
  write λ db. record db {
    key_bindings = update_where (of_key key_id) (apply_limits e state at) db.key_bindings;
  }
  add_audit actor_id "binding.limits.set" "user" bound.user_id (limits key_id e.limit_5h e.limit_7d)
      at

unfoldable pub apply_key_limit_change : ℕ → LimitEcho → ℕ → ℕ → Db → Db × Result (Unit {0})
unfolding apply_key_limit_change_tx
apply_key_limit_change key_id e at actor_id = in_tx (apply_key_limit_change_tx key_id e at actor_id)

unfoldable pub mark_key_sync_failed : Text → ℕ → Db → Db
mark_key_sync_failed code now db = record db {
  key_bindings =
      update_where (λ _. true) (λ b. record b { last_error_code = code; updated_at = now })
        db.key_bindings;
}

abbrev pub apply_reset : LimitEcho → ℕ → KeyBinding → KeyBinding
apply_reset e at b = record b {
  usage_5h = e.usage_5h;
  reset_5h_at = e.reset_5h;
  usage_7d = e.usage_7d;
  reset_7d_at = e.reset_7d;
  source_updated_at = e.source_updated_at;
  last_success_at = some at;
  last_error_code = [];
  updated_at = at;
}

unfoldable pub apply_quota_reset_snapshot : ℕ → LimitEcho → ℕ → Db → Db × Result (Unit {0})
apply_quota_reset_snapshot key_id e at db =
    let changed = record db {
      key_bindings = update_where (of_key key_id) (apply_reset e at) db.key_bindings;
    } in
    (changed, if count_where (of_key key_id) db.key_bindings == 0 then err not_found else ok tt)
