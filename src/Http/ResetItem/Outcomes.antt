-- ===== src/Http/ResetItem/Outcomes.antt =====
-- internal/httpapi/quota_resets.go against internal/store/quota_reset.go: the store accepts what the
-- run reports of an item, and a reset is sent only for a key that the user still holds.
use sub2api5hlimit.Base.{
  ℕ, ◌<◌, ◌≢◌, find_where, ◌≡◌, refl, Bool, true, false, not, ◌||◌, ◌==◌, leb, if◌then◌else◌,
  Option, none, some, arith,
}
use sub2api5hlimit.Store.Model.{
  Text, Role, UserStatus, BindingState, ItemStatus, User, KeyBinding, QuotaResetJobItem, Db,
  is_deleted,
}
use sub2api5hlimit.Store.Tx.{Result, ok, err}
use sub2api5hlimit.Store.QuotaReset.Statements.{
  is_quota_reset_terminal_status, is_safe_quota_reset_error_code,
}
use sub2api5hlimit.Store.Users.{user_by_id}
use sub2api5hlimit.Http.ResetItem.{
  Failure, upstream_code, reset_terminal_state, user_resettable, check_binding, check_user,
  validate_quota_reset_item,
}

-- The guards of CompleteQuotaResetItem.
abbrev pub IsAccepted : ItemStatus × Text → Type 0
IsAccepted o =
    (is_quota_reset_terminal_status o.0 ≡ true) × (is_safe_quota_reset_error_code o.1 ≡ true)

if_IsAccepted :
    (b : Bool) (s t : ItemStatus × Text)
    → IsAccepted s
    → IsAccepted t
    → IsAccepted (if b then s else t)
if_IsAccepted true s t h k = h
if_IsAccepted false s t h k = k

if_safe :
    (b : Bool) (s t : Text)
    → is_safe_quota_reset_error_code s ≡ true
    → is_safe_quota_reset_error_code t ≡ true
    → is_safe_quota_reset_error_code (if b then s else t) ≡ true
if_safe true s t h k = h
if_safe false s t h k = k

upstream_code_safe :
    (status : Option ℕ) → is_safe_quota_reset_error_code (upstream_code status) ≡ true
unfolding is_safe_quota_reset_error_code
upstream_code_safe none = refl
upstream_code_safe (some n) =
    if_safe (n == 401 || n == 403) _ _ refl (
      if_safe (n == 404) _ _ refl (if_safe (n == 429) _ _ refl (if_safe (leb 500 n) _ _ refl refl)))

reset-IsAccepted :
    (applied : Bool) (e : Option Failure) → IsAccepted (reset_terminal_state applied e)
unfolding reset_terminal_state is_safe_quota_reset_error_code
reset-IsAccepted true e = (refl, refl)
reset-IsAccepted false none = (refl, refl)
reset-IsAccepted false (some e) =
    if_IsAccepted e.canceled _ _ (refl, refl)
      (if_IsAccepted e.timed_out _ _ (refl, refl) (refl, upstream_code_safe e.status_code))

AreSkips : Option (ItemStatus × Text) → Type 0
AreSkips none = Unit
AreSkips (some o) = IsAccepted o

if_skips :
    (b : Bool) (s t : Option (ItemStatus × Text))
    → AreSkips s
    → AreSkips t
    → AreSkips (if b then s else t)
if_skips true s t h k = h
if_skips false s t h k = k

binding_skips : (u : User) (k : Option ℕ) (b : Option KeyBinding) → AreSkips (check_binding u k b)
unfolding AreSkips check_binding is_safe_quota_reset_error_code
binding_skips u none b = (refl, refl)
binding_skips u (some key) none = (refl, refl)
binding_skips u (some key) (some b) =
    if_skips (not (b.upstream_key_id == key)) _ _ (refl, refl)
      (if_skips (not (user_resettable u (some b))) _ _ (refl, refl) tt)

user_skips : (k : Option ℕ) (r : Result (User × Option KeyBinding)) → AreSkips (check_user k r)
unfolding AreSkips check_user check_binding is_safe_quota_reset_error_code
user_skips k (err e) = (refl, refl)
user_skips k (ok (u, b)) = if_skips (is_deleted u.status) _ _ (refl, refl) (binding_skips u k b)

skips-IsAccepted :
    (r : Option (ItemStatus × Text)) (v : ItemStatus × Text)
    → AreSkips r
    → r ≡ some v
    → IsAccepted v
unfolding AreSkips
skips-IsAccepted none v h e = absurd (cc)
skips-IsAccepted (some w) v h e = rw (← some_injective w v e) h
  where
    some_injective : (w v : ItemStatus × Text) → some w ≡ some v → w ≡ v
    some_injective w v e = ground (arith, e)

-- What an upstream reset ends with, and what the validation of an item skips it with, is a terminal
-- status with a safe code: the store never refuses it for its status or its code.
pub outcomes-IsAccepted :
    (applied : Bool) (e : Option Failure) (i : QuotaResetJobItem) (db : Db) (v : ItemStatus × Text)
    → validate_quota_reset_item i db ≡ some v
    → IsAccepted (reset_terminal_state applied e) × IsAccepted v
unfolding validate_quota_reset_item
outcomes-IsAccepted applied e i db v h = (
  reset-IsAccepted applied e,
  skips-IsAccepted (check_user i.upstream_key_id (user_by_id i.user_id db)) v
      (user_skips i.upstream_key_id (user_by_id i.user_id db)) h,
)

binding_passed :
    (u : User) (k : Option ℕ) (b : Option KeyBinding)
    → check_binding u k b ≡ none
    → (c : KeyBinding) × (b ≡ some c)
      × (k ≡ some c.upstream_key_id)
      × (user_resettable u (some c) ≡ true)
unfolding check_binding
binding_passed u none b h = absurd (cc)
binding_passed u (some key) none h = absurd (cc)
binding_passed u (some key) (some b) h = (b, refl, ground (arith, h), ground (arith, h))

user_passed :
    (k : Option ℕ) (r : Result (User × Option KeyBinding))
    → check_user k r ≡ none
    → (u : User) × (c : KeyBinding) × (r ≡ ok (u, some c))
      × (k ≡ some c.upstream_key_id)
      × (user_resettable u (some c) ≡ true)
unfolding check_user
user_passed k (err e) h = absurd (cc)
user_passed k (ok (u, b)) h =
    let passed : check_binding u k b ≡ none = ground (arith, h) in
    let (c, same, key, can) = binding_passed u k b passed in (u, c, rw same refl, key, can)

-- What the tables say of an item whose reset may go out: its user is there with the role 'user' and
-- not deleted, and the user's binding is to the item's key, which is positive and not missing.
pub record MayReset (i : QuotaResetJobItem) (key : ℕ) (db : Db) : Type 0 where
  pub user : User
  pub binding : KeyBinding
  pub user_found : find_where (λ u. u.id == i.user_id) db.users ≡ some user
  pub role : user.role ≡ Role.user
  pub status : user.status ≢ UserStatus.deleted
  pub bound : find_where (λ b. b.user_id == i.user_id) db.key_bindings ≡ some binding
  pub same_key : binding.upstream_key_id ≡ key
  pub item_key : i.upstream_key_id ≡ some key
  pub positive : 0 < key
  pub present : binding.binding_state ≢ BindingState.missing

user_by_id-eq-ok :
    (id : ℕ) (db : Db) (u : User) (b : KeyBinding)
    → user_by_id id db ≡ ok (u, some b)
    → (find_where (λ u. u.id == id) db.users ≡ some u)
      × (find_where (λ b. b.user_id == id) db.key_bindings ≡ some b)
unfolding user_by_id
user_by_id-eq-ok id db u b h = ground arith

resettable_raw :
    (u : User) (b : KeyBinding)
    → user_resettable u (some b) ≡ true
    → (u.role ≡ Role.user)
      × (u.status ≢ UserStatus.deleted)
      × (0 < b.upstream_key_id)
      × (b.binding_state ≢ BindingState.missing)
unfolding user_resettable
resettable_raw u b h = ground arith

-- An item that passes the validation may be reset.
pub passed-MayReset :
    (i : QuotaResetJobItem) (key : ℕ) (db : Db)
    → validate_quota_reset_item i db ≡ none
    → i.upstream_key_id ≡ some key
    → MayReset i key db
unfolding validate_quota_reset_item
passed-MayReset i key db h e =
    let (u, b, found, same, can) = user_passed i.upstream_key_id (user_by_id i.user_id db) h in
    let (user_row, key_row) = user_by_id-eq-ok i.user_id db u b found in
    let (role, status, positive, present) = resettable_raw u b can in
    let eq : b.upstream_key_id ≡ key = cc in
    record {
      user = u;
      binding = b;
      user_found = user_row;
      role = role;
      status = status;
      bound = key_row;
      same_key = eq;
      item_key = e;
      positive = omega (arith, positive, eq);
      present = present;
    }
