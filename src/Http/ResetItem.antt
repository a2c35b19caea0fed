-- ===== src/Http/ResetItem.antt =====
-- internal/httpapi/quota_resets.go and admin_users.go: what a reset of one key reports, which items
-- may be reset, and the gate that lets one operation at a time at a key.
pub mod Outcomes
use sub2api5hlimit.Base.{
  ℕ, Bool, true, false, not, ◌&&◌, ◌||◌, ◌==◌, ltb, leb, if◌then◌else◌, Option, none, some, List,
  [], ◌∷◌, codes,
}
use sub2api5hlimit.Store.Model.{
  Text, ItemStatus, BindingState, missing, User, KeyBinding, QuotaResetJobItem, Db, is_user,
  is_deleted,
}
use sub2api5hlimit.Store.Tx.{Result, ok, err}
use sub2api5hlimit.Store.Users.{user_by_id}

-- What the code asks of an error: is it a cancellation, is it a timeout, and the HTTP status of the
-- upstream's answer, where it is one.
pub record Failure : Type 0 where
  pub canceled : Bool
  pub timed_out : Bool
  pub status_code : Option ℕ

abbrev pub failed_with : Text → ItemStatus × Text
failed_with code = (ItemStatus.failed, code)

abbrev pub upstream_code : Option ℕ → Text
upstream_code none = codes "UPSTREAM_ERROR"
upstream_code (some status) =
    if status == 401 || status == 403
    then codes "UPSTREAM_AUTH"
    else if status == 404
    then codes "UPSTREAM_KEY_MISSING"
    else if status == 429
    then codes "UPSTREAM_RATE_LIMITED"
    else if leb 500 status
    then codes "UPSTREAM_UNAVAILABLE"
    else codes "UPSTREAM_ERROR"

unfoldable pub reset_terminal_state : Bool → Option Failure → ItemStatus × Text
reset_terminal_state true e = (ItemStatus.succeeded, [])
reset_terminal_state false none = failed_with (codes "UPSTREAM_ERROR")
reset_terminal_state false (some e) =
    if e.canceled
    then (ItemStatus.unknown, codes "UPSTREAM_CANCELED")
    else if e.timed_out
    then (ItemStatus.unknown, codes "UPSTREAM_TIMEOUT")
    else failed_with (upstream_code e.status_code)

abbrev is_missing : BindingState → Bool
is_missing missing = true
is_missing _ = false

abbrev has_key : Option KeyBinding → Bool
has_key none = false
has_key (some b) = ltb 0 b.upstream_key_id && not (is_missing b.binding_state)

unfoldable pub user_resettable : User → Option KeyBinding → Bool
user_resettable u b = is_user u.role && (not (is_deleted u.status) && has_key b)

abbrev skipped_for : Text → Option (ItemStatus × Text)
skipped_for code = some (ItemStatus.skipped, code)

-- The bindings agree, or the item is skipped.
abbrev check_binding : User → Option ℕ → Option KeyBinding → Option (ItemStatus × Text)
unfolding user_resettable
check_binding u none b = skipped_for (codes "USER_UNBOUND")
check_binding u (some key) none = skipped_for (codes "USER_UNBOUND")
check_binding u (some key) (some b) =
    if not (b.upstream_key_id == key)
    then skipped_for (codes "BINDING_CHANGED")
    else if not (user_resettable u (some b))
    then skipped_for (codes "BINDING_NOT_RESETTABLE")
    else none

abbrev check_user : Option ℕ → Result (User × Option KeyBinding) → Option (ItemStatus × Text)
unfolding user_resettable
check_user key (err e) = skipped_for (codes "USER_DELETED")
check_user key (ok (u, b)) =
    if is_deleted u.status then skipped_for (codes "USER_DELETED") else check_binding u key b

-- Nothing where the item may be reset; the store's only other answer is ErrNotFound.
unfoldable pub validate_quota_reset_item : QuotaResetJobItem → Db → Option (ItemStatus × Text)
unfolding user_by_id check_user check_binding
validate_quota_reset_item i db = check_user i.upstream_key_id (user_by_id i.user_id db)

unfoldable pub holds : ℕ → List ℕ → Bool
holds key [] = false
holds key (k ∷ ks) = k == key || holds key ks

-- `beginQuotaReset`: nothing where another operation holds the key.
unfoldable pub begin_quota_reset : ℕ → List ℕ → Option (List ℕ)
unfolding holds
begin_quota_reset key busy = if holds key busy then none else some (key ∷ busy)

unfoldable pub end_quota_reset : ℕ → List ℕ → List ℕ
end_quota_reset key [] = []
end_quota_reset key (k ∷ ks) =
    let rest = end_quota_reset key ks in if k == key then rest else k ∷ rest
