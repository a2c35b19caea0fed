-- ===== src/Store/Setup.antt =====
-- internal/store/setup.go: the one-time setup and the settings. The cipher of the administrator's key
-- (internal/secure) is a parameter. Of pool_accounts only the column `published` stands here.
pub mod Token
use sub2api5hlimit.Base.{
  ℕ, Bool, true, false, not, ◌&&◌, ◌||◌, ◌==◌, leb, if◌then◌else◌, Option, none, some, List, [],
  ◌∷◌, length, count_where, text_eq, codes,
}
use sub2api5hlimit.Store.Model.{Text, Role, Db}
use sub2api5hlimit.Store.Tx.{
  not_found, setup_complete, invalid_token, constraint, cipher_failed, upstream_in_use,
  unknown_scope, Result, ok, err,
}
use sub2api5hlimit.Store.Users.{insert_user}

pub record AppMeta : Type 0 where
  pub setup_complete : Bool
  pub setup_token_hash : Option Text
  pub setup_token_expires_at : Option ℕ

-- What the caller gets and gives; the key is in the clear.
pub record Settings : Type 0 where
  pub connection_uuid : Text
  pub base_url : Text
  pub admin_api_key : Text
  pub owner_user_id : ℕ
  pub owner_label : Text
  pub allow_private_http : Bool

-- The row: its key is sealed.
pub record SettingsRow : Type 0 where
  pub content : Settings
  pub last_key_sync_at : Option ℕ
  pub last_account_sync_at : Option ℕ
  pub last_usage_sync_at : Option ℕ
  pub updated_at : ℕ

pub record Site : Type 0 where
  pub db : Db
  pub app_meta : AppMeta
  pub settings : Option SettingsRow
  pub published : List Bool

unfoldable pub set_setup_token : Text → ℕ → Site → Site × Result (Unit {0})
set_setup_token hash expires_at s = if s.app_meta.setup_complete then (s, err setup_complete) else (
  record s {
    app_meta = record (s.app_meta) {
      setup_token_hash = some hash;
      setup_token_expires_at = some expires_at;
    };
  },
  ok tt,
)

-- Complete, and the time at which the token expires, 0 where there is none to tell.
unfoldable pub setup_status : Site → Bool × ℕ
setup_status s = elim s.app_meta.setup_token_expires_at [
  | none ↦ (s.app_meta.setup_complete, 0)
  | some at ↦ (s.app_meta.setup_complete, if s.app_meta.setup_complete then 0 else at)
]

abbrev pub token_matches : Text → ℕ → Option Text → Option ℕ → Bool
token_matches hash now (some stored) (some expires_at) =
    not (leb expires_at now) && text_eq stored hash
token_matches hash now _ _ = false

unfoldable pub validate_setup_token : Text → ℕ → Site → Result (Unit {0})
validate_setup_token hash now s =
    if s.app_meta.setup_complete
    then err setup_complete
    else if token_matches hash now s.app_meta.setup_token_hash s.app_meta.setup_token_expires_at
    then ok tt
    else err invalid_token

abbrev pub completed : AppMeta
completed = record { setup_complete = true; setup_token_hash = none; setup_token_expires_at = none }

abbrev pub sealed : Settings → Text → Settings
sealed c cipher = record c { admin_api_key = cipher }

abbrev pub is_set {ℓ} : {A : Type ℓ} → Option A → Bool
is_set none = false
is_set (some _) = true

-- A name that is taken and a second row of settings are against the constraints.
abbrev pub set_up : Settings → Text → ℕ → Site → Result (ℕ × Db) → Site × Result (Unit {0})
set_up settings cipher now s (err e) = (s, err constraint)
set_up settings cipher now s (ok (_, db)) = if is_set s.settings then (s, err constraint) else (
  record s {
    db = db;
    app_meta = completed;
    settings = some (record {
      content = sealed settings cipher;
      last_key_sync_at = none;
      last_account_sync_at = none;
      last_usage_sync_at = none;
      updated_at = now;
    });
  },
  ok tt,
)

unfoldable pub checked_setup :
    Text → Text → Text → Settings → Text → ℕ → Site → Result (Unit {0}) → Site × Result (Unit {0})
unfolding insert_user
checked_setup username display_name password_hash settings cipher now s (err e) = (s, err e)
checked_setup username display_name password_hash settings cipher now s (ok _) =
    set_up settings cipher now s
      (insert_user username display_name password_hash Role.admin now s.db)

abbrev set_sync : Text → ℕ → SettingsRow → Option SettingsRow
set_sync scope at row =
    if text_eq scope (codes "keys")
    then some (record row { last_key_sync_at = some at })
    else if text_eq scope (codes "accounts")
    then some (record row { last_account_sync_at = some at })
    else if text_eq scope (codes "usage")
    then some (record row { last_usage_sync_at = some at })
    else none

abbrev is_scope : Text → Bool
is_scope scope =
    text_eq scope (codes "keys")
    || text_eq scope (codes "accounts")
    || text_eq scope (codes "usage")

abbrev synced_row : Text → ℕ → ℕ → Option SettingsRow → Option SettingsRow
synced_row scope at now none = none
synced_row scope at now (some row) = set_sync scope at (record row { updated_at = now })

unfoldable pub mark_sync : Text → ℕ → ℕ → Site → Site × Result (Unit {0})
mark_sync scope at now s =
    if not (is_scope scope)
    then (s, err unknown_scope)
    else (record s { settings = synced_row scope at now s.settings }, ok tt)

abbrev pub opened : SettingsRow → Option Text → Result SettingsRow
opened row none = err cipher_failed
opened row (some key) = ok (record row { content = sealed row.content key })

abbrev pub next_settings : Settings → Bool → Bool → Settings → Settings
next_settings next replace_key rotate current = record next {
  admin_api_key = if replace_key then next.admin_api_key else current.admin_api_key;
  connection_uuid = if rotate then next.connection_uuid else current.connection_uuid;
}

abbrev pub in_use : Site → Bool
in_use s = not (length s.db.key_bindings == 0) || not (count_where (λ p. p) s.published == 0)

abbrev pub written : Settings → Text → Bool → ℕ → Site → Site
written next cipher rotate now s = record s {
  published = if rotate then [] else s.published;
  settings = some (record {
    content = sealed next cipher;
    last_key_sync_at = none;
    last_account_sync_at = none;
    last_usage_sync_at = none;
    updated_at = now;
  });
}

abbrev pub write_settings : Settings → Bool → ℕ → Site → Option Text → Site × Result (Unit {0})
write_settings next rotate now s none = (s, err cipher_failed)
write_settings next rotate now s (some cipher) =
    if rotate && in_use s
    then (s, err upstream_in_use)
    else (written next cipher rotate now s, ok tt)

module _ (seal : Text → Option Text) (unseal : Text → Option Text) where
  unfoldable pub complete_setup :
      Text → Text → Text → Text → Settings → ℕ → Site → Site × Result (Unit {0})
  unfolding validate_setup_token checked_setup
  complete_setup hash username display_name password_hash settings now s =
      elim (seal settings.admin_api_key) [
        | none ↦ (s, err cipher_failed)
        | some cipher ↦
            checked_setup username display_name password_hash settings cipher now s
              (validate_setup_token hash now s)
      ]

  unfoldable pub get_settings : Site → Result SettingsRow
  get_settings s = elim s.settings [
    | none ↦ err not_found
    | some row ↦ opened row (unseal row.content.admin_api_key)
  ]

  abbrev pub with_current :
      Settings → Bool → Bool → ℕ → Site → Result SettingsRow → Site × Result (Unit {0})
  with_current next replace_key rotate now s (err e) = (s, err e)
  with_current next replace_key rotate now s (ok current) =
      write_settings (next_settings next replace_key rotate current.content) rotate now s
        (seal (next_settings next replace_key rotate current.content).admin_api_key)

  unfoldable pub update_settings : Settings → Bool → Bool → ℕ → Site → Site × Result (Unit {0})
  unfolding get_settings
  update_settings next replace_key rotate now s =
      with_current next replace_key rotate now s (get_settings s)
