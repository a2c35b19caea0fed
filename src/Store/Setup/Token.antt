-- ===== src/Store/Setup/Token.antt =====
-- internal/store/setup.go: the setup happens once, and what a change of the settings keeps.
use sub2api5hlimit.Base.{
  ℕ, text_eq, ◌<◌, ◌≡◌, ◌≢◌, refl, inl, inr, Bool, true, false, ◌&&◌, Option, none, some, [],
  length, count_where, Bool-cases, Option-cases, arith,
}
use sub2api5hlimit.Store.Model.{Text, Role, Db}
use sub2api5hlimit.Store.Tx.{setup_complete, cipher_failed, Result, ok, err}
use sub2api5hlimit.Store.Users.{insert_user}
use sub2api5hlimit.Store.Setup.{
  Settings, SettingsRow, Site, set_setup_token, validate_setup_token, token_matches, completed,
  set_up, checked_setup, complete_setup, get_settings, next_settings, in_use, written, with_current,
  update_settings,
}

-- The token is the stored one, before its expiry.
abbrev pub IsCurrent : Text → ℕ → Option Text → Option ℕ → Type 0
IsCurrent hash now stored expires_at =
    (t : Text) × (e : ℕ) × (stored ≡ some t)
    × (expires_at ≡ some e)
    × (text_eq t hash ≡ true)
    × (now < e)

matches-IsCurrent :
    (hash : Text) (now : ℕ) (stored : Option Text) (expires_at : Option ℕ)
    → token_matches hash now stored expires_at ≡ true
    → IsCurrent hash now stored expires_at
matches-IsCurrent hash now none e h = absurd (cc)
matches-IsCurrent hash now (some t) none h = absurd (cc)
matches-IsCurrent hash now (some t) (some e) h =
    (t, e, refl, refl, ground (arith, h), ground (arith, h))

validated :
    (hash : Text) (now : ℕ) (s : Site)
    → validate_setup_token hash now s ≡ ok tt
    → (s.app_meta.setup_complete ≡ false)
      × IsCurrent hash now s.app_meta.setup_token_hash s.app_meta.setup_token_expires_at
unfolding validate_setup_token
validated hash now s h = (
  ground (arith, h),
  matches-IsCurrent hash now s.app_meta.setup_token_hash s.app_meta.setup_token_expires_at
      (ground (arith, h)),
)

set_up_done :
    (c : Settings) (cipher : Text) (now : ℕ) (s s' : Site) (r : Result (ℕ × Db))
    → set_up c cipher now s r ≡ (s', ok tt)
    → s'.app_meta ≡ completed
set_up_done c cipher now s s' r h = ground arith

refused :
    (hash : Text) (at : ℕ) (s : Site)
    → s.app_meta ≡ completed
    → set_setup_token hash at s ≡ (s, err setup_complete)
unfolding set_setup_token
refused hash at s h = rw h refl

not_validated :
    (hash : Text) (now : ℕ) (s : Site)
    → s.app_meta ≡ completed
    → validate_setup_token hash now s ≡ err setup_complete
unfolding validate_setup_token
not_validated hash now s h = rw h refl

module _ (seal : Text → Option Text) (unseal : Text → Option Text) where
  private_setup :
      (hash u d p : Text) (c : Settings) (now : ℕ) (s : Site) (cipher : Text)
      → seal c.admin_api_key ≡ some cipher
      → complete_setup seal unseal hash u d p c now s
        ≡ checked_setup u d p c cipher now s (validate_setup_token hash now s)
  unfolding complete_setup
  private_setup hash u d p c now s cipher e = rw (e, complete_setup) refl

  unsealed :
      (hash u d p : Text) (c : Settings) (now : ℕ) (s : Site)
      → seal c.admin_api_key ≡ none
      → complete_setup seal unseal hash u d p c now s ≡ (s, err cipher_failed)
  unfolding complete_setup
  unsealed hash u d p c now s e = rw (e, complete_setup) refl

  not_again :
      (hash u d p : Text) (c : Settings) (now : ℕ) (s : Site)
      → s.app_meta ≡ completed
      → (complete_setup seal unseal hash u d p c now s).1 ≢ ok tt
  unfolding checked_setup
  not_again hash u d p c now s h = elim (Option-cases (seal c.admin_api_key)) [
    | inl e ↦ rw (unsealed hash u d p c now s e) (λ k. absurd (cc))
    | inr (cipher, e) ↦
        rw (private_setup hash u d p c now s cipher e, not_validated hash now s h)
          (λ k. absurd (cc))
  ]

  setup_checked :
      (u d p : Text) (c : Settings) (cipher : Text) (now : ℕ) (s s' : Site) (r : Result (Unit {0}))
      → checked_setup u d p c cipher now s r ≡ (s', ok tt)
      → (r ≡ ok tt) × (s'.app_meta ≡ completed)
  unfolding checked_setup
  setup_checked u d p c cipher now s s' (err e) h = absurd (cc)
  setup_checked u d p c cipher now s s' (ok a) h =
      (refl, set_up_done c cipher now s s' (insert_user u d p Role.admin now s.db) h)

  -- A setup that succeeds had an open setup and the stored token before its expiry; it erases the
  -- token, and afterwards no token can be set and no setup succeeds.
  pub complete_setup_once :
      (hash u d p : Text) (c : Settings) (now : ℕ) (s s' : Site)
      → complete_setup seal unseal hash u d p c now s ≡ (s', ok tt)
      → (s.app_meta.setup_complete ≡ false)
        × IsCurrent hash now s.app_meta.setup_token_hash s.app_meta.setup_token_expires_at
        × (s'.app_meta ≡ completed)
        × ((next : Text) (at : ℕ) → set_setup_token next at s' ≡ (s', err setup_complete))
        × ((next u' d' p' : Text) (c' : Settings) (later : ℕ)
            → (complete_setup seal unseal next u' d' p' c' later s').1 ≢ ok tt)
  complete_setup_once hash u d p c now s s' h = elim (Option-cases (seal c.admin_api_key)) [
    | inl e ↦ absurd (cc (rw (unsealed hash u d p c now s e) at h))
    | inr (cipher, e) ↦
        let (valid, done) =
          setup_checked u d p c cipher now s s' (validate_setup_token hash now s)
            (rw (private_setup hash u d p c now s cipher e) at h) in
        let (unset, token) = validated hash now s valid in
        (
          unset,
          token,
          done,
          λ next at. refused next at s' done,
          λ next u' d' p' c' later. not_again next u' d' p' c' later s' done,
        )
  ]

  with_current-eq-ok :
      (next : Settings) (replace_key rotate : Bool) (now : ℕ) (s s' : Site) (r : Result SettingsRow)
      → with_current seal unseal next replace_key rotate now s r ≡ (s', ok tt)
      → (current : SettingsRow) × (cipher : Text) × (r ≡ ok current)
        × (seal (next_settings next replace_key rotate current.content).admin_api_key ≡ some cipher)
        × ((rotate && in_use s) ≡ false)
        × (s' ≡ written (next_settings next replace_key rotate current.content) cipher rotate now s)
  with_current-eq-ok next replace_key rotate now s s' (err e) h = absurd (cc)
  with_current-eq-ok next replace_key rotate now s s' (ok current) h =
      let key = (next_settings next replace_key rotate current.content).admin_api_key in
      elim (Option-cases (seal key)) [
        | inl e ↦ absurd (cc (rw e at h))
        | inr (cipher, e) ↦ elim (Bool-cases (rotate && in_use s)) [
          | inl b ↦ absurd (cc (rw (e, b) at h))
          | inr b ↦ (current, cipher, refl, e, b, ground (arith, rw (e, b) at h))
        ]
      ]

  reads_written :
      (n : Settings) (cipher : Text) (rotate : Bool) (now : ℕ) (s : Site)
      → unseal cipher ≡ some n.admin_api_key
      → get_settings seal unseal (written n cipher rotate now s)
        ≡ ok (record {
          content = n;
          last_key_sync_at = none;
          last_account_sync_at = none;
          last_usage_sync_at = none;
          updated_at = now;
        })
  unfolding get_settings
  reads_written n cipher rotate now s e = rw e refl

  -- What a change of the settings leaves to be read: the new values, but the old key unless it is
  -- replaced and the old connection unless it is rotated, with no sync and the time of the change.
  abbrev pub IsChange : Settings → Bool → Bool → ℕ → Settings → SettingsRow → Type 0
  IsChange next replace_key rotate now old row =
      (row.content.base_url ≡ next.base_url)
      × (row.content.owner_user_id ≡ next.owner_user_id)
      × (row.content.owner_label ≡ next.owner_label)
      × (row.content.allow_private_http ≡ next.allow_private_http)
      × (row.content.admin_api_key
          ≡ elim replace_key [ true ↦ next.admin_api_key | false ↦ old.admin_api_key ])
      × (row.content.connection_uuid
          ≡ elim rotate [ true ↦ next.connection_uuid | false ↦ old.connection_uuid ])
      × (row.last_key_sync_at ≡ none)
      × (row.last_account_sync_at ≡ none)
      × (row.last_usage_sync_at ≡ none)
      × (row.updated_at ≡ now)

  -- What a change does to the rest: it drops the accounts where it rotates, which it does only where
  -- no key is bound and no account is published; everything else of the site stays.
  abbrev pub RotatesFree : Bool → Site → Site → Type 0
  RotatesFree false s s' = s' ≡ record s { settings = s'.settings }
  RotatesFree true s s' =
      (length s.db.key_bindings ≡ 0)
      × (count_where (λ p. p) s.published ≡ 0)
      × (s' ≡ record s { settings = s'.settings; published = [] })

  changed :
      (next : Settings) (replace_key rotate : Bool) (now : ℕ) (old : Settings)
      → IsChange next replace_key rotate now old (record {
        content = next_settings next replace_key rotate old;
        last_key_sync_at = none;
        last_account_sync_at = none;
        last_usage_sync_at = none;
        updated_at = now;
      })
  changed next true true now old = (refl, refl, refl, refl, refl, refl, refl, refl, refl, refl)
  changed next true false now old = (refl, refl, refl, refl, refl, refl, refl, refl, refl, refl)
  changed next false true now old = (refl, refl, refl, refl, refl, refl, refl, refl, refl, refl)
  changed next false false now old = (refl, refl, refl, refl, refl, refl, refl, refl, refl, refl)

  written-RotatesFree :
      (n : Settings) (cipher : Text) (rotate : Bool) (now : ℕ) (s : Site)
      → (rotate && in_use s) ≡ false
      → RotatesFree rotate s (written n cipher rotate now s)
  written-RotatesFree n cipher false now s h = refl
  written-RotatesFree n cipher true now s h = (ground (arith, h), ground (arith, h), refl)

  -- Where the cipher opens what it sealed: a change of the settings that succeeds had settings to
  -- read, and afterwards the settings read are the new values, with the old key unless it is
  -- replaced and the old connection unless it is rotated, no sync and the time of the change; a
  -- rotation goes through only where no key is bound and no account is published, and drops the
  -- accounts; nothing else changes.
  pub update_settings_lem :
      (law : (key cipher : Text) → seal key ≡ some cipher → unseal cipher ≡ some key)
      (next : Settings) (replace_key rotate : Bool) (now : ℕ) (s s' : Site)
      → update_settings seal unseal next replace_key rotate now s ≡ (s', ok tt)
      → (old : SettingsRow) × (row : SettingsRow) × (get_settings seal unseal s ≡ ok old)
        × (get_settings seal unseal s' ≡ ok row)
        × IsChange next replace_key rotate now old.content row
        × RotatesFree rotate s s'
  unfolding update_settings
  update_settings_lem law next replace_key rotate now s s' h =
      let (old, cipher, read, e, free, w) =
        with_current-eq-ok next replace_key rotate now s s' (get_settings seal unseal s) h in
      let n = next_settings next replace_key rotate old.content in
      (
        old,
        _,
        read,
        rw w (reads_written n cipher rotate now s (law n.admin_api_key cipher e)),
        changed next replace_key rotate now old.content,
        rw w (written-RotatesFree n cipher rotate now s free),
      )
