-- ===== src/Tests/Syncs.antt =====
-- Synchronisations at a concrete portal.
use sub2api5hlimit.Base.{
  ◌+◌, ◌-◌, ◌/◌, ◌*◌, ◌^◌, ◌<◌, ◌≤◌, ◌==◌, true, ◌&&◌, if◌then◌else◌, none, List, [], ◌∷◌, codes,
  map, ◌≡◌, refl, arith,
}
use sub2api5hlimit.Store.Model.{Text, KeySnapshot}
use sub2api5hlimit.Store.Bindings.{apply_key_snapshots, mark_key_sync_failed, snapshot_of}
use sub2api5hlimit.Store.Setup.{Site, mark_sync}
use sub2api5hlimit.Sync.{
  Manager, begin_connection_rotation, publish_snapshots, publish_keys, fail_keys, mark_failed,
  max_backoff, doubled, min, span, next_delay,
}
use sub2api5hlimit.Sync.Delay.{next_delay_bounded}
use sub2api5hlimit.Sync.Stale.{
  Event, rotation, keys_failed, InRange, run, step, rotations, confirmations, publish_keys_lem,
}
use sub2api5hlimit.Tests.{one, fresh}

abbrev site : Site
site = record {
  db = fresh;
  app_meta = record {
    setup_complete = true;
    setup_token_hash = none;
    setup_token_expires_at = none;
  };
  settings = none;
  published = [];
}

abbrev manager : Manager
manager = record {
  site = site;
  pool = record { accounts = []; publications = [] };
  connection_generation = 4;
  key_generation = 7;
  keys = record { items = []; fetched_at = 0; last_error = [] };
}

abbrev snapshot : KeySnapshot
snapshot = record {
  upstream_key_id = 7;
  name = codes "renamed";
  mask = codes "sk-1";
  status = codes "active";
  rate_limit_5h = one;
  usage_5h = one;
  reset_5h_at = none;
  rate_limit_7d = one;
  usage_7d = one;
  reset_7d_at = none;
  source_updated_at = none;
}

-- Another flight fails while the keys are fetched; or the connection is rotated too.
abbrev calm_events : List Event
calm_events = keys_failed 4 7 (codes "UPSTREAM_TIMEOUT") 5 ∷ []

abbrev rotated_events : List Event
rotated_events = keys_failed 4 7 (codes "UPSTREAM_TIMEOUT") 5 ∷ rotation ∷ []

manager-InRange : InRange manager
manager-InRange = record { connection_below = omega arith; key_below = omega arith }

none_confirmed : confirmations rotated_events manager < 2 ^ 64
unfolding confirmations step
none_confirmed = omega arith

small : 5 < span (min (doubled (min 3 8) (15 * 10 ^ 9)) max_backoff)
unfolding doubled
small = omega arith

-- The keys come in, or they do not.
abbrev names : Manager → List Text
names m = map (λ b. b.key_name) m.site.db.key_bindings

published :
    names (publish_keys 4 7 (snapshot ∷ []) 9 (run calm_events manager)) ≡ codes "renamed" ∷ []
unfolding publish_keys publish_snapshots apply_key_snapshots mark_sync run step fail_keys
    mark_failed mark_key_sync_failed snapshot_of
published = refl

dropped : names (publish_keys 4 7 (snapshot ∷ []) 9 (run rotated_events manager)) ≡ codes "k" ∷ []
unfolding publish_keys publish_snapshots apply_key_snapshots mark_sync run step fail_keys
    mark_failed mark_key_sync_failed begin_connection_rotation
dropped = refl

publish_keys_lem_example : publish_keys 4 7 (snapshot ∷ []) 9 (run rotated_events manager) ≡ (
    if rotations rotated_events == 0 && confirmations rotated_events manager == 0
    then publish_snapshots (snapshot ∷ []) 9 (run rotated_events manager)
    else run rotated_events manager)
publish_keys_lem_example =
    publish_keys_lem (snapshot ∷ []) 9 rotated_events manager manager-InRange (omega arith)
      none_confirmed

next_delay_bounded_example :
    (15 * 10 ^ 9 - 15 * 10 ^ 9 / 10 ≤ next_delay (15 * 10 ^ 9) 3 5)
    × (next_delay (15 * 10 ^ 9) 3 5 ≤ max_backoff + max_backoff / 10)
next_delay_bounded_example = next_delay_bounded (15 * 10 ^ 9) 3 5 (omega arith) (omega arith) small
