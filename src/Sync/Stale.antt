-- ===== src/Sync/Stale.antt =====
-- A synchronisation publishes its result exactly when nothing made it stale since it began.
use sub2api5hlimit.Base.{
  ℕ, ◌+◌, ◌%◌, ◌^◌, ◌<◌, Bool, true, false, ◌&&◌, ◌==◌, if◌then◌else◌, Option, List, [], ◌∷◌, codes,
  Bool-cases, inl, inr, ◌≡◌, refl, ◌∙◌, ap₂, arith,
}
use sub2api5hlimit.Store.Model.{Text, KeySnapshot, Db}
use sub2api5hlimit.Store.Tx.{Result, ok, err}
use sub2api5hlimit.Store.Bindings.{LimitEcho, apply_key_snapshots}
use sub2api5hlimit.Store.Setup.{Site, mark_sync}
use sub2api5hlimit.Store.Pool.{
  PoolInventory, PoolUsage, Pool, apply_pool_inventory, apply_pool_usage,
}
use sub2api5hlimit.Sync.{
  Manager, begin_connection_rotation, with_connection_generation, with_key_generation, counted,
  with_db, after_mark, keep_keys, after_snapshots, publish_snapshots, publish_keys, mark_failed,
  fail_keys, after_pool, store_accounts, store_usage, lose_usage, store_reset, store_limits,
  publish_accounts, publish_usage, fail_usage, confirm_reset, confirm_limits,
}

-- What others do meanwhile, each with the generations that it found when it began.
pub data Event : Type 0 where
  rotation : Event
  keys_fetched : ℕ → ℕ → List KeySnapshot → ℕ → Event
  keys_failed : ℕ → ℕ → Text → ℕ → Event
  accounts_fetched : ℕ → List (PoolInventory × Option Text) → ℕ → Event
  usage_fetched : ℕ → List PoolUsage → ℕ → Event
  usage_lost : ℕ → Text → ℕ → Event
  reset_confirmed : ℕ → ℕ → LimitEcho → ℕ → Event
  limits_confirmed : ℕ → ℕ → LimitEcho → ℕ → ℕ → Event

unfoldable pub step : Event → Manager → Manager
unfolding begin_connection_rotation publish_keys fail_keys publish_accounts publish_usage fail_usage
    confirm_reset confirm_limits
step rotation m = begin_connection_rotation m
step (keys_fetched c g snapshots now) m = publish_keys c g snapshots now m
step (keys_failed c g code now) m = fail_keys c g code now m
step (accounts_fetched c items now) m = publish_accounts c items now m
step (usage_fetched c items now) m = publish_usage c items now m
step (usage_lost c code now) m = fail_usage c code now m
step (reset_confirmed c key_id echo now) m = confirm_reset c key_id echo now m
step (limits_confirmed c key_id echo actor_id now) m = confirm_limits c key_id echo actor_id now m

unfoldable pub run : List Event → Manager → Manager
unfolding step
run [] m = m
run (e ∷ events) m = run events (step e m)

abbrev pub rotates : Event → ℕ
rotates rotation = 1
rotates _ = 0

-- A change that the upstream confirmed counts where it is written.
abbrev pub confirms : Event → Manager → ℕ
confirms (reset_confirmed c key_id echo now) m = if c == m.connection_generation then 1 else 0
confirms (limits_confirmed c key_id echo actor_id now) m =
    if c == m.connection_generation then 1 else 0
confirms _ m = 0

abbrev pub rotations : List Event → ℕ
rotations [] = 0
rotations (e ∷ events) = rotates e + rotations events

unfoldable pub confirmations : List Event → Manager → ℕ
unfolding step
confirmations [] m = 0
confirmations (e ∷ events) m = confirms e m + confirmations events (step e m)

-- The generations, which are a uint64.
pub record InRange (m : Manager) : Type 0 where
  pub connection_below : m.connection_generation < 2 ^ 64
  pub key_below : m.key_generation < 2 ^ 64

-- The generations after one event.
pub record Stepped (e : Event) (m m' : Manager) : Type 0 where
  pub connection_is : m'.connection_generation ≡ (m.connection_generation + rotates e) % 2 ^ 64
  pub key_is : m'.key_generation ≡ (m.key_generation + confirms e m) % 2 ^ 64

record Same (m m' : Manager) : Type 0 where
  same_connection : m'.connection_generation ≡ m.connection_generation
  same_key : m'.key_generation ≡ m.key_generation

Same-self : (m : Manager) → Same m m
Same-self m = record { same_connection = refl; same_key = refl }

Same-with_connection :
    (c : ℕ) (f : Manager → Manager) (m : Manager)
    → Same m (f m)
    → Same m (with_connection_generation c f m)
Same-with_connection c f m h = go (c == m.connection_generation)
  where
    go : (b : Bool) → Same m (if b then f m else m)
    go true = h
    go false = Same-self m

Same-with_key :
    (g : ℕ) (f : Manager → Manager) (m : Manager)
    → Same m (f m)
    → Same m (with_key_generation g f m)
Same-with_key g f m h = go (g == m.key_generation)
  where
    go : (b : Bool) → Same m (if b then f m else m)
    go true = h
    go false = Same-self m

Same-after_mark :
    (r : Site × Result (Unit {0})) (next : Manager → Manager) (m m' : Manager)
    → ((site : Site) → Same m (next (record m' { site = site })))
    → Same m m'
    → Same m (after_mark r next m')
Same-after_mark (site, ok u) next m m' h s = h site
Same-after_mark (site, err e) next m m' h s = s

Same-after_snapshots :
    (snapshots : List KeySnapshot) (now : ℕ) (r : Db × Result (Unit {0})) (m : Manager)
    → Same m (after_snapshots snapshots now r m)
unfolding after_snapshots
Same-after_snapshots snapshots now (db, err e) m = Same-self m
Same-after_snapshots snapshots now (db, ok u) m =
    Same-after_mark (mark_sync (codes "keys") now now (with_db db m).site) (keep_keys snapshots now)
      m (with_db db m) (λ site. record { same_connection = refl; same_key = refl })
      (record { same_connection = refl; same_key = refl })

Same-after_pool :
    (scope : Text) (now : ℕ) (r : Pool × Result (Unit {0})) (m : Manager)
    → Same m (after_pool scope now r m)
unfolding after_pool
Same-after_pool scope now (pool, err e) m = Same-self m
Same-after_pool scope now (pool, ok u) m =
    Same-after_mark (mark_sync scope now now m.site) (λ m. m) m (record m { pool = pool })
      (λ site. record { same_connection = refl; same_key = refl })
      (record { same_connection = refl; same_key = refl })

Stepped-Same :
    (e : Event) (m m' : Manager)
    → InRange m
    → rotates e ≡ 0
    → confirms e m ≡ 0
    → Same m m'
    → Stepped e m m'
Stepped-Same e m m' h r c s = record {
  connection_is = (let same = s.same_connection in let below = h.connection_below in omega arith);
  key_is = (let same = s.same_key in let below = h.key_below in omega arith);
}

Stepped-confirmed :
    (e : Event) (c : ℕ) (f : Manager → Manager) (m : Manager)
    → InRange m
    → rotates e ≡ 0
    → confirms e m ≡ (if c == m.connection_generation then 1 else 0)
    → Same (counted m) (f m)
    → Stepped e m (with_connection_generation c f m)
Stepped-confirmed e c f m h r k s = go (c == m.connection_generation) k
  where
    go : (b : Bool) → confirms e m ≡ (if b then 1 else 0) → Stepped e m (if b then f m else m)
    go true k = record {
      connection_is =
          (let same = s.same_connection in let below = h.connection_below in omega arith);
      key_is = (let same = s.same_key in let below = h.key_below in omega arith);
    }
    go false k = Stepped-Same e m m h r k (Same-self m)

step-Stepped : (e : Event) (m : Manager) → InRange m → Stepped e m (step e m)
unfolding step begin_connection_rotation publish_keys publish_snapshots fail_keys mark_failed
    publish_accounts publish_usage fail_usage confirm_reset confirm_limits store_accounts
    store_usage lose_usage store_reset store_limits
step-Stepped rotation m h = record {
  connection_is = refl;
  key_is = (let below = h.key_below in omega arith);
}
step-Stepped (keys_fetched c g snapshots now) m h =
    let publish = publish_snapshots snapshots now in
    Stepped-Same (keys_fetched c g snapshots now) m (publish_keys c g snapshots now m) h refl refl (
      Same-with_connection c (with_key_generation g publish) m (
        Same-with_key g publish m
          (Same-after_snapshots snapshots now (apply_key_snapshots snapshots now m.site.db) m)))
step-Stepped (keys_failed c g code now) m h =
    Stepped-Same (keys_failed c g code now) m (fail_keys c g code now m) h refl refl (
      Same-with_connection c (with_key_generation g (mark_failed code now)) m (
        Same-with_key g (mark_failed code now) m
          (record { same_connection = refl; same_key = refl })))
step-Stepped (accounts_fetched c items now) m h =
    Stepped-Same (accounts_fetched c items now) m (publish_accounts c items now m) h refl refl (
      Same-with_connection c (store_accounts items now) m
        (Same-after_pool (codes "accounts") now (apply_pool_inventory items now m.pool) m))
step-Stepped (usage_fetched c items now) m h =
    Stepped-Same (usage_fetched c items now) m (publish_usage c items now m) h refl refl (
      Same-with_connection c (store_usage items now) m
        (Same-after_pool (codes "usage") now (apply_pool_usage items now m.pool) m))
step-Stepped (usage_lost c code now) m h =
    Stepped-Same (usage_lost c code now) m (fail_usage c code now m) h refl refl (
      Same-with_connection c (lose_usage code now) m
        (record { same_connection = refl; same_key = refl }))
step-Stepped (reset_confirmed c key_id echo now) m h =
    Stepped-confirmed (reset_confirmed c key_id echo now) c (store_reset key_id echo now) m h refl
      refl (record { same_connection = refl; same_key = refl })
step-Stepped (limits_confirmed c key_id echo actor_id now) m h =
    Stepped-confirmed (limits_confirmed c key_id echo actor_id now) c
      (store_limits key_id echo actor_id now) m h refl refl
      (record { same_connection = refl; same_key = refl })

-- The generations after a history.
record Counted (events : List Event) (m m' : Manager) : Type 0 where
  connection_is : m'.connection_generation ≡ (m.connection_generation + rotations events) % 2 ^ 64
  key_is : m'.key_generation ≡ (m.key_generation + confirmations events m) % 2 ^ 64

run-Counted : (events : List Event) (m : Manager) → InRange m → Counted events m (run events m)
unfolding run confirmations
run-Counted [] m h = record {
  connection_is = (let below = h.connection_below in omega arith);
  key_is = (let below = h.key_below in omega arith);
}
run-Counted (e ∷ events) m h =
    let one = step-Stepped e m h in
    let connection = one.connection_is in
    let key = one.key_is in
    let rest =
      run-Counted events (step e m)
        (record { connection_below = omega arith; key_below = omega arith }) in
    let connection' = rest.connection_is in
    let key' = rest.key_is in record { connection_is = omega arith; key_is = omega arith }

moved : (g n g' : ℕ) → g < 2 ^ 64 → n < 2 ^ 64 → g' ≡ (g + n) % 2 ^ 64 → (g == g') ≡ (n == 0)
moved g n g' h h' e = elim (Bool-cases (n == 0)) [
  | inl z ↦ let zero_n : n ≡ 0 = ground arith in let same : g ≡ g' = omega arith in ground arith
  | inr z ↦ ground arith
]

-- A synchronisation of keys that began at one time publishes after any history of what else the
-- portal does, with fewer than 2^64 rotations and confirmed changes, exactly where none of these came
-- between: otherwise it changes nothing.
pub publish_keys_lem :
    (snapshots : List KeySnapshot) (now : ℕ) (events : List Event) (m : Manager)
    → InRange m
    → rotations events < 2 ^ 64
    → confirmations events m < 2 ^ 64
    → publish_keys m.connection_generation m.key_generation snapshots now (run events m) ≡ (
        if rotations events == 0 && confirmations events m == 0
        then publish_snapshots snapshots now (run events m)
        else run events m)
unfolding publish_keys
publish_keys_lem snapshots now events m h few few' =
    let counted = run-Counted events m h in
    let m' = run events m in
    ap₂ (λ a b. if a then (if b then publish_snapshots snapshots now m' else m') else m')
      (moved m.connection_generation (rotations events) m'.connection_generation h.connection_below
        few counted.connection_is)
      (moved m.key_generation (confirmations events m) m'.key_generation h.key_below few'
        counted.key_is)
    ∙ both (rotations events == 0) (confirmations events m == 0)
  where
    both :
        (a b : Bool)
        → (if a
            then (if b then publish_snapshots snapshots now (run events m) else run events m)
            else run events m)
          ≡ (if a && b then publish_snapshots snapshots now (run events m) else run events m)
    both true b = refl
    both false b = refl
