-- ===== src/Store/Accounts/Snapshots.antt =====
-- The loop of a key-list sync, against its pointwise meaning.
use sub2api5hlimit.Base.{
  ℕ, ◌++◌, count_where, Option-cases, codes, ◌≡◌, refl, ap, ◌∙◌, Bool, true, false, ◌||◌, ◌==◌,
  if◌then◌else◌, Option, none, some, List, [], ◌∷◌, map, arith, update_where, Bool-cases, inl, inr,
  ==_self, sym, ap₂, All, All-imp,
}
use sub2api5hlimit.Store.Model.{KeyBinding, KeySnapshot, BindingState, compliant, Db}
use sub2api5hlimit.Store.Tx.{Result, ok}
use sub2api5hlimit.Store.Bindings.{
  of_key, refresh, snapshot_of, apply_each, state_of, key_ids, all_have_numbers,
  apply_key_snapshots,
}

-- What the sync makes of one binding: the last snapshot of its key, or missing.
abbrev pub synced : ℕ → List KeySnapshot → KeyBinding → KeyBinding
synced at ks b = refresh at (snapshot_of b.upstream_key_id ks) b

abbrev is_in : ℕ → List ℕ → Bool
is_in n [] = false
is_in n (m ∷ ms) = n == m || is_in n ms

abbrev synced_if : ℕ → List KeySnapshot → List ℕ → KeyBinding → KeyBinding
synced_if at ks ids b = if is_in b.upstream_key_id ids then synced at ks b else b

refresh_twice :
    (at : ℕ) (o : Option KeySnapshot) (b : KeyBinding)
    → refresh at o (refresh at o b) ≡ refresh at o b
refresh_twice at none b = refl
refresh_twice at (some k) b = refl

refresh_key :
    (at : ℕ) (o : Option KeySnapshot) (b : KeyBinding)
    → (refresh at o b).upstream_key_id ≡ b.upstream_key_id
refresh_key at none b = refl
refresh_key at (some k) b = refl

-- One round and the rest, on one row.
round :
    (at : ℕ) (ks : List KeySnapshot) (id : ℕ) (ids : List ℕ) (b : KeyBinding)
    → synced_if at ks ids (if of_key id b then refresh at (snapshot_of id ks) b else b)
      ≡ synced_if at ks (id ∷ ids) b
round at ks id ids b = elim (Bool-cases (b.upstream_key_id == id)) [
  | inr other ↦ rw other
  | inl same ↦ rw same (met (ground arith))
]
  where
    either :
        (c : Bool) (o : Option KeySnapshot)
        → (if c then refresh at o (refresh at o b) else refresh at o b) ≡ refresh at o b
    either true o = refresh_twice at o b
    either false o = refl

    met :
        b.upstream_key_id ≡ id
        → synced_if at ks ids (refresh at (snapshot_of id ks) b) ≡ synced at ks b
    met e = rw (← e) (
        rw (refresh_key at (snapshot_of b.upstream_key_id ks) b)
          (either (is_in b.upstream_key_id ids) (snapshot_of b.upstream_key_id ks)))

apply_each-map :
    (at : ℕ) (ks : List KeySnapshot) (ids : List ℕ) (bs : List KeyBinding)
    → apply_each at ks ids bs ≡ map (synced_if at ks ids) bs
unfolding apply_each
apply_each-map at ks [] bs = sym (map_same bs)
  where
    map_same : (bs : List KeyBinding) → map (λ b. b) bs ≡ bs
    map_same [] = refl
    map_same (b ∷ bs) = ap (λ (l : List KeyBinding). b ∷ l) (map_same bs)
apply_each-map at ks (id ∷ ids) bs =
    apply_each-map at ks ids (update_where (of_key id) (refresh at (snapshot_of id ks)) bs)
    ∙ rounds bs
  where
    rounds :
        (bs : List KeyBinding)
        → map (synced_if at ks ids) (update_where (of_key id) (refresh at (snapshot_of id ks)) bs)
          ≡ map (synced_if at ks (id ∷ ids)) bs
    rounds [] = refl
    rounds (b ∷ bs) =
        ap₂ (λ (c : KeyBinding) (l : List KeyBinding). c ∷ l) (round at ks id ids b) (rounds bs)

-- Every row's key is among the ids that the loop goes through.
All-met :
    (at : ℕ) (ks : List KeySnapshot) (ids : List ℕ) (bs : List KeyBinding)
    → All (λ b. is_in b.upstream_key_id ids ≡ true) bs
    → map (synced_if at ks ids) bs ≡ map (synced at ks) bs
All-met at ks ids [] h = refl
All-met at ks ids (b ∷ bs) h =
    ap₂ (λ (c : KeyBinding) (l : List KeyBinding). c ∷ l) (rw h.0) (All-met at ks ids bs h.1)

ids_met : (bs : List KeyBinding) → All (λ b. is_in b.upstream_key_id (key_ids bs) ≡ true) bs
unfolding key_ids
ids_met [] = tt
ids_met (b ∷ bs) = (
  rw (==_self b.upstream_key_id),
  All-imp (λ (c : KeyBinding). is_in c.upstream_key_id (key_ids bs) ≡ true)
      (λ (c : KeyBinding). is_in c.upstream_key_id (b.upstream_key_id ∷ key_ids bs) ≡ true) bs
      (λ c h. ground (arith, h)) (ids_met bs),
)

-- k is the last snapshot of the key in the list.
abbrev IsLast : ℕ → KeySnapshot → List KeySnapshot → Type 0
IsLast key k ks =
    (before : List KeySnapshot) × (after : List KeySnapshot) × (ks ≡ before ++ k ∷ after)
    × (k.upstream_key_id ≡ key)
    × (count_where (λ k. k.upstream_key_id == key) after ≡ 0)

-- What a sync at a time may make of a binding.
pub data Synced (at : ℕ) (ks : List KeySnapshot) (b b' : KeyBinding) : Type 0 where
  unlisted :
      count_where (λ k. k.upstream_key_id == b.upstream_key_id) ks ≡ 0
      → b' ≡ record b {
        binding_state = BindingState.missing;
        last_error_code = codes "UPSTREAM_KEY_MISSING";
        updated_at = at;
      }
      → Synced at ks b b'
  listed :
      (k : KeySnapshot)
      → IsLast b.upstream_key_id k ks
      → b' ≡ record b {
        key_name = k.name;
        key_mask = k.mask;
        upstream_status = k.status;
        binding_state = state_of (compliant k) k.status;
        rate_limit_5h = k.rate_limit_5h;
        usage_5h = k.usage_5h;
        reset_5h_at = k.reset_5h_at;
        rate_limit_7d = k.rate_limit_7d;
        usage_7d = k.usage_7d;
        reset_7d_at = k.reset_7d_at;
        source_updated_at = k.source_updated_at;
        last_success_at = some at;
        last_error_code = [];
        updated_at = at;
      }
      → Synced at ks b b'

abbrev pub AreSynced : ℕ → List KeySnapshot → List KeyBinding → List KeyBinding → Type 0
AreSynced at ks [] [] = Unit
AreSynced at ks [] (_ ∷ _) = ⊥
AreSynced at ks (_ ∷ _) [] = ⊥
AreSynced at ks (b ∷ bs) (b' ∷ bs') = Synced at ks b b' × AreSynced at ks bs bs'

snapshot_of-none :
    (key : ℕ) (ks : List KeySnapshot)
    → snapshot_of key ks ≡ none
    → count_where (λ k. k.upstream_key_id == key) ks ≡ 0
unfolding snapshot_of
snapshot_of-none key [] h = refl
snapshot_of-none key (k ∷ ks) h = ground (arith, h, snapshot_of-none key ks)

snapshot_of-IsLast :
    (key : ℕ) (ks : List KeySnapshot) (k : KeySnapshot)
    → snapshot_of key ks ≡ some k
    → IsLast key k ks
unfolding snapshot_of
snapshot_of-IsLast key [] k h = absurd (cc)
snapshot_of-IsLast key (x ∷ ks) k h = elim (Option-cases (snapshot_of key ks)) [
  | inl e ↦ elim (Bool-cases (x.upstream_key_id == key)) [
    | inl same ↦
        let here : x ≡ k = (let q : some x ≡ some k = rw (e, same) at h in cc) in
        ([], ks, rw here refl, rw (← here) (ground (arith, same)), snapshot_of-none key ks e)
    | inr other ↦ absurd (cc (rw (e, other) at h))
  ]
  | inr (y, e) ↦
      let later : y ≡ k = (let q : some y ≡ some k = rw e at h in cc) in
      let (before, after, cut, own, last) = snapshot_of-IsLast key ks k (rw (← later) e) in
      (x ∷ before, after, rw cut refl, own, last)
]

synced-Synced : (at : ℕ) (ks : List KeySnapshot) (b : KeyBinding) → Synced at ks b (synced at ks b)
synced-Synced at ks b = elim (Option-cases (snapshot_of b.upstream_key_id ks)) [
  | inl e ↦ unlisted (snapshot_of-none b.upstream_key_id ks e) (rw e refl)
  | inr (k, e) ↦ listed k (snapshot_of-IsLast b.upstream_key_id ks k e) (rw e refl)
]

all-AreSynced :
    (at : ℕ) (ks : List KeySnapshot) (bs : List KeyBinding)
    → AreSynced at ks bs (map (synced at ks) bs)
all-AreSynced at ks [] = tt
all-AreSynced at ks (b ∷ bs) = (synced-Synced at ks b, all-AreSynced at ks bs)

-- A key-list sync that succeeds, which issues one UPDATE for each bound key, gives every binding the
-- values of the last snapshot of its key, or marks it missing where the list has none; no other
-- table changes.
pub apply_key_snapshots_lem :
    (ks : List KeySnapshot) (at : ℕ) (db db' : Db)
    → apply_key_snapshots ks at db ≡ (db', ok tt)
    → AreSynced at ks db.key_bindings db'.key_bindings
      × (db' ≡ record db { key_bindings = db'.key_bindings })
unfolding apply_key_snapshots
apply_key_snapshots_lem ks at db db' h =
    let ids = key_ids db.key_bindings in
    elim (Bool-cases (all_have_numbers ks ids)) [
      | inr e ↦ absurd (cc (rw e at h))
      | inl e ↦
          let loop =
            apply_each-map at ks ids db.key_bindings
            ∙ All-met at ks ids db.key_bindings (ids_met db.key_bindings) in
          let q : (record db { key_bindings = apply_each at ks ids db.key_bindings }, ok tt)
              ≡ (db', ok tt) =
            rw e at h in
          let same : record db { key_bindings = map (synced at ks) db.key_bindings } ≡ db' =
            ap (λ (rows : List KeyBinding). record db { key_bindings = rows }) (sym loop)
            ∙ ap (λ (o : Db × Result (Unit {0})). o.0) q in
          rw (← same) (all-AreSynced at ks db.key_bindings, refl)
    ]
