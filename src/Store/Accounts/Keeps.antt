-- ===== src/Store/Accounts/Keeps.antt =====
-- The calls on bindings keep what holds of users and bindings.
use sub2api5hlimit.Base.{
  ℕ, ◌≡◌, refl, ap, ◌∙◌, String, Bool, true, ◌||◌, ◌==◌, Option, none, some, List, [], ◌∷◌, ◌++◌,
  arith, count_where, update_where, delete_where, Bool-cases, inl, inr, find_where,
  count_where-update_where_eq, Option-cases,
}
use sub2api5hlimit.Store.Model.{
  User, KeyBinding, KeySnapshot, compliant, Metadata, empty, limits, Db,
}
use sub2api5hlimit.Store.Tx.{
  in_tx-keeps, settle, or_not_found-eq-ok, ok, ◌>>=◌, ◌>>◌, or_not_found, unless, not_found,
  >>=-eq-ok, unless-eq-ok,
}
use sub2api5hlimit.Store.QuotaReset.Statements.{is_actor, add_audit}
use sub2api5hlimit.Store.Bindings.{
  LimitEcho, of_user, of_key, is_bindable, binding_row, insert_binding, delete_of_user,
  set_binding_tx, set_binding, delete_binding_tx, delete_binding, apply_each, refresh, snapshot_of,
  apply_key_limit_change_tx, apply_key_limit_change,
}
use sub2api5hlimit.Store.Users.{is_member, not_deleted}
use sub2api5hlimit.Store.Accounts.Valid.{
  IsLive, AreOwned, IsValid, AreOwned-update, AreOwned-delete, AreOwned-insert,
}

-- The user that a binding call found is live.
found-IsLive :
    (id : ℕ) (us : List User) (owner : User)
    → find_where (λ u. u.id == id) us ≡ some owner
    → is_bindable owner ≡ true
    → IsLive us id
found-IsLive id [] owner e b = absurd (cc)
found-IsLive id (u ∷ us) owner e b = ground (arith, found-IsLive id us owner)

pub insert_binding_lem :
    (id : ℕ) (k : KeySnapshot) (now : ℕ) (db : Db) {a : Unit {0}} {db' : Db}
    → insert_binding id k now db ≡ ok (a, db')
    → (count_where (λ b. of_user id b || of_key k.upstream_key_id b) db.key_bindings ≡ 0)
      × (db'.key_bindings ≡ db.key_bindings ++ binding_row id k now ∷ [])
      × (db'.users ≡ db.users)
unfolding insert_binding
insert_binding_lem id k now db h = ground arith

pub add_audit-same :
    (actor : ℕ) (action kind : String) (target : ℕ) (m : Metadata) (now : ℕ) (db : Db)
    {a : Unit {0}} {db' : Db}
    → add_audit actor action kind target m now db ≡ ok (a, db')
    → (db'.key_bindings ≡ db.key_bindings) × (db'.users ≡ db.users)
unfolding add_audit
add_audit-same actor action kind target m now db h = ground arith

set_binding_lem :
    (id : ℕ) (k : KeySnapshot) (actor now : ℕ) (db : Db) (a : Unit {0}) (db' : Db)
    → set_binding_tx id k actor now db ≡ ok (a, db')
    → let rest = delete_where (of_user id) db.key_bindings in
      IsLive db.users id
      × (count_where (λ b. of_user id b || of_key k.upstream_key_id b) rest ≡ 0)
      × (db'.key_bindings ≡ rest ++ binding_row id k now ∷ [])
      × (db'.users ≡ db.users)
unfolding set_binding_tx delete_of_user
set_binding_lem id k actor now db a db' h =
    let (owner, db1, e1, h1) =
      >>=-eq-ok (λ db. or_not_found (find_where (λ (u : User). u.id == id) db.users) db) _ db h in
    let (found, same1) =
      or_not_found-eq-ok (find_where (λ (u : User). u.id == id) db.users) db e1 in
    let (_, db2, e2, h2) = >>=-eq-ok (unless (is_bindable owner) not_found) _ db1 h1 in
    let (bindable, same2) = unless-eq-ok (is_bindable owner) not_found db1 e2 in
    let (free, rows, users) = inserted db2 (same2 ∙ same1) h2 in
    (found-IsLive id db.users owner found bindable, free, rows, users)
  where
    inserted :
        (mid : Db)
        → mid ≡ db
        → (do
          delete_of_user id
          insert_binding id k now
          add_audit actor "binding.set" "user" id empty now)
            mid
          ≡ ok (a, db')
        → let rest = delete_where (of_user id) db.key_bindings in
          (count_where (λ b. of_user id b || of_key k.upstream_key_id b) rest ≡ 0)
          × (db'.key_bindings ≡ rest ++ binding_row id k now ∷ [])
          × (db'.users ≡ db.users)
    inserted mid e h =
        let (_, m1, e1, h1) =
          >>=-eq-ok (insert_binding id k now) _
            (record mid { key_bindings = delete_where (of_user id) mid.key_bindings }) h in
        let (free, rows, users) =
          insert_binding_lem id k now
            (record mid { key_bindings = delete_where (of_user id) mid.key_bindings }) e1 in
        let (rows1, users1) = add_audit-same actor "binding.set" "user" id empty now m1 h1 in
        (
          rw (ap (λ (d : Db). d.key_bindings) e) at free,
          rows1
              ∙ rows
              ∙ ap
                  (λ (d : Db).
                    delete_where (of_user id) d.key_bindings ++ binding_row id k now ∷ [])
                  e,
          users1 ∙ users ∙ ap (λ (d : Db). d.users) e,
        )

-- Binding a key: the old binding goes, the new one comes, or nothing changes.
pub set_binding-IsValid :
    (id : ℕ) (k : KeySnapshot) (actor now : ℕ) (db : Db)
    → IsValid db
    → IsValid (set_binding id k actor now db).0
unfolding set_binding
set_binding-IsValid id k actor now db v = elim (Bool-cases (compliant k)) [
  | inr e ↦ rw e v
  | inl e ↦ rw e (
      in_tx-keeps IsValid (set_binding_tx id k actor now) db v λ a db' h.
        let (live, free, rows, users) = set_binding_lem id k actor now db a db' h in
        rw (rows, users)
          (AreOwned-insert db.users (delete_where (of_user id) db.key_bindings)
            (binding_row id k now) free live
            (AreOwned-delete db.users db.key_bindings (of_user id) v)))
]

-- A change that ends with its audit event: it is kept with the event, or rolled back.
audited-IsValid :
    (actor : ℕ) (action kind : String) (id : ℕ) (m : Metadata) (now : ℕ) (db changed : Db)
    → IsValid db
    → IsValid changed
    → IsValid (settle db (add_audit actor action kind id m now changed)).0
unfolding add_audit
audited-IsValid actor action kind id m now db changed v w =
    elim (Bool-cases (is_actor actor changed)) [ inl a ↦ rw a w | inr a ↦ rw a v ]

pub delete_binding-IsValid :
    (id actor now : ℕ) (db : Db) → IsValid db → IsValid (delete_binding id actor now db).0
unfolding delete_binding delete_binding_tx delete_of_user
delete_binding-IsValid id actor now db v =
    elim (Bool-cases (count_where (of_user id) db.key_bindings == 0)) [
      | inl e ↦ rw (e, ◌>>=◌) v
      | inr e ↦
          rw (e, ◌>>=◌)
            (audited-IsValid actor "binding.delete" "user" id empty now db
              (record db { key_bindings = delete_where (of_user id) db.key_bindings }) v
              (AreOwned-delete db.users db.key_bindings (of_user id) v))
    ]

refresh_user :
    (at : ℕ) (o : Option KeySnapshot) (b : KeyBinding) → (refresh at o b).user_id ≡ b.user_id
refresh_user at none b = refl
refresh_user at (some k) b = refl

refresh_key :
    (at : ℕ) (o : Option KeySnapshot) (b : KeyBinding)
    → (refresh at o b).upstream_key_id ≡ b.upstream_key_id
refresh_key at none b = refl
refresh_key at (some k) b = refl

pub apply_each-AreOwned :
    (users : List User) (at : ℕ) (ks : List KeySnapshot) (ids : List ℕ) (bs : List KeyBinding)
    → AreOwned users bs
    → AreOwned users (apply_each at ks ids bs)
unfolding apply_each
apply_each-AreOwned users at ks [] bs v = v
apply_each-AreOwned users at ks (id ∷ ids) bs v =
    apply_each-AreOwned users at ks ids
      (update_where (of_key id) (refresh at (snapshot_of id ks)) bs)
      (AreOwned-update users bs (of_key id) (refresh at (snapshot_of id ks))
        (refresh_user at (snapshot_of id ks)) (refresh_key at (snapshot_of id ks)) v)

pub limit_change-IsValid :
    (key : ℕ) (e : LimitEcho) (at actor : ℕ) (db : Db)
    → IsValid db
    → IsValid (apply_key_limit_change key e at actor db).0
unfolding apply_key_limit_change apply_key_limit_change_tx
limit_change-IsValid key e at actor db v =
    elim (Option-cases (find_where (of_key key) db.key_bindings)) [
      | inl none_found ↦ rw (none_found, ◌>>=◌, or_not_found) v
      | inr (b, found) ↦
          rw (found, ◌>>=◌, or_not_found)
            (audited-IsValid actor "binding.limits.set" "user" b.user_id
              (limits key e.limit_5h e.limit_7d) at db _ v
              (AreOwned-update db.users db.key_bindings (of_key key) _ (λ b. refl) (λ b. refl) v))
    ]

-- Users that leave the bindings' owners live.
pub keeps_IsLive :
    (p : User → Bool) (f : User → User) (us : List User)
    → ((u : User) → (f u).id ≡ u.id)
    → ((u : User) → (f u).role ≡ u.role)
    → ((u : User) → p u ≡ true → not_deleted (f u) ≡ not_deleted u)
    → (id : ℕ) → IsLive us id
    → IsLive (update_where p f us) id
keeps_IsLive p f us same_id same_role same_status id h e = h (
    omega (
      arith,
      e,
      count_where-update_where_eq (is_member id) p f us
          (λ u t. rw (same_id u, same_role u, same_status u t)),
    ))
