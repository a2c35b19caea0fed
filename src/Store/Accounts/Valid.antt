-- ===== src/Store/Accounts/Valid.antt =====
-- What holds of users and key bindings between any two calls.
use sub2api5hlimit.Base.{
  ℕ, ◌≡◌, ◌≢◌, ◌≤◌, Bool, false, ◌||◌, ◌==◌, List, [], ◌∷◌, ◌++◌, arith, count_where, update_where,
  delete_where, All, count_where-append, count_where-update_where_eq, count_where-delete_where_le,
  count_where_mono, All-update_where, All-delete_where, All-append, All-imp, Bool-cases, inl, inr,
}
use sub2api5hlimit.Store.Model.{User, KeyBinding, Db}
use sub2api5hlimit.Store.Bindings.{of_user, of_key}
use sub2api5hlimit.Store.Users.{is_member}

-- An account with role 'user' that is not deleted has this id.
abbrev pub IsLive : List User → ℕ → Type 0
IsLive users id = count_where (is_member id) users ≢ 0

-- A user holds one key at most, a key belongs to one user at most, and only live users hold keys.
pub record AreOwned (users : List User) (bindings : List KeyBinding) : Type 0 where
  pub one_key : (id : ℕ) → count_where (of_user id) bindings ≤ 1
  pub one_user : (key : ℕ) → count_where (of_key key) bindings ≤ 1
  pub live : All (λ b. IsLive users b.user_id) bindings

abbrev pub IsValid : Db → Type 0
IsValid db = AreOwned db.users db.key_bindings

-- An update of bindings that keeps both ids.
pub AreOwned-update :
    (users : List User) (bs : List KeyBinding) (p : KeyBinding → Bool) (f : KeyBinding → KeyBinding)
    → ((b : KeyBinding) → (f b).user_id ≡ b.user_id)
    → ((b : KeyBinding) → (f b).upstream_key_id ≡ b.upstream_key_id)
    → AreOwned users bs
    → AreOwned users (update_where p f bs)
AreOwned-update users bs p f keep_user keep_key v = record {
  one_key = λ id. omega (
    arith,
    v.one_key id,
    count_where-update_where_eq (of_user id) p f bs (λ b _. rw (keep_user b)),
  );
  one_user = λ key. omega (
    arith,
    v.one_user key,
    count_where-update_where_eq (of_key key) p f bs (λ b _. rw (keep_key b)),
  );
  live = All-update_where (λ b. IsLive users b.user_id) p f bs (λ b h _. rw (keep_user b) h) v.live;
}

pub AreOwned-delete :
    (users : List User) (bs : List KeyBinding) (p : KeyBinding → Bool)
    → AreOwned users bs
    → AreOwned users (delete_where p bs)
AreOwned-delete users bs p v = record {
  one_key = λ id. omega (arith, v.one_key id, count_where-delete_where_le (of_user id) p bs);
  one_user = λ key. omega (arith, v.one_user key, count_where-delete_where_le (of_key key) p bs);
  live =
      All-imp (λ (b : KeyBinding). IsLive users b.user_id × (p b ≡ false))
        (λ (b : KeyBinding). IsLive users b.user_id) (delete_where p bs) (λ b h. h.0)
        (All-delete_where (λ b. IsLive users b.user_id) p bs v.live);
}

-- A new binding whose user and key are both free, for a live user.
pub AreOwned-insert :
    (users : List User) (bs : List KeyBinding) (new : KeyBinding)
    → count_where (λ b. of_user new.user_id b || of_key new.upstream_key_id b) bs ≡ 0
    → IsLive users new.user_id
    → AreOwned users bs
    → AreOwned users (bs ++ new ∷ [])
AreOwned-insert users bs new free live v = record {
  one_key = λ id.
      rw (count_where-append (of_user id) bs (new ∷ [])) (elim (Bool-cases (new.user_id == id)) [
        | inr e ↦ rw e (omega (arith, v.one_key id))
        | inl e ↦ rw e (
            omega (
              arith,
              free,
              count_where_mono (of_user id)
                  (λ (b : KeyBinding). of_user new.user_id b || of_key new.upstream_key_id b) bs
                  (λ b h. ground arith),
            ))
      ]);
  one_user = λ key.
      rw (count_where-append (of_key key) bs (new ∷ []))
        (elim (Bool-cases (new.upstream_key_id == key)) [
          | inr e ↦ rw e (omega (arith, v.one_user key))
          | inl e ↦ rw e (
              omega (
                arith,
                free,
                count_where_mono (of_key key)
                    (λ (b : KeyBinding). of_user new.user_id b || of_key new.upstream_key_id b) bs
                    (λ b h. ground arith),
              ))
        ]);
  live = All-append (λ (b : KeyBinding). IsLive users b.user_id) bs (new ∷ []) v.live (live, tt);
}

-- The users change, and the bound ones stay live.
pub AreOwned-users :
    (users users' : List User) (bs : List KeyBinding)
    → ((b : KeyBinding) → IsLive users b.user_id → IsLive users' b.user_id)
    → AreOwned users bs
    → AreOwned users' bs
AreOwned-users users users' bs h v = record {
  one_key = v.one_key;
  one_user = v.one_user;
  live =
      All-imp (λ (b : KeyBinding). IsLive users b.user_id)
        (λ (b : KeyBinding). IsLive users' b.user_id) bs h v.live;
}
