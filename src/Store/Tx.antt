-- ===== src/Store/Tx.antt =====
-- Transactions of internal/store: a body sees the database and returns a value with the changed
-- database, or an error. `BeginTx` with a deferred `Rollback` keeps the change only if the body
-- reaches its `Commit`.
use sub2api5hlimit.Base.{◌≡◌, refl, Bool, true, false, Option, none, some, arith}
use sub2api5hlimit.Store.Model.{Db}

-- store.go's errors, and the errors made in place, one for each message.
pub data Error : Type 0 where
  not_found setup_complete invalid_token username_exists key_bound : Error
  quota_reset_job_active quota_reset_transition : Error
  announcement_title announcement_body cipher_failed upstream_in_use unknown_scope : Error
  unsafe_error_code invalid_user_status not_compliant constraint : Error

pub data Result {ℓ} (A : Type ℓ) : Type ℓ where
  ok : A → Result A
  err : Error → Result A

abbrev pub Tx : Type 0 → Type 0
Tx A = Db → Result (A × Db)

infixl 5 ◌>>=◌ ◌>>◌
abbrev pub ◌>>=◌ : {A B : Type 0} → Tx A → (A → Tx B) → Tx B
◌>>=◌ m f db = elim (m db) [ ok (a, db') ↦ f a db' | err e ↦ err e ]

abbrev pub ◌>>◌ : {B : Type 0} → Tx (Unit {0}) → Tx B → Tx B
m >> k = m >>= λ _. k

abbrev pub return : {A : Type 0} → A → Tx A
return a db = ok (a, db)

abbrev pub throw : {A : Type 0} → Error → Tx A
throw e db = err e

-- `if !b { return e }`
abbrev pub unless : Bool → Error → Tx (Unit {0})
unless true e = return tt
unless false e = throw e

-- A query for one row, whose absence is `ErrNotFound`.
abbrev pub or_not_found : {A : Type 0} → Option A → Tx A
or_not_found none db = err not_found
or_not_found (some a) db = ok (a, db)

-- A statement that reads or writes the database.
abbrev pub read : {A : Type 0} → (Db → A) → Tx A
read f db = ok (f db, db)

abbrev pub write : (Db → Db) → Tx (Unit {0})
write f db = ok (tt, f db)

abbrev pub settle : {A : Type 0} → Db → Result (A × Db) → Db × Result A
settle db (ok (a, db')) = (db', ok a)
settle db (err e) = (db, err e)

-- The database after the transaction, and what the caller gets.
abbrev pub in_tx : {A : Type 0} → Tx A → Db → Db × Result A
in_tx m db = settle db (m db)

-- Inversion of a successful bind.
pub >>=-eq-ok :
    {A B : Type 0} (m : Tx A) (f : A → Tx B) (db : Db) {b : B} {db' : Db}
    → (m >>= f) db ≡ ok (b, db')
    → (a : A) × (mid : Db) × (m db ≡ ok (a, mid)) × (f a mid ≡ ok (b, db'))
>>=-eq-ok {A} {B} m f db {b} {db'} h = go (m db) refl h
  where
    go :
        (r : Result (A × Db))
        → m db ≡ r
        → elim r [ ok (a, db') ↦ f a db' | err e ↦ err e ] ≡ ok (b, db')
        → (a : A) × (mid : Db) × (m db ≡ ok (a, mid)) × (f a mid ≡ ok (b, db'))
    go (ok (a, mid)) e h = (a, mid, e, h)
    go (err x) e h = absurd (cc)

pub unless-eq-ok :
    (b : Bool) (e : Error) (db : Db) {a : Unit {0}} {db' : Db}
    → unless b e db ≡ ok (a, db')
    → (b ≡ true) × (db' ≡ db)
unless-eq-ok b e db h = ground arith

-- A transaction keeps what its successful runs keep: a failed one changes nothing.
pub in_tx-keeps {κ} :
    {A : Type 0} (P : Db → Type κ) (m : Tx A) (db : Db)
    → P db
    → ((a : A) (db' : Db) → m db ≡ ok (a, db') → P db')
    → P (in_tx m db).0
in_tx-keeps {A} P m db old new = go (m db) refl
  where
    go : (r : Result (A × Db)) → m db ≡ r → P (settle db r).0
    go (ok (a, db')) e = new a db' e
    go (err x) e = old

pub or_not_found-eq-ok :
    {A : Type 0} (o : Option A) (db : Db) {a : A} {db' : Db}
    → or_not_found o db ≡ ok (a, db')
    → (o ≡ some a) × (db' ≡ db)
or_not_found-eq-ok none db h = absurd (cc)
or_not_found-eq-ok (some b) db h = (ground arith, ground arith)
