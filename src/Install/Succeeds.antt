-- ===== src/Install/Succeeds.antt =====
-- When no call fails, a recovery ends: how each step of it ends then.
use sub2api5hlimit.Base.{
  ℕ, zero, suc, ◌+◌, ◌-◌, ◌<◌, ◌==◌, Bool, true, false, not, ◌&&◌, ◌||◌, if◌then◌else◌, Option,
  none, some, List, [], ◌∷◌, length, ◌≡◌, refl, sym, subst, ap, ◌∙◌, arith, text_eq, codes,
  trim_space, trim_left,
}
use sub2api5hlimit.Store.Model.{Text}
use sub2api5hlimit.Install.Machine.{
  File, SavedFile, UpdateRequest, backed_up, TransactionJournal, Machine, World, Out, done, died,
  bind, Step, return, perform, call, run_command, ask, choose, check,
}
use sub2api5hlimit.Install.Config.{
  Config, service_state, service_is_active, set_active, is_active_output, output_of, is_version,
  portal_version, is_ready, poll_ready, wait_for_healthy,
}
use sub2api5hlimit.Install.Journal.{
  unreadable, read, checked, is_valid_request, read_with, read_update_request,
  consume_update_request, consume_read, consume_request_for_operation, set_request, set_journal,
  is_some, are_valid_entries, is_valid_phase, is_stable, validate_transaction_journal,
  write_transaction_journal,
}
use sub2api5hlimit.Version.Updater.{parse_sem_version}
use sub2api5hlimit.Install.Config.{trim_v}
use sub2api5hlimit.Install.Restore.{
  original_of, entry_at, original_at, set_file, put_back, restore_file, advance, restore_each,
}

-- A machine on which nothing will fail.
abbrev pub calm : Machine → World
calm m = record { machine = m; events = [] }

pub data Succeeds {A : Type 0} (a : A) (P : Machine → Type 0) : Out A → Type 0 where
  succeeds : {m : Machine} → P m → Succeeds a P (done a (calm m))

pub Succeeds-call :
    (effect : Machine → Machine) (P : Machine → Type 0) (m : Machine)
    → P (effect m)
    → Succeeds true P (call effect (calm m))
unfolding call perform
Succeeds-call effect P m p = succeeds p

module _ {A : Type 0} {a : A} {P Q : Machine → Type 0} where
  pub Succeeds-check :
      (m : Step Bool) (otherwise next : Step A) (w : World)
      → Succeeds true P (m w)
      → ((m' : Machine) → P m' → Succeeds a Q (next (calm m')))
      → Succeeds a Q (check m otherwise next w)
  Succeeds-check m otherwise next w h n = go (m w) h
    where
      go :
          (o : Out Bool)
          → Succeeds true P o
          → Succeeds a Q (bind o (λ ok. choose ok otherwise next))
      go (done true w') (succeeds p) = n w'.machine p
      go (done false w') h = elim h [ ]
      go (died m) h = elim h [ ]
      -- The wait for a service that is up and whose portal has the version.

module _ (cfg : Config) (v : Text) (m : Machine)
    (has_version : is_version (codes "portal") cfg.goarch v (output_of cfg (m.files 0))
      ≡ true) where
  pub portal_version-calm : portal_version cfg v (calm m) ≡ done true (calm m)
  unfolding portal_version run_command call perform
  portal_version-calm = ap (λ b. done b (calm m)) has_version

pub wait_for_healthy-calm :
    (cfg : Config) (v : Text) (m : Machine)
    → is_version (codes "portal") cfg.goarch v (output_of cfg (m.files 0)) ≡ true
    → 0 < cfg.ready_attempts
    → wait_for_healthy cfg v (calm (set_active true m)) ≡ done true (calm (set_active true m))
unfolding wait_for_healthy poll_ready is_ready service_is_active service_state run_command call
    perform set_active is_active_output trim_space trim_left
wait_for_healthy-calm cfg v m e h = go cfg.ready_attempts h
  where
    ready : is_ready cfg v (calm (set_active true m)) ≡ done true (calm (set_active true m))
    ready = portal_version-calm cfg v (set_active true m) e

    go :
        (n : ℕ)
        → 0 < n
        → poll_ready cfg v n (calm (set_active true m)) ≡ done true (calm (set_active true m))
    go zero h = absurd (omega arith)
    go (suc n) h =
        ap
          (λ o. bind o (λ b.
            choose b
              (elim n as (λ _. Step Bool) [
                | zero ↦ return false
                | suc _ ↦ check ask (return false) (poll_ready cfg v n)
              ])
              (return true)))
          ready

abbrev pub is_readable : Option UpdateRequest → Bool
unfolding is_valid_request
is_readable none = true
is_readable (some r) = is_valid_request r

abbrev restorable_at : ℕ → Option SavedFile → (ℕ → Option Text) → Option (Option File)
restorable_at i none b = none
restorable_at i (some e) b = original_of e (b i)

-- An entry that validates can be restored.
entry_restorable :
    (i n : ℕ) (b : ℕ → Option Text) (entries : List SavedFile)
    → are_valid_entries i b entries ≡ true
    → n < length entries
    → (f : Option File) × (restorable_at (i + n) (entry_at n entries) b ≡ some f)
entry_restorable i n b [] v h = absurd (omega arith)
entry_restorable i zero b (e ∷ entries) v h =
    let next : i ≡ i + 0 = omega arith in
    subst (λ k. (f : Option File) × (original_of e (b k) ≡ some f)) next
      (go e.existed e.mode e.owner (b i) (ground arith))
  where
    go :
        (existed : Bool) (mode : ℕ) (owner : Option (ℕ × ℕ)) (o : Option Text)
        → not existed || is_some o ≡ true
        → (f : Option File) × (original_of
              (record { existed = existed; mode = mode; owner = owner })
              o
            ≡ some f)
    go true mode owner (some content) h = (_, refl)
    go true mode owner none h = absurd (cc)
    go false mode owner o h = (none, refl)
entry_restorable i (suc n) b (e ∷ entries) v h =
    let next : suc i + n ≡ i + suc n = omega arith in
    subst (λ k. (f : Option File) × (restorable_at k (entry_at n entries) b ≡ some f)) next
      (entry_restorable (suc i) n b entries (ground arith) (omega arith))

phase_advance :
    (b : ℕ → Option Text) (j : TransactionJournal)
    → is_valid_phase backed_up b j ≡ true
    → j.restore_cursor < length j.files
    → is_valid_phase backed_up b (advance j) ≡ true
phase_advance b j v h = ground arith

and_phase :
    (a b c d d' : Bool)
    → a && b && c && d ≡ true
    → (d ≡ true → d' ≡ true)
    → a && b && c && d' ≡ true
and_phase true true true d d' h f = f h
and_phase false b c d d' h f = h
and_phase true false c d d' h f = h
and_phase true true false d d' h f = h

pub consume_request_for_operation-calm :
    (id : Text) (m : Machine)
    → is_readable m.request ≡ true
    → Succeeds true (λ m'. m'.files ≡ m.files) (consume_request_for_operation id (calm m))
unfolding consume_request_for_operation consume_read read_update_request read_with call perform
    consume_update_request set_request
consume_request_for_operation-calm id m h = go m.request h
  where
    take :
        (b : Bool)
        → Succeeds true
            (λ m'. m'.files ≡ m.files)
            (choose b (return true) consume_update_request (calm m))
    take true = succeeds refl
    take false = succeeds refl

    valid :
        (r : UpdateRequest) (b : Bool)
        → b ≡ true
        → Succeeds true
            (λ m'. m'.files ≡ m.files)
            (consume_read id (if b then read r else unreadable) (calm m))
    valid r true h = take (text_eq r.operation_id id)
    valid r false h = absurd (cc)

    go :
        (o : Option UpdateRequest)
        → is_readable o ≡ true
        → Succeeds true
            (λ m'. m'.files ≡ m.files)
            (consume_read id (checked is_valid_request o) (calm m))
    go none h = succeeds refl
    go (some r) h = valid r (is_valid_request r) h

-- What a restore with no failing call needs.
pub record CanRestore (n : ℕ) (j : TransactionJournal) (m : Machine) : Type 0 where
  pub is_valid : validate_transaction_journal m.backups j ≡ true
  pub has_backups : j.phase ≡ backed_up
  pub left : n + j.restore_cursor ≡ length j.files

and_last : (a b c d : Bool) → a && b && c && d ≡ true → d ≡ true
and_last true true true d h = h
and_last false b c d h = absurd (cc)
and_last true false c d h = absurd (cc)
and_last true true false d h = absurd (cc)

valid_phase :
    (b : ℕ → Option Text) (j : TransactionJournal)
    → validate_transaction_journal b j ≡ true
    → j.phase ≡ backed_up
    → is_valid_phase backed_up b j ≡ true
unfolding validate_transaction_journal
valid_phase b j v p =
    subst (λ q. is_valid_phase q b j ≡ true) p
      (and_last (j.schema == 1) (is_valid_request j.request)
        (is_stable (parse_sem_version (trim_v j.old_version))) (is_valid_phase j.phase b j) v)

last_entries :
    (b : ℕ → Option Text) (j : TransactionJournal)
    → is_valid_phase backed_up b j ≡ true
    → are_valid_entries 0 b j.files ≡ true
last_entries b j h = ground arith

valid_entries :
    (b : ℕ → Option Text) (j : TransactionJournal)
    → validate_transaction_journal b j ≡ true
    → j.phase ≡ backed_up
    → are_valid_entries 0 b j.files ≡ true
valid_entries b j v p = last_entries b j (valid_phase b j v p)

valid_advance :
    (b : ℕ → Option Text) (j : TransactionJournal)
    → validate_transaction_journal b j ≡ true
    → j.phase ≡ backed_up
    → j.restore_cursor < length j.files
    → validate_transaction_journal b (advance j) ≡ true
unfolding validate_transaction_journal
valid_advance b j v p h =
    and_phase (j.schema == 1) (is_valid_request j.request)
      (is_stable (parse_sem_version (trim_v j.old_version))) (is_valid_phase j.phase b j)
      (is_valid_phase j.phase b (advance j)) v
      (λ v.
        subst (λ q. is_valid_phase q b (advance j) ≡ true) (sym p)
          (phase_advance b j (subst (λ q. is_valid_phase q b j ≡ true) p v) h))

restorable_original :
    (n : ℕ) (b : ℕ → Option Text) (entries : List SavedFile)
    → restorable_at n (entry_at n entries) b ≡ original_at entries b n
unfolding original_at
restorable_original n b entries = go (entry_at n entries)
  where
    go :
        (e : Option SavedFile)
        → restorable_at n e b ≡ elim e [ none ↦ none | some e ↦ original_of e (b n) ]
    go none = refl
    go (some e) = refl

restore_file-calm :
    (n : ℕ) (j : TransactionJournal) (m : Machine)
    → CanRestore (suc n) j m
    → (f : Option File) × (restore_file n j.files (calm m) ≡ done true (calm (set_file n f m)))
unfolding restore_file put_back call perform
restore_file-calm n j m c =
    let left = c.left in
    let entries = valid_entries m.backups j c.is_valid c.has_backups in
    let found = entry_restorable 0 n m.backups j.files entries (omega arith) in
    let index : 0 + n ≡ n = omega arith in
    let here =
      subst (λ k. restorable_at k (entry_at n j.files) m.backups ≡ some found.0) index found.1 in
    let original = sym (restorable_original n m.backups j.files) ∙ here in
    (found.0, ap (λ o. put_back n o (calm m)) original)

write_advance-calm :
    (n : ℕ) (j : TransactionJournal) (m : Machine)
    → CanRestore (suc n) j m
    → write_transaction_journal (advance j) (calm m)
      ≡ done true (calm (set_journal (some (advance j)) m))
unfolding write_transaction_journal call perform
write_advance-calm n j m c =
    ap (λ b. choose b (return false) (call (set_journal (some (advance j)))) (calm m))
      (valid_advance m.backups j c.is_valid c.has_backups (let left = c.left in omega arith))

CanRestore-file :
    (n : ℕ) (j : TransactionJournal) (m : Machine) (f : Option File)
    → CanRestore (suc n) j m
    → CanRestore (suc n) j (set_file n f m)
unfolding set_file
CanRestore-file n j m f c = record {
  is_valid = c.is_valid;
  has_backups = c.has_backups;
  left = c.left;
}

CanRestore-advance :
    (n : ℕ) (j : TransactionJournal) (m : Machine) (f : Option File)
    → CanRestore (suc n) j m
    → CanRestore n (advance j) (set_journal (some (advance j)) (set_file n f m))
unfolding set_file set_journal
CanRestore-advance n j m f c = record {
  is_valid = valid_advance m.backups j c.is_valid c.has_backups (let left = c.left in omega arith);
  has_backups = c.has_backups;
  left = (let left = c.left in omega arith);
}

abbrev advance_then : ℕ → TransactionJournal → Step Bool
advance_then n j =
    check (write_transaction_journal (advance j)) (return false) (restore_each n (advance j))

pub restore_each-calm :
    (n : ℕ) (j : TransactionJournal) (m : Machine)
    → CanRestore n j m
    → (m' : Machine) × (restore_each n j (calm m) ≡ done true (calm m')) × (m'.request ≡ m.request)
unfolding restore_each set_file set_journal
restore_each-calm zero j m c = (m, refl, refl)
restore_each-calm (suc n) j m c =
    let file = restore_file-calm n j m c in
    let m1 = set_file n file.0 m in
    let m2 = set_journal (some (advance j)) m1 in
    let rest = restore_each-calm n (advance j) m2 (CanRestore-advance n j m file.0 c) in
    (
      rest.0,
      ap (λ o. bind o (λ ok. choose ok (return false) (advance_then n j))) file.1
          ∙ ap (λ o. bind o (λ ok. choose ok (return false) (restore_each n (advance j))))
              (write_advance-calm n j m1 (CanRestore-file n j m file.0 c))
          ∙ rest.1,
      rest.2,
    )

last_cursor :
    (b : ℕ → Option Text) (j : TransactionJournal)
    → is_valid_phase backed_up b j ≡ true
    → length j.files - j.restore_cursor + j.restore_cursor ≡ length j.files
last_cursor b j h = ground arith

pub cursor_within :
    (b : ℕ → Option Text) (j : TransactionJournal)
    → validate_transaction_journal b j ≡ true
    → j.phase ≡ backed_up
    → length j.files - j.restore_cursor + j.restore_cursor ≡ length j.files
cursor_within b j v p = last_cursor b j (valid_phase b j v p)
