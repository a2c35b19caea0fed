-- ===== src/Install/Recoverable.antt =====
-- From which machines the programs of before an update can be had back.
use sub2api5hlimit.Base.{
  ℕ, zero, suc, ◌-◌, ◌==◌, Bool, true, false, if◌then◌else◌, Option, none, some, length, ◌≡◌, refl,
  sym, subst, ◌∙◌, arith,
}
use sub2api5hlimit.Install.Machine.{
  File, prepared, backed_up, TransactionJournal, Machine, World, return, call, ask, choose, check,
}
use sub2api5hlimit.Install.Journal.{
  write_transaction_journal, validate_transaction_journal, set_journal,
}
use sub2api5hlimit.Install.Restore.{
  set_file, original_at, put_back, restore_file, advance, restore_each, restore_transaction_files,
}
use sub2api5hlimit.Install.Holds.{
  Holds, on_return, Core, core, here, ask-Keeps, Holds-check, Holds-call, Holds-passing,
}

abbrev pub put : ℕ → Option File → Core → Core
put i f c = record c {
  portal = if 0 == i then f else c.portal;
  updater = if 1 == i then f else c.updater;
}

abbrev pub with_journal : Option TransactionJournal → Core → Core
with_journal j c = record c { journal = j }

pub core-set_file :
    (i : ℕ) (f : Option File) (m : Machine) → core (set_file i f m) ≡ put i f (core m)
unfolding set_file
core-set_file i f m = refl

pub core-set_journal :
    (j : Option TransactionJournal) (m : Machine) → core (set_journal j m) ≡ with_journal j (core m)
unfolding set_journal
core-set_journal j m = refl

pub some-injective : {A : Type 0} {a b : A} → some a ≡ some b → a ≡ b
some-injective e = cc

module _ (old_portal old_updater : Option File) where
  -- Both programs are those of before.
  pub record Old (c : Core) : Type 0 where
    pub old_portal_here : c.portal ≡ old_portal
    pub old_updater_here : c.updater ≡ old_updater

  -- The backups give both programs back.
  pub record BackedUp (j : TransactionJournal) (c : Core) : Type 0 where
    pub is_backed_up : j.phase ≡ backed_up
    pub portal_saved : original_at j.files c.backups 0 ≡ some old_portal
    pub updater_saved : original_at j.files c.backups 1 ≡ some old_updater

  -- What is back when `n` entries, the first ones, are left to restore.
  pub data Restored (c : Core) : ℕ → Type 0 where
    both_back : Old c → Restored c 0
    updater_back : c.updater ≡ old_updater → Restored c 1
    some_left : {n : ℕ} → Restored c (suc (suc n))

  -- No journal, one that was written before anything changed, or one with the backups.
  pub data Recoverable (c : Core) : Type 0 where
    without_journal : c.journal ≡ none → Old c → Recoverable c
    before_changes :
        (j : TransactionJournal) → c.journal ≡ some j → j.phase ≡ prepared → Old c → Recoverable c
    pending :
        (j : TransactionJournal)
        → c.journal ≡ some j
        → BackedUp j c
        → Restored c (length j.files - j.restore_cursor)
        → Recoverable c

  -- The result of a restore.
  pub data RestoreEnd (c : Core) : Bool → Type 0 where
    restored : Old c → Recoverable c → RestoreEnd c true
    not_restored : Recoverable c → RestoreEnd c false

  -- The same journal in memory and on disk, with `n` entries left.
  pub record Restoring (j : TransactionJournal) (n : ℕ) (c : Core) : Type 0 where
    pub on_disk : c.journal ≡ some j
    pub saved : BackedUp j c
    pub left : length j.files - j.restore_cursor ≡ n
    pub back : Restored c n

  pub Restoring-Recoverable :
      (j : TransactionJournal) (n : ℕ) (c : Core) → Restoring j n c → Recoverable c
  Restoring-Recoverable j n c r =
      pending j r.on_disk r.saved (subst (Restored c) (sym r.left) r.back)

  Restored-suc : (n : ℕ) (c : Core) → Restored c n → Restored c (suc n)
  Restored-suc zero c (both_back o) = updater_back o.old_updater_here
  Restored-suc (suc zero) c (updater_back e) = some_left
  Restored-suc (suc (suc n)) c r = some_left

  -- Entry `n` put back.
  put-Restored :
      (j : TransactionJournal) (n : ℕ) (c : Core) (f : Option File)
      → BackedUp j c
      → original_at j.files c.backups n ≡ some f
      → Restored c (suc n)
      → Restored (put n f c) n
  put-Restored j zero c f s e (updater_back u) =
      both_back
        (record { old_portal_here = some-injective (sym e ∙ s.portal_saved); old_updater_here = u })
  put-Restored j (suc zero) c f s e r = updater_back (some-injective (sym e ∙ s.updater_saved))
  put-Restored j (suc (suc n)) c f s e r = some_left

  -- After the rename of a restore, successful or not.
  put-Restoring :
      (j : TransactionJournal) (n : ℕ) (c : Core) (f : Option File)
      → original_at j.files c.backups n ≡ some f
      → Restoring j (suc n) c
      → Restoring j (suc n) (put n f c)
  put-Restoring j n c f e r = record {
    on_disk = r.on_disk;
    saved = record {
      is_backed_up = r.saved.is_backed_up;
      portal_saved = r.saved.portal_saved;
      updater_saved = r.saved.updater_saved;
    };
    left = r.left;
    back = Restored-suc n (put n f c) (put-Restored j n c f r.saved e r.back);
  }

  data FileEnd (j : TransactionJournal) (n : ℕ) (c : Core) : Bool → Type 0 where
    file_back : Restoring j (suc n) c → Restored c n → FileEnd j n c true
    file_not_back : Recoverable c → FileEnd j n c false

  restore_file-Holds :
      (j : TransactionJournal) (n : ℕ) (w : World)
      → Restoring j (suc n) (here w)
      → Holds Recoverable (λ ok c. FileEnd j n c ok) (restore_file n j.files w)
  unfolding restore_file put_back
  restore_file-Holds j n w r =
      Holds-passing (Restoring j (suc n)) (Restoring-Recoverable j (suc n)) ask (return false) _ w
        ask-Keeps r
        (λ w' r'. on_return (file_not_back (Restoring-Recoverable j (suc n) (here w') r')))
        (λ w' r'. go w' r' (original_at j.files w'.machine.backups n) refl)
    where
      go :
          (w : World)
          → Restoring j (suc n) (here w)
          → (original : Option (Option File)) → original_at j.files w.machine.backups n ≡ original
          → Holds Recoverable (λ ok c. FileEnd j n c ok) (put_back n original w)
      go w r none e = on_return (file_not_back (Restoring-Recoverable j (suc n) (here w) r))
      go w r (some f) e =
          let new = put-Restoring j n (here w) f e r in
          let old = Restoring-Recoverable j (suc n) (here w) r in
          Holds-call (set_file n f) (put n f) (core-set_file n f) Recoverable
            (λ ok c. FileEnd j n c ok) w
            (file_back new (put-Restored j n (here w) f r.saved e r.back))
            (file_not_back (Restoring-Recoverable j (suc n) (put n f (here w)) new))
            (file_not_back old) old

  -- The next journal on disk.
  advance-Restoring :
      (j : TransactionJournal) (n : ℕ) (c : Core)
      → Restoring j (suc n) c
      → Restored c n
      → Restoring (advance j) n (with_journal (some (advance j)) c)
  advance-Restoring j n c r b = record {
    on_disk = refl;
    saved = record {
      is_backed_up = r.saved.is_backed_up;
      portal_saved = r.saved.portal_saved;
      updater_saved = r.saved.updater_saved;
    };
    left = (let left = r.left in omega arith);
    back = Restored-journal n b;
  }
    where
      Restored-journal : (n : ℕ) → Restored c n → Restored (with_journal (some (advance j)) c) n
      Restored-journal zero (both_back o) =
          both_back
            (record { old_portal_here = o.old_portal_here; old_updater_here = o.old_updater_here })
      Restored-journal (suc zero) (updater_back u) = updater_back u
      Restored-journal (suc (suc n)) b = some_left

  data WriteEnd (j : TransactionJournal) (n : ℕ) (c : Core) : Bool → Type 0 where
    advanced : Restoring (advance j) n c → WriteEnd j n c true
    not_advanced : Recoverable c → WriteEnd j n c false

  write_advance-Holds :
      (j : TransactionJournal) (n : ℕ) (w : World)
      → Restoring j (suc n) (here w)
      → Restored (here w) n
      → Holds Recoverable (λ ok c. WriteEnd j n c ok) (write_transaction_journal (advance j) w)
  unfolding write_transaction_journal
  write_advance-Holds j n w r b = go (validate_transaction_journal w.machine.backups (advance j))
    where
      go :
          (valid : Bool)
          → Holds Recoverable
              (λ ok c. WriteEnd j n c ok)
              (choose valid (return false) (call (set_journal (some (advance j)))) w)
      go false = on_return (not_advanced (Restoring-Recoverable j (suc n) (here w) r))
      go true =
          let new = advance-Restoring j n (here w) r b in
          let old = Restoring-Recoverable j (suc n) (here w) r in
          Holds-call (set_journal (some (advance j))) (with_journal (some (advance j)))
            (core-set_journal (some (advance j))) Recoverable (λ ok c. WriteEnd j n c ok) w
            (advanced new) (not_advanced (Restoring-Recoverable (advance j) n _ new))
            (not_advanced old) old

  restore_each-Holds :
      (n : ℕ) (j : TransactionJournal) (w : World)
      → Restoring j n (here w)
      → Holds Recoverable (λ ok c. RestoreEnd c ok) (restore_each n j w)
  unfolding restore_each
  restore_each-Holds zero j w r =
      on_return (restored (old r.back) (Restoring-Recoverable j 0 (here w) r))
    where
      old : Restored (here w) 0 → Old (here w)
      old (both_back o) = o
  restore_each-Holds (suc n) j w r =
      Holds-check (restore_file n j.files) (return false) _ w (restore_file-Holds j n w r)
        (λ w' e. stop w' e) (λ w' e. go w' e (restore_each-Holds n (advance j)))
    where
      stop :
          (w : World)
          → FileEnd j n (here w) false
          → Holds Recoverable (λ ok c. RestoreEnd c ok) (return false w)
      stop w (file_not_back x) = on_return (not_restored x)

      stop_write :
          (w : World)
          → WriteEnd j n (here w) false
          → Holds Recoverable (λ ok c. RestoreEnd c ok) (return false w)
      stop_write w (not_advanced x) = on_return (not_restored x)

      again :
          ((w : World)
            → Restoring (advance j) n (here w)
            → Holds Recoverable (λ ok c. RestoreEnd c ok) (restore_each n (advance j) w))
          → (w : World) → WriteEnd j n (here w) true
          → Holds Recoverable (λ ok c. RestoreEnd c ok) (restore_each n (advance j) w)
      again rest w (advanced x) = rest w x

      go :
          (w : World)
          → FileEnd j n (here w) true
          → ((w : World)
              → Restoring (advance j) n (here w)
              → Holds Recoverable (λ ok c. RestoreEnd c ok) (restore_each n (advance j) w))
          → Holds Recoverable
              (λ ok c. RestoreEnd c ok)
              (check
                (write_transaction_journal (advance j))
                (return false)
                (restore_each n (advance j))
                w)
      go w (file_back r b) rest =
          Holds-check (write_transaction_journal (advance j)) (return false)
            (restore_each n (advance j)) w (write_advance-Holds j n w r b) stop_write (again rest)

  -- The files of a pending transaction, restored from its cursor on.
  pub restore_transaction_files-Holds :
      (j : TransactionJournal) (w : World)
      → w.machine.journal ≡ some j
      → BackedUp j (here w)
      → Restored (here w) (length j.files - j.restore_cursor)
      → Holds Recoverable (λ ok c. RestoreEnd c ok) (restore_transaction_files j w)
  unfolding restore_transaction_files
  restore_transaction_files-Holds j w e s b =
      restore_each-Holds (length j.files - j.restore_cursor) j w
        (record { on_disk = e; saved = s; left = refl; back = b })
