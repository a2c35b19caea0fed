-- ===== src/Install/Live.antt =====
-- A recovery in which no call fails ends with the old programs in place.
use sub2api5hlimit.Base.{
  ◌-◌, ◌<◌, Bool, true, false, ◌||◌, if◌then◌else◌, Option, none, some, codes, length, ◌≡◌, refl,
  sym, subst, ap, ◌∙◌,
}
use sub2api5hlimit.Store.Model.{Text}
use sub2api5hlimit.Install.Machine.{
  File, UpdateRequest, Phase, prepared, backed_up, TransactionJournal, failed, recovering,
  rolled_back, Machine, Out, done, died, bind, ◌>>=◌, return, perform, call, choose,
}
use sub2api5hlimit.Install.Config.{
  Config, stop_portal_service, set_active, start_service, output_of, is_version,
}
use sub2api5hlimit.Install.Journal.{
  read, unreadable, checked, read_with, read_transaction_journal, validate_transaction_journal,
  report_running, report_finish, set_status, running_status, finished_status, set_journal,
  consume_request_for_operation, remove_transaction_journal,
}
use sub2api5hlimit.Install.Restore.{restore_transaction_files}
use sub2api5hlimit.Install.Transaction.{restart_old}
use sub2api5hlimit.Install.Recovery.{
  is_backed_up, restore_and_restart, after_stop_restore, restore_interrupted_transaction,
  finish_rolled_back_operation, Recovery, not_recovered, recovered, after_failed_restore,
  after_restore, recover_journal, recover_from, recover_interrupted_transaction,
}
use sub2api5hlimit.Install.Holds.{Holds, on_return, core}
use sub2api5hlimit.Install.Recoverable.{Recoverable, RestoreEnd, restored}
use sub2api5hlimit.Install.Recovers.{RecoveryEnd, was_recovered, HasJournal, restore_if_needed}
use sub2api5hlimit.Install.Recovered.{recover_interrupted_transaction-Holds}
use sub2api5hlimit.Install.Succeeds.{
  calm, succeeds, Succeeds, cursor_within, restore_each-calm, is_readable,
  consume_request_for_operation-calm, portal_version-calm, wait_for_healthy-calm,
}

-- What a run without failures needs: the readiness is polled at least once, the request on disk can be
-- read if there is one, the journal is valid, and the old portal prints its version.
pub record Ready (cfg : Config) (j : TransactionJournal) (old_portal : Option File) (m : Machine)
    : Type 0 where
  pub polls : 0 < cfg.ready_attempts
  pub request_readable : is_readable m.request ≡ true
  pub journal_valid : validate_transaction_journal m.backups j ≡ true
  pub old_version_printed :
      is_version (codes "portal") cfg.goarch j.old_version (output_of cfg old_portal) ≡ true

restart_old-calm :
    (cfg : Config) (was_active changed : Bool) (v : Text) (m : Machine)
    → is_version (codes "portal") cfg.goarch v (output_of cfg (m.files 0)) ≡ true
    → 0 < cfg.ready_attempts
    → (m' : Machine) × (restart_old cfg was_active changed v (calm m) ≡ done true (calm m'))
      × (m'.request ≡ m.request)
unfolding restart_old start_service call perform set_active
restart_old-calm cfg true changed v m e h =
    (set_active true m, wait_for_healthy-calm cfg v m e h, refl)
restart_old-calm cfg false true v m e h = (m, portal_version-calm cfg v m e, refl)
restart_old-calm cfg false false v m e h = (m, refl, refl)

module _ (cfg : Config) (j : TransactionJournal) (old_portal old_updater : Option File) where
  restore_if_needed-calm :
      (m : Machine)
      → validate_transaction_journal m.backups j ≡ true
      → (m' : Machine) × (choose
            (is_backed_up j.phase)
            (return true)
            (restore_transaction_files j)
            (calm m)
          ≡ done true (calm m'))
        × (m'.request ≡ m.request)
  unfolding restore_transaction_files
  restore_if_needed-calm m v = go j.phase refl
    where
      go :
          (p : Phase)
          → j.phase ≡ p
          → (m' : Machine) × (choose
                (is_backed_up p)
                (return true)
                (restore_transaction_files j)
                (calm m)
              ≡ done true (calm m'))
            × (m'.request ≡ m.request)
      go prepared e = (m, refl, refl)
      go backed_up e =
          restore_each-calm (length j.files - j.restore_cursor) j m
            (record { is_valid = v; has_backups = e; left = cursor_within m.backups j v e })

  restored_portal :
      (o : Out Bool) (m : Machine)
      → Holds
          (Recoverable old_portal old_updater)
          (λ ok c. RestoreEnd old_portal old_updater c ok)
          o
      → o ≡ done true (calm m)
      → m.files 0 ≡ old_portal
  restored_portal o m h e = go (
      subst
        (λ o.
          Holds (Recoverable old_portal old_updater)
            (λ ok c. RestoreEnd old_portal old_updater c ok) o)
        e h)
    where
      back : RestoreEnd old_portal old_updater (core m) true → m.files 0 ≡ old_portal
      back (restored o r) = o.old_portal_here

      go :
          Holds
            (Recoverable old_portal old_updater)
            (λ ok c. RestoreEnd old_portal old_updater c ok)
            (done true (calm m))
          → m.files 0 ≡ old_portal
      go (on_return r) = back r

  restore_and_restart-calm :
      (m : Machine)
      → Ready cfg j old_portal m
      → HasJournal old_portal old_updater j (core m)
      → (m' : Machine) × (restore_and_restart cfg j (calm m) ≡ done true (calm m'))
        × (m'.request ≡ m.request)
  unfolding restore_and_restart
  restore_and_restart-calm m y h =
      let files = restore_if_needed-calm m y.journal_valid in
      let portal =
        restored_portal
          (choose (is_backed_up j.phase) (return true) (restore_transaction_files j) (calm m))
          files.0 (restore_if_needed old_portal old_updater j (calm m) h) files.1 in
      let start =
        restart_old-calm cfg j.was_active (is_backed_up j.phase) j.old_version files.0
          (subst
            (λ f. is_version (codes "portal") cfg.goarch j.old_version (output_of cfg f) ≡ true)
            (sym portal) y.old_version_printed)
          y.polls in
      (
        start.0,
        ap
              (λ o. bind o (λ ok.
                choose ok (return false)
                  (restart_old cfg j.was_active (is_backed_up j.phase) j.old_version)))
              files.1
            ∙ start.1,
        start.2 ∙ files.2,
      )

  restore_interrupted_transaction-calm :
      (m : Machine)
      → Ready cfg j old_portal m
      → HasJournal old_portal old_updater j (core m)
      → (m' : Machine) × (restore_interrupted_transaction cfg j (calm m) ≡ done true (calm m'))
        × (m'.request ≡ m.request)
  unfolding restore_interrupted_transaction stop_portal_service call perform set_active
  restore_interrupted_transaction-calm m y h = go (is_backed_up j.phase || j.was_active)
    where
      go :
          (b : Bool)
          → (m' : Machine) × (choose b
                (restore_and_restart cfg j)
                (stop_portal_service >>= λ s. after_stop_restore cfg j s)
                (calm m)
              ≡ done true (calm m'))
            × (m'.request ≡ m.request)
      go false = restore_and_restart-calm m y h
      go true =
          restore_and_restart-calm (set_active false m)
            (record {
              polls = y.polls;
              request_readable = y.request_readable;
              journal_valid = y.journal_valid;
              old_version_printed = y.old_version_printed;
            })
            h

succeeded :
    {A : Type 0} {a : A} {P : Machine → Type 0} (o : Out A)
    → Succeeds a P o
    → (m' : Machine) × (o ≡ done a (calm m'))
succeeded (done a w) (succeeds {m} p) = (m, refl)
succeeded (died m) h = elim h [ ]

finish_rolled_back_operation-calm :
    (r : UpdateRequest) (code : Text) (m : Machine)
    → is_readable m.request ≡ true
    → (m' : Machine) × (finish_rolled_back_operation r code (calm m) ≡ done true (calm m'))
unfolding finish_rolled_back_operation report_finish remove_transaction_journal call perform
    set_status
finish_rolled_back_operation-calm r code m h =
    let status = finished_status r failed rolled_back code true in
    let consumed =
      succeeded (consume_request_for_operation r.operation_id (calm (set_status status m)))
        (consume_request_for_operation-calm r.operation_id (set_status status m) h) in
    (
      set_journal none consumed.0,
      ap (λ o. bind o (λ ok. choose ok (return false) remove_transaction_journal)) consumed.1,
    )

module _ (cfg : Config) (j : TransactionJournal) (old_portal old_updater : Option File) where
  recover_journal-calm :
      (m : Machine)
      → Ready cfg j old_portal m
      → HasJournal old_portal old_updater j (core m)
      → (m' : Machine) × (recover_journal cfg j (calm m) ≡ done recovered (calm m'))
  unfolding recover_journal after_restore report_running call perform set_status
  recover_journal-calm m y h =
      let restored =
        restore_interrupted_transaction-calm cfg j old_portal old_updater
          (set_status (running_status j.request recovering) m)
          (record {
            polls = y.polls;
            request_readable = y.request_readable;
            journal_valid = y.journal_valid;
            old_version_printed = y.old_version_printed;
          })
          h in
      let finished =
        finish_rolled_back_operation-calm j.request (codes "UPDATE_INTERRUPTED") restored.0
          (ap is_readable restored.2 ∙ y.request_readable) in
      (
        finished.0,
        ap (λ o. bind o (λ ok. choose ok (after_failed_restore j) (after_restore j))) restored.1
            ∙ ap (λ o. bind o (λ ok. choose ok (return not_recovered) (return recovered)))
                finished.1,
      )

  was_back :
      (o : Out Recovery) (m : Machine)
      → Holds (Recoverable old_portal old_updater) (λ r c. RecoveryEnd old_portal old_updater c r) o
      → o ≡ done recovered (calm m)
      → RecoveryEnd old_portal old_updater (core m) recovered
  was_back o m h e = go (
      subst
        (λ o.
          Holds (Recoverable old_portal old_updater) (λ r c. RecoveryEnd old_portal old_updater c r)
            o)
        e h)
    where
      go :
          Holds
            (Recoverable old_portal old_updater)
            (λ r c. RecoveryEnd old_portal old_updater c r)
            (done recovered (calm m))
          → RecoveryEnd old_portal old_updater (core m) recovered
      go (on_return r) = r

-- On a machine with a valid journal from which the old programs can be had back, whose request can be
-- read if there is one, whose old portal prints the version the journal names and on which no call
-- fails, a recovery says that it recovered: then both old programs are in place and there is no
-- journal.
pub recover_interrupted_transaction_live :
    (cfg : Config) (j : TransactionJournal) (old_portal old_updater : Option File) (m : Machine)
    → m.journal ≡ some j
    → Recoverable old_portal old_updater (core m)
    → Ready cfg j old_portal m
    → (m' : Machine) × (recover_interrupted_transaction cfg (calm m) ≡ done recovered (calm m'))
      × (m'.files 0 ≡ old_portal)
      × (m'.files 1 ≡ old_updater)
      × (m'.journal ≡ none)
unfolding recover_interrupted_transaction read_transaction_journal read_with call perform
recover_interrupted_transaction_live cfg j old_portal old_updater m e r y =
    let run =
      recover_journal-calm cfg j old_portal old_updater m y
        (record { journal_is = e; is_recoverable = r }) in
    let started = found e in
    let result = started ∙ run.1 in
    go run.0 result (
      was_back cfg j old_portal old_updater (recover_interrupted_transaction cfg (calm m)) run.0
        (recover_interrupted_transaction-Holds old_portal old_updater cfg (calm m) r) result)
  where
    valid :
        (b : Bool)
        → b ≡ true
        → recover_from cfg (if b then read j else unreadable) (calm m)
          ≡ recover_journal cfg j (calm m)
    valid true h = refl
    valid false h = absurd (cc)

    found :
        m.journal ≡ some j
        → recover_from cfg (checked (validate_transaction_journal m.backups) m.journal) (calm m)
          ≡ recover_journal cfg j (calm m)
    found e =
        ap (λ o. recover_from cfg (checked (validate_transaction_journal m.backups) o) (calm m)) e
        ∙ valid (validate_transaction_journal m.backups j) y.journal_valid

    go :
        (m' : Machine)
        → recover_interrupted_transaction cfg (calm m) ≡ done recovered (calm m')
        → RecoveryEnd old_portal old_updater (core m') recovered
        → (m' : Machine) × (recover_interrupted_transaction cfg (calm m) ≡ done recovered (calm m'))
          × (m'.files 0 ≡ old_portal)
          × (m'.files 1 ≡ old_updater)
          × (m'.journal ≡ none)
    go m' e (was_recovered o n) = (m', e, o.old_portal_here, o.old_updater_here, n)
