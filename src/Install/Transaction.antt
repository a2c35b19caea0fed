-- ===== src/Install/Transaction.antt =====
-- applyTransaction of cmd/sub2api-limit-updater/apply.go, stage by stage.
use sub2api5hlimit.Base.{
  ℕ, suc, zero, Bool, true, false, if◌then◌else◌, Option, none, some, List, [], ◌∷◌, ◌++◌,
}
use sub2api5hlimit.Store.Model.{Text}
use sub2api5hlimit.Install.Machine.{
  SavedFile, UpdateRequest, prepared, backed_up, TransactionJournal, StatusPhase, backing_up,
  installing, restarting, health_check, Machine, Step, ◌>>=◌, return, call, ask, check,
}
use sub2api5hlimit.Install.Config.{
  Config, Stop, service_is_active, stop_portal_service, stopped_ok, stopped_late, not_stopped,
  start_service, portal_version, wait_for_healthy,
}
use sub2api5hlimit.Install.Journal.{
  report_running, write_transaction_journal, remove_transaction_journal,
}
use sub2api5hlimit.Install.Restore.{save_file, atomic_install, restore_transaction_files}

-- No error; or a transactionError with its phase: plain, RolledBack, RollbackFailed.
pub data Verdict : Type 0 where
  installed : Verdict
  failed rolled_back rollback_failed : StatusPhase → Verdict

-- What applyTransaction is called with.
pub record Update : Type 0 where
  pub portal : Text
  pub updater : Text
  pub old_version : Text
  pub target_version : Text
  pub request : UpdateRequest

-- Starting the service again and checking it, or checking the portal alone.
unfoldable pub restart_old : Config → Bool → Bool → Text → Step Bool
unfolding start_service wait_for_healthy portal_version
restart_old cfg true changed version =
    check start_service (return false) (wait_for_healthy cfg version)
restart_old cfg false true version = portal_version cfg version
restart_old cfg false false version = return true

unfoldable pub finish_rollback : Config → TransactionJournal → Bool → StatusPhase → Step Verdict
unfolding restart_old
finish_rollback cfg j changed phase =
    check (restart_old cfg j.was_active changed j.old_version) (return (rollback_failed phase))
      (return (rolled_back phase))

unfoldable pub after_rollback_stop : Config → TransactionJournal → StatusPhase → Stop → Step Verdict
unfolding finish_rollback restore_transaction_files
after_rollback_stop cfg j phase not_stopped = return (rollback_failed phase)
after_rollback_stop cfg j phase _ =
    check (restore_transaction_files j) (return (rollback_failed phase))
      (finish_rollback cfg j true phase)

-- The closure `rollback` once the journal is written.
unfoldable pub rollback : Config → TransactionJournal → Bool → StatusPhase → Step Verdict
unfolding finish_rollback stop_portal_service after_rollback_stop
rollback cfg j false phase = finish_rollback cfg j false phase
rollback cfg j true phase = stop_portal_service >>= after_rollback_stop cfg j phase

-- The last step: the journal goes away.
unfoldable pub clear_journal : Step Verdict
unfolding remove_transaction_journal
clear_journal =
    check remove_transaction_journal (return (rollback_failed health_check)) (return installed)

-- The stages `restarting` and `health_check` of a service that was active.
unfoldable pub restart_new : Config → Update → TransactionJournal → Step Verdict
unfolding report_running call start_service wait_for_healthy rollback clear_journal
restart_new cfg u j = check (report_running u.request restarting) (rollback cfg j true restarting) (
    check ask (rollback cfg j true restarting) (
      check start_service (rollback cfg j true restarting) (
        check (report_running u.request health_check) (rollback cfg j true health_check) (
          check (wait_for_healthy cfg u.target_version) (rollback cfg j true health_check)
            clear_journal))))

unfoldable pub verify : Config → Update → TransactionJournal → Step Verdict
unfolding restart_new portal_version rollback clear_journal
verify cfg u j =
    if j.was_active
    then restart_new cfg u j
    else check (portal_version cfg u.target_version) (rollback cfg j true health_check)
        clear_journal

unfoldable pub install_programs : Config → Update → TransactionJournal → Step Verdict
unfolding atomic_install call rollback verify
install_programs cfg u j = check (atomic_install 0 u.portal) (rollback cfg j true installing) (
    check ask (rollback cfg j true installing) (
      check (atomic_install 1 u.updater) (rollback cfg j true installing)
        (check ask (rollback cfg j true installing) (verify cfg u j))))

unfoldable pub install_files : Config → Update → TransactionJournal → Step Verdict
unfolding report_running rollback install_programs
install_files cfg u j =
    check (report_running u.request installing) (rollback cfg j false installing)
      (install_programs cfg u j)

abbrev pub with_files : List SavedFile → TransactionJournal → TransactionJournal
with_files entries j = record j { phase = backed_up; files = entries }

-- After the loop over the backup sources.
unfoldable pub record_backups : Config → Update → TransactionJournal → List SavedFile → Step Verdict
unfolding write_transaction_journal call rollback install_files
record_backups cfg u j entries = check ask (rollback cfg j false backing_up) (
    check (write_transaction_journal (with_files entries j))
      (rollback cfg (with_files entries j) false backing_up)
      (check ask (rollback cfg (with_files entries j) false backing_up)
        (install_files cfg u (with_files entries j))))

-- The loop over the backup sources: `n` are left, from slot `i` on.
-- What follows one saveFile.
abbrev pub after_save :
    Config
    → TransactionJournal
    → List SavedFile
    → Option SavedFile
    → (List SavedFile → Step Verdict)
    → Step Verdict
unfolding rollback
after_save cfg j entries none next = rollback cfg j false backing_up
after_save cfg j entries (some e) next =
    check ask (rollback cfg j false backing_up) (next (entries ++ (e ∷ [])))

unfoldable pub back_up :
    Config → Update → TransactionJournal → ℕ → ℕ → List SavedFile → Step Verdict
unfolding save_file call rollback record_backups
back_up cfg u j zero i entries = record_backups cfg u j entries
back_up cfg u j (suc n) i entries =
    save_file i >>= λ entry. after_save cfg j entries entry (back_up cfg u j n (suc i))

-- After the stop of a service that was active.
unfoldable pub after_stop : Config → Update → TransactionJournal → Stop → Step Verdict
unfolding call rollback back_up
after_stop cfg u j not_stopped = return (rollback_failed backing_up)
after_stop cfg u j stopped_late = rollback cfg j false backing_up
after_stop cfg u j stopped_ok = check ask (rollback cfg j false backing_up) (back_up cfg u j 5 0 [])

unfoldable pub stop_and_back_up : Config → Update → TransactionJournal → Step Verdict
unfolding call stop_portal_service rollback back_up after_stop
stop_and_back_up cfg u j =
    if j.was_active
    then check ask (rollback cfg j false backing_up) (stop_portal_service >>= after_stop cfg u j)
    else back_up cfg u j 5 0 []

abbrev pub first_journal : Update → Bool → TransactionJournal
first_journal u was_active = record {
  schema = 1;
  request = u.request;
  phase = prepared;
  old_version = u.old_version;
  was_active = was_active;
  files = [];
  restore_cursor = 0;
}

-- The new backup directory.
unfoldable pub clear_backups : Machine → Machine
clear_backups m = record m { backups = λ _. none }

unfoldable pub begin_transaction : Config → Update → Option Bool → Step Verdict
unfolding call clear_backups report_running write_transaction_journal stop_and_back_up
begin_transaction cfg u none = return (failed backing_up)
begin_transaction cfg u (some was_active) =
    check (call clear_backups) (return (failed backing_up)) (
      check (report_running u.request backing_up) (return (failed backing_up)) (
        check (write_transaction_journal (first_journal u was_active)) (return (failed backing_up))
          (stop_and_back_up cfg u (first_journal u was_active))))

unfoldable pub apply_transaction : Config → Update → Step Verdict
unfolding service_is_active begin_transaction
apply_transaction cfg u = service_is_active >>= begin_transaction cfg u
