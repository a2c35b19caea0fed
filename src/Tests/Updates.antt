-- ===== src/Tests/Updates.antt =====
-- Updates at a concrete machine: installed, rolled back, died and recovered.
use sub2api5hlimit.Base.{
  ℕ, zero, suc, true, false, if◌then◌else◌, Option, none, some, List, [], ◌∷◌, ◌≡◌, refl, codes,
  text_eq, arith,
}
use sub2api5hlimit.Store.Model.{Text}
use sub2api5hlimit.Install.Machine.{
  File, Files, put_file, UpdateRequest, SavedFile, Machine, World, Event, Outcome, fine, fails,
  dies, Out, done, died, TransactionJournal, installing, restarting,
}
use sub2api5hlimit.Install.Config.{Config}
use sub2api5hlimit.Install.Transaction.{
  Update, installed, rolled_back, rollback_failed, with_files, first_journal,
}
use sub2api5hlimit.Install.Restore.{saved, absent}
use sub2api5hlimit.Install.Recovery.{recovered, left_by}
use sub2api5hlimit.Install.Machine.{perform, call, portal_runs, run_command}
use sub2api5hlimit.Install.Config.{
  is_active_output, service_state, service_is_active, wait_stopped, set_active, stop_portal_service,
  start_service, version_in, is_version, portal_version, is_ready, poll_ready, wait_for_healthy,
}
use sub2api5hlimit.Install.Journal.{
  is_valid_request, read_with, read_update_request, set_status, set_request, report_running,
  report_finish, consume_update_request, consume_read, consume_request_for_operation,
  validate_transaction_journal, set_journal, write_transaction_journal, read_transaction_journal,
  remove_transaction_journal,
}
use sub2api5hlimit.Install.Restore.{
  set_file, set_backup, save_from, save_file, install_over, atomic_install, original_at, put_back,
  restore_file, restore_each, restore_transaction_files,
}
use sub2api5hlimit.Install.Transaction.{
  restart_old, finish_rollback, after_rollback_stop, rollback, clear_journal, restart_new, verify,
  install_programs, install_files, record_backups, back_up, after_stop, stop_and_back_up,
  clear_backups, begin_transaction, apply_transaction,
}
use sub2api5hlimit.Install.Recovery.{
  restore_and_restart, restore_interrupted_transaction, finish_rolled_back_operation,
  after_failed_restore, after_restore, recover_journal, recover_interrupted_transaction,
}
use sub2api5hlimit.Base.{trim_space, trim_left, trim_right}
use sub2api5hlimit.Version.Identifiers.{split, cut, is_numeric_identifier}
use sub2api5hlimit.Version.Updater.{
  parse_sem_version, compare_sem_version, compare_uint, compare_pre, compare_identifiers,
  compare_identifier, compare_numeric_identifier,
}
use sub2api5hlimit.Install.Holds.{Holds, core}
use sub2api5hlimit.Install.Recoverable.{Recoverable, pending, some_left}
use sub2api5hlimit.Install.Recovers.{RecoveryEnd}
use sub2api5hlimit.Install.Recovered.{recover_interrupted_transaction-Holds}
use sub2api5hlimit.Install.Undoes.{Safe, TransactionEnd}
use sub2api5hlimit.Install.Outcomes.{apply_transaction-Holds}
use sub2api5hlimit.Install.Succeeds.{calm}
use sub2api5hlimit.Install.Live.{Ready, recover_interrupted_transaction_live}
use sub2api5hlimit.Install.Crashes.{update_runs, update_runs-Safe}

-- The old portal is a file with the content `old`, the new one has the content `new`.
abbrev prints : Text → Text
prints content =
    if text_eq content (codes "new")
    then codes "sub2api-limit-portal 1.1.0 (linux/amd64)"
    else codes "sub2api-limit-portal 1.0.0 (linux/amd64)"

abbrev cfg : Config
cfg = record { goarch = codes "amd64"; ready_attempts = 3; program_output = prints }

abbrev request : UpdateRequest
request = record {
  schema = 1;
  operation_id = codes "0123456789abcdef0123456789abcdef";
  target_version = codes "v1.1.0";
  requested_at = 5;
}

abbrev update : Update
update = record {
  portal = codes "new";
  updater = codes "new updater";
  old_version = codes "1.0.0";
  target_version = codes "1.1.0";
  request = request;
}

abbrev old_file : Text → File
old_file content = record { content = content; mode = 0x1ed; owner = some (0, 0) }

abbrev old_files : Files
old_files zero = some (old_file (codes "old"))
old_files (suc zero) = some (old_file (codes "old updater"))
old_files (suc (suc zero)) = some (old_file (codes "database"))
old_files (suc (suc (suc _))) = none

abbrev machine : Machine
machine = record {
  files = old_files;
  backups = λ _. none;
  journal = none;
  request = some request;
  status = none;
  active = true;
}

abbrev event_of : Files → Outcome → Event
event_of writes o = record { outcome = o; printed = []; portal_writes = writes }

abbrev event : Outcome → Event
event o = event_of old_files o

abbrev after : ℕ → Outcome → List Event
after zero o = event o ∷ []
after (suc n) o = event fine ∷ after n o

-- The contents of the portal and of the database, and the result, if any.
abbrev content_of : Option File → Text
content_of none = []
content_of (some f) = f.content

abbrev summary : {A : Type 0} → Out A → Option A × Text × Text
summary (done a w) = (some a, content_of (w.machine.files 0), content_of (w.machine.files 2))
summary (died m) = (none, content_of (m.files 0), content_of (m.files 2))

abbrev world : List Event → World
world events = record { machine = machine; events = events }

-- A run in which nothing fails.
installs :
    summary (apply_transaction cfg update (world []))
    ≡ (some installed, codes "new", codes "database")
unfolding perform call portal_runs run_command is_active_output service_state service_is_active
    wait_stopped set_active stop_portal_service start_service version_in is_version portal_version
    is_ready poll_ready wait_for_healthy is_valid_request read_with read_update_request set_status
    set_request report_running report_finish consume_update_request consume_read
    consume_request_for_operation validate_transaction_journal set_journal write_transaction_journal
    read_transaction_journal remove_transaction_journal set_file set_backup save_from save_file
    install_over atomic_install original_at put_back restore_file restore_each
    restore_transaction_files restart_old finish_rollback after_rollback_stop rollback clear_journal
    restart_new verify install_programs install_files record_backups back_up after_stop
    stop_and_back_up clear_backups begin_transaction apply_transaction restore_and_restart
    restore_interrupted_transaction finish_rolled_back_operation after_failed_restore after_restore
    recover_journal recover_interrupted_transaction parse_sem_version compare_sem_version
    compare_uint compare_pre compare_identifiers compare_identifier compare_numeric_identifier split
    cut is_numeric_identifier trim_space trim_left trim_right
installs = refl

-- The start of the updated portal fails: the old one is put back.
rolls_back :
    summary (apply_transaction cfg update (world (after 27 fails)))
    ≡ (some (rolled_back restarting), codes "old", codes "database")
unfolding perform call portal_runs run_command is_active_output service_state service_is_active
    wait_stopped set_active stop_portal_service start_service version_in is_version portal_version
    is_ready poll_ready wait_for_healthy is_valid_request read_with read_update_request set_status
    set_request report_running report_finish consume_update_request consume_read
    consume_request_for_operation validate_transaction_journal set_journal write_transaction_journal
    read_transaction_journal remove_transaction_journal set_file set_backup save_from save_file
    install_over atomic_install original_at put_back restore_file restore_each
    restore_transaction_files restart_old finish_rollback after_rollback_stop rollback clear_journal
    restart_new verify install_programs install_files record_backups back_up after_stop
    stop_and_back_up clear_backups begin_transaction apply_transaction restore_and_restart
    restore_interrupted_transaction finish_rolled_back_operation after_failed_restore after_restore
    recover_journal recover_interrupted_transaction parse_sem_version compare_sem_version
    compare_uint compare_pre compare_identifiers compare_identifier compare_numeric_identifier split
    cut is_numeric_identifier trim_space trim_left trim_right
rolls_back = refl

apply_transaction-Holds_example :
    Holds
      (Safe (old_files 0) (old_files 1) update.portal update.updater)
      (λ v c. TransactionEnd (old_files 0) (old_files 1) update.portal update.updater c v)
      (apply_transaction cfg update (world (after 17 fails)))
apply_transaction-Holds_example = apply_transaction-Holds cfg update (world (after 17 fails)) refl

update_runs-Safe_example :
    Safe
      (old_files 0)
      (old_files 1)
      update.portal
      update.updater
      (core (update_runs cfg update (after 15 dies) (after 3 dies ∷ [] ∷ []) machine))
update_runs-Safe_example =
    update_runs-Safe cfg update (after 15 dies) (after 3 dies ∷ [] ∷ []) machine refl

-- It dies between the two programs: the next run puts the old one back.
dies_between :
    summary (apply_transaction cfg update (world (after 23 dies)))
    ≡ (none, codes "new", codes "database")
unfolding perform call portal_runs run_command is_active_output service_state service_is_active
    wait_stopped set_active stop_portal_service start_service version_in is_version portal_version
    is_ready poll_ready wait_for_healthy is_valid_request read_with read_update_request set_status
    set_request report_running report_finish consume_update_request consume_read
    consume_request_for_operation validate_transaction_journal set_journal write_transaction_journal
    read_transaction_journal remove_transaction_journal set_file set_backup save_from save_file
    install_over atomic_install original_at put_back restore_file restore_each
    restore_transaction_files restart_old finish_rollback after_rollback_stop rollback clear_journal
    restart_new verify install_programs install_files record_backups back_up after_stop
    stop_and_back_up clear_backups begin_transaction apply_transaction restore_and_restart
    restore_interrupted_transaction finish_rolled_back_operation after_failed_restore after_restore
    recover_journal recover_interrupted_transaction parse_sem_version compare_sem_version
    compare_uint compare_pre compare_identifiers compare_identifier compare_numeric_identifier split
    cut is_numeric_identifier trim_space trim_left trim_right
dies_between = refl

recovers :
    summary (
      recover_interrupted_transaction cfg
        (calm (left_by (apply_transaction cfg update (world (after 23 dies))))))
    ≡ (some recovered, codes "old", codes "database")
unfolding perform call portal_runs run_command is_active_output service_state service_is_active
    wait_stopped set_active stop_portal_service start_service version_in is_version portal_version
    is_ready poll_ready wait_for_healthy is_valid_request read_with read_update_request set_status
    set_request report_running report_finish consume_update_request consume_read
    consume_request_for_operation validate_transaction_journal set_journal write_transaction_journal
    read_transaction_journal remove_transaction_journal set_file set_backup save_from save_file
    install_over atomic_install original_at put_back restore_file restore_each
    restore_transaction_files restart_old finish_rollback after_rollback_stop rollback clear_journal
    restart_new verify install_programs install_files record_backups back_up after_stop
    stop_and_back_up clear_backups begin_transaction apply_transaction restore_and_restart
    restore_interrupted_transaction finish_rolled_back_operation after_failed_restore after_restore
    recover_journal recover_interrupted_transaction parse_sem_version compare_sem_version
    compare_uint compare_pre compare_identifiers compare_identifier compare_numeric_identifier split
    cut is_numeric_identifier trim_space trim_left trim_right
recovers = refl

abbrev written : Files
written zero = old_files 0
written (suc zero) = old_files 1
written (suc (suc n)) = some (old_file (codes "written since"))

abbrev quiet : List Event
quiet = event fails ∷ event fine ∷ event_of written fails ∷ []

abbrev replay : ℕ → List Event → List Event
replay zero events = events
replay (suc n) events = event fine ∷ replay n events

-- A rollback before the programs were changed starts the old portal again and leaves the journal
-- with the backups: once the portal has written its database, the next run puts the backup over it.
restarted :
    summary (apply_transaction cfg update (world (replay 20 quiet)))
    ≡ (some (rollback_failed installing), codes "old", codes "written since")
unfolding perform call portal_runs run_command is_active_output service_state service_is_active
    wait_stopped set_active stop_portal_service start_service version_in is_version portal_version
    is_ready poll_ready wait_for_healthy is_valid_request read_with read_update_request set_status
    set_request report_running report_finish consume_update_request consume_read
    consume_request_for_operation validate_transaction_journal set_journal write_transaction_journal
    read_transaction_journal remove_transaction_journal set_file set_backup save_from save_file
    install_over atomic_install original_at put_back restore_file restore_each
    restore_transaction_files restart_old finish_rollback after_rollback_stop rollback clear_journal
    restart_new verify install_programs install_files record_backups back_up after_stop
    stop_and_back_up clear_backups begin_transaction apply_transaction restore_and_restart
    restore_interrupted_transaction finish_rolled_back_operation after_failed_restore after_restore
    recover_journal recover_interrupted_transaction parse_sem_version compare_sem_version
    compare_uint compare_pre compare_identifiers compare_identifier compare_numeric_identifier split
    cut is_numeric_identifier trim_space trim_left trim_right
restarted = refl

overwritten :
    summary (
      recover_interrupted_transaction cfg
        (calm (left_by (apply_transaction cfg update (world (replay 20 quiet))))))
    ≡ (some recovered, codes "old", codes "database")
unfolding perform call portal_runs run_command is_active_output service_state service_is_active
    wait_stopped set_active stop_portal_service start_service version_in is_version portal_version
    is_ready poll_ready wait_for_healthy is_valid_request read_with read_update_request set_status
    set_request report_running report_finish consume_update_request consume_read
    consume_request_for_operation validate_transaction_journal set_journal write_transaction_journal
    read_transaction_journal remove_transaction_journal set_file set_backup save_from save_file
    install_over atomic_install original_at put_back restore_file restore_each
    restore_transaction_files restart_old finish_rollback after_rollback_stop rollback clear_journal
    restart_new verify install_programs install_files record_backups back_up after_stop
    stop_and_back_up clear_backups begin_transaction apply_transaction restore_and_restart
    restore_interrupted_transaction finish_rolled_back_operation after_failed_restore after_restore
    recover_journal recover_interrupted_transaction parse_sem_version compare_sem_version
    compare_uint compare_pre compare_identifiers compare_identifier compare_numeric_identifier split
    cut is_numeric_identifier trim_space trim_left trim_right
overwritten = refl

-- The machine of a run that died between the two programs.
abbrev entries : List SavedFile
entries =
    saved (old_file (codes "old"))
    ∷ saved (old_file (codes "old updater"))
    ∷ saved (old_file (codes "database"))
    ∷ absent
    ∷ absent
    ∷ []

abbrev journal : TransactionJournal
journal = with_files entries (first_journal update true)

abbrev backups : ℕ → Option Text
backups zero = some (codes "old")
backups (suc zero) = some (codes "old updater")
backups (suc (suc zero)) = some (codes "database")
backups (suc (suc (suc _))) = none

abbrev torn : Machine
torn = record {
  files = put_file 0 (some (old_file (codes "new"))) old_files;
  backups = backups;
  journal = some journal;
  request = some request;
  status = none;
  active = false;
}

torn-Recoverable : Recoverable (old_files 0) (old_files 1) (core torn)
unfolding original_at
torn-Recoverable =
    pending journal refl (record { is_backed_up = refl; portal_saved = refl; updater_saved = refl })
      some_left

torn-Ready : Ready cfg journal (old_files 0) torn
unfolding perform call portal_runs run_command is_active_output service_state service_is_active
    wait_stopped set_active stop_portal_service start_service version_in is_version portal_version
    is_ready poll_ready wait_for_healthy is_valid_request read_with read_update_request set_status
    set_request report_running report_finish consume_update_request consume_read
    consume_request_for_operation validate_transaction_journal set_journal write_transaction_journal
    read_transaction_journal remove_transaction_journal set_file set_backup save_from save_file
    install_over atomic_install original_at put_back restore_file restore_each
    restore_transaction_files restart_old finish_rollback after_rollback_stop rollback clear_journal
    restart_new verify install_programs install_files record_backups back_up after_stop
    stop_and_back_up clear_backups begin_transaction apply_transaction restore_and_restart
    restore_interrupted_transaction finish_rolled_back_operation after_failed_restore after_restore
    recover_journal recover_interrupted_transaction parse_sem_version compare_sem_version
    compare_uint compare_pre compare_identifiers compare_identifier compare_numeric_identifier split
    cut is_numeric_identifier trim_space trim_left trim_right
torn-Ready = record {
  polls = omega arith;
  request_readable = refl;
  journal_valid = refl;
  old_version_printed = refl;
}

recover_interrupted_transaction-Holds_example :
    Holds
      (Recoverable (old_files 0) (old_files 1))
      (λ r c. RecoveryEnd (old_files 0) (old_files 1) c r)
      (recover_interrupted_transaction cfg (record { machine = torn; events = after 4 dies }))
recover_interrupted_transaction-Holds_example =
    recover_interrupted_transaction-Holds (old_files 0) (old_files 1) cfg
      (record { machine = torn; events = after 4 dies }) torn-Recoverable

recover_interrupted_transaction_live_example :
    (m' : Machine) × (recover_interrupted_transaction cfg (calm torn) ≡ done recovered (calm m'))
    × (m'.files 0 ≡ old_files 0)
    × (m'.files 1 ≡ old_files 1)
    × (m'.journal ≡ none)
recover_interrupted_transaction_live_example =
    recover_interrupted_transaction_live cfg journal (old_files 0) (old_files 1) torn refl
      torn-Recoverable torn-Ready
