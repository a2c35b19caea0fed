-- ===== src/Install/Recovery.antt =====
-- recoverInterruptedTransaction of cmd/sub2api-limit-updater/apply.go: what the next run does with the
-- journal of one that died, and finishRolledBackOperation, which ends a rollback.
use sub2api5hlimit.Base.{Bool, true, false, ◌||◌, List, [], ◌∷◌, codes}
use sub2api5hlimit.Store.Model.{Text}
use sub2api5hlimit.Install.Machine.{
  UpdateRequest, Phase, prepared, backed_up, TransactionJournal, failed, recovering, rolled_back,
  rollback_failed, Machine, Event, Out, done, died, Step, ◌>>=◌, ◌>>◌, return, choose, check,
}
use sub2api5hlimit.Install.Config.{Config, Stop, stop_portal_service, not_stopped}
use sub2api5hlimit.Install.Journal.{
  report_running, report_finish, Reading, read_transaction_journal, missing, unreadable, read,
  consume_request_for_operation, remove_transaction_journal,
}
use sub2api5hlimit.Install.Restore.{restore_transaction_files}
use sub2api5hlimit.Install.Transaction.{restart_old}

abbrev pub is_backed_up : Phase → Bool
is_backed_up prepared = false
is_backed_up backed_up = true

-- The restore, when there is something to restore, and the start of the old portal.
unfoldable pub restore_and_restart : Config → TransactionJournal → Step Bool
unfolding restore_transaction_files restart_old
restore_and_restart cfg j =
    check (choose (is_backed_up j.phase) (return true) (restore_transaction_files j)) (return false)
      (restart_old cfg j.was_active (is_backed_up j.phase) j.old_version)

abbrev pub after_stop_restore : Config → TransactionJournal → Stop → Step Bool
after_stop_restore cfg j not_stopped = return false
after_stop_restore cfg j _ = restore_and_restart cfg j

unfoldable pub restore_interrupted_transaction : Config → TransactionJournal → Step Bool
unfolding stop_portal_service restore_and_restart
restore_interrupted_transaction cfg j =
    choose (is_backed_up j.phase || j.was_active) (restore_and_restart cfg j)
      (stop_portal_service >>= λ s. after_stop_restore cfg j s)

-- The end of a recovery, and of a rollback: the status, the request and the journal.
unfoldable pub finish_rolled_back_operation : UpdateRequest → Text → Step Bool
unfolding report_finish consume_request_for_operation remove_transaction_journal
finish_rolled_back_operation r error_code =
    check (report_finish r failed rolled_back error_code true) (return false) (
      check (consume_request_for_operation r.operation_id) (return false)
        remove_transaction_journal)

-- No journal; a failure, which reports it; the old files are back.
pub data Recovery : Type 0 where
  nothing_to_do not_recovered recovered : Recovery

unfoldable pub after_failed_restore : TransactionJournal → Step Recovery
unfolding report_finish
after_failed_restore j =
    report_finish j.request failed rollback_failed (codes "ROLLBACK_FAILED") false
    >> return not_recovered

unfoldable pub after_restore : TransactionJournal → Step Recovery
unfolding finish_rolled_back_operation
after_restore j =
    check (finish_rolled_back_operation j.request (codes "UPDATE_INTERRUPTED"))
      (return not_recovered) (return recovered)

unfoldable pub recover_journal : Config → TransactionJournal → Step Recovery
unfolding report_running restore_interrupted_transaction after_failed_restore after_restore
recover_journal cfg j =
    check (report_running j.request recovering) (return not_recovered)
      (check (restore_interrupted_transaction cfg j) (after_failed_restore j) (after_restore j))

abbrev pub recover_from : Config → Reading TransactionJournal → Step Recovery
recover_from cfg missing = return nothing_to_do
recover_from cfg unreadable = return not_recovered
recover_from cfg (read j) = recover_journal cfg j

unfoldable pub recover_interrupted_transaction : Config → Step Recovery
unfolding read_transaction_journal recover_journal
recover_interrupted_transaction cfg = read_transaction_journal >>= λ r. recover_from cfg r

-- The machine after a run, whether it returned or died.
abbrev pub left_by : {A : Type 0} → Out A → Machine
left_by (done _ w) = w.machine
left_by (died m) = m

-- Runs one after another, each with what happens in it.
unfoldable pub recover_runs : Config → List (List Event) → Machine → Machine
unfolding recover_interrupted_transaction
recover_runs cfg [] m = m
recover_runs cfg (events ∷ runs) m =
    recover_runs cfg runs
      (left_by (recover_interrupted_transaction cfg (record { machine = m; events = events })))
