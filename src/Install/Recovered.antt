-- ===== src/Install/Recovered.antt =====
-- recoverInterruptedTransaction as a whole, and a sequence of runs each of which may die or fail.
use sub2api5hlimit.Base.{
  Bool, true, false, if◌then◌else◌, Option, none, some, List, [], ◌∷◌, codes, ◌≡◌, refl,
}
use sub2api5hlimit.Install.Machine.{
  File, TransactionJournal, recovering, failed, rollback_failed, Machine, Event, World, Out, done,
  died, ◌>>◌, return, ask, check,
}
use sub2api5hlimit.Install.Config.{Config}
use sub2api5hlimit.Install.Journal.{
  report_running, report_finish, Reading, missing, unreadable, read, checked, read_with,
  read_transaction_journal, validate_transaction_journal,
}
use sub2api5hlimit.Install.Recovery.{
  restore_interrupted_transaction, finish_rolled_back_operation, Recovery, nothing_to_do,
  not_recovered, recovered, after_failed_restore, after_restore, recover_journal, recover_from,
  recover_interrupted_transaction, left_by, recover_runs,
}
use sub2api5hlimit.Install.Holds.{
  Holds, on_return, on_death, Core, core, here, ask-Keeps, Holds-bind, Holds-check, Holds-passing,
  Holds-after,
}
use sub2api5hlimit.Install.Quiet.{report_running-Keeps, report_finish-Keeps}
use sub2api5hlimit.Install.Recoverable.{
  Old, Recoverable, without_journal, before_changes, pending, RestoreEnd, restored, not_restored,
}
use sub2api5hlimit.Install.Recovers.{
  RecoveryEnd, was_recovered, had_nothing_to_do, was_not_recovered, HasJournal, FinishEnd, finished,
  not_finished, restore_interrupted-Holds, finish_rolled_back_operation-Holds,
}

module _ (old_portal old_updater : Option File) where
  data ReadEnd (c : Core) : Reading TransactionJournal → Type 0 where
    is_missing : Old old_portal old_updater c → c.journal ≡ none → ReadEnd c missing
    is_unreadable : Recoverable old_portal old_updater c → ReadEnd c unreadable
    was_read : (j : TransactionJournal) → HasJournal old_portal old_updater j c → ReadEnd c (read j)

  clean_without_journal :
      (c : Core)
      → Recoverable old_portal old_updater c
      → c.journal ≡ none
      → Old old_portal old_updater c
  clean_without_journal c (without_journal e o) h = o
  clean_without_journal c (before_changes j e p o) h = o
  clean_without_journal c (pending j e b r) h = absurd (cc)

  read_end :
      (test : TransactionJournal → Bool) (c : Core)
      → Recoverable old_portal old_updater c
      → (o : Option TransactionJournal) → c.journal ≡ o
      → ReadEnd c (checked test o)
  read_end test c r none e = is_missing (clean_without_journal c r e) e
  read_end test c r (some j) e = go (test j)
    where
      go : (b : Bool) → ReadEnd c (if b then read j else unreadable)
      go true = was_read j (record { journal_is = e; is_recoverable = r })
      go false = is_unreadable r

  read_transaction_journal-Holds :
      (w : World)
      → Recoverable old_portal old_updater (here w)
      → Holds (Recoverable old_portal old_updater) (λ r c. ReadEnd c r) (read_transaction_journal w)
  unfolding read_transaction_journal read_with
  read_transaction_journal-Holds w r =
      Holds-passing (Recoverable old_portal old_updater) (λ c q. q) ask (return unreadable) _ w
        ask-Keeps r (λ w' q. on_return (is_unreadable q))
        (λ w' q. on_return (
          read_end (validate_transaction_journal w'.machine.backups) (here w') q w'.machine.journal
            refl))

  recover_journal-Holds :
      (cfg : Config) (j : TransactionJournal) (w : World)
      → HasJournal old_portal old_updater j (here w)
      → Holds
          (Recoverable old_portal old_updater)
          (λ r c. RecoveryEnd old_portal old_updater c r)
          (recover_journal cfg j w)
  unfolding recover_journal after_failed_restore after_restore
  recover_journal-Holds cfg j w h =
      Holds-passing (HasJournal old_portal old_updater j) (λ c q. q.is_recoverable)
        (report_running j.request recovering) (return not_recovered) _ w
        (report_running-Keeps j.request recovering) h
        (λ w' q. on_return (was_not_recovered q.is_recoverable))
        (λ w' q.
          Holds-check (restore_interrupted_transaction cfg j) _ _ w'
            (restore_interrupted-Holds old_portal old_updater cfg j w' q) not_back back)
    where
      not_back :
          (w : World)
          → RestoreEnd old_portal old_updater (here w) false
          → Holds
              (Recoverable old_portal old_updater)
              (λ r c. RecoveryEnd old_portal old_updater c r)
              ((report_finish j.request failed rollback_failed (codes "ROLLBACK_FAILED") false
                  >> return not_recovered)
                w)
      not_back w (not_restored r) =
          Holds-after (Recoverable old_portal old_updater) (λ c q. q)
            (report_finish j.request failed rollback_failed (codes "ROLLBACK_FAILED") false)
            (λ _. return not_recovered) w
            (report_finish-Keeps j.request failed rollback_failed (codes "ROLLBACK_FAILED") false) r
            (λ _ w' q. on_return (was_not_recovered q))

      no_finish :
          (w : World)
          → FinishEnd old_portal old_updater (here w) false
          → Holds
              (Recoverable old_portal old_updater)
              (λ r c. RecoveryEnd old_portal old_updater c r)
              (return not_recovered w)
      no_finish w (not_finished o r) = on_return (was_not_recovered r)

      finish :
          (w : World)
          → FinishEnd old_portal old_updater (here w) true
          → Holds
              (Recoverable old_portal old_updater)
              (λ r c. RecoveryEnd old_portal old_updater c r)
              (return recovered w)
      finish w (finished o e) = on_return (was_recovered o e)

      back :
          (w : World)
          → RestoreEnd old_portal old_updater (here w) true
          → Holds
              (Recoverable old_portal old_updater)
              (λ r c. RecoveryEnd old_portal old_updater c r)
              (check
                (finish_rolled_back_operation j.request (codes "UPDATE_INTERRUPTED"))
                (return not_recovered)
                (return recovered)
                w)
      back w (restored o r) =
          Holds-check (finish_rolled_back_operation j.request (codes "UPDATE_INTERRUPTED"))
            (return not_recovered) (return recovered) w
            (finish_rolled_back_operation-Holds old_portal old_updater j.request
              (codes "UPDATE_INTERRUPTED") w o r)
            no_finish finish

  -- On a machine from which the old programs can be had back, whatever fails and wherever the process dies,
  -- a recovery leaves such a machine; if it says it recovered, or that there was nothing to do, the
  -- old programs are in place and there is no journal.
  pub recover_interrupted_transaction-Holds :
      (cfg : Config) (w : World)
      → Recoverable old_portal old_updater (here w)
      → Holds
          (Recoverable old_portal old_updater)
          (λ r c. RecoveryEnd old_portal old_updater c r)
          (recover_interrupted_transaction cfg w)
  unfolding recover_interrupted_transaction
  recover_interrupted_transaction-Holds cfg w r =
      Holds-bind (read_transaction_journal w) _ (read_transaction_journal-Holds w r) go
    where
      go :
          (x : Reading TransactionJournal) (w : World)
          → ReadEnd (here w) x
          → Holds
              (Recoverable old_portal old_updater)
              (λ r c. RecoveryEnd old_portal old_updater c r)
              (recover_from cfg x w)
      go missing w (is_missing o e) = on_return (had_nothing_to_do o e)
      go unreadable w (is_unreadable r) = on_return (was_not_recovered r)
      go (read _) w (was_read j h) = recover_journal-Holds cfg j w h

  Holds-left :
      {A : Type 0} {Q : A → Core → Type 0} (o : Out A)
      → Holds (Recoverable old_portal old_updater) Q o
      → ((a : A) (c : Core) → Q a c → Recoverable old_portal old_updater c)
      → Recoverable old_portal old_updater (core (left_by o))
  Holds-left (done a w) (on_return q) h = h a (here w) q
  Holds-left (died m) (on_death d) h = d

  of_RecoveryEnd :
      (r : Recovery) (c : Core)
      → RecoveryEnd old_portal old_updater c r
      → Recoverable old_portal old_updater c
  of_RecoveryEnd recovered c (was_recovered o e) = without_journal e o
  of_RecoveryEnd nothing_to_do c (had_nothing_to_do o e) = without_journal e o
  of_RecoveryEnd not_recovered c (was_not_recovered r) = r

  -- However many runs die or fail, the old programs can still be had back.
  pub recover_runs-Recoverable :
      (cfg : Config) (runs : List (List Event)) (m : Machine)
      → Recoverable old_portal old_updater (core m)
      → Recoverable old_portal old_updater (core (recover_runs cfg runs m))
  unfolding recover_runs
  recover_runs-Recoverable cfg [] m r = r
  recover_runs-Recoverable cfg (events ∷ runs) m r =
      let w : World = record { machine = m; events = events } in
      recover_runs-Recoverable cfg runs (left_by (recover_interrupted_transaction cfg w)) (
        Holds-left (recover_interrupted_transaction cfg w)
          (recover_interrupted_transaction-Holds cfg w r) of_RecoveryEnd)
