-- ===== src/Install/Recovers.antt =====
-- The next run after one that died or failed puts the programs of before the update back.
use sub2api5hlimit.Base.{
  ◌-◌, Bool, true, false, ◌||◌, Option, none, some, length, ◌≡◌, refl, sym, subst, ◌∙◌,
}
use sub2api5hlimit.Store.Model.{Text}
use sub2api5hlimit.Install.Machine.{
  File, UpdateRequest, Phase, prepared, backed_up, TransactionJournal, failed, rolled_back, World,
  Step, ◌>>=◌, return, choose,
}
use sub2api5hlimit.Install.Config.{
  Config, Stop, stop_portal_service, stopped_ok, stopped_late, not_stopped,
}
use sub2api5hlimit.Install.Journal.{
  report_finish, consume_request_for_operation, set_journal, remove_transaction_journal,
}
use sub2api5hlimit.Install.Restore.{restore_transaction_files}
use sub2api5hlimit.Install.Transaction.{restart_old}
use sub2api5hlimit.Install.Recovery.{
  is_backed_up, restore_and_restart, after_stop_restore, restore_interrupted_transaction,
  finish_rolled_back_operation, Recovery, nothing_to_do, not_recovered, recovered,
}
use sub2api5hlimit.Install.Holds.{
  Holds, on_return, Core, here, Keeps, Holds-check, Holds-map, Holds-call, Holds-passing,
  Holds-after,
}
use sub2api5hlimit.Install.Quiet.{
  stop_portal_service-Keeps, restart_old-Keeps, report_finish-Keeps,
  consume_request_for_operation-Keeps,
}
use sub2api5hlimit.Install.Recoverable.{
  Old, BackedUp, Restored, Recoverable, without_journal, before_changes, pending, RestoreEnd,
  restored, not_restored, with_journal, core-set_journal, restore_transaction_files-Holds,
  some-injective,
}

module _ (old_portal old_updater : Option File) where
  pub data RecoveryEnd (c : Core) : Recovery → Type 0 where
    was_recovered : Old old_portal old_updater c → c.journal ≡ none → RecoveryEnd c recovered
    had_nothing_to_do :
        Old old_portal old_updater c → c.journal ≡ none → RecoveryEnd c nothing_to_do
    was_not_recovered : Recoverable old_portal old_updater c → RecoveryEnd c not_recovered

  -- What the journal that was read says.
  data Found (c : Core) (j : TransactionJournal) : Phase → Type 0 where
    untouched : Old old_portal old_updater c → Found c j prepared
    backups :
        c.journal ≡ some j
        → BackedUp old_portal old_updater j c
        → Restored old_portal old_updater c (length j.files - j.restore_cursor)
        → Found c j backed_up

  found :
      (c : Core) (j : TransactionJournal)
      → Recoverable old_portal old_updater c
      → c.journal ≡ some j
      → Found c j j.phase
  found c j (without_journal e o) h = absurd (cc)
  found c j (before_changes j' e p o) h =
      let same = some-injective (sym e ∙ h) in
      subst (Found c j) (sym (subst (λ x. x.phase ≡ prepared) same p)) (untouched o)
  found c j (pending j' e b r) h =
      let same = some-injective (sym e ∙ h) in
      let b' = subst (λ x. BackedUp old_portal old_updater x c) same b in
      let r' =
        subst (λ x. Restored old_portal old_updater c (length x.files - x.restore_cursor)) same r in
      subst (Found c j) (sym b'.is_backed_up) (backups h b' r')

  -- The journal that was read, on a machine that can be recovered.
  pub record HasJournal (j : TransactionJournal) (c : Core) : Type 0 where
    pub journal_is : c.journal ≡ some j
    pub is_recoverable : Recoverable old_portal old_updater c

  record Clean (c : Core) : Type 0 where
    is_old : Old old_portal old_updater c
    pub is_recoverable : Recoverable old_portal old_updater c

  pub restore_if_needed :
      (j : TransactionJournal) (w : World)
      → HasJournal j (here w)
      → Holds
          (Recoverable old_portal old_updater)
          (λ ok c. RestoreEnd old_portal old_updater c ok)
          (choose (is_backed_up j.phase) (return true) (restore_transaction_files j) w)
  restore_if_needed j w h = go j.phase (found (here w) j h.is_recoverable h.journal_is)
    where
      go :
          (p : Phase)
          → Found (here w) j p
          → Holds
              (Recoverable old_portal old_updater)
              (λ ok c. RestoreEnd old_portal old_updater c ok)
              (choose (is_backed_up p) (return true) (restore_transaction_files j) w)
      go prepared (untouched o) = on_return (restored o h.is_recoverable)
      go backed_up (backups e b r) =
          restore_transaction_files-Holds old_portal old_updater j w e b r

  Clean-RestoreEnd :
      (m : Step Bool) (w : World)
      → Keeps m
      → Clean (here w)
      → Holds
          (Recoverable old_portal old_updater)
          (λ ok c. RestoreEnd old_portal old_updater c ok)
          (m w)
  Clean-RestoreEnd m w k p = Holds-map (m w) (k.keeps Clean w p) (λ c q. q.is_recoverable) go
    where
      go : (ok : Bool) (c : Core) → Clean c → RestoreEnd old_portal old_updater c ok
      go true c q = restored q.is_old q.is_recoverable
      go false c q = not_restored q.is_recoverable

  of_restored : {c : Core} → RestoreEnd old_portal old_updater c true → Clean c
  of_restored (restored o r) = record { is_old = o; is_recoverable = r }

  of_not_restored :
      {c : Core} → RestoreEnd old_portal old_updater c false → Recoverable old_portal old_updater c
  of_not_restored (not_restored r) = r

  restore_and_restart-Holds :
      (cfg : Config) (j : TransactionJournal) (w : World)
      → HasJournal j (here w)
      → Holds
          (Recoverable old_portal old_updater)
          (λ ok c. RestoreEnd old_portal old_updater c ok)
          (restore_and_restart cfg j w)
  unfolding restore_and_restart
  restore_and_restart-Holds cfg j w h =
      Holds-check (choose (is_backed_up j.phase) (return true) (restore_transaction_files j))
        (return false) _ w (restore_if_needed j w h)
        (λ w' e. on_return (not_restored (of_not_restored e)))
        (λ w' e.
          Clean-RestoreEnd (restart_old cfg j.was_active (is_backed_up j.phase) j.old_version) w'
            (restart_old-Keeps cfg j.was_active (is_backed_up j.phase) j.old_version)
            (of_restored e))

  pub restore_interrupted-Holds :
      (cfg : Config) (j : TransactionJournal) (w : World)
      → HasJournal j (here w)
      → Holds
          (Recoverable old_portal old_updater)
          (λ ok c. RestoreEnd old_portal old_updater c ok)
          (restore_interrupted_transaction cfg j w)
  unfolding restore_interrupted_transaction
  restore_interrupted-Holds cfg j w h = go (is_backed_up j.phase || j.was_active)
    where
      after_stop :
          (s : Stop) (w : World)
          → HasJournal j (here w)
          → Holds
              (Recoverable old_portal old_updater)
              (λ ok c. RestoreEnd old_portal old_updater c ok)
              (after_stop_restore cfg j s w)
      after_stop not_stopped w h = on_return (not_restored h.is_recoverable)
      after_stop stopped_ok w h = restore_and_restart-Holds cfg j w h
      after_stop stopped_late w h = restore_and_restart-Holds cfg j w h

      go :
          (b : Bool)
          → Holds
              (Recoverable old_portal old_updater)
              (λ ok c. RestoreEnd old_portal old_updater c ok)
              (choose b
                (restore_and_restart cfg j)
                (stop_portal_service >>= λ s. after_stop_restore cfg j s)
                w)
      go false = restore_and_restart-Holds cfg j w h
      go true =
          Holds-after (HasJournal j) (λ c q. q.is_recoverable) stop_portal_service
            (λ s. after_stop_restore cfg j s) w stop_portal_service-Keeps h after_stop

  -- finishRolledBackOperation, when the old programs are back.
  pub data FinishEnd (c : Core) : Bool → Type 0 where
    finished : Old old_portal old_updater c → c.journal ≡ none → FinishEnd c true
    not_finished :
        Old old_portal old_updater c → Recoverable old_portal old_updater c → FinishEnd c false

  without :
      {c : Core} → Old old_portal old_updater c → Old old_portal old_updater (with_journal none c)
  without o = record { old_portal_here = o.old_portal_here; old_updater_here = o.old_updater_here }

  stays : {c : Core} → Clean c → FinishEnd c false
  stays q = not_finished q.is_old q.is_recoverable

  pub finish_rolled_back_operation-Holds :
      (r : UpdateRequest) (code : Text) (w : World)
      → Old old_portal old_updater (here w)
      → Recoverable old_portal old_updater (here w)
      → Holds
          (Recoverable old_portal old_updater)
          (λ ok c. FinishEnd c ok)
          (finish_rolled_back_operation r code w)
  unfolding finish_rolled_back_operation remove_transaction_journal
  finish_rolled_back_operation-Holds r code w o h =
      Holds-passing Clean (λ c q. q.is_recoverable) (report_finish r failed rolled_back code true)
        (return false) _ w (report_finish-Keeps r failed rolled_back code true)
        (record { is_old = o; is_recoverable = h }) (λ w' q. on_return (stays q))
        (λ w' q.
          Holds-passing Clean (λ c q. q.is_recoverable)
            (consume_request_for_operation r.operation_id) (return false) _ w'
            (consume_request_for_operation-Keeps r.operation_id) q (λ w'' q. on_return (stays q))
            (λ w'' q.
              Holds-call (set_journal none) (with_journal none) (core-set_journal none)
                (Recoverable old_portal old_updater) (λ ok c. FinishEnd c ok) w''
                (finished (without q.is_old) refl)
                (not_finished (without q.is_old) (without_journal refl (without q.is_old)))
                (stays q) q.is_recoverable))
