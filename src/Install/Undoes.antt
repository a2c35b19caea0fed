-- ===== src/Install/Undoes.antt =====
-- The closure `rollback` of applyTransaction, before and after the programs were changed.
use sub2api5hlimit.Base.{◌-◌, Bool, true, false, Option, none, some, length, ◌≡◌, refl, sym, subst}
use sub2api5hlimit.Store.Model.{Text}
use sub2api5hlimit.Install.Machine.{
  File, TransactionJournal, StatusPhase, health_check, World, return, check,
}
use sub2api5hlimit.Install.Config.{
  Config, Stop, stop_portal_service, stopped_ok, stopped_late, not_stopped,
}
use sub2api5hlimit.Install.Journal.{set_journal, remove_transaction_journal}
use sub2api5hlimit.Install.Restore.{restore_transaction_files}
use sub2api5hlimit.Install.Transaction.{
  Verdict, installed, failed, rolled_back, rollback_failed, restart_old, finish_rollback,
  after_rollback_stop, rollback, clear_journal,
}
use sub2api5hlimit.Install.Holds.{
  Holds, on_return, Core, here, Holds-check, Holds-map, Holds-call, Holds-passing, Holds-after,
}
use sub2api5hlimit.Install.Quiet.{stop_portal_service-Keeps, restart_old-Keeps}
use sub2api5hlimit.Install.Recoverable.{
  Old, BackedUp, Restored, some_left, Recoverable, pending, RestoreEnd, restored, not_restored,
  with_journal, core-set_journal, restore_transaction_files-Holds,
}

-- The program in its slot, replaced: its owner stays.
abbrev pub replaced : Text → Option File → Option File
replaced content none = none
replaced content (some f) = some (record { content = content; mode = 0x1ed; owner = f.owner })

module _ (old_portal old_updater : Option File) (portal updater : Text) where
  -- Both programs are the candidates.
  pub record New (c : Core) : Type 0 where
    pub new_portal_here : c.portal ≡ replaced portal old_portal
    pub new_updater_here : c.updater ≡ replaced updater old_updater

  -- Where a transaction may die: the old programs can be had back, or the new ones are in place and
  -- the journal is gone.
  pub data Safe (c : Core) : Type 0 where
    can_go_back : Recoverable old_portal old_updater c → Safe c
    went_forward : New c → c.journal ≡ none → Safe c

  pub data TransactionEnd (c : Core) : Verdict → Type 0 where
    was_installed : New c → c.journal ≡ none → TransactionEnd c installed
    has_failed :
        {p : StatusPhase}
        → Old old_portal old_updater c
        → Recoverable old_portal old_updater c
        → TransactionEnd c (failed p)
    was_rolled_back :
        {p : StatusPhase}
        → Old old_portal old_updater c
        → Recoverable old_portal old_updater c
        → TransactionEnd c (rolled_back p)
    was_left : {p : StatusPhase} → Safe c → TransactionEnd c (rollback_failed p)

  -- The old programs in place, and recoverable.
  pub record Intact (c : Core) : Type 0 where
    pub is_old : Old old_portal old_updater c
    pub is_recoverable : Recoverable old_portal old_updater c

  -- The journal with all backups, on disk and in memory, and nothing restored yet.
  pub record Fresh (j : TransactionJournal) (c : Core) : Type 0 where
    pub on_disk : c.journal ≡ some j
    pub saved : BackedUp old_portal old_updater j c
    pub all_left : length j.files - j.restore_cursor ≡ 5

  pub Intact-Safe : (c : Core) → Intact c → Safe c
  Intact-Safe c i = can_go_back i.is_recoverable

  pub Fresh-Restored :
      (j : TransactionJournal) (c : Core)
      → Fresh j c
      → Restored old_portal old_updater c (length j.files - j.restore_cursor)
  Fresh-Restored j c f = subst (Restored old_portal old_updater c) (sym f.all_left) some_left

  pub Fresh-Safe : (j : TransactionJournal) (c : Core) → Fresh j c → Safe c
  Fresh-Safe j c f = can_go_back (pending j f.on_disk f.saved (Fresh-Restored j c f))

  pub Fresh-Intact :
      (j : TransactionJournal) (c : Core) → Fresh j c → Old old_portal old_updater c → Intact c
  Fresh-Intact j c f o = record {
    is_old = o;
    is_recoverable = pending j f.on_disk f.saved (Fresh-Restored j c f);
  }

  pub finish_rollback-Holds :
      (cfg : Config) (j : TransactionJournal) (changed : Bool) (phase : StatusPhase) (w : World)
      → Intact (here w)
      → Holds Safe (λ v c. TransactionEnd c v) (finish_rollback cfg j changed phase w)
  unfolding finish_rollback
  finish_rollback-Holds cfg j changed phase w i =
      Holds-passing Intact Intact-Safe (restart_old cfg j.was_active changed j.old_version)
        (return (rollback_failed phase)) (return (rolled_back phase)) w
        (restart_old-Keeps cfg j.was_active changed j.old_version) i
        (λ w' i'. on_return (was_left (can_go_back i'.is_recoverable)))
        (λ w' i'. on_return (was_rolled_back i'.is_old i'.is_recoverable))

  pub rollback_unchanged-Holds :
      (cfg : Config) (j : TransactionJournal) (phase : StatusPhase) (w : World)
      → Intact (here w)
      → Holds Safe (λ v c. TransactionEnd c v) (rollback cfg j false phase w)
  unfolding rollback
  rollback_unchanged-Holds cfg j phase w i = finish_rollback-Holds cfg j false phase w i

  after_restore-Holds :
      (cfg : Config) (j : TransactionJournal) (phase : StatusPhase) (w : World)
      → Fresh j (here w)
      → Holds Safe
          (λ v c. TransactionEnd c v)
          (check
            (restore_transaction_files j)
            (return (rollback_failed phase))
            (finish_rollback cfg j true phase)
            w)
  after_restore-Holds cfg j phase w f =
      Holds-check (restore_transaction_files j) (return (rollback_failed phase))
        (finish_rollback cfg j true phase) w
        (Holds-map (restore_transaction_files j w)
          (restore_transaction_files-Holds old_portal old_updater j w f.on_disk f.saved
            (Fresh-Restored j (here w) f))
          (λ c r. can_go_back r) (λ _ c r. r))
        not_back back
    where
      not_back :
          (w : World)
          → RestoreEnd old_portal old_updater (here w) false
          → Holds Safe (λ v c. TransactionEnd c v) (return (rollback_failed phase) w)
      not_back w (not_restored r) = on_return (was_left (can_go_back r))

      back :
          (w : World)
          → RestoreEnd old_portal old_updater (here w) true
          → Holds Safe (λ v c. TransactionEnd c v) (finish_rollback cfg j true phase w)
      back w (restored o r) =
          finish_rollback-Holds cfg j true phase w (record { is_old = o; is_recoverable = r })

  pub rollback_changed-Holds :
      (cfg : Config) (j : TransactionJournal) (phase : StatusPhase) (w : World)
      → Fresh j (here w)
      → Holds Safe (λ v c. TransactionEnd c v) (rollback cfg j true phase w)
  unfolding rollback
  rollback_changed-Holds cfg j phase w f =
      Holds-after (Fresh j) (Fresh-Safe j) stop_portal_service (after_rollback_stop cfg j phase) w
        stop_portal_service-Keeps f go
    where
      go :
          (s : Stop) (w : World)
          → Fresh j (here w)
          → Holds Safe (λ v c. TransactionEnd c v) (after_rollback_stop cfg j phase s w)
      go not_stopped w f = on_return (was_left (Fresh-Safe j (here w) f))
      go stopped_ok w f = after_restore-Holds cfg j phase w f
      go stopped_late w f = after_restore-Holds cfg j phase w f

  -- Both programs replaced, the journal still there.
  pub record Replaced (j : TransactionJournal) (c : Core) : Type 0 where
    pub is_fresh : Fresh j c
    pub is_new : New c

  data RemoveEnd (c : Core) : Bool → Type 0 where
    removed : New c → c.journal ≡ none → RemoveEnd c true
    not_removed : Safe c → RemoveEnd c false

  pub clear_journal-Holds :
      (j : TransactionJournal) (w : World)
      → Replaced j (here w)
      → Holds Safe (λ v c. TransactionEnd c v) (clear_journal w)
  unfolding clear_journal remove_transaction_journal
  clear_journal-Holds j w r =
      Holds-check remove_transaction_journal (return (rollback_failed health_check))
        (return installed) w
        (Holds-call (set_journal none) (with_journal none) (core-set_journal none) Safe
          (λ ok c. RemoveEnd c ok) w (removed gone refl) (not_removed (went_forward gone refl))
          (not_removed (Fresh-Safe j (here w) r.is_fresh)) (Fresh-Safe j (here w) r.is_fresh))
        kept cleared
    where
      gone : New (with_journal none (here w))
      gone = record {
        new_portal_here = r.is_new.new_portal_here;
        new_updater_here = r.is_new.new_updater_here;
      }

      kept :
          (w : World)
          → RemoveEnd (here w) false
          → Holds Safe (λ v c. TransactionEnd c v) (return (rollback_failed health_check) w)
      kept w (not_removed s) = on_return (was_left s)

      cleared :
          (w : World)
          → RemoveEnd (here w) true
          → Holds Safe (λ v c. TransactionEnd c v) (return installed w)
      cleared w (removed n e) = on_return (was_installed n e)
