-- ===== src/Install/Outcomes.antt =====
-- applyTransaction from its first step: whatever fails and wherever the process dies, both programs
-- are replaced or both can be had back.
use sub2api5hlimit.Base.{Bool, true, false, if◌then◌else◌, Option, none, some, [], ◌≡◌, refl}
use sub2api5hlimit.Install.Machine.{
  File, prepared, TransactionJournal, backing_up, World, ◌>>=◌, return, call, ask, choose, check,
}
use sub2api5hlimit.Install.Config.{
  Config, service_is_active, Stop, stop_portal_service, stopped_ok, stopped_late, not_stopped,
}
use sub2api5hlimit.Install.Journal.{
  report_running, set_journal, write_transaction_journal, validate_transaction_journal,
}
use sub2api5hlimit.Install.Transaction.{
  failed, Update, rollback, back_up, after_stop, stop_and_back_up, first_journal, clear_backups,
  begin_transaction, apply_transaction,
}
use sub2api5hlimit.Install.Holds.{
  Holds, on_return, Core, here, Holds-check, Holds-call, Holds-passing, Holds-after,
}
use sub2api5hlimit.Install.Quiet.{
  service_is_active-Keeps, stop_portal_service-Keeps, report_running-Keeps,
}
use sub2api5hlimit.Install.Recoverable.{
  Old, Recoverable, without_journal, with_journal, core-set_journal,
}
use sub2api5hlimit.Install.Saves.{none_saved, Unchanged, Unchanged-Recoverable}
use sub2api5hlimit.Install.Undoes.{Safe, can_go_back, TransactionEnd, has_failed, was_left}
use sub2api5hlimit.Install.Transacts.{
  Ends, Unchanged-Intact, Unchanged-Safe, undo, asking, back_up-Holds,
}

module _ (old_portal old_updater : Option File) (u : Update) where
  start_backups :
      (cfg : Config) (j : TransactionJournal) (w : World)
      → j.restore_cursor ≡ 0
      → Unchanged old_portal old_updater j (here w)
      → Ends old_portal old_updater u (back_up cfg u j 5 0 []) w
  start_backups cfg j w z h =
      back_up-Holds old_portal old_updater u cfg j 5 0 [] w z refl
        (record { is_unchanged = h; counted = refl; saved_to = none_saved })

  after_stop-Holds :
      (cfg : Config) (j : TransactionJournal) (s : Stop) (w : World)
      → j.restore_cursor ≡ 0
      → Unchanged old_portal old_updater j (here w)
      → Ends old_portal old_updater u (after_stop cfg u j s) w
  unfolding after_stop
  after_stop-Holds cfg j not_stopped w z h =
      on_return (was_left (Unchanged-Safe old_portal old_updater u j (here w) h))
  after_stop-Holds cfg j stopped_late w z h =
      undo old_portal old_updater u cfg j backing_up w
        (Unchanged-Intact old_portal old_updater u j (here w) h)
  after_stop-Holds cfg j stopped_ok w z h =
      asking old_portal old_updater u cfg j (Unchanged old_portal old_updater j)
        (Unchanged-Intact old_portal old_updater u j) (back_up cfg u j 5 0 []) w h
        (λ w h. start_backups cfg j w z h)

  stop_and_back_up-Holds :
      (cfg : Config) (j : TransactionJournal) (w : World)
      → j.restore_cursor ≡ 0
      → Unchanged old_portal old_updater j (here w)
      → Ends old_portal old_updater u (stop_and_back_up cfg u j) w
  unfolding stop_and_back_up
  stop_and_back_up-Holds cfg j w z h = go j.was_active
    where
      go :
          (b : Bool)
          → Ends old_portal old_updater u
              (if b
                then check ask
                    (rollback cfg j false backing_up)
                    (stop_portal_service >>= after_stop cfg u j)
                else back_up cfg u j 5 0 [])
              w
      go false = start_backups cfg j w z h
      go true =
          asking old_portal old_updater u cfg j (Unchanged old_portal old_updater j)
            (Unchanged-Intact old_portal old_updater u j) _ w h
            (λ w h.
              Holds-after (Unchanged old_portal old_updater j)
                (Unchanged-Safe old_portal old_updater u j) stop_portal_service (after_stop cfg u j)
                w stop_portal_service-Keeps h (λ s w h. after_stop-Holds cfg j s w z h))

  -- Before the journal is written.
  record Before (c : Core) : Type 0 where
    is_old : Old old_portal old_updater c
    no_journal : c.journal ≡ none

  Before-Recoverable : (c : Core) → Before c → Recoverable old_portal old_updater c
  Before-Recoverable c b = without_journal b.no_journal b.is_old

  Before-Safe : (c : Core) → Before c → Safe old_portal old_updater u.portal u.updater c
  Before-Safe c b = can_go_back (Before-Recoverable c b)

  fail :
      (w : World) → Before (here w) → Ends old_portal old_updater u (return (failed backing_up)) w
  fail w b = on_return (has_failed b.is_old (Before-Recoverable (here w) b))

  data FirstEnd (j : TransactionJournal) (c : Core) : Bool → Type 0 where
    begun : Unchanged old_portal old_updater j c → FirstEnd j c true
    not_begun :
        Old old_portal old_updater c → Recoverable old_portal old_updater c → FirstEnd j c false

  write_first-Holds :
      (j : TransactionJournal) (w : World)
      → j.phase ≡ prepared
      → Before (here w)
      → Holds
          (Safe old_portal old_updater u.portal u.updater)
          (λ ok c. FirstEnd j c ok)
          (write_transaction_journal j w)
  unfolding write_transaction_journal
  write_first-Holds j w p b = go (validate_transaction_journal w.machine.backups j)
    where
      go :
          (valid : Bool)
          → Holds
              (Safe old_portal old_updater u.portal u.updater)
              (λ ok c. FirstEnd j c ok)
              (choose valid (return false) (call (set_journal (some j))) w)
      go false = on_return (not_begun b.is_old (Before-Recoverable (here w) b))
      go true =
          let new : Unchanged old_portal old_updater j (with_journal (some j) (here w)) = record {
            on_disk = refl;
            is_prepared = p;
            is_old = record {
              old_portal_here = b.is_old.old_portal_here;
              old_updater_here = b.is_old.old_updater_here;
            };
          } in
          Holds-call (set_journal (some j)) (with_journal (some j)) (core-set_journal (some j))
            (Safe old_portal old_updater u.portal u.updater) (λ ok c. FirstEnd j c ok) w (begun new)
            (not_begun new.is_old
              (Unchanged-Recoverable old_portal old_updater j (with_journal (some j) (here w)) new))
            (not_begun b.is_old (Before-Recoverable (here w) b)) (Before-Safe (here w) b)

  clear_backups-Holds :
      (w : World)
      → Before (here w)
      → Holds
          (Safe old_portal old_updater u.portal u.updater)
          (λ (_ : Bool). Before)
          (call clear_backups w)
  unfolding clear_backups
  clear_backups-Holds w b =
      let cleared : Before (record (here w) { backups = λ _. none }) = record {
        is_old = record {
          old_portal_here = b.is_old.old_portal_here;
          old_updater_here = b.is_old.old_updater_here;
        };
        no_journal = b.no_journal;
      } in
      Holds-call clear_backups (λ c. record c { backups = λ _. none }) (λ m. refl)
        (Safe old_portal old_updater u.portal u.updater) (λ _. Before) w cleared cleared b
        (Before-Safe (here w) b)

  begin_transaction-Holds :
      (cfg : Config) (active : Option Bool) (w : World)
      → Before (here w)
      → Ends old_portal old_updater u (begin_transaction cfg u active) w
  unfolding begin_transaction
  begin_transaction-Holds cfg none w b = fail w b
  begin_transaction-Holds cfg (some was_active) w b =
      Holds-check (call clear_backups) _ _ w (clear_backups-Holds w b) fail λ w b.
        Holds-passing Before Before-Safe (report_running u.request backing_up) _ _ w
          (report_running-Keeps u.request backing_up) b fail
          λ w b.
            Holds-check (write_transaction_journal (first_journal u was_active)) _ _ w
              (write_first-Holds (first_journal u was_active) w refl b) not_written begin
    where
      not_written :
          (w : World)
          → FirstEnd (first_journal u was_active) (here w) false
          → Ends old_portal old_updater u (return (failed backing_up)) w
      not_written w (not_begun o r) = on_return (has_failed o r)

      begin :
          (w : World)
          → FirstEnd (first_journal u was_active) (here w) true
          → Ends old_portal old_updater u (stop_and_back_up cfg u (first_journal u was_active)) w
      begin w (begun h) = stop_and_back_up-Holds cfg (first_journal u was_active) w refl h

-- An update that starts without a journal, whatever fails and wherever the process dies. Where it
-- dies, the programs of before can be had back, or both new programs are in place without a journal. Where it
-- returns: installed, both new programs are in place, with the mode 0755 and the owners of the old
-- ones, and there is no journal; failed or rolled back, both old programs are in place; left, it is
-- as where it dies.
pub apply_transaction-Holds :
    (cfg : Config) (u : Update) (w : World)
    → w.machine.journal ≡ none
    → Holds
        (Safe (w.machine.files 0) (w.machine.files 1) u.portal u.updater)
        (λ v c. TransactionEnd (w.machine.files 0) (w.machine.files 1) u.portal u.updater c v)
        (apply_transaction cfg u w)
unfolding apply_transaction
apply_transaction-Holds cfg u w e =
    Holds-after (Before (w.machine.files 0) (w.machine.files 1) u)
      (Before-Safe (w.machine.files 0) (w.machine.files 1) u) service_is_active
      (begin_transaction cfg u) w service_is_active-Keeps
      (record {
        is_old = record { old_portal_here = refl; old_updater_here = refl };
        no_journal = e;
      })
      (begin_transaction-Holds (w.machine.files 0) (w.machine.files 1) u cfg)
