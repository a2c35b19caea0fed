-- ===== src/Install/Transacts.antt =====
-- applyTransaction as a whole: whatever fails and wherever the process dies, both programs are replaced or
-- both can be had back.
use sub2api5hlimit.Base.{
  ℕ, zero, suc, ◌+◌, Bool, true, false, Option, none, some, List, [], ◌∷◌, ◌++◌, ◌≡◌, refl, subst,
  arith,
}
use sub2api5hlimit.Install.Machine.{
  File, SavedFile, TransactionJournal, StatusPhase, backing_up, World, Step, return, call, ask,
  choose, check,
}
use sub2api5hlimit.Install.Config.{Config}
use sub2api5hlimit.Install.Journal.{
  set_journal, write_transaction_journal, validate_transaction_journal,
}
use sub2api5hlimit.Install.Restore.{save_file}
use sub2api5hlimit.Install.Transaction.{
  Verdict, Update, rollback, install_files, with_files, record_backups, after_save, back_up,
}
use sub2api5hlimit.Install.Holds.{
  Holds, on_return, Core, here, ask-Keeps, Holds-bind, Holds-check, Holds-map, Holds-call,
  Holds-passing,
}
use sub2api5hlimit.Install.Recoverable.{Old, with_journal, core-set_journal}
use sub2api5hlimit.Install.Saves.{
  SavedTo, both_saved, Unchanged, Unchanged-Recoverable, Saving, SaveEnd, not_saved, was_saved,
  save_file-Holds,
}
use sub2api5hlimit.Install.Undoes.{
  Safe, can_go_back, TransactionEnd, Intact, Intact-Safe, Fresh, Fresh-Intact,
  rollback_unchanged-Holds,
}
use sub2api5hlimit.Install.Installs.{install_files-Holds}

module _ (old_portal old_updater : Option File) (u : Update) where
  abbrev pub Ends : Step Verdict → World → Type 0
  Ends m w =
      Holds (Safe old_portal old_updater u.portal u.updater)
        (λ v c. TransactionEnd old_portal old_updater u.portal u.updater c v) (m w)

  abbrev pub IsIntact : Core → Type 0
  IsIntact c = Intact old_portal old_updater u.portal u.updater c

  abbrev IsFresh : TransactionJournal → Core → Type 0
  IsFresh j c = Fresh old_portal old_updater u.portal u.updater j c

  pub Unchanged-Intact :
      (j : TransactionJournal) (c : Core) → Unchanged old_portal old_updater j c → IsIntact c
  Unchanged-Intact j c h = record {
    is_old = h.is_old;
    is_recoverable = Unchanged-Recoverable old_portal old_updater j c h;
  }

  pub Unchanged-Safe :
      (j : TransactionJournal) (c : Core)
      → Unchanged old_portal old_updater j c
      → Safe old_portal old_updater u.portal u.updater c
  Unchanged-Safe j c h = can_go_back (Unchanged-Recoverable old_portal old_updater j c h)

  pub undo :
      (cfg : Config) (j : TransactionJournal) (phase : StatusPhase) (w : World)
      → IsIntact (here w)
      → Ends (rollback cfg j false phase) w
  undo cfg j phase w i =
      rollback_unchanged-Holds old_portal old_updater u.portal u.updater cfg j phase w i

  -- A check of the context that keeps `P`, from which nothing has to be restored.
  pub asking :
      (cfg : Config) (j : TransactionJournal) (P : Core → Type 0)
      (intact : (c : Core) → P c → IsIntact c) (next : Step Verdict) (w : World)
      → P (here w)
      → ((w : World) → P (here w) → Ends next w)
      → Ends (check ask (rollback cfg j false backing_up) next) w
  asking cfg j P intact next w p n =
      Holds-passing P (λ c p. Intact-Safe old_portal old_updater u.portal u.updater c (intact c p))
        ask (rollback cfg j false backing_up) next w ask-Keeps p
        (λ w' p'. undo cfg j backing_up w' (intact (here w') p')) n

  data BackupsEnd (j : TransactionJournal) (c : Core) : Bool → Type 0 where
    written : IsFresh j c → Old old_portal old_updater c → BackupsEnd j c true
    not_written : IsIntact c → BackupsEnd j c false

  with_files-Fresh :
      (j : TransactionJournal) (entries : List SavedFile) (c : Core)
      → j.restore_cursor ≡ 0
      → Saving old_portal old_updater j 5 entries c
      → IsFresh (with_files entries j) (with_journal (some (with_files entries j)) c)
  with_files-Fresh j entries c z s = go s.saved_to
    where
      go :
          SavedTo old_portal old_updater entries c.backups 5
          → IsFresh (with_files entries j) (with_journal (some (with_files entries j)) c)
      go (both_saved h h') = record {
        on_disk = refl;
        saved = record { is_backed_up = refl; portal_saved = h; updater_saved = h' };
        all_left = (let counted = s.counted in omega arith);
      }

  write_backups-Holds :
      (j : TransactionJournal) (entries : List SavedFile) (w : World)
      → j.restore_cursor ≡ 0
      → Saving old_portal old_updater j 5 entries (here w)
      → Holds
          (Safe old_portal old_updater u.portal u.updater)
          (λ ok c. BackupsEnd (with_files entries j) c ok)
          (write_transaction_journal (with_files entries j) w)
  unfolding write_transaction_journal
  write_backups-Holds j entries w z s =
      go (validate_transaction_journal w.machine.backups (with_files entries j))
    where
      go :
          (valid : Bool)
          → Holds
              (Safe old_portal old_updater u.portal u.updater)
              (λ ok c. BackupsEnd (with_files entries j) c ok)
              (choose valid (return false) (call (set_journal (some (with_files entries j)))) w)
      go false = on_return (not_written (Unchanged-Intact j (here w) s.is_unchanged))
      go true =
          let j' = with_files entries j in
          let f = with_files-Fresh j entries (here w) z s in
          let o : Old old_portal old_updater (with_journal (some j') (here w)) = record {
            old_portal_here = s.is_unchanged.is_old.old_portal_here;
            old_updater_here = s.is_unchanged.is_old.old_updater_here;
          } in
          Holds-call (set_journal (some j')) (with_journal (some j')) (core-set_journal (some j'))
            (Safe old_portal old_updater u.portal u.updater) (λ ok c. BackupsEnd j' c ok) w
            (written f o)
            (not_written (
              Fresh-Intact old_portal old_updater u.portal u.updater j'
                (with_journal (some j') (here w)) f o))
            (not_written (Unchanged-Intact j (here w) s.is_unchanged))
            (Unchanged-Safe j (here w) s.is_unchanged)

  record_backups-Holds :
      (cfg : Config) (j : TransactionJournal) (entries : List SavedFile) (w : World)
      → j.restore_cursor ≡ 0
      → Saving old_portal old_updater j 5 entries (here w)
      → Ends (record_backups cfg u j entries) w
  unfolding record_backups
  record_backups-Holds cfg j entries w z s =
      asking cfg j (Saving old_portal old_updater j 5 entries)
        (λ c s. Unchanged-Intact j c s.is_unchanged) _ w s
        (λ w s.
          Holds-check (write_transaction_journal (with_files entries j)) _ _ w
            (write_backups-Holds j entries w z s) not_recorded recorded)
    where
      j' : TransactionJournal
      j' = with_files entries j

      not_recorded :
          (w : World) → BackupsEnd j' (here w) false → Ends (rollback cfg j' false backing_up) w
      not_recorded w (not_written i) = undo cfg j' backing_up w i

      recorded :
          (w : World)
          → BackupsEnd j' (here w) true
          → Ends (check ask (rollback cfg j' false backing_up) (install_files cfg u j')) w
      recorded w (written f o) =
          asking cfg j' (λ c. IsFresh j' c × Old old_portal old_updater c)
            (λ c q. Fresh-Intact old_portal old_updater u.portal u.updater j' c q.0 q.1)
            (install_files cfg u j') w (f, o)
            (λ w q. install_files-Holds old_portal old_updater u cfg j' w q.0 q.1)

  pub back_up-Holds :
      (cfg : Config) (j : TransactionJournal) (n i : ℕ) (entries : List SavedFile) (w : World)
      → j.restore_cursor ≡ 0
      → n + i ≡ 5
      → Saving old_portal old_updater j i entries (here w)
      → Ends (back_up cfg u j n i entries) w
  unfolding back_up
  back_up-Holds cfg j zero i entries w z e s =
      record_backups-Holds cfg j entries w z
        (subst (λ i. Saving old_portal old_updater j i entries (here w)) (omega arith) s)
  back_up-Holds cfg j (suc n) i entries w z e s =
      Holds-bind (save_file i w) _
        (Holds-map (save_file i w) (save_file-Holds old_portal old_updater j i entries w s)
          (Unchanged-Safe j) (λ _ c q. q))
        (λ o w q.
          go o w q (λ entries w s. back_up-Holds cfg j n (suc i) entries w z (omega arith) s))
    where
      go :
          (o : Option SavedFile) (w : World)
          → SaveEnd old_portal old_updater j i entries (here w) o
          → ((entries : List SavedFile) (w : World)
              → Saving old_portal old_updater j (suc i) entries (here w)
              → Ends (back_up cfg u j n (suc i) entries) w)
          → Ends (after_save cfg j entries o (back_up cfg u j n (suc i))) w
      go none w (not_saved h) rest = undo cfg j backing_up w (Unchanged-Intact j (here w) h)
      go (some e) w (was_saved s) rest =
          asking cfg j (Saving old_portal old_updater j (suc i) (entries ++ (e ∷ [])))
            (λ c s. Unchanged-Intact j c s.is_unchanged)
            (back_up cfg u j n (suc i) (entries ++ (e ∷ []))) w s
            (λ w s. rest (entries ++ (e ∷ [])) w s)
