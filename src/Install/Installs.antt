-- ===== src/Install/Installs.antt =====
-- The stages of applyTransaction after the backups: both programs replaced, the portal restarted.
use sub2api5hlimit.Base.{ℕ, Bool, true, false, if◌then◌else◌, Option, none, some, ◌≡◌, ap}
use sub2api5hlimit.Store.Model.{Text}
use sub2api5hlimit.Install.Machine.{
  File, TransactionJournal, StatusPhase, installing, restarting, health_check, World, Step, ask,
  check,
}
use sub2api5hlimit.Install.Config.{Config, portal_version}
use sub2api5hlimit.Install.Journal.{report_running}
use sub2api5hlimit.Install.Restore.{set_file, install_over, atomic_install}
use sub2api5hlimit.Install.Transaction.{
  Verdict, Update, rollback, clear_journal, restart_new, verify, install_programs, install_files,
}
use sub2api5hlimit.Install.Holds.{
  Holds, on_return, Core, here, Keeps, ask-Keeps, Holds-check, Holds-call, Holds-passing,
}
use sub2api5hlimit.Install.Quiet.{
  start_service-Keeps, portal_version-Keeps, wait_for_healthy-Keeps, report_running-Keeps,
}
use sub2api5hlimit.Install.Recoverable.{Old, put, core-set_file}
use sub2api5hlimit.Install.Undoes.{
  replaced, New, Safe, TransactionEnd, Fresh, Fresh-Safe, Fresh-Intact, rollback_unchanged-Holds,
  rollback_changed-Holds, Replaced, clear_journal-Holds,
}

module _ (old_portal old_updater : Option File) (u : Update) where
  abbrev Ends : Step Verdict → World → Type 0
  Ends m w =
      Holds (Safe old_portal old_updater u.portal u.updater)
        (λ v c. TransactionEnd old_portal old_updater u.portal u.updater c v) (m w)

  put-Fresh :
      (j : TransactionJournal) (i : ℕ) (f : Option File) (c : Core)
      → Fresh old_portal old_updater u.portal u.updater j c
      → Fresh old_portal old_updater u.portal u.updater j (put i f c)
  put-Fresh j i f c h = record {
    on_disk = h.on_disk;
    saved = record {
      is_backed_up = h.saved.is_backed_up;
      portal_saved = h.saved.portal_saved;
      updater_saved = h.saved.updater_saved;
    };
    all_left = h.all_left;
  }

  -- A step after the programs were replaced, which is undone when it fails.
  passing :
      (cfg : Config) (j : TransactionJournal) (phase : StatusPhase) (m : Step Bool)
      (next : Step Verdict) (w : World)
      → Keeps m
      → Replaced old_portal old_updater u.portal u.updater j (here w)
      → ((w : World) → Replaced old_portal old_updater u.portal u.updater j (here w) → Ends next w)
      → Ends (check m (rollback cfg j true phase) next) w
  passing cfg j phase m next w k r h =
      Holds-passing (Replaced old_portal old_updater u.portal u.updater j)
        (λ c r. Fresh-Safe old_portal old_updater u.portal u.updater j c r.is_fresh) m
        (rollback cfg j true phase) next w k r
        (λ w' r'.
          rollback_changed-Holds old_portal old_updater u.portal u.updater cfg j phase w'
            r'.is_fresh)
        h

  verify-Holds :
      (cfg : Config) (j : TransactionJournal) (w : World)
      → Replaced old_portal old_updater u.portal u.updater j (here w)
      → Ends (verify cfg u j) w
  unfolding verify restart_new
  verify-Holds cfg j w r = go j.was_active
    where
      clear :
          (w : World)
          → Replaced old_portal old_updater u.portal u.updater j (here w)
          → Ends clear_journal w
      clear w r = clear_journal-Holds old_portal old_updater u.portal u.updater j w r

      go :
          (b : Bool)
          → Ends
              (if b
                then restart_new cfg u j
                else check
                    (portal_version cfg u.target_version)
                    (rollback cfg j true health_check)
                    clear_journal)
              w
      go true = passing cfg j restarting _ _ w (report_running-Keeps u.request restarting) r λ w r.
          passing cfg j restarting _ _ w ask-Keeps r λ w r.
            passing cfg j restarting _ _ w start_service-Keeps r λ w r.
              passing cfg j health_check _ _ w (report_running-Keeps u.request health_check) r
                λ w r.
                  passing cfg j health_check _ _ w (wait_for_healthy-Keeps cfg u.target_version) r
                    clear
      go false =
          passing cfg j health_check (portal_version cfg u.target_version) clear_journal w
            (portal_version-Keeps cfg u.target_version) r clear

  data OverEnd (j : TransactionJournal) (P : Core → Type 0) (c : Core) : Bool → Type 0 where
    put_over : Fresh old_portal old_updater u.portal u.updater j c → P c → OverEnd j P c true
    not_over : Fresh old_portal old_updater u.portal u.updater j c → OverEnd j P c false

  -- One atomicInstall, where `P` holds of the core with the slot replaced.
  install_over-Holds :
      (j : TransactionJournal) (i : ℕ) (content : Text) (P : Core → Type 0) (o : Option File)
      (w : World)
      → Fresh old_portal old_updater u.portal u.updater j (here w)
      → P (put i (replaced content o) (here w))
      → Holds
          (Safe old_portal old_updater u.portal u.updater)
          (λ ok c. OverEnd j P c ok)
          (install_over i content o w)
  unfolding install_over
  install_over-Holds j i content P none w f p = on_return (not_over f)
  install_over-Holds j i content P (some file) w f p =
      let new = replaced content (some file) in
      Holds-call (set_file i new) (put i new) (core-set_file i new)
        (Safe old_portal old_updater u.portal u.updater) (λ ok c. OverEnd j P c ok) w
        (put_over (put-Fresh j i new (here w) f) p) (not_over (put-Fresh j i new (here w) f))
        (not_over f) (Fresh-Safe old_portal old_updater u.portal u.updater j (here w) f)

  -- Between the two programs.
  record Halfway (c : Core) : Type 0 where
    portal_is_new : c.portal ≡ replaced u.portal old_portal
    updater_is_old : c.updater ≡ old_updater

  -- A step and a check of the context, either of which is undone when it fails.
  after_over :
      (cfg : Config) (j : TransactionJournal) (P : Core → Type 0) (m : Step Bool)
      (next : Step Verdict) (w : World)
      → Holds (Safe old_portal old_updater u.portal u.updater) (λ ok c. OverEnd j P c ok) (m w)
      → ((w : World)
          → Fresh old_portal old_updater u.portal u.updater j (here w)
          → P (here w)
          → Ends next w)
      → Ends
          (check m
            (rollback cfg j true installing)
            (check ask (rollback cfg j true installing) next))
          w
  after_over cfg j P m next w h n = Holds-check m _ _ w h undone go
    where
      undo :
          (w : World)
          → Fresh old_portal old_updater u.portal u.updater j (here w)
          → Ends (rollback cfg j true installing) w
      undo w f =
          rollback_changed-Holds old_portal old_updater u.portal u.updater cfg j installing w f

      undone : (w : World) → OverEnd j P (here w) false → Ends (rollback cfg j true installing) w
      undone w (not_over f) = undo w f

      go :
          (w : World)
          → OverEnd j P (here w) true
          → Ends (check ask (rollback cfg j true installing) next) w
      go w (put_over f p) =
          Holds-passing (λ c. Fresh old_portal old_updater u.portal u.updater j c × P c)
            (λ c q. Fresh-Safe old_portal old_updater u.portal u.updater j c q.0) ask
            (rollback cfg j true installing) next w ask-Keeps (f, p) (λ w' q. undo w' q.0)
            (λ w' q. n w' q.0 q.1)

  install_both :
      (cfg : Config) (j : TransactionJournal) (w : World)
      → Fresh old_portal old_updater u.portal u.updater j (here w)
      → Old old_portal old_updater (here w)
      → Ends (install_programs cfg u j) w
  unfolding install_programs atomic_install
  install_both cfg j w f o =
      after_over cfg j Halfway (atomic_install 0 u.portal) _ w
        (install_over-Holds j 0 u.portal Halfway (w.machine.files 0) w f (record {
          portal_is_new = ap (replaced u.portal) o.old_portal_here;
          updater_is_old = o.old_updater_here;
        }))
        (λ w f h.
          after_over cfg j (New old_portal old_updater u.portal u.updater)
            (atomic_install 1 u.updater) (verify cfg u j) w
            (install_over-Holds j 1 u.updater (New old_portal old_updater u.portal u.updater)
              (w.machine.files 1) w f
              (record {
                new_portal_here = h.portal_is_new;
                new_updater_here = ap (replaced u.updater) h.updater_is_old;
              }))
            (λ w f n. verify-Holds cfg j w (record { is_fresh = f; is_new = n })))

  -- From the journal with the backups on.
  pub install_files-Holds :
      (cfg : Config) (j : TransactionJournal) (w : World)
      → Fresh old_portal old_updater u.portal u.updater j (here w)
      → Old old_portal old_updater (here w)
      → Holds
          (Safe old_portal old_updater u.portal u.updater)
          (λ v c. TransactionEnd old_portal old_updater u.portal u.updater c v)
          (install_files cfg u j w)
  unfolding install_files
  install_files-Holds cfg j w f o =
      Holds-passing
        (λ c. Fresh old_portal old_updater u.portal u.updater j c × Old old_portal old_updater c)
        (λ c q. Fresh-Safe old_portal old_updater u.portal u.updater j c q.0)
        (report_running u.request installing) (rollback cfg j false installing)
        (install_programs cfg u j) w (report_running-Keeps u.request installing) (f, o)
        (λ w' q.
          rollback_unchanged-Holds old_portal old_updater u.portal u.updater cfg j installing w'
            (Fresh-Intact old_portal old_updater u.portal u.updater j (here w') q.0 q.1))
        (λ w' q. install_both cfg j w' q.0 q.1)
