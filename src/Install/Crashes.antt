-- ===== src/Install/Crashes.antt =====
-- An update that may die or fail, and the runs after it, which may die or fail too.
use sub2api5hlimit.Base.{Bool, Option, none, some, List, [], ◌∷◌, ◌≡◌, refl}
use sub2api5hlimit.Install.Machine.{
  File, TransactionJournal, Machine, Event, World, Out, done, died, return, ask, look,
}
use sub2api5hlimit.Install.Config.{Config}
use sub2api5hlimit.Install.Journal.{
  Reading, missing, unreadable, read, checked, read_with, read_transaction_journal,
  validate_transaction_journal,
}
use sub2api5hlimit.Install.Transaction.{
  Verdict, installed, failed, rolled_back, rollback_failed, Update, apply_transaction,
}
use sub2api5hlimit.Install.Recovery.{
  recover_from, recover_interrupted_transaction, left_by, recover_runs,
}
use sub2api5hlimit.Install.Holds.{
  Holds, on_return, on_death, Core, core, here, ask-Keeps, Holds-bind, Holds-passing,
}
use sub2api5hlimit.Install.Recovered.{recover_runs-Recoverable}
use sub2api5hlimit.Install.Undoes.{
  New, Safe, can_go_back, went_forward, TransactionEnd, was_installed, has_failed, was_rolled_back,
  was_left,
}
use sub2api5hlimit.Install.Outcomes.{apply_transaction-Holds}

-- An update and the runs after it.
unfoldable pub update_runs : Config → Update → List Event → List (List Event) → Machine → Machine
unfolding apply_transaction recover_runs
update_runs cfg u events runs m =
    recover_runs cfg runs
      (left_by (apply_transaction cfg u (record { machine = m; events = events })))

-- Without a journal a recovery changes nothing that `P` says.
module _ (P : Core → Type 0) (has_none : (c : Core) → P c → c.journal ≡ none) where
  data NoJournal (c : Core) : Reading TransactionJournal → Type 0 where
    none_found : P c → NoJournal c missing
    none_readable : P c → NoJournal c unreadable

  read_none :
      (test : TransactionJournal → Bool) (c : Core) (o : Option TransactionJournal)
      → c.journal ≡ o
      → P c
      → NoJournal c (checked test o)
  read_none test c none e p = none_found p
  read_none test c (some j) e p = absurd (let n = has_none c p in cc)

  recover_without :
      (cfg : Config) (w : World)
      → P (here w)
      → Holds P (λ _. P) (recover_interrupted_transaction cfg w)
  unfolding recover_interrupted_transaction read_transaction_journal read_with
  recover_without cfg w p =
      Holds-bind {R = λ r c. NoJournal c r} (read_transaction_journal w) (recover_from cfg)
        (Holds-passing P (λ c p. p) ask (return unreadable)
          (look (λ m. checked (validate_transaction_journal m.backups) m.journal)) w ask-Keeps p
          (λ w p. on_return (none_readable p))
          (λ w p. on_return (
            read_none (validate_transaction_journal w.machine.backups) (here w) w.machine.journal
              refl p)))
        go
    where
      go :
          (r : Reading TransactionJournal) (w : World)
          → NoJournal (here w) r
          → Holds P (λ _. P) (recover_from cfg r w)
      go missing w (none_found p) = on_return p
      go unreadable w (none_readable p) = on_return p
      go (read _) w h = elim h [ ]

  kept : {A : Type 0} (o : Out A) → Holds P (λ (_ : A). P) o → P (core (left_by o))
  kept (done a w) (on_return p) = p
  kept (died m) (on_death p) = p

  pub recover_runs_without :
      (cfg : Config) (runs : List (List Event)) (m : Machine)
      → P (core m)
      → P (core (recover_runs cfg runs m))
  unfolding recover_runs
  recover_runs_without cfg [] m p = p
  recover_runs_without cfg (events ∷ runs) m p =
      let w : World = record { machine = m; events = events } in
      recover_runs_without cfg runs (left_by (recover_interrupted_transaction cfg w))
        (kept (recover_interrupted_transaction cfg w) (recover_without cfg w p))

module _ (old_portal old_updater : Option File) (u : Update) where
  abbrev IsSafe : Core → Type 0
  IsSafe c = Safe old_portal old_updater u.portal u.updater c

  record Gone (c : Core) : Type 0 where
    is_new : New old_portal old_updater u.portal u.updater c
    no_journal : c.journal ≡ none

  recover_runs-Safe :
      (cfg : Config) (runs : List (List Event)) (m : Machine)
      → IsSafe (core m)
      → IsSafe (core (recover_runs cfg runs m))
  recover_runs-Safe cfg runs m (can_go_back r) =
      can_go_back (recover_runs-Recoverable old_portal old_updater cfg runs m r)
  recover_runs-Safe cfg runs m (went_forward n e) =
      let g =
        recover_runs_without Gone (λ c g. g.no_journal) cfg runs m
          (record { is_new = n; no_journal = e }) in
      went_forward g.is_new g.no_journal

  end-Safe :
      (v : Verdict) (c : Core)
      → TransactionEnd old_portal old_updater u.portal u.updater c v
      → IsSafe c
  end-Safe installed c (was_installed n e) = went_forward n e
  end-Safe (failed p) c (has_failed o r) = can_go_back r
  end-Safe (rolled_back p) c (was_rolled_back o r) = can_go_back r
  end-Safe (rollback_failed p) c (was_left s) = s

  left-Safe :
      (o : Out Verdict)
      → Holds
          (Safe old_portal old_updater u.portal u.updater)
          (λ v c. TransactionEnd old_portal old_updater u.portal u.updater c v)
          o
      → IsSafe (core (left_by o))
  left-Safe (done v w) (on_return q) = end-Safe v (here w) q
  left-Safe (died m) (on_death s) = s

-- After an update that starts without a journal and any number of runs after it, each of which may
-- die or fail anywhere, both old programs can be had back, or both new ones are in place and there is
-- no journal.
pub update_runs-Safe :
    (cfg : Config) (u : Update) (events : List Event) (runs : List (List Event)) (m : Machine)
    → m.journal ≡ none
    → Safe (m.files 0) (m.files 1) u.portal u.updater (core (update_runs cfg u events runs m))
unfolding update_runs
update_runs-Safe cfg u events runs m e =
    let w : World = record { machine = m; events = events } in
    recover_runs-Safe (m.files 0) (m.files 1) u cfg runs (left_by (apply_transaction cfg u w)) (
      left-Safe (m.files 0) (m.files 1) u (apply_transaction cfg u w)
        (apply_transaction-Holds cfg u w e))
