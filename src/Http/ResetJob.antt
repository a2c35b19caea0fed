-- ===== src/Http/ResetJob.antt =====
-- internal/httpapi/quota_resets.go: a batch job, run by four goroutines over one channel of items.
-- A world is what they share: the store, the channel, each worker's place in its loop, the fatal
-- error, the keys in `quotaResetKeys`, and those of them that single operations hold. An event is
-- one step of one worker, or of the rest of the portal; a history is a list of events.
pub mod Exclusive
pub mod Ready
pub mod Actors
pub mod Ends
pub mod Sends
pub mod Completes
use sub2api5hlimit.Base.{
  ℕ, Bool, true, false, not, ◌==◌, if◌then◌else◌, Option, none, some, List, [], ◌∷◌, get_elem?, set,
  codes,
}
use sub2api5hlimit.Store.Model.{
  Text, ItemStatus, User, SessionRow, KeyBinding, QuotaResetJobItem, Db,
}
use sub2api5hlimit.Store.Tx.{Result, ok, err}
use sub2api5hlimit.Store.QuotaReset.Jobs.{abort_quota_reset_job}
use sub2api5hlimit.Store.QuotaReset.Items.{
  mark_quota_reset_item_running, complete_quota_reset_item, finish_quota_reset_job,
  mark_quota_reset_job_running, quota_reset_job_with_items,
}
use sub2api5hlimit.Http.ResetItem.{
  Failure, reset_terminal_state, validate_quota_reset_item, holds, begin_quota_reset,
  end_quota_reset,
}

-- Where a worker stands: at the channel, with an item that it received, with one that it marked
-- running, in the upstream call, with an outcome to store, or past its loop.
pub data Worker : Type 0 where
  idle gone : Worker
  received marked : QuotaResetJobItem → Worker
  resetting : QuotaResetJobItem → ℕ → Worker
  ending : QuotaResetJobItem → ItemStatus → Text → Worker

pub record World : Type 0 where
  pub db : Db
  pub queue : List QuotaResetJobItem
  pub workers : List Worker
  pub fatal : Bool
  pub busy : List ℕ
  pub singles : List ℕ

-- The store answers, or the driver fails; the upstream call returns with its result.
pub data Answer : Type 0 where
  answers fails : Answer
  returns : Bool → Option Failure → Answer

pub data Event : Type 0 where
  work : ℕ → ℕ → Answer → Event
  begin_single end_single : ℕ → Event
  other_tables : List User → List SessionRow → List KeyBinding → Event

abbrev pub place : ℕ → Worker → World → World
place n s w = record w { workers = set w.workers n s }

-- `fatalOnce.Do`: the job's context is cancelled.
abbrev pub give_up : ℕ → World → World
give_up n w = record w { workers = set w.workers n idle; fatal = true }

-- `for item := range items { if jobCtx.Err() != nil { continue } … }`
abbrev pub receive : ℕ → List QuotaResetJobItem → World → World
receive n [] w = place n gone w
receive n (i ∷ rest) w =
    if w.fatal
    then record w { queue = rest }
    else record w { queue = rest; workers = set w.workers n (received i) }

abbrev pub stored : ℕ → Worker → World → Db × Result (Unit {0}) → World
stored n next w (db', ok _) = record w { db = db'; workers = set w.workers n next }
stored n next w (db', err _) = give_up n w

abbrev pub start_reset : ℕ → QuotaResetJobItem → ℕ → World → Option (List ℕ) → World
start_reset n i key w none = place n (ending i ItemStatus.skipped (codes "RESET_IN_PROGRESS")) w
start_reset n i key w (some busy) = record w {
  busy = busy;
  workers = set w.workers n (resetting i key);
}

-- `*item.UpstreamKeyID` of an item that passed the validation is set.
abbrev pub reset_key : ℕ → QuotaResetJobItem → Option ℕ → World → World
reset_key n i none w = give_up n w
reset_key n i (some key) w = start_reset n i key w (begin_quota_reset key w.busy)

abbrev pub validated : ℕ → QuotaResetJobItem → World → Option (ItemStatus × Text) → World
validated n i w none = reset_key n i i.upstream_key_id w
validated n i w (some (status, code)) = place n (ending i status code) w

abbrev pub reset_returned : ℕ → QuotaResetJobItem → ℕ → World → ItemStatus × Text → World
reset_returned n i key w (status, code) = record w {
  busy = end_quota_reset key w.busy;
  workers = set w.workers n (ending i status code);
}

-- One step of worker n; an answer that does not fit its place changes nothing.
unfoldable pub work_on : ℕ → ℕ → ℕ → Worker → Answer → World → World
work_on now job_id n idle a w = receive n w.queue w
work_on now job_id n gone a w = w
work_on now job_id n (received i) answers w =
    stored n (marked i) w (mark_quota_reset_item_running now job_id i.id w.db)
work_on now job_id n (received i) fails w = give_up n w
work_on now job_id n (received i) (returns _ _) w = w
work_on now job_id n (marked i) answers w = validated n i w (validate_quota_reset_item i w.db)
work_on now job_id n (marked i) fails w = give_up n w
work_on now job_id n (marked i) (returns _ _) w = w
work_on now job_id n (resetting i key) (returns applied e) w =
    reset_returned n i key w (reset_terminal_state applied e)
work_on now job_id n (resetting i key) answers w = w
work_on now job_id n (resetting i key) fails w = w
work_on now job_id n (ending i status code) answers w =
    stored n idle w (complete_quota_reset_item now job_id i.id status code w.db)
work_on now job_id n (ending i status code) fails w = give_up n w
work_on now job_id n (ending i status code) (returns _ _) w = w

abbrev pub single_begun : ℕ → World → Option (List ℕ) → World
single_begun key w none = w
single_begun key w (some busy) = record w { busy = busy; singles = key ∷ w.singles }

unfoldable pub react : ℕ → World → Event → World
unfolding work_on holds
react job_id w (work now n a) = elim (get_elem? w.workers n) [
  | none ↦ w
  | some s ↦ work_on now job_id n s a w
]
react job_id w (begin_single key) = single_begun key w (begin_quota_reset key w.busy)
react job_id w (end_single key) =
    if holds key w.singles
    then record w { busy = end_quota_reset key w.busy; singles = end_quota_reset key w.singles }
    else w
react job_id w (other_tables users sessions bindings) = record w {
  db = record (w.db) { users = users; sessions = sessions; key_bindings = bindings };
}

unfoldable pub react_all : ℕ → World → List Event → World
react_all job_id w [] = w
react_all job_id w (e ∷ es) = react_all job_id (react job_id w e) es

-- `workers.Wait()` returns when every worker is past its loop.
unfoldable pub all_gone : List Worker → Bool
all_gone [] = true
all_gone (gone ∷ ws) = all_gone ws
all_gone (_ ∷ ws) = false

-- A run as far as it came: still at its workers, or returned.
pub data Progress : Type 0 where
  waits : World → Progress
  returned : Db → Progress

-- Which of the statements outside the workers the driver answers.
pub record Driver : Type 0 where
  pub marks : Bool
  pub reads : Bool
  pub finishes : Bool
  pub aborts : Bool

-- `abortQuotaResetJob` only logs a failure, of the driver or of the call: the job stays as it is.
unfoldable pub logged_abort : Bool → ℕ → ℕ → Text → ℕ → Db → Db
logged_abort false job_id actor_id code now db = db
logged_abort true job_id actor_id code now db =
    (abort_quota_reset_job job_id actor_id code now db).0

abbrev pub finished_or_aborted {ℓ} : {A : Type ℓ} → Bool → ℕ → ℕ → ℕ → Db × Result A → Db
finished_or_aborted aborts now job_id actor_id (db, ok _) = db
finished_or_aborted aborts now job_id actor_id (db, err _) =
    logged_abort aborts job_id actor_id (codes "INTERNAL_INTERRUPTION") now db

abbrev pub try_finish : Driver → ℕ → ℕ → ℕ → Db → Db
unfolding logged_abort
try_finish d now job_id actor_id db =
    if d.finishes
    then finished_or_aborted d.aborts now job_id actor_id
        (finish_quota_reset_job now job_id actor_id db)
    else logged_abort d.aborts job_id actor_id (codes "INTERNAL_INTERRUPTION") now db

-- After `workers.Wait()`: abort on a fatal error, otherwise finish, and abort where that fails.
unfoldable pub conclude : Driver → ℕ → ℕ → ℕ → World → Progress
unfolding all_gone logged_abort
conclude d now job_id actor_id w =
    if not (all_gone w.workers)
    then waits w
    else if w.fatal
    then returned (logged_abort d.aborts job_id actor_id (codes "STORE_ERROR") now w.db)
    else returned (try_finish d now job_id actor_id w.db)

-- How a run begins: the job is marked and its items are loaded, or it is aborted at once; `singles`
-- are the keys that single resets hold.
pub data Begun : Type 0 where
  stopped : Db → Begun
  begun : World → Begun

abbrev pub stop : Bool → ℕ → ℕ → ℕ → Db → Begun
unfolding logged_abort
stop aborts now job_id actor_id db =
    stopped (logged_abort aborts job_id actor_id (codes "STORE_ERROR") now db)

abbrev pub four_workers : List ℕ → Db → List QuotaResetJobItem → World
four_workers singles db items = record {
  db = db;
  queue = items;
  workers = idle ∷ idle ∷ idle ∷ idle ∷ [];
  fatal = false;
  busy = singles;
  singles = singles;
}

abbrev pub loaded {ℓ} :
    {A : Type ℓ} → Bool → ℕ → ℕ → ℕ → List ℕ → Db → Result (A × List QuotaResetJobItem) → Begun
loaded aborts now job_id actor_id singles db (ok (_, items)) = begun (four_workers singles db items)
loaded aborts now job_id actor_id singles db (err _) = stop aborts now job_id actor_id db

abbrev pub load : Driver → ℕ → ℕ → ℕ → List ℕ → Db → Begun
unfolding quota_reset_job_with_items
load d now job_id actor_id singles db =
    if d.reads
    then loaded d.aborts now job_id actor_id singles db (quota_reset_job_with_items job_id db)
    else stop d.aborts now job_id actor_id db

abbrev pub marked_running : Driver → ℕ → ℕ → ℕ → List ℕ → Db × Result (Unit {0}) → Begun
marked_running d now job_id actor_id singles (db, err _) = stop d.aborts now job_id actor_id db
marked_running d now job_id actor_id singles (db, ok _) = load d now job_id actor_id singles db

unfoldable pub begin_run : Driver → ℕ → ℕ → ℕ → List ℕ → Db → Begun
begin_run d now job_id actor_id singles db =
    if d.marks
    then marked_running d now job_id actor_id singles (mark_quota_reset_job_running now job_id db)
    else stop d.aborts now job_id actor_id db

abbrev pub ended : Driver → ℕ → ℕ → ℕ → List Event → Begun → Progress
unfolding react_all conclude
ended d now job_id actor_id es (stopped db) = returned db
ended d now job_id actor_id es (begun w) = conclude d now job_id actor_id (react_all job_id w es)

unfoldable pub run_quota_reset_job : Driver → ℕ → ℕ → ℕ → List ℕ → List Event → Db → Progress
unfolding begin_run ended
run_quota_reset_job d now job_id actor_id singles es db =
    ended d now job_id actor_id es (begin_run d now job_id actor_id singles db)
