-- ===== src/Http/ResetJob/Ready.antt =====
-- internal/httpapi/quota_resets.go: the steps of a run keep its job running in a valid database.
use sub2api5hlimit.Base.{
  ℕ, ◌≡◌, refl, inl, inr, Bool, true, false, ◌==◌, if◌then◌else◌, Option, none, some, List, [], ◌∷◌,
  get_elem?, update_where, find_where, Bool-cases, Option-cases,
}
use sub2api5hlimit.Store.Model.{Text, ItemStatus, Counters, QuotaResetJob, QuotaResetJobItem, Db}
use sub2api5hlimit.Store.Tx.{Result, ok, err, in_tx, in_tx-keeps}
use sub2api5hlimit.Store.QuotaReset.Statements.{
  is_job_running, is_pending, is_quota_reset_terminal_status, is_safe_quota_reset_error_code,
}
use sub2api5hlimit.Store.QuotaReset.Jobs.{is_item_open}
use sub2api5hlimit.Store.QuotaReset.Items.{
  update_item_tx, start_item, end_item, mark_quota_reset_item_running, complete_quota_reset_item,
}
use sub2api5hlimit.Store.QuotaReset.Invariant.Rows.{set_counters, find-update}
use sub2api5hlimit.Store.QuotaReset.Invariant.Valid.{IsValid}
use sub2api5hlimit.Store.QuotaReset.Invariant.Items.{
  update_item_lem, mark_quota_reset_item_running-IsValid, complete_quota_reset_item-IsValid,
}
use sub2api5hlimit.Http.ResetItem.{validate_quota_reset_item, begin_quota_reset, holds}
use sub2api5hlimit.Http.ResetJob.{
  Worker, idle, gone, received, marked, resetting, ending, World, Answer, answers, fails, returns,
  Event, work, begin_single, end_single, other_tables, receive, stored, start_reset, reset_key,
  validated, single_begun, work_on, react, react_all,
}

-- Job k stands in the table and runs.
abbrev pub IsRunning : ℕ → Db → Type 0
IsRunning k db =
    (j : QuotaResetJob) × (find_where (λ j. j.id == k) db.quota_reset_jobs ≡ some j)
    × (is_job_running j.status ≡ true)

abbrev pub Ready : ℕ → Db → Type 0
Ready k db = IsValid db × IsRunning k db

recount-IsRunning :
    (k m : ℕ) (c : Counters) (now : ℕ) (db db' : Db)
    → db'.quota_reset_jobs ≡ update_where (λ j. j.id == m) (set_counters c now) db.quota_reset_jobs
    → IsRunning k db
    → IsRunning k db'
recount-IsRunning k m c now db db' e (j, found, runs) = rw e (
  _,
  find-update k (λ j. j.id == m) (set_counters c now) (λ j. refl) db.quota_reset_jobs j found,
  same_status (j.id == m),
)
  where
    same_status : (b : Bool) → is_job_running (if b then set_counters c now j else j).status ≡ true
    same_status true = runs
    same_status false = runs

update_item-IsRunning :
    (k m item : ℕ) (p : ItemStatus → Bool) (f : QuotaResetJobItem → QuotaResetJobItem) (now : ℕ)
    (db : Db)
    → IsRunning k db
    → IsRunning k (in_tx (update_item_tx m item p f now) db).0
update_item-IsRunning k m item p f now db h =
    in_tx-keeps (IsRunning k) (update_item_tx m item p f now) db h (λ a db' e.
      recount-IsRunning k m _ now db db' (update_item_lem m item p f now db a db' e).2 h)

mark-Ready :
    (k now m item : ℕ) (db : Db)
    → Ready k db
    → Ready k (mark_quota_reset_item_running now m item db).0
unfolding mark_quota_reset_item_running
mark-Ready k now m item db (v, h) = (
  mark_quota_reset_item_running-IsValid now m item db v,
  update_item-IsRunning k m item is_pending (start_item now) now db h,
)

complete-IsRunning :
    (k now m item : ℕ) (status : ItemStatus) (code : Text) (db : Db)
    → IsRunning k db
    → IsRunning k (complete_quota_reset_item now m item status code db).0
unfolding complete_quota_reset_item
complete-IsRunning k now m item status code db h =
    elim (Bool-cases (is_quota_reset_terminal_status status)) [
      | inr e ↦ rw e h
      | inl e ↦ elim (Bool-cases (is_safe_quota_reset_error_code code)) [
        | inr u ↦ rw (e, u) h
        | inl s ↦
            rw (e, s)
              (update_item-IsRunning k m item is_item_open (end_item status code now) now db h)
      ]
    ]

complete-Ready :
    (k now m item : ℕ) (status : ItemStatus) (code : Text) (db : Db)
    → Ready k db
    → Ready k (complete_quota_reset_item now m item status code db).0
complete-Ready k now m item status code db (v, h) = (
  complete_quota_reset_item-IsValid now m item status code db v,
  complete-IsRunning k now m item status code db h,
)

receive-Ready :
    (k n : ℕ) (items : List QuotaResetJobItem) (w : World)
    → Ready k w.db
    → Ready k (receive n items w).db
receive-Ready k n [] w h = h
receive-Ready k n (i ∷ rest) w h = elim (Bool-cases w.fatal) [ inl e ↦ rw e h | inr e ↦ rw e h ]

stored-Ready :
    (k n : ℕ) (v : Worker) (w : World) (o : Db × Result (Unit {0}))
    → Ready k w.db
    → Ready k o.0
    → Ready k (stored n v w o).db
stored-Ready k n v w (db, ok _) h h' = h'
stored-Ready k n v w (db, err _) h h' = h

start_reset-db :
    (n : ℕ) (i : QuotaResetJobItem) (key : ℕ) (w : World) (o : Option (List ℕ))
    → (start_reset n i key w o).db ≡ w.db
start_reset-db n i key w none = refl
start_reset-db n i key w (some busy) = refl

pub validated-db :
    (n : ℕ) (i : QuotaResetJobItem) (w : World) (o : Option (ItemStatus × Text))
    → (validated n i w o).db ≡ w.db
validated-db n i w none = key_set i.upstream_key_id
  where
    key_set : (key : Option ℕ) → (reset_key n i key w).db ≡ w.db
    key_set none = refl
    key_set (some key) = start_reset-db n i key w (begin_quota_reset key w.busy)
validated-db n i w (some (status, code)) = refl

work_on-Ready :
    (now k n : ℕ) (s : Worker) (a : Answer) (w : World)
    → Ready k w.db
    → Ready k (work_on now k n s a w).db
unfolding work_on
work_on-Ready now k n idle a w h = receive-Ready k n w.queue w h
work_on-Ready now k n gone a w h = h
work_on-Ready now k n (received i) answers w h =
    stored-Ready k n (marked i) w (mark_quota_reset_item_running now k i.id w.db) h
      (mark-Ready k now k i.id w.db h)
work_on-Ready now k n (received i) fails w h = h
work_on-Ready now k n (received i) (returns _ _) w h = h
work_on-Ready now k n (marked i) answers w h =
    rw (validated-db n i w (validate_quota_reset_item i w.db)) h
work_on-Ready now k n (marked i) fails w h = h
work_on-Ready now k n (marked i) (returns _ _) w h = h
work_on-Ready now k n (resetting i key) (returns applied e) w h = h
work_on-Ready now k n (resetting i key) answers w h = h
work_on-Ready now k n (resetting i key) fails w h = h
work_on-Ready now k n (ending i status code) answers w h =
    stored-Ready k n idle w (complete_quota_reset_item now k i.id status code w.db) h
      (complete-Ready k now k i.id status code w.db h)
work_on-Ready now k n (ending i status code) fails w h = h
work_on-Ready now k n (ending i status code) (returns _ _) w h = h

pub single_begun-db : (key : ℕ) (w : World) (o : Option (List ℕ)) → (single_begun key w o).db ≡ w.db
single_begun-db key w none = refl
single_begun-db key w (some busy) = refl

react-Ready : (k : ℕ) (w : World) (e : Event) → Ready k w.db → Ready k (react k w e).db
unfolding react
react-Ready k w (work now n a) h = elim (Option-cases (get_elem? w.workers n)) [
  | inl g ↦ rw (g, react) h
  | inr (s, g) ↦ rw (g, react) (work_on-Ready now k n s a w h)
]
react-Ready k w (begin_single key) h = rw (single_begun-db key w (begin_quota_reset key w.busy)) h
react-Ready k w (end_single key) h = elim (Bool-cases (holds key w.singles)) [
  | inl e ↦ rw e h
  | inr e ↦ rw e h
]
react-Ready k w (other_tables users sessions bindings) h = h

-- The rest of the portal and the workers leave job k running in a valid database.
pub react_all-Ready :
    (k : ℕ) (w : World) (es : List Event) → Ready k w.db → Ready k (react_all k w es).db
unfolding react_all
react_all-Ready k w [] h = h
react_all-Ready k w (e ∷ es) h = react_all-Ready k (react k w e) es (react-Ready k w e h)
