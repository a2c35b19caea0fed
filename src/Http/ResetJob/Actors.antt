-- ===== src/Http/ResetJob/Actors.antt =====
-- internal/httpapi/quota_resets.go: the steps of a run keep the row of the user who started it.
use sub2api5hlimit.Base.{
  ℕ, All, count_where, not, ◌||◌, ◌≡◌, refl, inl, inr, Bool, true, ◌==◌, List, [], ◌∷◌, get_elem?,
  Bool-cases, Option-cases, arith,
}
use sub2api5hlimit.Store.Model.{Text, ItemStatus, QuotaResetJobItem, Db}
use sub2api5hlimit.Store.Tx.{Result, ok, err, in_tx, in_tx-keeps}
use sub2api5hlimit.Store.QuotaReset.Statements.{
  is_actor, quota_reset_item_transition_error, recompute_quota_reset_counters, is_pending,
  is_quota_reset_terminal_status, is_safe_quota_reset_error_code,
}
use sub2api5hlimit.Store.QuotaReset.Jobs.{is_item_open}
use sub2api5hlimit.Store.QuotaReset.Items.{
  update_item_tx, start_item, end_item, mark_quota_reset_item_running, complete_quota_reset_item,
}
use sub2api5hlimit.Http.ResetItem.{validate_quota_reset_item, begin_quota_reset, holds}
use sub2api5hlimit.Http.ResetJob.{
  Worker, idle, gone, received, marked, resetting, ending, World, Answer, answers, fails, returns,
  Event, work, begin_single, end_single, other_tables, receive, stored, work_on, react, react_all,
}
use sub2api5hlimit.Http.ResetJob.Ready.{validated-db, single_begun-db}

-- The workers do not write the users.
update_item_tx-users :
    (m item : ℕ) (p : ItemStatus → Bool) (f : QuotaResetJobItem → QuotaResetJobItem) (now : ℕ)
    (db : Db) (a : Unit {0}) (db' : Db)
    → update_item_tx m item p f now db ≡ ok (a, db')
    → db'.users ≡ db.users
unfolding update_item_tx quota_reset_item_transition_error recompute_quota_reset_counters
update_item_tx-users m item p f now db a db' h = ground arith

update_item-users :
    (m item : ℕ) (p : ItemStatus → Bool) (f : QuotaResetJobItem → QuotaResetJobItem) (now : ℕ)
    (db : Db)
    → (in_tx (update_item_tx m item p f now) db).0.users ≡ db.users
update_item-users m item p f now db =
    in_tx-keeps (λ d. d.users ≡ db.users) (update_item_tx m item p f now) db refl
      (λ a db' e. update_item_tx-users m item p f now db a db' e)

mark-users :
    (now m item : ℕ) (db : Db) → (mark_quota_reset_item_running now m item db).0.users ≡ db.users
unfolding mark_quota_reset_item_running
mark-users now m item db = update_item-users m item is_pending (start_item now) now db

complete-users :
    (now m item : ℕ) (status : ItemStatus) (code : Text) (db : Db)
    → (complete_quota_reset_item now m item status code db).0.users ≡ db.users
unfolding complete_quota_reset_item
complete-users now m item status code db =
    elim (Bool-cases (is_quota_reset_terminal_status status)) [
      | inr e ↦ rw e refl
      | inl e ↦ elim (Bool-cases (is_safe_quota_reset_error_code code)) [
        | inr u ↦ rw (e, u) refl
        | inl s ↦
            rw (e, s) (update_item-users m item is_item_open (end_item status code now) now db)
      ]
    ]

receive-users :
    (n : ℕ) (items : List QuotaResetJobItem) (w : World) → (receive n items w).db.users ≡ w.db.users
receive-users n [] w = refl
receive-users n (i ∷ rest) w = elim (Bool-cases w.fatal) [ inl e ↦ rw e refl | inr e ↦ rw e refl ]

stored-users :
    (n : ℕ) (v : Worker) (w : World) (o : Db × Result (Unit {0}))
    → o.0.users ≡ w.db.users
    → (stored n v w o).db.users ≡ w.db.users
stored-users n v w (db, ok _) h = h
stored-users n v w (db, err _) h = refl

work_on-users :
    (now k n : ℕ) (s : Worker) (a : Answer) (w : World)
    → (work_on now k n s a w).db.users ≡ w.db.users
unfolding work_on
work_on-users now k n idle a w = receive-users n w.queue w
work_on-users now k n gone a w = refl
work_on-users now k n (received i) answers w =
    stored-users n (marked i) w (mark_quota_reset_item_running now k i.id w.db)
      (mark-users now k i.id w.db)
work_on-users now k n (received i) fails w = refl
work_on-users now k n (received i) (returns _ _) w = refl
work_on-users now k n (marked i) answers w =
    rw (validated-db n i w (validate_quota_reset_item i w.db)) refl
work_on-users now k n (marked i) fails w = refl
work_on-users now k n (marked i) (returns _ _) w = refl
work_on-users now k n (resetting i key) (returns applied e) w = refl
work_on-users now k n (resetting i key) answers w = refl
work_on-users now k n (resetting i key) fails w = refl
work_on-users now k n (ending i status code) answers w =
    stored-users n idle w (complete_quota_reset_item now k i.id status code w.db)
      (complete-users now k i.id status code w.db)
work_on-users now k n (ending i status code) fails w = refl
work_on-users now k n (ending i status code) (returns _ _) w = refl

-- The row of the actor is there after an event: the portal deletes no row of `users`.
abbrev pub KeepsActor : ℕ → Event → Type 0
KeepsActor actor (work _ _ _) = Unit
KeepsActor actor (begin_single _) = Unit
KeepsActor actor (end_single _) = Unit
KeepsActor actor (other_tables users _ _) =
    (actor == 0 || not (count_where (λ u. u.id == actor) users == 0)) ≡ true

react-is_actor :
    (actor k : ℕ) (w : World) (e : Event)
    → KeepsActor actor e
    → is_actor actor w.db ≡ true
    → is_actor actor (react k w e).db ≡ true
unfolding react is_actor
react-is_actor actor k w (work now n a) p h = elim (Option-cases (get_elem? w.workers n)) [
  | inl g ↦ rw (g, react) h
  | inr (s, g) ↦ rw (g, react, work_on-users now k n s a w) h
]
react-is_actor actor k w (begin_single key) p h =
    rw (single_begun-db key w (begin_quota_reset key w.busy)) h
react-is_actor actor k w (end_single key) p h = elim (Bool-cases (holds key w.singles)) [
  | inl e ↦ rw e h
  | inr e ↦ rw e h
]
react-is_actor actor k w (other_tables users sessions bindings) p h = p

pub react_all-is_actor :
    (actor k : ℕ) (w : World) (es : List Event)
    → All (KeepsActor actor) es
    → is_actor actor w.db ≡ true
    → is_actor actor (react_all k w es).db ≡ true
unfolding react_all
react_all-is_actor actor k w [] p h = h
react_all-is_actor actor k w (e ∷ es) p h =
    react_all-is_actor actor k (react k w e) es p.1 (react-is_actor actor k w e p.0 h)
