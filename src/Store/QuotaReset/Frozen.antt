-- ===== src/Store/QuotaReset/Frozen.antt =====
-- An item that has a terminal status is never touched again: no reset is replayed.
use sub2api5hlimit.Base.{
  ℕ, ◌≡◌, refl, ◌∙◌, Bool, true, false, if◌then◌else◌, List, [], ◌∷◌, ◌++◌, arith, update_where,
  select_where, codes, Bool-cases, inl, inr, String,
}
use sub2api5hlimit.Store.Model.{Text, JobStatus, ItemStatus, QuotaResetJobItem, Db}
use sub2api5hlimit.Store.Tx.{in_tx-keeps, ok, in_tx, >>=-eq-ok}
use sub2api5hlimit.Store.QuotaReset.Statements.{
  is_actor, is_pending, is_job_active, is_quota_reset_terminal_status,
  is_safe_quota_reset_error_code, quota_reset_job_by_id, add_audit,
}
use sub2api5hlimit.Store.QuotaReset.Jobs.{
  is_item_open, close_item, lift, abort_by_status, abort_quota_reset_job_tx, abort_quota_reset_job,
  abort_each, ids_of, recover_interrupted_quota_reset_jobs, create_quota_reset_job_tx,
  create_quota_reset_job,
}
use sub2api5hlimit.Store.QuotaReset.Items.{
  item_row, update_item_tx, start_item, end_item, mark_quota_reset_job_running,
  mark_quota_reset_item_running, complete_quota_reset_item, finish_quota_reset_job_tx,
  finish_quota_reset_job, record_single_quota_reset_audit,
}
use sub2api5hlimit.Store.QuotaReset.Calls.{Call, step, run}
use sub2api5hlimit.Store.QuotaReset.Invariant.Items.{update_item_lem}
use sub2api5hlimit.Store.QuotaReset.Invariant.Create.{create_lem}
use sub2api5hlimit.Store.QuotaReset.Invariant.Abort.{
  read_back-same, finish_lem, abort_active_lem, lift-eq-ok, closed_items, is_open_in,
}

-- Every item of the first table stands at its place in the second, unchanged if it is terminal.
abbrev pub Frozen : List QuotaResetJobItem → List QuotaResetJobItem → Type 0
Frozen [] ys = Unit
Frozen (i ∷ is) [] = ⊥
Frozen (i ∷ is) (j ∷ js) = (is_quota_reset_terminal_status i.status ≡ true → j ≡ i) × Frozen is js

Frozen-refl : (is : List QuotaResetJobItem) → Frozen is is
Frozen-refl [] = tt
Frozen-refl (i ∷ is) = (λ _. refl, Frozen-refl is)

Frozen-trans : (is js ks : List QuotaResetJobItem) → Frozen is js → Frozen js ks → Frozen is ks
Frozen-trans [] js ks h k = tt
Frozen-trans (i ∷ is) [] ks h k = absurd h
Frozen-trans (i ∷ is) (j ∷ js) [] h k = absurd k
Frozen-trans (i ∷ is) (j ∷ js) (l ∷ ks) h k =
    (λ t. k.0 (row t (h.0 t)) ∙ h.0 t, Frozen-trans is js ks h.1 k.1)
  where
    row :
        is_quota_reset_terminal_status i.status ≡ true
        → j ≡ i
        → is_quota_reset_terminal_status j.status ≡ true
    row t e = rw e t

Frozen-append : (is more : List QuotaResetJobItem) → Frozen is (is ++ more)
Frozen-append [] more = tt
Frozen-append (i ∷ is) more = (λ _. refl, Frozen-append is more)

-- An UPDATE of rows that are still open.
Frozen-update_where :
    (p : QuotaResetJobItem → Bool) (f : QuotaResetJobItem → QuotaResetJobItem)
    (is : List QuotaResetJobItem)
    → ((i : QuotaResetJobItem) → p i ≡ true → is_item_open i.status ≡ true)
    → Frozen is (update_where p f is)
Frozen-update_where p f [] h = tt
Frozen-update_where p f (i ∷ is) h = (row, Frozen-update_where p f is h)
  where
    shut : is_quota_reset_terminal_status i.status ≡ true → p i ≡ false
    shut t = ground (arith, h i)

    row : is_quota_reset_terminal_status i.status ≡ true → (if p i then f i else i) ≡ i
    row t = rw (shut t)

abbrev Keeps : Db → Db → Type 0
Keeps db db' = Frozen db.quota_reset_job_items db'.quota_reset_job_items

Keeps-refl : (db : Db) → Keeps db db
Keeps-refl db = Frozen-refl db.quota_reset_job_items

update_item-Keeps :
    (k item : ℕ) (p : ItemStatus → Bool) (f : QuotaResetJobItem → QuotaResetJobItem) (now : ℕ)
    (db : Db)
    → ((s : ItemStatus) → p s ≡ true → is_item_open s ≡ true)
    → Keeps db (in_tx (update_item_tx k item p f now) db).0
update_item-Keeps k item p f now db opens =
    in_tx-keeps (Keeps db) (update_item_tx k item p f now) db (Keeps-refl db) λ a db' h.
      let (_, e, _, _) = update_item_lem k item p f now db a db' h in
      rw e (
        Frozen-update_where (item_row k item p db) f db.quota_reset_job_items
          (λ i t. opens i.status (ground arith)))

abort_tx-Keeps :
    (k actor : ℕ) (code : Text) (action : String) (now : ℕ) (db : Db) (a : Bool) (db' : Db)
    → abort_quota_reset_job_tx k actor code action now db ≡ ok (a, db')
    → Keeps db db'
unfolding abort_quota_reset_job_tx abort_by_status
abort_tx-Keeps k actor code action now db a db' h =
    let (job, db1, e1, h1) = >>=-eq-ok (lift (quota_reset_job_by_id k)) _ db h in
    let same : db1 ≡ db = (lift-eq-ok (quota_reset_job_by_id k) db e1).1 in
    by_status job.status (rw same at h1)
  where
    closes :
        Keeps db
          (record db { quota_reset_job_items = closed_items k code now db.quota_reset_job_items })
    closes =
        Frozen-update_where (is_open_in k) (close_item code now) db.quota_reset_job_items
          (λ i t. ground arith)

    by_status :
        (s : JobStatus) → abort_by_status s k actor code action now db ≡ ok (a, db') → Keeps db db'
    by_status JobStatus.completed h = let e : db' ≡ db = ground arith in rw e (Keeps-refl db)
    by_status JobStatus.queued h =
        rw (abort_active_lem k actor code action now db a db' h).same_items closes
    by_status JobStatus.running h =
        rw (abort_active_lem k actor code action now db a db' h).same_items closes

abort_each-Keeps :
    (ks : List ℕ) (actor : ℕ) (code : Text) (now : ℕ) (db : Db) (a : Unit {0}) (db' : Db)
    → abort_each ks actor code now db ≡ ok (a, db')
    → Keeps db db'
unfolding abort_each
abort_each-Keeps [] actor code now db a db' h =
    let e : db' ≡ db = ground arith in rw e (Keeps-refl db)
abort_each-Keeps (k ∷ ks) actor code now db a db' h =
    let (b, db1, e1, h1) =
      >>=-eq-ok (abort_quota_reset_job_tx k actor code "quota_reset.batch.recovered" now) _ db h in
    Frozen-trans db.quota_reset_job_items db1.quota_reset_job_items db'.quota_reset_job_items
      (abort_tx-Keeps k actor code "quota_reset.batch.recovered" now db b db1 e1)
      (abort_each-Keeps ks actor code now db1 a db' h1)

create-Keeps : (now actor : ℕ) (db : Db) → Keeps db (create_quota_reset_job now actor db).0
unfolding create_quota_reset_job
create-Keeps now actor db =
    let m = create_quota_reset_job_tx now actor in
    rw (read_back-same (in_tx m db)) (
      in_tx-keeps (Keeps db) m db (Keeps-refl db) λ a db' h.
        let (_, _, _, e, _) = create_lem now actor db a db' h in
        rw e (Frozen-append db.quota_reset_job_items _))

finish-Keeps : (now k actor : ℕ) (db : Db) → Keeps db (finish_quota_reset_job now k actor db).0
unfolding finish_quota_reset_job
finish-Keeps now k actor db =
    let m = finish_quota_reset_job_tx now k actor in
    rw (read_back-same (in_tx m db)) (
      in_tx-keeps (Keeps db) m db (Keeps-refl db)
        λ a db' h. rw (finish_lem now k actor db a db' h).same_items (Keeps-refl db))

abort-Keeps :
    (k actor : ℕ) (code : Text) (now : ℕ) (db : Db)
    → Keeps db (abort_quota_reset_job k actor code now db).0
unfolding abort_quota_reset_job
abort-Keeps k actor [] now db = Keeps-refl db
abort-Keeps k actor (c ∷ cs) now db = elim (Bool-cases (is_safe_quota_reset_error_code (c ∷ cs))) [
  | inr e ↦ rw e (Keeps-refl db)
  | inl e ↦ rw e (
      in_tx-keeps (Keeps db)
        (abort_quota_reset_job_tx k actor (c ∷ cs) "quota_reset.batch.abort" now) db (Keeps-refl db)
        (λ a db' h. abort_tx-Keeps k actor (c ∷ cs) "quota_reset.batch.abort" now db a db' h))
]

complete-Keeps :
    (now k item : ℕ) (status : ItemStatus) (code : Text) (db : Db)
    → Keeps db (complete_quota_reset_item now k item status code db).0
unfolding complete_quota_reset_item
complete-Keeps now k item status code db =
    elim (Bool-cases (is_quota_reset_terminal_status status)) [
      | inr e ↦ rw e (Keeps-refl db)
      | inl e ↦ elim (Bool-cases (is_safe_quota_reset_error_code code)) [
        | inr u ↦ rw (e, u) (Keeps-refl db)
        | inl u ↦
            rw (e, u)
              (update_item-Keeps k item is_item_open (end_item status code now) now db (λ s h. h))
      ]
    ]

record_single-Keeps :
    (now actor u key : ℕ) (status : ItemStatus) (code : Text) (db : Db)
    → Keeps db (record_single_quota_reset_audit now actor u key status code db).0
unfolding record_single_quota_reset_audit add_audit
record_single-Keeps now actor u key status code db =
    elim (Bool-cases (is_quota_reset_terminal_status status)) [
      | inr e ↦ rw e (Keeps-refl db)
      | inl e ↦ elim (Bool-cases (is_safe_quota_reset_error_code code)) [
        | inr s ↦ rw (e, s) (Keeps-refl db)
        | inl s ↦ elim (Bool-cases (is_actor actor db)) [
          | inl a ↦ rw (e, s, a) (Keeps-refl db)
          | inr a ↦ rw (e, s, a) (Keeps-refl db)
        ]
      ]
    ]

step-Keeps : (db : Db) (c : Call) → Keeps db (step db c)
unfolding step mark_quota_reset_job_running mark_quota_reset_item_running
    recover_interrupted_quota_reset_jobs
step-Keeps db (Call.create now actor) = create-Keeps now actor db
step-Keeps db (Call.start_job now k) = Keeps-refl db
step-Keeps db (Call.start_item now k item) =
    update_item-Keeps k item is_pending (start_item now) now db (λ s h. ground arith)
step-Keeps db (Call.complete now k item s code) = complete-Keeps now k item s code db
step-Keeps db (Call.finish now k actor) = finish-Keeps now k actor db
step-Keeps db (Call.abort now k actor code) = abort-Keeps k actor code now db
step-Keeps db (Call.recover now) =
    let ks = ids_of (select_where (λ j. is_job_active j.status) db.quota_reset_jobs) in
    in_tx-keeps (Keeps db) (abort_each ks 0 (codes "PROCESS_RESTARTED") now) db (Keeps-refl db)
      (λ a db' h. abort_each-Keeps ks 0 (codes "PROCESS_RESTARTED") now db a db' h)
step-Keeps db (Call.record_single now actor u key s code) =
    record_single-Keeps now actor u key s code db

-- Through every history of calls on reset jobs the items stay at their places, and an item that has
-- a terminal status keeps all its columns.
pub run-Frozen :
    (db : Db) (cs : List Call) → Frozen db.quota_reset_job_items (run db cs).quota_reset_job_items
unfolding run
run-Frozen db [] = Keeps-refl db
run-Frozen db (c ∷ cs) =
    Frozen-trans db.quota_reset_job_items (step db c).quota_reset_job_items
      (run (step db c) cs).quota_reset_job_items (step-Keeps db c) (run-Frozen (step db c) cs)
