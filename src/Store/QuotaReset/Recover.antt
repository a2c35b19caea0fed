-- ===== src/Store/QuotaReset/Recover.antt =====
-- The recovery at start-up closes all work, and frees the store for the next job.
use sub2api5hlimit.Base.{
  ℕ, Bool, Option, none, not, ◌&&◌, Bool-cases, inl, inr, ==_self, ltb, suc, ◌≡◌, ◌≤◌, refl, sym,
  ap, ◌∙◌, true, false, ◌==◌, List, [], ◌∷◌, ◌++◌, some, arith, count_where, update_where,
  find_where, All, All-imp, codes, length, ◌≢◌, ◌<◌, select_where, count_where-zero,
  count_where-append,
}
use sub2api5hlimit.Store.Model.{
  User, Role, UserStatus, KeyBinding, ItemStatus, JobStatus, is_user, is_deleted, Counters,
  QuotaResetJob, QuotaResetJobItem, Db,
}
use sub2api5hlimit.Store.Tx.{ok, ◌>>=◌, ◌>>◌}
use sub2api5hlimit.Store.QuotaReset.Statements.{
  counters_of, quota_reset_job_by_id, of_job, is_actor, add_audit,
}
use sub2api5hlimit.Store.QuotaReset.Jobs.{
  abort_each, recover_interrupted_quota_reset_jobs, create_quota_reset_job,
  create_quota_reset_job_tx, no_counters, key_of, binding_of, insert_job, insert_items, set_counts,
  is_target, queued_job, items_for, set_total,
}
use sub2api5hlimit.Store.QuotaReset.Invariant.Rows.{IsClosed, Counted, Settled, active_jobs}
use sub2api5hlimit.Store.QuotaReset.Invariant.Abort.{recover-IsValid}
use sub2api5hlimit.Store.QuotaReset.Invariant.Valid.{IsValid}
use sub2api5hlimit.Store.QuotaReset.Abort.{abort_tx_active, active_jobs-aborted, found_one}
use sub2api5hlimit.Store.QuotaReset.Active.{OneActive, idle, busy, OneActive-cases}

-- Where no job is active, every job is completed and has no open item.
All-IsClosed :
    (items : List QuotaResetJobItem) (jobs : List QuotaResetJob)
    → Counted items jobs
    → Settled jobs
    → active_jobs jobs ≡ 0
    → All (λ j. (j.status ≡ JobStatus.completed) × IsClosed (counters_of j.id items)) jobs
All-IsClosed items [] c s h = tt
All-IsClosed items (j ∷ jobs) c s h =
    (row (ground arith), All-IsClosed items jobs c.1 s.1 (ground arith))
  where
    row :
        j.status ≡ JobStatus.completed
        → (j.status ≡ JobStatus.completed) × IsClosed (counters_of j.id items)
    row d = (
      d,
      (
        ap (λ (c : Counters). c.pending) (sym c.0) ∙ (s.0 d).0,
        ap (λ (c : Counters). c.running) (sym c.0) ∙ (s.0 d).1,
      ),
    )

recover_idle :
    (now : ℕ) (db : Db)
    → IsValid db
    → let (db', r) = recover_interrupted_quota_reset_jobs now db in
      (r ≡ ok tt) × (active_jobs db'.quota_reset_jobs ≡ 0)
unfolding recover_interrupted_quota_reset_jobs abort_each is_actor
recover_idle now db v = go (OneActive-cases db.quota_reset_jobs v.unique v.one_active)
  where
    go :
        OneActive db.quota_reset_jobs
        → let (db', r) = recover_interrupted_quota_reset_jobs now db in
          (r ≡ ok tt) × (active_jobs db'.quota_reset_jobs ≡ 0)
    go (idle no_ids z) = rw (no_ids, abort_each) (refl, z)
    go (busy k j ids found act) =
        rw (ids, abort_each)
          (rw
            (
              abort_tx_active k 0 (codes "PROCESS_RESTARTED") "quota_reset.batch.recovered" now db j
                  v refl found act,
              ◌>>=◌,
            )
            (
              refl,
              active_jobs-aborted k 0 (codes "PROCESS_RESTARTED") "quota_reset.batch.recovered" now
                  db (found_one k db.quota_reset_jobs j found act v.one_active) v.one_active,
            ))

-- From a valid database the recovery at start-up succeeds, and leaves every job completed, with no
-- pending and no running item.
pub recover_closes-All :
    (now : ℕ) (db : Db)
    → IsValid db
    → let (db', r) = recover_interrupted_quota_reset_jobs now db in
      (r ≡ ok tt)
      × All
          (λ j.
            (j.status ≡ JobStatus.completed)
            × IsClosed (counters_of j.id db'.quota_reset_job_items))
          db'.quota_reset_jobs
recover_closes-All now db v =
    let v' = recover-IsValid now db v in
    let db' = (recover_interrupted_quota_reset_jobs now db).0 in
    (
      (recover_idle now db v).0,
      All-IsClosed db'.quota_reset_job_items db'.quota_reset_jobs v'.counted v'.settled
          (recover_idle now db v).1,
    )

items_for-count :
    (bs : List KeyBinding) (k now last : ℕ) (us : List User)
    → count_where (of_job k) (items_for bs k now last us) ≡ length us
unfolding items_for
items_for-count bs k now last [] = refl
items_for-count bs k now last (u ∷ us) = ground (arith, items_for-count bs k now (suc last) us)

-- Reading a job that was appended under a fresh id.
find-appended :
    (k n : ℕ) (jobs : List QuotaResetJob) (new : QuotaResetJob)
    → All (λ j. j.id < k) jobs
    → new.id ≡ k
    → find_where (λ j. j.id == k) (update_where (λ j. j.id == k) (set_total n) (jobs ++ new ∷ []))
      ≡ some (set_total n new)
find-appended k n [] new below e = ground arith
find-appended k n (j ∷ jobs) new below e =
    ground (arith, below.0, find-appended k n jobs new below.1 e)

abbrev is_reset_target : Role → UserStatus → Bool
is_reset_target Role.user UserStatus.active = true
is_reset_target Role.user UserStatus.disabled = true
is_reset_target _ _ = false

-- The key that a user has in the bindings: none where no row is the user's.
abbrev Holds : List KeyBinding → ℕ → Option ℕ → Type 0
Holds bs user none = count_where (λ b. b.user_id == user) bs ≡ 0
Holds bs user (some key) = 1 ≤ count_where (λ b. b.user_id == user && b.upstream_key_id == key) bs

-- A pending item of job k for user u, as the user and the bindings stand.
abbrev Awaits : List KeyBinding → ℕ → ℕ → User → QuotaResetJobItem → Type 0
Awaits bs k now u i =
    (i.job_id ≡ k)
    × (i.user_id ≡ u.id)
    × (i.username ≡ u.username)
    × (i.display_name ≡ u.display_name)
    × (i.user_status ≡ u.status)
    × Holds bs u.id i.upstream_key_id
    × (i.status ≡ ItemStatus.pending)
    × (i.error_code ≡ [])
    × (i.created_at ≡ now)
    × (i.started_at ≡ none)
    × (i.completed_at ≡ none)

abbrev pub AllAwait : List KeyBinding → ℕ → ℕ → List User → List QuotaResetJobItem → Type 0
AllAwait bs k now [] [] = Unit
AllAwait bs k now [] (_ ∷ _) = ⊥
AllAwait bs k now (_ ∷ _) [] = ⊥
AllAwait bs k now (u ∷ us) (i ∷ is) = Awaits bs k now u i × AllAwait bs k now us is

binding_of-Holds : (bs : List KeyBinding) (user : ℕ) → Holds bs user (key_of (binding_of bs user))
binding_of-Holds [] user = refl
binding_of-Holds (b ∷ bs) user = elim (Bool-cases (b.user_id == user)) [
  | inl e ↦ rw e (ground (arith, e, ==_self b.upstream_key_id))
  | inr e ↦ rw e (later e (key_of (binding_of bs user)) (binding_of-Holds bs user))
]
  where
    later : (b.user_id == user) ≡ false → (o : Option ℕ) → Holds bs user o → Holds (b ∷ bs) user o
    later e none h = rw e (omega (arith, h))
    later e (some key) h = rw e (omega (arith, h))

items_for-AllAwait :
    (bs : List KeyBinding) (k now last : ℕ) (us : List User)
    → AllAwait bs k now us (items_for bs k now last us)
unfolding items_for
items_for-AllAwait bs k now last [] = tt
items_for-AllAwait bs k now last (u ∷ us) = (
  (refl, refl, refl, refl, refl, binding_of-Holds bs u.id, refl, refl, refl, refl, refl),
  items_for-AllAwait bs k now (suc last) us,
)

is_target-same :
    (us : List User)
    → select_where is_target us ≡ select_where (λ u. is_reset_target u.role u.status) us
is_target-same [] = refl
is_target-same (u ∷ us) = rw (row u.role u.status, is_target-same us) refl
  where
    row : (r : Role) (s : UserStatus) → (is_user r && not (is_deleted s)) ≡ is_reset_target r s
    row Role.user UserStatus.active = refl
    row Role.user UserStatus.disabled = refl
    row Role.user UserStatus.deleted = refl
    row Role.admin s = refl

abbrev pub created : ℕ → ℕ → ℕ → Counters → QuotaResetJob
created k now actor c = record {
  id = k;
  status = JobStatus.queued;
  counters = c;
  requested_by_user_id = some actor;
  created_at = now;
  started_at = none;
  completed_at = none;
  updated_at = now;
}

-- Where no job is active, a create by a user of the database succeeds: it returns the queued job
-- under the next id, requested by that user, whose total and pending counts are the number of active
-- and disabled users with role 'user', and it appends one pending item for each of these users in
-- their order, with the key of a binding of the user, or none where the user has no binding.
pub create_total :
    (now actor : ℕ) (db : Db)
    → IsValid db
    → is_actor actor db ≡ true
    → actor ≢ 0
    → active_jobs db.quota_reset_jobs ≡ 0
    → let (db', r) = create_quota_reset_job now actor db in
      let k = suc db.last_job_id in
      let targets = select_where (λ u. is_reset_target u.role u.status) db.users in
      let n = length targets in
      (r ≡ ok (created k now actor (record no_counters { total = n; pending = n })))
      × ((items : List QuotaResetJobItem) × (db'.quota_reset_job_items
            ≡ db.quota_reset_job_items ++ items)
          × AllAwait db.key_bindings k now targets items)
unfolding create_quota_reset_job create_quota_reset_job_tx insert_job insert_items set_counts
    add_audit quota_reset_job_by_id is_actor
create_total now actor db v known some_actor free =
    let e : (active_jobs db.quota_reset_jobs == 0) ≡ true = ground arith in
    rw (← is_target-same db.users) (
      rw (e, known, ◌>>=◌)
        (rw (counted, ◌>>=◌, ◌>>◌, known)
          (rw
            (
              find-appended k (length targets) db.quota_reset_jobs (queued_job k now actor) below
                  refl,
              quota_reset_job_by_id,
            )
            (
              by_actor,
              (_, refl, items_for-AllAwait db.key_bindings k now db.last_item_id targets),
            ))))
  where
    k : ℕ
    k = suc db.last_job_id

    targets : List User
    targets = select_where is_target db.users

    below : All (λ j. j.id < k) db.quota_reset_jobs
    below =
        All-imp (λ (j : QuotaResetJob). j.id ≤ db.last_job_id) (λ (j : QuotaResetJob). j.id < k)
          db.quota_reset_jobs (λ j le. omega arith) v.jobs_below

    counted :
        count_where
          (of_job k)
          (db.quota_reset_job_items ++ items_for db.key_bindings k now db.last_item_id targets)
        ≡ length targets
    counted = omega (
      arith,
      count_where-append (of_job k) db.quota_reset_job_items
          (items_for db.key_bindings k now db.last_item_id targets),
      items_for-count db.key_bindings k now db.last_item_id targets,
      count_where-zero (λ (i : QuotaResetJobItem). i.job_id ≤ db.last_job_id) (of_job k)
          db.quota_reset_job_items (λ i h. ground arith) v.items_below,
    )

    by_actor :
        ok (set_total (length targets) (queued_job k now actor))
        ≡ ok (
            created k now actor
              (record no_counters { total = length targets; pending = length targets }))
    by_actor = let e : (ltb 0 actor) ≡ true = ground (arith, some_actor) in rw e refl
