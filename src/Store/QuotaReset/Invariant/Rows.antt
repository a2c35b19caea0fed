-- ===== src/Store/QuotaReset/Invariant/Rows.antt =====
-- The invariant of the reset jobs, stated of the tables, and what each kind of UPDATE does to it.
use sub2api5hlimit.Base.{
  ℕ, ◌≡◌, ◌≢◌, ◌≤◌, refl, sym, ap, ◌∙◌, ◌⊎◌, inl, inr, Bool, true, false, ◌&&◌, ◌==◌, if◌then◌else◌,
  List, [], ◌∷◌, arith, count_where, update_where, find_where, some, All,
  count_where-update_where_eq, count_where-update_where_le, Bool-cases, ==_iff,
}
use sub2api5hlimit.Store.Model.{JobStatus, Counters, QuotaResetJob, QuotaResetJobItem}
use sub2api5hlimit.Store.QuotaReset.Statements.{is_job_active, counters_of}
use sub2api5hlimit.Store.QuotaReset.Jobs.{complete_job}

-- No item waits or runs.
abbrev pub IsClosed : Counters → Type 0
IsClosed c = (c.pending ≡ 0) × (c.running ≡ 0)

-- Every job's counters are those of its items.
abbrev pub Counted : List QuotaResetJobItem → List QuotaResetJob → Type 0
Counted items = All (λ j. j.counters ≡ counters_of j.id items)

-- A completed job has no open item.
abbrev pub Settled : List QuotaResetJob → Type 0
Settled = All (λ j. j.status ≡ JobStatus.completed → IsClosed j.counters)

abbrev pub active_jobs : List QuotaResetJob → ℕ
active_jobs = count_where (λ j. is_job_active j.status)

abbrev pub set_counters : Counters → ℕ → QuotaResetJob → QuotaResetJob
set_counters out now j = record j { counters = out; updated_at = now }

pub Counted-recount :
    (k now : ℕ) (items items' : List QuotaResetJobItem) (jobs : List QuotaResetJob)
    → ((n : ℕ) → n ≢ k → counters_of n items' ≡ counters_of n items)
    → Counted items jobs
    → Counted items' (update_where (λ j. j.id == k) (set_counters (counters_of k items') now) jobs)
Counted-recount k now items items' [] h c = tt
Counted-recount k now items items' (j ∷ jobs) h c =
    (row (Bool-cases (j.id == k)), Counted-recount k now items items' jobs h c.1)
  where
    row :
        ((j.id == k) ≡ true) ⊎ ((j.id == k) ≡ false)
        → let r = if j.id == k then set_counters (counters_of k items') now j else j in
          r.counters ≡ counters_of r.id items'
    row (inl e) = rw e (ap (λ (n : ℕ). counters_of n items') (sym ((==_iff j.id k).0 e)))
    row (inr e) = rw e (c.0 ∙ sym (h j.id (ground arith)))

-- After the recount every job k holds the new counters.
pub Recounted :
    (k now : ℕ) (out : Counters) (jobs : List QuotaResetJob)
    → All
        (λ j. j.id ≡ k → j.counters ≡ out)
        (update_where (λ j. j.id == k) (set_counters out now) jobs)
Recounted k now out [] = tt
Recounted k now out (j ∷ jobs) = (row (Bool-cases (j.id == k)), Recounted k now out jobs)
  where
    row :
        ((j.id == k) ≡ true) ⊎ ((j.id == k) ≡ false)
        → let r = if j.id == k then set_counters out now j else j in r.id ≡ k → r.counters ≡ out
    row (inl e) = rw e (λ _. refl)
    row (inr e) = rw e (λ h. absurd (ground arith))

pub Settled-recount :
    (k now : ℕ) (out : Counters) (jobs : List QuotaResetJob)
    → All (λ j. j.id ≡ k → j.status ≡ JobStatus.completed → IsClosed out) jobs
    → Settled jobs
    → Settled (update_where (λ j. j.id == k) (set_counters out now) jobs)
Settled-recount k now out [] h s = tt
Settled-recount k now out (j ∷ jobs) h s =
    (row (Bool-cases (j.id == k)), Settled-recount k now out jobs h.1 s.1)
  where
    row :
        ((j.id == k) ≡ true) ⊎ ((j.id == k) ≡ false)
        → let r = if j.id == k then set_counters out now j else j in
          r.status ≡ JobStatus.completed → IsClosed r.counters
    row (inl e) = rw e (h.0 ((==_iff j.id k).0 e))
    row (inr e) = rw e s.0

abbrev pub of_id : ℕ → (JobStatus → Bool) → QuotaResetJob → Bool
of_id k status_ok j = j.id == k && status_ok j.status

pub Counted-complete :
    (k now : ℕ) (ok? : JobStatus → Bool) (items : List QuotaResetJobItem)
    (jobs : List QuotaResetJob)
    → Counted items jobs
    → Counted items (update_where (of_id k ok?) (complete_job now) jobs)
Counted-complete k now ok? items [] c = tt
Counted-complete k now ok? items (j ∷ jobs) c =
    (row (of_id k ok? j), Counted-complete k now ok? items jobs c.1)
  where
    row :
        (b : Bool)
        → let r = if b then complete_job now j else j in r.counters ≡ counters_of r.id items
    row true = c.0
    row false = c.0

pub Settled-complete :
    (k now : ℕ) (ok? : JobStatus → Bool) (jobs : List QuotaResetJob)
    → All (λ j. j.id ≡ k → IsClosed j.counters) jobs
    → Settled jobs
    → Settled (update_where (of_id k ok?) (complete_job now) jobs)
Settled-complete k now ok? [] h s = tt
Settled-complete k now ok? (j ∷ jobs) h s =
    (row (Bool-cases (of_id k ok? j)), Settled-complete k now ok? jobs h.1 s.1)
  where
    row :
        (of_id k ok? j ≡ true) ⊎ (of_id k ok? j ≡ false)
        → let r = if of_id k ok? j then complete_job now j else j in
          r.status ≡ JobStatus.completed → IsClosed r.counters
    row (inl e) = rw e (λ _. h.0 (ground arith))
    row (inr e) = rw e s.0

pub active_jobs_complete :
    (k now : ℕ) (ok? : JobStatus → Bool) (jobs : List QuotaResetJob)
    → active_jobs (update_where (of_id k ok?) (complete_job now) jobs) ≤ active_jobs jobs
active_jobs_complete k now ok? jobs =
    count_where-update_where_le (λ j. is_job_active j.status) (of_id k ok?) (complete_job now) jobs
      (λ j _ e. cc)

pub active_jobs-recount :
    (k now : ℕ) (out : Counters) (jobs : List QuotaResetJob)
    → active_jobs (update_where (λ j. j.id == k) (set_counters out now) jobs) ≡ active_jobs jobs
active_jobs-recount k now out jobs =
    count_where-update_where_eq (λ j. is_job_active j.status) (λ j. j.id == k)
      (set_counters out now) jobs (λ j _. refl)

-- A completed job has no open items, so an open item of job k shows that job k is not completed.
pub completed-IsClosed :
    (k : ℕ) (items : List QuotaResetJobItem) (jobs : List QuotaResetJob)
    → Counted items jobs
    → Settled jobs
    → All (λ j. j.id ≡ k → j.status ≡ JobStatus.completed → IsClosed (counters_of k items)) jobs
completed-IsClosed k items [] c s = tt
completed-IsClosed k items (j ∷ jobs) c s = (row, completed-IsClosed k items jobs c.1 s.1)
  where
    row : j.id ≡ k → j.status ≡ JobStatus.completed → IsClosed (counters_of k items)
    row e d =
        let same : j.counters ≡ counters_of k items = c.0 ∙ ap (λ (n : ℕ). counters_of n items) e in
        (
          ap (λ (c : Counters). c.pending) (sym same) ∙ (s.0 d).0,
          ap (λ (c : Counters). c.running) (sym same) ∙ (s.0 d).1,
        )

-- Finding a job by its id after an update that keeps the ids.
pub find-update :
    (k : ℕ) (p : QuotaResetJob → Bool) (f : QuotaResetJob → QuotaResetJob)
    → ((j : QuotaResetJob) → (f j).id ≡ j.id)
    → (jobs : List QuotaResetJob) (j : QuotaResetJob) → find_where (λ j. j.id == k) jobs ≡ some j
    → find_where (λ j. j.id == k) (update_where p f jobs) ≡ some (if p j then f j else j)
find-update k p f same [] j e = absurd (cc)
find-update k p f same (i ∷ jobs) j e = ground (arith, same i, find-update k p f same jobs j)
