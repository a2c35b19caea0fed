-- ===== src/Store/QuotaReset/Counts.antt =====
-- How the counters of a job change when items do.
use sub2api5hlimit.Base.{
  ℕ, ◌+◌, ◌≡◌, ◌≢◌, ◌<◌, refl, ap, Bool, true, false, ◌&&◌, ◌==◌, List, [], ◌∷◌, ◌++◌, arith,
  count_where, update_where, All, count_where-append, count_where-update_where_eq, count_where-zero,
}
use sub2api5hlimit.Store.Model.{Text, ItemStatus, QuotaResetJobItem}
use sub2api5hlimit.Store.QuotaReset.Statements.{
  is_pending, is_running, is_succeeded, is_failed, is_unknown, is_skipped, of_job, count_status,
  counters_of,
}
use sub2api5hlimit.Store.QuotaReset.Jobs.{is_item_open, close_item}

-- An update that touches items of job k only.
pub record IsLocal (k : ℕ) (p : QuotaResetJobItem → Bool)
    (f : QuotaResetJobItem → QuotaResetJobItem) : Type 0 where
  pub touches : (i : QuotaResetJobItem) → p i ≡ true → i.job_id ≡ k
  pub keeps : (i : QuotaResetJobItem) → (f i).job_id ≡ i.job_id

module _ (k : ℕ) (p : QuotaResetJobItem → Bool) (f : QuotaResetJobItem → QuotaResetJobItem)
    (loc : IsLocal k p f) where
  other_test :
      (q : ItemStatus → Bool) (n : ℕ) (i : QuotaResetJobItem)
      → n ≢ k
      → p i ≡ true
      → ((f i).job_id == n && q (f i).status) ≡ (i.job_id == n && q i.status)
  other_test q n i h t = ground (arith, loc.touches i t, loc.keeps i)

  count_status-other :
      (q : ItemStatus → Bool) (n : ℕ) (items : List QuotaResetJobItem)
      → n ≢ k
      → count_status n q (update_where p f items) ≡ count_status n q items
  count_status-other q n items h =
      count_where-update_where_eq (λ i. i.job_id == n && q i.status) p f items
        (λ i t. other_test q n i h t)

  of_job-update :
      (n : ℕ) (items : List QuotaResetJobItem)
      → count_where (of_job n) (update_where p f items) ≡ count_where (of_job n) items
  of_job-update n items =
      count_where-update_where_eq (of_job n) p f items (λ i t. ap (λ (m : ℕ). m == n) (loc.keeps i))

  pub counters_of-other :
      (n : ℕ) (items : List QuotaResetJobItem)
      → n ≢ k
      → counters_of n (update_where p f items) ≡ counters_of n items
  unfolding counters_of
  counters_of-other n items h = λ i. record {
    total = of_job-update n items i;
    pending = count_status-other is_pending n items h i;
    running = count_status-other is_running n items h i;
    succeeded = count_status-other is_succeeded n items h i;
    failed = count_status-other is_failed n items h i;
    unknown = count_status-other is_unknown n items h i;
    skipped = count_status-other is_skipped n items h i;
  }

-- The six statuses partition the items of a job.
pub counters_of_total :
    (k : ℕ) (items : List QuotaResetJobItem)
    → let c = counters_of k items in
      c.total ≡ c.pending + c.running + c.succeeded + c.failed + c.unknown + c.skipped
unfolding counters_of
counters_of_total k [] = refl
counters_of_total k (i ∷ items) = ground (arith, counters_of_total k items)

-- Closing the open items of a job leaves none open.
pub count_status-close :
    (k : ℕ) (q : ItemStatus → Bool) (code : Text) (now : ℕ) (items : List QuotaResetJobItem)
    → ((s : ItemStatus) → q s ≡ true → is_item_open s ≡ true)
    → count_status k q
        (update_where (λ i. i.job_id == k && is_item_open i.status) (close_item code now) items)
      ≡ 0
count_status-close k q code now [] h = refl
count_status-close k q code now (i ∷ items) h =
    ground (arith, h i.status, h ItemStatus.unknown, count_status-close k q code now items h)

pub counters_of-append_other :
    (k n : ℕ) (items more : List QuotaResetJobItem)
    → n ≢ k
    → All (λ i. i.job_id ≡ k) more
    → counters_of n (items ++ more) ≡ counters_of n items
unfolding counters_of
counters_of-append_other k n items more h m = λ i. record {
  total = none_of (of_job n) (λ j e. ground arith) i;
  pending = status is_pending i;
  running = status is_running i;
  succeeded = status is_succeeded i;
  failed = status is_failed i;
  unknown = status is_unknown i;
  skipped = status is_skipped i;
}
  where
    none_of :
        (q : QuotaResetJobItem → Bool)
        → ((j : QuotaResetJobItem) → j.job_id ≡ k → q j ≡ false)
        → count_where q (items ++ more) ≡ count_where q items
    none_of q g = omega (
      arith,
      count_where-append q items more,
      count_where-zero (λ (j : QuotaResetJobItem). j.job_id ≡ k) q more g m,
    )

    status : (q : ItemStatus → Bool) → count_status n q (items ++ more) ≡ count_status n q items
    status q = none_of (λ j. j.job_id == n && q j.status) (λ j e. ground arith)

-- The counters of a job that has nothing but its new items.
pub counters_of-new :
    (k : ℕ) (items more : List QuotaResetJobItem)
    → All (λ i. i.job_id < k) items
    → All (λ i. (i.job_id ≡ k) × (i.status ≡ ItemStatus.pending)) more
    → let n = count_where (of_job k) (items ++ more) in
      counters_of k (items ++ more) ≡ record {
        total = n;
        pending = n;
        running = 0;
        succeeded = 0;
        failed = 0;
        unknown = 0;
        skipped = 0;
      }
unfolding counters_of
counters_of-new k items more old new = λ i. record {
  total = count_where (of_job k) (items ++ more);
  pending = all_pending i;
  running = no_other is_running refl i;
  succeeded = no_other is_succeeded refl i;
  failed = no_other is_failed refl i;
  unknown = no_other is_unknown refl i;
  skipped = no_other is_skipped refl i;
}
  where
    old_zero : (q : ItemStatus → Bool) → count_status k q items ≡ 0
    old_zero q =
        count_where-zero (λ (i : QuotaResetJobItem). i.job_id < k) _ items (λ i h. ground arith) old

    no_other :
        (q : ItemStatus → Bool)
        → q ItemStatus.pending ≡ false
        → count_status k q (items ++ more) ≡ 0
    no_other q e = omega (
      arith,
      count_where-append (λ (i : QuotaResetJobItem). i.job_id == k && q i.status) items more,
      old_zero q,
      count_where-zero (λ (i : QuotaResetJobItem). (i.job_id ≡ k) × (i.status ≡ ItemStatus.pending))
          (λ (i : QuotaResetJobItem). i.job_id == k && q i.status) more
          (λ i h. ground (arith, ap q h.1)) new,
    )

    same :
        (more : List QuotaResetJobItem)
        → All (λ i. (i.job_id ≡ k) × (i.status ≡ ItemStatus.pending)) more
        → count_status k is_pending more ≡ count_where (of_job k) more
    same [] h = refl
    same (i ∷ more) h = ground (arith, same more h.1, h.0)

    all_pending : count_status k is_pending (items ++ more) ≡ count_where (of_job k) (items ++ more)
    all_pending = omega (
      arith,
      count_where-append (λ (i : QuotaResetJobItem). i.job_id == k && is_pending i.status) items
          more,
      count_where-append (of_job k) items more,
      same more new,
      old_zero is_pending,
      count_where-zero (λ (i : QuotaResetJobItem). i.job_id < k) (of_job k) items
          (λ i h. ground arith) old,
    )
