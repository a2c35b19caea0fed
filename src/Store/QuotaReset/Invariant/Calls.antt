-- ===== src/Store/QuotaReset/Invariant/Calls.antt =====
-- Every call keeps the invariant, and so does every history of calls.
use sub2api5hlimit.Base.{List, [], ◌∷◌}
use sub2api5hlimit.Store.Model.{Db}
use sub2api5hlimit.Store.QuotaReset.Calls.{
  Call, create, start_job, start_item, complete, finish, abort, recover, record_single, step, run,
}
use sub2api5hlimit.Store.QuotaReset.Invariant.Valid.{IsValid}
use sub2api5hlimit.Store.QuotaReset.Invariant.Items.{
  mark_quota_reset_item_running-IsValid, complete_quota_reset_item-IsValid,
}
use sub2api5hlimit.Store.QuotaReset.Invariant.Abort.{
  finish_quota_reset_job-IsValid, abort_quota_reset_job-IsValid, recover-IsValid,
}
use sub2api5hlimit.Store.QuotaReset.Invariant.Create.{
  create_quota_reset_job-IsValid, mark_quota_reset_job_running-IsValid, record_single-IsValid,
}

-- Each call on reset jobs keeps the invariant, whether it succeeds or fails.
pub step-IsValid : (db : Db) (c : Call) → IsValid db → IsValid (step db c)
unfolding step
step-IsValid db (create now actor) v = create_quota_reset_job-IsValid now actor db v
step-IsValid db (start_job now k) v = mark_quota_reset_job_running-IsValid now k db v
step-IsValid db (start_item now k i) v = mark_quota_reset_item_running-IsValid now k i db v
step-IsValid db (complete now k i s code) v = complete_quota_reset_item-IsValid now k i s code db v
step-IsValid db (finish now k actor) v = finish_quota_reset_job-IsValid now k actor db v
step-IsValid db (abort now k actor code) v = abort_quota_reset_job-IsValid k actor code now db v
step-IsValid db (recover now) v = recover-IsValid now db v
step-IsValid db (record_single now actor u key s code) v =
    record_single-IsValid now actor u key s code db v

-- From a database whose reset jobs satisfy the invariant, every history of calls on reset jobs
-- leads to one that does: at most one job is queued or running, every job's counters are the counts
-- of its items by status, a completed job has no pending and no running item, job ids are distinct,
-- no job and no item's job has an id beyond the sequence, and every stored error code is safe.
pub run-IsValid : (db : Db) (cs : List Call) → IsValid db → IsValid (run db cs)
unfolding run
run-IsValid db [] v = v
run-IsValid db (c ∷ cs) v = run-IsValid (step db c) cs (step-IsValid db c v)
