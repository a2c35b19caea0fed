-- ===== src/Tests/Runs.antt =====
-- The properties of a job's run at a concrete world.
use sub2api5hlimit.Base.{refl, false, List, [], ◌∷◌, arith}
use sub2api5hlimit.Http.ResetJob.{
  World, idle, Event, work, answers, begin_single, end_single, react_all,
}
use sub2api5hlimit.Http.ResetJob.Exclusive.{IsExclusive, react_all-IsExclusive}
use sub2api5hlimit.Http.ResetJob.{
  run_quota_reset_job, returns, marked, resetting, gone, Progress, returned, waits, begin_run,
  react, work_on, conclude, all_gone, logged_abort,
}
use sub2api5hlimit.Http.ResetJob.Sends.{Entered, work_on-Entered}
use sub2api5hlimit.Base.{Bool, get_elem?}
use sub2api5hlimit.Store.QuotaReset.Statements.{
  quota_reset_transition_result, quota_reset_job_by_id, recompute_quota_reset_counters,
  is_quota_reset_terminal_status,
}
use sub2api5hlimit.Store.QuotaReset.Items.{
  mark_quota_reset_job_running, quota_reset_job_with_items, mark_quota_reset_item_running,
  update_item_tx, complete_quota_reset_item, finish_quota_reset_job,
}
use sub2api5hlimit.Http.ResetItem.{begin_quota_reset, holds}
use sub2api5hlimit.Http.ResetJob.Completes.{aborting}
use sub2api5hlimit.Store.Model.{JobStatus, Db, QuotaResetJobItem}
use sub2api5hlimit.Base.{none, true, arith, refl}
use sub2api5hlimit.Store.QuotaReset.Statements.{counters_of, is_safe_quota_reset_error_code}
use sub2api5hlimit.Base.{◌≡◌, ◌∷◌, some, codes}
use sub2api5hlimit.Store.Model.{ItemStatus}
use sub2api5hlimit.Store.Users.{user_by_id}
use sub2api5hlimit.Http.ResetItem.{
  Failure, reset_terminal_state, user_resettable, validate_quota_reset_item,
}
use sub2api5hlimit.Http.ResetItem.Outcomes.{IsAccepted, outcomes-IsAccepted}
use sub2api5hlimit.Tests.{waiting, waiting_item, waiting_job}

-- Four workers before the channel of a job with one item.
abbrev started : World
started = record {
  db = waiting;
  queue = waiting_item ∷ [];
  workers = idle ∷ idle ∷ idle ∷ idle ∷ [];
  fatal = false;
  busy = [];
  singles = [];
}

started-IsExclusive : IsExclusive started
unfolding IsExclusive
started-IsExclusive key = (omega arith, refl)

abbrev steps : List Event
steps =
    work 20 0 answers
    ∷ work 20 0 answers
    ∷ begin_single 7
    ∷ work 21 0 answers
    ∷ end_single 7
    ∷ work 22 0 answers
    ∷ work 22 1 answers
    ∷ []

react_all-IsExclusive_example : IsExclusive (react_all 1 started steps)
react_all-IsExclusive_example = react_all-IsExclusive 1 started steps started-IsExclusive

abbrev queued : Db
queued = record waiting {
  quota_reset_jobs = record waiting_job { status = JobStatus.queued; started_at = none } ∷ [];
}

-- The whole run: the item is reset, and every worker meets the end of the channel.
abbrev whole : List Event
whole =
    work 20 0 answers
    ∷ work 20 0 answers
    ∷ work 21 0 answers
    ∷ work 22 0 (returns true none)
    ∷ work 23 0 answers
    ∷ work 24 0 answers
    ∷ work 24 1 answers
    ∷ work 24 2 answers
    ∷ work 24 3 answers
    ∷ []

abbrev is_returned : Progress → Bool
is_returned (returned db) = true
is_returned (waits w) = false

-- The run returns.
whole_returns :
    is_returned (run_quota_reset_job (aborting true true true) 30 1 2 [] whole queued) ≡ true
unfolding run_quota_reset_job begin_run mark_quota_reset_job_running quota_reset_transition_result
    quota_reset_job_with_items quota_reset_job_by_id react_all react work_on conclude all_gone
    mark_quota_reset_item_running update_item_tx recompute_quota_reset_counters counters_of
    validate_quota_reset_item user_by_id user_resettable begin_quota_reset holds
    reset_terminal_state complete_quota_reset_item is_quota_reset_terminal_status
    is_safe_quota_reset_error_code logged_abort finish_quota_reset_job
whole_returns = refl

abbrev about_to_send : World
about_to_send = record started { queue = []; workers = marked waiting_item ∷ gone ∷ [] }

sends :
    get_elem? (work_on 21 1 0 (marked waiting_item) answers about_to_send).workers 0
    ≡ some (resetting waiting_item 7)
unfolding work_on validate_quota_reset_item user_by_id user_resettable begin_quota_reset holds
sends = refl

work_on-Entered_example :
    Entered 0 waiting_item 7
      (marked waiting_item)
      about_to_send
      (work_on 21 1 0 (marked waiting_item) answers about_to_send)
work_on-Entered_example =
    work_on-Entered 21 1 0 (marked waiting_item) answers about_to_send waiting_item 7 refl refl
      sends

-- The same item for another key.
abbrev moved_item : QuotaResetJobItem
moved_item = record waiting_item { upstream_key_id = some 8 }

skips :
    validate_quota_reset_item moved_item waiting
    ≡ some (ItemStatus.skipped, codes "BINDING_CHANGED")
unfolding validate_quota_reset_item user_by_id user_resettable
skips = refl

abbrev timeout : Failure
timeout = record { canceled = false; timed_out = true; status_code = none }

outcomes-IsAccepted_example :
    IsAccepted (reset_terminal_state false (some timeout))
    × IsAccepted (ItemStatus.skipped, codes "BINDING_CHANGED")
outcomes-IsAccepted_example =
    outcomes-IsAccepted false (some timeout) moved_item waiting
      (ItemStatus.skipped, codes "BINDING_CHANGED") skips
