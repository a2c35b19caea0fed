-- ===== src/Http/ResetJob/Completes.antt =====
-- internal/httpapi/quota_resets.go: what a batch job leaves, whatever its workers meet.
use sub2api5hlimit.Base.{ℕ, ◌≡◌, Bool, true, false, ◌&&◌}
use sub2api5hlimit.Http.ResetJob.{Driver, Progress, waits, returned, all_gone}
use sub2api5hlimit.Base.{◌&&◌}
use sub2api5hlimit.Http.ResetJob.Ready.{Ready}
use sub2api5hlimit.Http.ResetJob.Ends.{IsIdle}

-- A returned run has left the database idle; one that waits has its job running.
abbrev pub Leaves : ℕ → Progress → Type 0
Leaves k (returned db) = IsIdle db
Leaves k (waits w) = Ready k w.db × (all_gone w.workers ≡ false)

-- A driver whose last abort is answered.
abbrev pub aborting : Bool → Bool → Bool → Driver
aborting marks reads finishes = record {
  marks = marks;
  reads = reads;
  finishes = finishes;
  aborts = true;
}
