-- ===== src/Store/QuotaReset.antt =====
-- internal/store/quota_reset.go: the batch reset jobs and their items.
pub mod Statements
pub mod Jobs
pub mod Items
pub mod Calls
pub mod Counts
pub mod Invariant
pub mod Abort
pub mod Active
pub mod Recover
pub mod Frozen
