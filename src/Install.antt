-- ===== src/Install.antt =====
-- cmd/sub2api-limit-updater: how an update is installed, rolled back and recovered after a crash.
pub mod Machine
pub mod Config
pub mod Journal
pub mod Restore
pub mod Transaction
pub mod Recovery
pub mod Holds
pub mod Quiet
pub mod Recoverable
pub mod Recovers
pub mod Recovered
pub mod Undoes
pub mod Saves
pub mod Installs
pub mod Transacts
pub mod Outcomes
pub mod Succeeds
pub mod Live
pub mod Crashes
