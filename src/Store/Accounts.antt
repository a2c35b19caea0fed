-- ===== src/Store/Accounts.antt =====
-- The accounts of the portal over the calls of users.go, bindings.go and sessions.go.
pub mod Calls
pub mod Valid
pub mod Keeps
pub mod History
pub mod Sessions
pub mod Snapshots
