-- ===== src/Store.antt =====
-- The store of internal/store: its tables, and the calls that read and change them.
pub mod Model
pub mod Tx
pub mod QuotaReset
pub mod Bindings
pub mod Users
pub mod Sessions
pub mod Accounts
pub mod Announcements
pub mod Setup
pub mod Pool
