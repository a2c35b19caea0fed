-- ===== src/Store/QuotaReset/Invariant.antt =====
-- What holds of the store's reset jobs between any two calls.
pub mod Rows
pub mod Valid
pub mod Items
pub mod Close
pub mod Abort
pub mod Create
pub mod Calls
