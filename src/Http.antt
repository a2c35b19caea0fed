-- ===== src/Http.antt =====
-- The HTTP layer of internal/httpapi.
pub mod ResetItem
pub mod ResetJob
pub mod Login
