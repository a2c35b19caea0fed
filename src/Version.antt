-- ===== src/Version.antt =====
-- The two readers of semantic versions: cmd/sub2api-limit-updater/semver.go and
-- internal/sub2api/version.go.
pub mod Identifiers
pub mod Updater
pub mod Portal
pub mod Order
pub mod Agree
pub mod Transitive
