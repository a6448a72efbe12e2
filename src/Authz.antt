-- ===== src/Authz.antt =====
-- internal/api: which requests an actor may make.
pub mod Classify
pub mod Policy
pub mod Open
pub mod Documents
pub mod Enforce
mod Tests
