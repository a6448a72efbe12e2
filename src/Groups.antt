-- ===== src/Groups.antt =====
-- internal/api/groupmembers.go: membership of groups as rows.
pub mod Members
pub mod Codec
pub mod Documents
pub mod Index
mod Tests
