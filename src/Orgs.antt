-- ===== src/Orgs.antt =====
-- The users of an organisation: internal/api/association.go and association_requests.go.
pub mod Answer
pub mod Invites
pub mod Associations
pub mod Requests
mod Tests
