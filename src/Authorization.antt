-- ===== src/Authorization.antt =====
-- Roles, permissions and their assignment: crates/knox-storage/src/authorization.
pub mod Store
pub mod Cache
pub mod Repository
pub mod Membership
pub mod Granting
pub mod Revoking
