-- ===== src/Authentication.antt =====
-- crates/knox-core/src/authentication.rs: `AuthenticationService`.
pub mod Session
pub mod SignOn
pub mod Revocation
pub mod Redeemed
pub mod PasswordChange
pub mod Challenge
pub mod Password
