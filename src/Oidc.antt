-- ===== src/Oidc.antt =====
-- crates/knox-services/src/oidc: the OAuth 2.0 and OpenID Connect flows.
pub mod Models
pub mod Tables
pub mod Scopes
pub mod Authorize
pub mod Grants
pub mod Token
pub mod Rotation
pub mod Codes
pub mod Consent
pub mod Stripping
pub mod Machine
pub mod Redemption
