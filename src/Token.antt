-- ===== src/Token.antt =====
-- Tokens: Redis behind crates/knox-storage/src/token/cache.rs, the refresh_tokens table behind
-- store.rs, the repository that joins them, and crates/knox-core/src/token.rs.
pub mod Cache
pub mod Store
pub mod Families
pub mod Repository
pub mod Service
pub mod Jwt
pub mod Codes
pub mod Transient
pub mod Epoch
pub mod Counters
