-- ===== src/Mfa.antt =====
-- Second factors: the tables behind crates/knox-storage/src/mfa/store.rs, and
-- crates/knox-core/src/mfa.rs.
pub mod Store
pub mod Totp
pub mod Service
pub mod Options
pub mod Replay
pub mod Window
