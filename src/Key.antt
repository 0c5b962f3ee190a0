-- ===== src/Key.antt =====
-- The keys of the tenants: crates/knox-storage/src/key and crates/knox-core/src/key.rs.
pub mod Store
pub mod Cache
pub mod Repository
pub mod Service
pub mod CacheNames
pub mod Rows
pub mod Coherence
pub mod Fitting
pub mod Reads
pub mod Changed
pub mod Writes
pub mod Refinement
pub mod Refusal
pub mod History
pub mod Revocation
pub mod Encryption
pub mod Blobs
pub mod Published
