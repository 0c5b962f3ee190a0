-- ===== src/Common.antt =====
-- The domain types of crates/knox-common: records for its structs, data types for its enums, with
-- the fields that some modelled operation reads or writes.
pub mod Error
pub mod Directory
pub mod Token
pub mod Authorization
pub mod Key
pub mod Mfa
pub mod Audit
pub use Error.{RepositoryError, ServiceError}
