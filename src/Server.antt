-- ===== src/Server.antt =====
-- The HTTP server, server/src: its errors, the bearer tokens that it accepts, and the handlers of
-- identities.
pub mod Error
pub mod Faults
pub mod Access
pub mod Bearer
pub mod Pools
pub mod Requests
pub mod Identities
pub mod Refusals
pub mod Same
pub mod Signed
pub mod Named
pub mod Accepted
pub mod Granted
pub mod Deleted
pub mod Suspended
