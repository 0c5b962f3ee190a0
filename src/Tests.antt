-- ===== src/Tests.antt =====
-- The theorems at concrete states, and runs of the services.
mod Fixtures
mod Oidc
mod Grants
mod Codes
mod Factors
mod Challenges
mod Keys
mod Directory
mod Server
mod Names
mod Change
mod Scopes
mod Login
