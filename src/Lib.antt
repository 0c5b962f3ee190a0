-- ===== src/Lib.antt =====
-- Knox IAM: the OAuth 2.0 and OpenID Connect core of the identity service.
--
-- The program and its files
--   Common        crates/knox-common/src: the types that the layers share (error.rs, identity.rs,
--                 client.rs, pool.rs, tenant.rs, key.rs, token.rs, mfa.rs, audit.rs).
--   Token         crates/knox-storage/src/token (Cache: cache.rs on Redis, Store: store.rs on
--                 Postgres, Repository: repository.rs) and crates/knox-core/src/token.rs (Service:
--                 transient tokens, session epochs, refresh tokens; Jwt: the JWTs, with the key
--                 lookup of crates/knox-core/src/key.rs). Families: lemmas on refresh token rows.
--   Identity      crates/knox-core/src/identity.rs and crates/knox-storage/src/identity: the lookups,
--                 password checks and password changes; Rows (the writes and the listing),
--                 Administration (the service's operations on identities and roles), Provisioning.
--   Authorization crates/knox-storage/src/authorization: Store (roles and their assignments), Cache,
--                 Repository; Membership, Granting and Revoking: what an identity then holds.
--   Key           crates/knox-core/src/key.rs and crates/knox-storage/src/key: Store, Cache,
--                 Repository, Service, Encryption. Coherence says when the cache agrees with the
--                 table; Rows, CacheNames, Fitting, Reads, Writes, Changed, Refinement, History,
--                 Refusal, Revocation, Published and Blobs prove what follows.
--   Client        crates/knox-core/src/client.rs and crates/knox-storage/src/client: the lookups and
--                 the authentication of clients.
--   Names         crates/knox-core/src/client.rs and crates/knox-core/src/tenant.rs: which names of
--                 clients, slugs of tenants and redirect URIs are accepted.
--   Mfa           crates/knox-core/src/mfa.rs and crates/knox-storage/src/mfa: Store (the tables),
--                 Totp (the codes), Service (enrollment and verification).
--   Roles, Audit  crates/knox-core/src/roles.rs, crates/knox-core/src/audit.rs.
--   Authentication  crates/knox-core/src/authentication.rs: Session (sign-on sessions and the epoch
--                 that revokes them), Challenge (login and the second factor), Password.
--   Oidc          crates/knox-services/src/oidc: Scopes (permitted_scopes), Authorize
--                 (handle_authorize_request), Grants (the three grants), Token
--                 (handle_token_request), Models.
--   Server        server/src: Error (error.rs), Access and Bearer (middleware/auth.rs), Pools, Requests
--                 and Identities (handlers/identity.rs); Refusals, Faults, Same, Signed, Named,
--                 Accepted, Granted, Deleted and Suspended: what is refused, accepted and done.
--   Base, World, Externals, Sample, Tests  the shared helpers, the state, the parameters, concrete
--                 parameters, and runs.
--
-- The model
--   World holds the clock, the random draws made so far, Redis, the Postgres tables as lists of rows,
--   the audit events sent, and a schedule of storage failures. A service call is a function of the
--   World into a result and a World: the World comes back after an error too, since what was written
--   stays written. A storage call fails, without effect, where the schedule says so, so every
--   theorem about all states covers a failure at any storage call. Function names are the source's;
--   a guard that the source writes inline has its own definition where it is long.
--   The results are those of one error type for the services and another for the server
--   (World/Monad is for any), and World/Runs states that a call returns.
--   Calls run one after another: two requests that interleave are not modelled. All recursion is on
--   lists and numbers, and no fuel is used.
--
--   Externals names what the code calls and does not implement: Redis (a law for each command),
--   serde_json (what was written reads back), the JWT library (the issuer and the expiry are
--   checked), SHA-256, Argon2, the random generators (UUIDs do not repeat), AES-GCM, the generation of
--   RSA keys, TOTP, LIKE of Postgres and the check of e-mail addresses.
--   Sample has functions that keep all of these laws.
--
-- Not modelled: of the server, the handlers but those of identities and roles, the lookup of the
-- tenant of a request (the handlers are given a resolved one), the bodies of errors, the text of a
-- reset link, and tracing. The creation and the administration of tenants, pools and clients. The
-- Redis caches in front of the tables of identities, clients and second factors; the caches of keys
-- and permissions stand in their repositories, but the token service and the narrowing of scopes read
-- the tables. The descriptions, timestamps and order of roles; the panic of a key lifetime beyond the
-- range of dates; the audit writer; the free-form metadata of identities; and deployment.
pub mod Base
pub mod Common
pub mod Externals
pub mod World
pub mod Sample
pub mod Token
pub mod Roles
pub mod Identity
pub mod Client
pub mod Names
pub mod Oidc
pub mod Key
pub mod Mfa
pub mod Audit
pub mod Authorization
pub mod Authentication
pub mod Server
pub mod Tests
