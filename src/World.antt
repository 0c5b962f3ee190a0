-- ===== src/World.antt =====
-- The state that the services share, and the monad of a fallible service call: the state comes
-- back after an error too, since what was written stays written.
mod Monad
pub mod Laws
pub mod Runs
pub mod Frame
pub mod Tables
pub mod Cache
unfoldable pub use Monad.*
use knox_iam_public.Base.{ℕ, suc, ◌+◌, Bool, true, false, String, List, [], ◌∷◌, Option, none, some}
use knox_iam_public.Common.Error.{RepositoryError, ServiceError}
use knox_iam_public.Common.Directory.{Uuid, Identity, IdentityPool, Client, TenantKey}
use knox_iam_public.Common.Authorization.{Permission, Role, IdentityRole, permissions_of}
use knox_iam_public.Common.Token.{RefreshToken}
use knox_iam_public.Common.Mfa.{MfaMethod, BackupCode}
use knox_iam_public.Common.Audit.{AuditEvent}
use knox_iam_public.Externals.{Externals, Redis}

-- The clock, the random draws made so far, Redis, the tables of Postgres, the audit events sent
-- (newest first), and for each storage call to come whether it fails.
pub record World (ext : Externals) : Type 0 where
  pub now : ℕ
  pub draws : ℕ
  pub redis : ext.redis.State
  pub refresh_tokens : List RefreshToken
  pub identities : List Identity
  pub pools : List IdentityPool
  pub clients : List Client
  pub keys : List TenantKey
  pub mfa_methods : List MfaMethod
  pub backup_codes : List BackupCode
  pub permission_rows : List Permission
  pub roles : List Role
  pub identity_roles : List IdentityRole
  pub audit : List AuditEvent
  pub outages : List Bool

-- What an identity may do, by its roles.
abbrev pub held_by : {ext : Externals} → World ext → Uuid → List String
held_by w id = permissions_of w.identities w.roles w.identity_roles id

abbrev pub Action : Externals → Type 0 → Type 0
Action ext A = World ext → Result A × World ext

module _ {ext : Externals} where
  -- One storage call: it fails with a database error, and then has no effect, where the schedule
  -- says so.
  pub storage_from : {A : Type 0} → List Bool → Action ext A → Action ext A
  storage_from [] m w = m w
  storage_from (true ∷ rest) m w =
      (err (ServiceError.repository RepositoryError.database), record w { outages = rest })
  storage_from (false ∷ rest) m w = m (record w { outages = rest })

  unfoldable pub storage : {A : Type 0} → Action ext A → Action ext A
  unfolding storage_from
  storage m w = storage_from w.outages m w
