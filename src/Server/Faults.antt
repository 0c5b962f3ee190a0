-- ===== src/Server/Faults.antt =====
-- server/src/error.rs: which errors are answered as faults of the server.
use knox_iam_public.Base.{ℕ, String, ◌≡◌, ◌≤◌, ◌<◌, ◌⊎◌}
use knox_iam_public.Common.Error.{RepositoryError, OidcError, ServiceError}
use package.knox_iam_public.Server.Error.{AppError}

-- The faults: an unexpected failure of the server, of its database or of a service.
pub data IsOidcFault : OidcError → Type 0 where
  server_error : (message : String) → IsOidcFault (OidcError.server_error message)

pub data IsServiceFault : ServiceError → Type 0 where
  database : IsServiceFault (ServiceError.repository RepositoryError.database)
  internal : (message : String) → IsServiceFault (ServiceError.internal message)
  oidc : (e : OidcError) → IsOidcFault e → IsServiceFault (ServiceError.oidc e)

pub data IsFault : AppError → Type 0 where
  internal_server_error : IsFault AppError.internal_server_error
  service_error : (e : ServiceError) → IsServiceFault e → IsFault (AppError.service_error e)

-- A status for a fault, or for the others.
abbrev pub IsAnswer : Type 0 → ℕ → Type 0
IsAnswer Fault status = (Fault × (status ≡ 500)) ⊎ ((400 ≤ status) × (status < 500))
