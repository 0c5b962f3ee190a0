-- ===== src/Common/Error.antt =====
-- crates/knox-common/src/error.rs. A message that only a log or a response shows is left out, but
-- for `Validation` and `Internal`, whose text tells one refusal from another.
use knox_iam_public.Base.{String, Bool, true, false}
use knox_iam_public.Common.Mfa.{MfaRequiredDetails}

pub data RepositoryError : Type 0 where
  database not_found duplicate : RepositoryError

pub data OidcError : Type 0 where
  invalid_request : String → OidcError
  invalid_grant invalid_client_secret unauthorized_client access_denied : OidcError
  unsupported_response_type invalid_scope : OidcError
  server_error : String → OidcError

pub data ServiceError : Type 0 where
  oidc : OidcError → ServiceError
  repository : RepositoryError → ServiceError
  validation : String → ServiceError
  internal : String → ServiceError
  invalid_credentials redirect_uri_mismatch sso_token_expired invalid_sso_token : ServiceError
  duplicate_identity forbidden : ServiceError
  mfa_required : MfaRequiredDetails → ServiceError
  invalid_mfa_code invalid_mfa_token mfa_too_many_attempts : ServiceError
  too_many_authentication_attempts mfa_already_enrolled mfa_not_enrolled : ServiceError
  invalid_auth_code invalid_reset_token : ServiceError

-- `matches!(e, ServiceError::Repository(_) | ServiceError::Internal(_))`
abbrev pub is_infrastructure : ServiceError → Bool
is_infrastructure (ServiceError.repository e) = true
is_infrastructure (ServiceError.internal m) = true
is_infrastructure _ = false
