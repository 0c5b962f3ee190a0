-- ===== src/Server/Error.antt =====
-- server/src/error.rs: the errors of the handlers and the HTTP statuses that they answer with.
use knox_iam_public.Base.{ℕ, String}
use knox_iam_public.Common.Error.{RepositoryError, OidcError, ServiceError}

pub data AppError : Type 0 where
  not_found internal_server_error : AppError
  bad_request unauthorized forbidden : String → AppError
  service_error : ServiceError → AppError

unfoldable pub oidc_status : OidcError → ℕ
oidc_status OidcError.invalid_client_secret = 401
oidc_status OidcError.access_denied = 403
oidc_status (OidcError.invalid_request m) = 400
oidc_status OidcError.invalid_grant = 400
oidc_status OidcError.unauthorized_client = 400
oidc_status OidcError.unsupported_response_type = 400
oidc_status OidcError.invalid_scope = 400
oidc_status (OidcError.server_error m) = 500

unfoldable pub status_for : ServiceError → ℕ
unfolding oidc_status
status_for ServiceError.invalid_credentials = 401
status_for ServiceError.invalid_mfa_code = 401
status_for ServiceError.invalid_mfa_token = 401
status_for ServiceError.invalid_sso_token = 401
status_for ServiceError.sso_token_expired = 401
status_for ServiceError.invalid_reset_token = 401
status_for ServiceError.invalid_auth_code = 401
status_for (ServiceError.mfa_required details) = 401
status_for ServiceError.forbidden = 403
status_for ServiceError.mfa_too_many_attempts = 429
status_for ServiceError.too_many_authentication_attempts = 429
status_for ServiceError.mfa_already_enrolled = 409
status_for ServiceError.duplicate_identity = 409
status_for ServiceError.mfa_not_enrolled = 400
status_for (ServiceError.validation m) = 400
status_for ServiceError.redirect_uri_mismatch = 400
status_for (ServiceError.repository RepositoryError.not_found) = 404
status_for (ServiceError.repository RepositoryError.duplicate) = 409
status_for (ServiceError.repository RepositoryError.database) = 500
status_for (ServiceError.oidc e) = oidc_status e
status_for (ServiceError.internal m) = 500

-- The status of the response; its body only shows the error.
unfoldable pub into_response : AppError → ℕ
unfolding status_for
into_response AppError.not_found = 404
into_response AppError.internal_server_error = 500
into_response (AppError.bad_request m) = 400
into_response (AppError.unauthorized m) = 401
into_response (AppError.forbidden m) = 403
into_response (AppError.service_error e) = status_for e
