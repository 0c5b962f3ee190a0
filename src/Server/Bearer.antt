-- ===== src/Server/Bearer.antt =====
-- server/src/middleware/auth.rs: the bearer tokens that the server accepts. The tenant has been
-- resolved, from the request or else from the token.
use knox_iam_public.Base.{String, ◌&&◌, not, Option, none, is_some, ◌==◌, nat_eq, string_eq}
use knox_iam_public.Common.Directory.{is_active}
use knox_iam_public.Common.Token.{JwtClaims}
use knox_iam_public.Common.Audit.{AuditEventType, AuditOutcome}
use knox_iam_public.Externals.{Externals}
use knox_iam_public.World.{pure, fail, or_fail, fail_if, when, ◌>>=◌, ◌>>◌}
use knox_iam_public.Names.{strip_prefix}
use knox_iam_public.Client.{get_active_client}
use knox_iam_public.Identity.{get_identity}
use knox_iam_public.Token.Jwt.{verify_jwt, validate_token_version}
use package.knox_iam_public.Server.Error.{AppError}
use package.knox_iam_public.Server.Access.{
  ResolvedTenant, ServerAction, is_staff, or_unauthorized, audit,
}

module _ (ext : Externals) where
  unfoldable pub bearer_token : Option String → ServerAction ext String
  unfolding strip_prefix
  bearer_token header = do
    auth_header ← or_fail header (AppError.unauthorized "Missing Authorization header")
    or_fail (strip_prefix "Bearer " auth_header)
        (AppError.unauthorized "Authorization header must be a Bearer token")

  -- A tenant that came from the token is not compared with it.
  unfoldable pub refuse_cross_tenant : ResolvedTenant → JwtClaims → ServerAction ext (Unit {0})
  unfolding audit
  refuse_cross_tenant tenant claims =
      when (tenant.from_request && not (claims.tenant_id == tenant.id)) do
        audit ext tenant.id AuditEventType.authz_cross_tenant_denied claims AuditOutcome.denied
        fail (AppError.forbidden "Token does not have access to this tenant")

  -- The subject of an interactive token is read again.
  unfoldable pub check_subject : JwtClaims → ServerAction ext (Unit {0})
  unfolding get_identity
  check_subject claims = when (is_some claims.auth_time) do
    identity_id ←
        or_fail (ext.parse_uuid claims.sub) (AppError.unauthorized "Invalid identity subject")
    identity ←
        or_unauthorized ext "Identity is not active" (get_identity ext claims.pool_id identity_id)
    fail_if (not (is_active identity.status)) (AppError.unauthorized "Identity is not active")

  unfoldable pub verify_bearer_token : ResolvedTenant → Option String → ServerAction ext JwtClaims
  unfolding bearer_token verify_jwt refuse_cross_tenant get_active_client validate_token_version
      check_subject
  verify_bearer_token tenant header = do
    token ← bearer_token header
    claims ←
        or_unauthorized ext "Invalid or expired token"
          (verify_jwt ext tenant.id tenant.issuer token none)
    refuse_cross_tenant tenant claims
    client_id ←
        or_fail (ext.parse_uuid claims.aud) (AppError.unauthorized "Invalid client ID in token")
    client ← or_unauthorized ext "Invalid client" (get_active_client ext tenant.id client_id)
    or_unauthorized ext "Token has been revoked" (validate_token_version ext claims client)
    fail_if (not (claims.pool_id == client.pool_id))
        (AppError.unauthorized "Token is not valid for this client")
    check_subject claims
    pure claims

  -- `RequireAuth`: the management interface is for staff.
  unfoldable pub require_auth : ResolvedTenant → Option String → ServerAction ext JwtClaims
  unfolding verify_bearer_token audit
  require_auth tenant header = do
    claims ← verify_bearer_token tenant header
    when (not (is_staff claims.pool_kind)) do
      audit ext claims.tenant_id AuditEventType.authz_cross_tenant_denied claims AuditOutcome.denied
      fail (AppError.forbidden "This token cannot access the management API")
    pure claims
