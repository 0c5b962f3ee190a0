-- ===== src/Oidc/Token.antt =====
-- crates/knox-services/src/oidc/service.rs: `handle_token_request`.
use knox_iam_public.Base.{
  ◌+◌, String, Bool, true, false, ◌&&◌, not, Option, none, some, List, [], ◌==◌, string_eq, nat_eq,
  any, find, filter, is_some, get_or, if◌then◌else◌,
}
use knox_iam_public.Common.Error.{ServiceError, is_infrastructure}
use knox_iam_public.Common.Directory.{Uuid, IdentityPool, PoolKind, AuthorizationConfiguration}
use knox_iam_public.Common.Audit.{AuditEventType, AuditActor, AuditOutcome}
use knox_iam_public.Common.Token.{IdTokenInput}
use knox_iam_public.Externals.{Externals}
use knox_iam_public.World.{Action, on_error, storage, ok, pure, or_fail, gets, when, ◌>>=◌, ◌>>◌}
use knox_iam_public.Audit.{record_event}
use knox_iam_public.Roles.{is_platform_scope}
use knox_iam_public.Token.Service
use knox_iam_public.Token.Service.{generate_opaque_token, new_v4, hash_token}
use knox_iam_public.Token.Jwt.{mint_access_token, mint_id_token, map_option}
use knox_iam_public.Oidc.Models.{TokenGrantRequest, MintingContext, TokenResponse, join_spaces}
use knox_iam_public.Oidc.Grants.{
  validate_client_credentials, validate_authorization_code, validate_refresh_token,
}

abbrev pub has_scope : String → List String → Bool
has_scope scope scopes = any (λ s. s == scope) scopes

abbrev pub if_some : Bool → Option String → Option String
if_some b o = if b then o else none

-- Cross-tenant scopes are for the platform tenant alone.
unfoldable pub strip_platform_scopes : Bool → List String → List String
strip_platform_scopes tenant_is_platform scopes =
    if tenant_is_platform then scopes else filter (λ s. not (is_platform_scope s)) scopes

-- The profile claims follow the granted scopes.
unfoldable pub id_token_input : MintingContext → IdTokenInput
id_token_input context = record {
  subject = context.subject;
  audience = context.client.name;
  auth = context.auth;
  nonce = context.nonce;
  email = if_some (has_scope "email" context.scopes) context.email;
  email_verified = context.email_verified;
  preferred_username = if_some (has_scope "profile" context.scopes) context.preferred_username;
  name = if_some (has_scope "profile" context.scopes) context.name;
}

module _ (ext : Externals) where
  -- `PoolRepository::get_in_tenant`, and the kind of the pool.
  unfoldable pub pool_kind_for : Uuid → Uuid → Action ext PoolKind
  pool_kind_for tenant_id pool_id = do
    found ← storage λ w. (ok (find (λ p. p.id == pool_id && p.tenant_id == tenant_id) w.pools), w)
    or_fail (map_option (λ (p : IdentityPool). p.kind) found)
        (ServiceError.internal "Client references a missing pool")

  unfoldable pub validate_grant :
      Uuid → TokenGrantRequest → AuthorizationConfiguration → Action ext MintingContext
  unfolding validate_client_credentials validate_authorization_code validate_refresh_token
  validate_grant tenant_id (TokenGrantRequest.client_credentials id secret scope) config =
      validate_client_credentials ext tenant_id id secret scope
  validate_grant tenant_id (TokenGrantRequest.authorization_code id secret code uri verifier)
        config =
      validate_authorization_code ext tenant_id id secret code uri verifier config
  validate_grant tenant_id (TokenGrantRequest.refresh_token id secret token) config =
      validate_refresh_token ext tenant_id id secret token config

  -- Rejected grants are audited, infrastructure errors are not.
  abbrev pub audit_rejection : Uuid → ServiceError → Action ext (Unit {0})
  audit_rejection tenant_id e = when (not (is_infrastructure e)) (
      record_event ext tenant_id AuditEventType.token_issued AuditActor.anonymous
        AuditOutcome.failure)

  -- `context.refresh_token_family_id.unwrap_or_else(Uuid::new_v4)`
  abbrev pub family_or_new : Option Uuid → Action ext Uuid
  family_or_new none = new_v4 ext
  family_or_new (some family_id) = pure family_id

  -- The refresh token of a client that has them, for a grant that carries a user.
  unfoldable pub issue_refresh_token :
      Bool → Option Uuid → Uuid → MintingContext → Action ext (Option String)
  unfolding generate_opaque_token new_v4 hash_token Service.save_refresh_token
  issue_refresh_token true (some identity_id) tenant_id context = do
    raw_token ← generate_opaque_token ext 64
    now ← gets (λ w. w.now)
    id ← new_v4 ext
    family_id ← family_or_new context.refresh_token_family_id
    saved ← Service.save_refresh_token ext (record {
      id = id;
      tenant_id = tenant_id;
      client_id = context.client.id;
      identity_id = identity_id;
      token_hash = hash_token ext raw_token;
      scopes = context.scopes;
      amr = get_or (map_option (λ a. a.amr) context.auth) [];
      auth_time = map_option (λ a. a.auth_time) context.auth;
      expires_at = now + context.client.refresh_token_ttl;
      revoked_at = none;
      family_id = family_id;
      created_at = now;
      updated_at = now;
    })
    pure (some raw_token)
  issue_refresh_token allow identity_id tenant_id context = pure none

  abbrev actor_of : MintingContext → Option Uuid → AuditActor
  actor_of context none = AuditActor.client context.client.id
  actor_of context (some identity_id) = AuditActor.identity identity_id

  -- An ID token for an OpenID Connect request that carries a user.
  unfoldable pub issue_id_token :
      Bool → Uuid → String → MintingContext → String → Action ext (Option String)
  unfolding mint_id_token id_token_input
  issue_id_token false tenant_id issuer context access_token = pure none
  issue_id_token true tenant_id issuer context access_token = do
    token ←
        mint_id_token ext tenant_id issuer context.client.id_token_ttl (id_token_input context)
          access_token
    pure (some token)

  -- What is issued for a validated grant whose scopes are final.
  unfoldable pub issue_tokens : Uuid → String → MintingContext → Action ext TokenResponse
  unfolding pool_kind_for mint_access_token issue_refresh_token record_event issue_id_token
      join_spaces
  issue_tokens tenant_id issuer context = do
    pool_kind ← pool_kind_for tenant_id context.client.pool_id
    access_token ←
        mint_access_token ext tenant_id issuer context.subject context.scopes context.client
          pool_kind context.auth
    refresh_token ←
        issue_refresh_token context.client.allow_refresh_tokens context.identity_id tenant_id
          context
    record_event ext tenant_id AuditEventType.token_issued (actor_of context context.identity_id)
        AuditOutcome.success
    id_token ←
        issue_id_token (is_some context.identity_id && has_scope "openid" context.scopes) tenant_id
          issuer context access_token
    pure (record {
      access_token = access_token;
      token_type = "Bearer";
      expires_in = context.client.access_token_ttl;
      refresh_token = refresh_token;
      id_token = id_token;
      scope = some (join_spaces context.scopes);
    })

  abbrev pub with_stripped_scopes : Bool → MintingContext → MintingContext
  with_stripped_scopes tenant_is_platform context = record context {
    scopes = strip_platform_scopes tenant_is_platform context.scopes;
  }

  unfoldable pub handle_token_request :
      Uuid
      → Bool
      → String
      → TokenGrantRequest
      → AuthorizationConfiguration
      → Action ext TokenResponse
  unfolding validate_grant record_event issue_tokens strip_platform_scopes
  handle_token_request tenant_id tenant_is_platform issuer req config = do
    context ← on_error (validate_grant tenant_id req config) (audit_rejection tenant_id)
    issue_tokens tenant_id issuer (with_stripped_scopes tenant_is_platform context)
