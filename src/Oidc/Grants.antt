-- ===== src/Oidc/Grants.antt =====
-- crates/knox-services/src/oidc/service.rs: the three grants of the token endpoint.
use Prim.Native.String.{len}
use knox_iam_public.Base.{
  all_chars, ℕ, ◌-◌, String, Bool, false, ◌&&◌, ◌||◌, not, Option, none, some, List, ◌==◌, nat_eq,
  string_eq, ltb, all, contains, is_some, if◌then◌else◌,
}
use knox_iam_public.Common.Error.{ServiceError}
use knox_iam_public.Common.Directory.{Uuid, Client, Identity, AuthorizationConfiguration, is_active}
use knox_iam_public.Common.Audit.{AuditEventType, AuditActor, AuditOutcome}
use knox_iam_public.Common.Token.{AuthCodeContext, RefreshToken, AuthenticationContext}
use knox_iam_public.Externals.{Externals}
use knox_iam_public.World.{Action, pure, fail, or_fail, fail_if, gets, when, ◌>>=◌, ◌>>◌}
use knox_iam_public.Audit.{record_event}
use knox_iam_public.Token.Service
use knox_iam_public.Token.Service.{hash_token}
use knox_iam_public.Token.Jwt.{map_option}
use knox_iam_public.Identity.{get_identity}
use knox_iam_public.Client.{authenticate_client_by_name, get_active_client_by_name}
use knox_iam_public.Oidc.Models.{
  MintingContext, is_ascii_alphanumeric, split_whitespace, oidc_display_name,
}
use knox_iam_public.Oidc.Scopes.{permitted_scopes}

abbrev pub unauthorized_grant : ServiceError
unauthorized_grant = ServiceError.validation "Unauthorized grant type for client"

-- The characters of a PKCE verifier.
abbrev pub is_unreserved : ℕ → Bool
is_unreserved c = is_ascii_alphanumeric c || c == b'-' || c == b'.' || c == b'_' || c == b'~'

unfoldable pub verifier_ok : String → Bool
unfolding all_chars
verifier_ok v = not (ltb (len v) 43 || ltb 128 (len v)) && all_chars is_unreserved v

abbrev pub is_other_uri : Option String → String → Bool
is_other_uri none uri = false
is_other_uri (some given) uri = not (given == uri)

-- `ctx.auth_time.map(|at| AuthenticationContext::new(ctx.amr.clone(), at))`
abbrev pub auth_of : Option ℕ → List String → Option AuthenticationContext
auth_of auth_time amr = map_option (λ at. record { amr = amr; auth_time = at }) auth_time

module _ (ext : Externals) where
  -- With a secret the client is authenticated, without one it is looked up.
  unfoldable pub resolve_client : Uuid → String → Option String → Action ext Client
  unfolding authenticate_client_by_name get_active_client_by_name
  resolve_client tenant_id client_id (some secret) =
      authenticate_client_by_name ext tenant_id client_id secret
  resolve_client tenant_id client_id none = get_active_client_by_name ext tenant_id client_id

  abbrev pub requested_scopes : Client → Option String → Action ext (List String)
  requested_scopes client none = pure client.allowed_scopes
  requested_scopes client (some scope) =
      if all (contains client.allowed_scopes) (split_whitespace scope)
      then pure (split_whitespace scope)
      else fail (ServiceError.validation "Invalid scopes requested")

  unfoldable pub validate_client_credentials :
      Uuid → String → String → Option String → Action ext MintingContext
  unfolding authenticate_client_by_name split_whitespace
  validate_client_credentials tenant_id client_id client_secret scope = do
    client ← authenticate_client_by_name ext tenant_id client_id client_secret
    fail_if (not (contains client.grant_types "client_credentials")) unauthorized_grant
    scopes ← requested_scopes client scope
    pure (record {
      tenant_id = tenant_id;
      client = client;
      subject = client.name;
      scopes = scopes;
      nonce = none;
      identity_id = none;
      refresh_token_family_id = none;
      auth = none;
      email = none;
      email_verified = false;
      preferred_username = none;
      name = none;
    })

  -- Whether the verifier opens the challenge: the method is matched as a text.
  unfoldable pub pkce_ok : AuthorizationConfiguration → AuthCodeContext → String → Bool
  pkce_ok config ctx code_verifier =
      if ctx.pkce_code_challenge_method == "S256"
      then ext.sha256_base64url code_verifier == ctx.pkce_code_challenge
      else if ctx.pkce_code_challenge_method == "plain"
      then config.allow_plain_pkce && code_verifier == ctx.pkce_code_challenge
      else false

  -- The checks between the redemption of a code and the lookup of its identity, in their order.
  unfoldable pub check_code :
      Client
      → AuthCodeContext
      → Option String
      → String
      → AuthorizationConfiguration
      → Action ext (Unit {0})
  unfolding pkce_ok verifier_ok
  check_code client ctx redirect_uri code_verifier config = do
    fail_if (not (ctx.client_id == client.id)) ServiceError.invalid_auth_code
    now ← gets (λ w. w.now)
    fail_if (ltb config.auth_code_ttl_seconds (now - ctx.created_at)) ServiceError.invalid_auth_code
    fail_if (is_other_uri redirect_uri ctx.redirect_uri) ServiceError.redirect_uri_mismatch
    fail_if (not (contains client.grant_types "authorization_code")) unauthorized_grant
    fail_if (not (verifier_ok code_verifier)) ServiceError.invalid_auth_code
    fail_if (not (pkce_ok config ctx code_verifier)) ServiceError.invalid_auth_code

  -- The context of a grant that carries a user.
  abbrev pub user_context :
      Uuid
      → Client
      → Identity
      → List String
      → Option String
      → Option Uuid
      → Option AuthenticationContext
      → MintingContext
  user_context tenant_id client identity scopes nonce family_id auth = record {
    tenant_id = tenant_id;
    client = client;
    subject = ext.uuid_text identity.id;
    scopes = scopes;
    nonce = nonce;
    identity_id = some identity.id;
    refresh_token_family_id = family_id;
    auth = auth;
    email = identity.email;
    email_verified = identity.email_verified;
    preferred_username = some identity.username;
    name = oidc_display_name identity.first_name identity.last_name;
  }

  unfoldable pub validate_authorization_code :
      Uuid
      → String
      → Option String
      → String
      → Option String
      → String
      → AuthorizationConfiguration
      → Action ext MintingContext
  unfolding resolve_client check_code get_identity permitted_scopes Service.exchange_auth_code
      oidc_display_name
  validate_authorization_code tenant_id client_id client_secret code redirect_uri code_verifier
        config =
      do
        found ← Service.exchange_auth_code ext code
        ctx ← or_fail found ServiceError.invalid_auth_code
        fail_if (not (ctx.tenant_id == tenant_id)) ServiceError.invalid_auth_code
        client ← resolve_client tenant_id client_id client_secret
        check_code client ctx redirect_uri code_verifier config
        identity ← get_identity ext client.pool_id ctx.identity_id
        fail_if (not (is_active identity.status)) ServiceError.invalid_credentials
        scopes ← permitted_scopes ext tenant_id identity.id ctx.scopes config
        pure (
            user_context tenant_id client identity scopes ctx.nonce none
              (auth_of ctx.auth_time ctx.amr))

  -- A token of another client, or one that was revoked: the whole family is revoked.
  unfoldable pub refuse_reuse : Uuid → Bool → RefreshToken → Action ext (Unit {0})
  unfolding record_event Service.revoke_token_family
  refuse_reuse tenant_id reused token = when reused do
    Service.revoke_token_family ext token.family_id
    record_event ext tenant_id AuditEventType.token_refresh_reuse_detected
        (AuditActor.identity token.identity_id) AuditOutcome.denied
    fail ServiceError.invalid_credentials

  -- The checks on the row, and its revocation before a successor is issued.
  unfoldable pub rotate : Uuid → Client → RefreshToken → Action ext (Unit {0})
  unfolding refuse_reuse Service.revoke_refresh_token
  rotate tenant_id client token = do
    refuse_reuse tenant_id (not (token.client_id == client.id)) token
    refuse_reuse tenant_id (is_some token.revoked_at) token
    now ← gets (λ w. w.now)
    fail_if (ltb token.expires_at now) ServiceError.invalid_credentials
    fail_if (not (contains client.grant_types "refresh_token")) unauthorized_grant
    Service.revoke_refresh_token ext token.id

  -- An identity that is no longer active takes its token family with it.
  unfoldable pub refuse_inactive : Identity → RefreshToken → Action ext (Unit {0})
  unfolding Service.revoke_token_family
  refuse_inactive identity token =
      when (not (is_active identity.status))
        do Service.revoke_token_family ext token.family_id; fail ServiceError.invalid_credentials

  unfoldable pub validate_refresh_token :
      Uuid
      → String
      → Option String
      → String
      → AuthorizationConfiguration
      → Action ext MintingContext
  unfolding resolve_client rotate refuse_inactive get_identity permitted_scopes hash_token
      Service.get_refresh_token oidc_display_name
  validate_refresh_token tenant_id client_id client_secret refresh_token config = do
    found ← Service.get_refresh_token ext tenant_id (hash_token ext refresh_token)
    token ← or_fail found ServiceError.invalid_credentials
    client ← resolve_client tenant_id client_id client_secret
    rotate tenant_id client token
    identity ← get_identity ext client.pool_id token.identity_id
    refuse_inactive identity token
    scopes ← permitted_scopes ext tenant_id identity.id token.scopes config
    pure (
        user_context tenant_id client identity scopes none (some token.family_id)
          (auth_of token.auth_time token.amr))
