-- ===== src/Oidc/Authorize.antt =====
-- crates/knox-services/src/oidc/service.rs: `handle_authorize_request`.
use Prim.Native.String.{len}
use knox_iam_public.Base.{
  all_chars, ℕ, String, Bool, true, false, ◌&&◌, ◌||◌, not, Option, none, some, ◌==◌, nat_eq,
  string_eq, ltb, all, contains, is_empty, if◌then◌else◌,
}
use knox_iam_public.Common.Error.{ServiceError}
use knox_iam_public.Common.Directory.{Uuid, Client, IdentityKind, AuthorizationConfiguration}
use knox_iam_public.Externals.{Externals}
use knox_iam_public.World.{Action, Result, ok, err, pure, gets, ◌>>=◌, ◌>>◌}
use knox_iam_public.Token.Service
use knox_iam_public.Token.Service.{TransientKind, generate_opaque_token}
use knox_iam_public.Client.{get_active_client_by_name}
use knox_iam_public.Authentication.Session.{SsoSession, validate_sso_code}
use knox_iam_public.Oidc.Models.{
  AuthorizeRequest, AuthorizeResult, CodeChallengeMethod, method_text, is_ascii_alphanumeric,
}

-- The alphabet of base64url.
abbrev pub is_base64url : ℕ → Bool
is_base64url c = is_ascii_alphanumeric c || c == b'-' || c == b'_'

-- The checks of the PKCE challenge, by its method.
unfoldable pub challenge_ok : AuthorizationConfiguration → CodeChallengeMethod → String → Bool
unfolding all_chars
challenge_ok config CodeChallengeMethod.plain challenge =
    config.allow_plain_pkce && not (ltb (len challenge) 43 || ltb 128 (len challenge))
challenge_ok config CodeChallengeMethod.s256 challenge =
    len challenge == 43 && all_chars is_base64url challenge

-- `req.prompt.as_deref() == Some("login")`
abbrev pub prompts_login : Option String → Bool
prompts_login none = false
prompts_login (some p) = p == "login"

abbrev pub is_machine : IdentityKind → Bool
is_machine IdentityKind.machine = true
is_machine _ = false

-- `code_challenge.is_empty()`
abbrev pub is_empty_text : String → Bool
is_empty_text s = s == ""

abbrev pub refuses_challenge : AuthorizationConfiguration → CodeChallengeMethod → String → Bool
refuses_challenge config method challenge =
    is_empty_text challenge || not (challenge_ok config method challenge)

module _ (ext : Externals) where
  -- The requested scopes are some, and all allowed to the client: a code is stored and returned.
  unfoldable pub issue_code :
      Uuid → AuthorizeRequest → Client → SsoSession → Action ext AuthorizeResult
  unfolding generate_opaque_token Service.store_transient_token
  issue_code tenant_id req client session = do
    now ← gets (λ w. w.now)
    code ← generate_opaque_token ext 32
    Service.store_transient_token ext ext.code_codec TransientKind.auth_code code
        (record {
          tenant_id = tenant_id;
          client_id = client.id;
          identity_id = session.identity.id;
          scopes = req.scope;
          redirect_uri = req.redirect_uri;
          pkce_code_challenge = req.code_challenge;
          pkce_code_challenge_method = method_text req.code_challenge_method;
          nonce = req.nonce;
          amr = session.amr;
          auth_time = some session.authenticated_at;
          created_at = now;
        })
        client.auth_code_ttl
    pure (AuthorizeResult.success code req.redirect_uri req.state)

  -- What is decided once the session is known.
  unfoldable pub with_session :
      Uuid → AuthorizeRequest → Client → SsoSession → Action ext AuthorizeResult
  unfolding issue_code
  with_session tenant_id req client session =
      if is_machine session.identity.kind
      then pure (AuthorizeResult.invalid_principal_type IdentityKind.machine)
      else if is_empty req.scope
      then pure AuthorizeResult.invalid_request
      else if not (all (contains client.allowed_scopes) req.scope)
      then pure AuthorizeResult.unauthorized_scope
      else issue_code tenant_id req client session

  -- The three outcomes of the session check. No error of it leaves this function.
  abbrev pub on_session :
      Uuid → AuthorizeRequest → Client → Result SsoSession → Action ext AuthorizeResult
  on_session tenant_id req client (ok session) = with_session tenant_id req client session
  on_session tenant_id req client (err ServiceError.sso_token_expired) =
      pure AuthorizeResult.re_auth_required
  on_session tenant_id req client (err e) = pure AuthorizeResult.session_invalid

  abbrev pub try_session :
      Uuid → AuthorizeRequest → Client → Action ext SsoSession → Action ext AuthorizeResult
  try_session tenant_id req client m w = let (r, w') = m w in on_session tenant_id req client r w'

  -- The checks in their order: the session is looked at after the client, the challenge and the
  -- prompt.
  unfoldable pub authorize_client :
      Uuid → AuthorizeRequest → AuthorizationConfiguration → Client → Action ext AuthorizeResult
  unfolding challenge_ok with_session validate_sso_code
  authorize_client tenant_id req config client =
      if not (contains client.redirect_uris req.redirect_uri)
      then pure AuthorizeResult.redirect_uri_mismatch
      else if refuses_challenge config req.code_challenge_method req.code_challenge
      then pure AuthorizeResult.invalid_request
      else if prompts_login req.prompt
      then pure AuthorizeResult.re_auth_required
      else try_session tenant_id req client
          (validate_sso_code ext tenant_id client.pool_id req.sso_token req.max_age)

  unfoldable pub handle_authorize_request :
      Uuid → AuthorizeRequest → AuthorizationConfiguration → Action ext AuthorizeResult
  unfolding authorize_client get_active_client_by_name
  handle_authorize_request tenant_id req config = do
    client ← get_active_client_by_name ext tenant_id req.client_id
    authorize_client tenant_id req config client
