-- ===== src/Oidc/Consent.antt =====
-- crates/knox-services/src/oidc/service.rs: what `handle_authorize_request` has checked when it issues
-- a code.
use knox_iam_public.Base.{
  ◌≡◌, refl, ◌∙◌, ap, Bool, true, false, not, String, arith, contains, string_eq, all, is_empty,
  if◌then◌else◌, All,
}
use knox_iam_public.Base.Rows.{all-All}
use knox_iam_public.Common.Error.{ServiceError}
use knox_iam_public.Common.Directory.{
  Uuid, Client, IdentityKind, AuthorizationConfiguration, is_active,
}
use knox_iam_public.Externals.{Externals}
use knox_iam_public.World.{World, Action, Result, ok, err, pure}
use knox_iam_public.World.Laws.{>>=-eq-ok, pure-eq-ok, fail_if-eq-ok}
use knox_iam_public.Client.{get_active_client_by_name, require_active}
use knox_iam_public.Authentication.Session.{SsoSession, validate_sso_code}
use knox_iam_public.Oidc.Models.{AuthorizeRequest, AuthorizeResult}
use knox_iam_public.Oidc.Authorize.{
  handle_authorize_request, authorize_client, challenge_ok, prompts_login, is_machine, with_session,
  on_session, refuses_challenge,
}

-- What holds of a request for which a code is issued.
pub record IsAuthorized {ext : Externals} (tenant_id : Uuid) (req : AuthorizeRequest)
    (config : AuthorizationConfiguration) (client : Client) (v : World ext) : Type 0 where
  pub active : is_active client.status ≡ true
  pub redirect_uri : contains client.redirect_uris req.redirect_uri ≡ true
  pub challenge : challenge_ok config req.code_challenge_method req.code_challenge ≡ true
  pub no_login : prompts_login req.prompt ≡ false
  pub session : SsoSession
  pub v' : World ext
  pub valid :
      validate_sso_code ext tenant_id client.pool_id req.sso_token req.max_age v ≡ (ok session, v')
  pub human : is_machine session.identity.kind ≡ false
  pub some_scope : is_empty req.scope ≡ false
  pub scopes : All (λ s. contains client.allowed_scopes s ≡ true) req.scope

abbrev is_success : AuthorizeResult → Bool
is_success (AuthorizeResult.success code uri state) = true
is_success _ = false

module _ {ext : Externals} where
  -- A guard that answers otherwise did not fire.
  guard-eq-ok :
      (c : Bool) (r : AuthorizeResult) (m : Action ext AuthorizeResult) (w : World ext)
      (code uri state : String) {w' : World ext}
      → is_success r ≡ false
      → (if c then pure r else m) w ≡ (ok (AuthorizeResult.success code uri state), w')
      → (c ≡ false) × (m w ≡ (ok (AuthorizeResult.success code uri state), w'))
  guard-eq-ok true r m w code uri state other h = let e = ap is_success (pure-eq-ok r w h).0 in cc
  guard-eq-ok false r m w code uri state other h = (refl, h)

  -- Only a valid session leads to a code.
  on_session-eq-ok :
      (tenant_id : Uuid) (req : AuthorizeRequest) (client : Client)
      (p : Result SsoSession × World ext) (code uri state : String) {w' : World ext}
      → on_session ext tenant_id req client p.0 p.1
        ≡ (ok (AuthorizeResult.success code uri state), w')
      → (session : SsoSession) × (v' : World ext) × (p ≡ (ok session, v'))
        × (with_session ext tenant_id req client session v'
            ≡ (ok (AuthorizeResult.success code uri state), w'))
  on_session-eq-ok tenant_id req client (ok session, v') code uri state h = (session, v', refl, h)
  on_session-eq-ok tenant_id req client (err ServiceError.sso_token_expired, v') code uri state h =
      cc
  on_session-eq-ok tenant_id req client (err _, v') code uri state h = cc

  with_session-eq-ok :
      (tenant_id : Uuid) (req : AuthorizeRequest) (client : Client) (session : SsoSession)
      (code uri state : String) (w : World ext) {w' : World ext}
      → with_session ext tenant_id req client session w
        ≡ (ok (AuthorizeResult.success code uri state), w')
      → (is_machine session.identity.kind ≡ false)
        × (is_empty req.scope ≡ false)
        × (all (contains client.allowed_scopes) req.scope ≡ true)
  unfolding with_session
  with_session-eq-ok tenant_id req client session code uri state w h =
      let (e1, h1) =
        guard-eq-ok (is_machine session.identity.kind)
          (AuthorizeResult.invalid_principal_type IdentityKind.machine) _ w code uri state refl h in
      let (e2, h2) =
        guard-eq-ok (is_empty req.scope) AuthorizeResult.invalid_request _ w code uri state refl
          h1 in
      let (e3, _) =
        guard-eq-ok (not (all (contains client.allowed_scopes) req.scope))
          AuthorizeResult.unauthorized_scope _ w code uri state refl h2 in
      (e1, e2, ground arith)

  get_active_client_by_name_active :
      (tenant_id : Uuid) (name : String) (w : World ext) {client : Client} {w' : World ext}
      → get_active_client_by_name ext tenant_id name w ≡ (ok client, w')
      → is_active client.status ≡ true
  unfolding get_active_client_by_name require_active
  get_active_client_by_name_active tenant_id name w h =
      let (client, w1, h1, k1) = >>=-eq-ok _ _ w h in
      let (_, w2, h2, k2) = >>=-eq-ok _ _ w1 k1 in
      let (e, _) = fail_if-eq-ok _ _ w1 h2 in
      let (same, _) = pure-eq-ok client w2 k2 in ap (λ c. is_active c.status) same ∙ ground arith

  -- The authorize endpoint returns a code only if the client is active and has the redirect URI
  -- registered, the challenge is acceptable for its method and the tenant's configuration, the
  -- prompt does not ask for a login, the session token is valid for the client's pool and the
  -- maximal age, the identity is not a machine, and the requested scopes are not empty and all
  -- among the client's allowed scopes.
  pub handle_authorize_request-IsAuthorized :
      (tenant_id : Uuid) (req : AuthorizeRequest) (config : AuthorizationConfiguration)
      (w : World ext) (code uri state : String) {w' : World ext}
      → handle_authorize_request ext tenant_id req config w
        ≡ (ok (AuthorizeResult.success code uri state), w')
      → (client : Client) × (v : World ext) × (get_active_client_by_name ext tenant_id req.client_id
            w
          ≡ (ok client, v))
        × IsAuthorized tenant_id req config client v
  unfolding handle_authorize_request authorize_client
  handle_authorize_request-IsAuthorized tenant_id req config w code uri state h =
      let (client, v, h1, k1) = >>=-eq-ok _ _ w h in
      let (e1, k2) =
        guard-eq-ok (not (contains client.redirect_uris req.redirect_uri))
          AuthorizeResult.redirect_uri_mismatch _ v code uri state refl k1 in
      let (e2, k3) =
        guard-eq-ok (refuses_challenge config req.code_challenge_method req.code_challenge)
          AuthorizeResult.invalid_request _ v code uri state refl k2 in
      let (e3, k4) =
        guard-eq-ok (prompts_login req.prompt) AuthorizeResult.re_auth_required _ v code uri state
          refl k3 in
      let (session, v', valid, k5) =
        on_session-eq-ok tenant_id req client
          (validate_sso_code ext tenant_id client.pool_id req.sso_token req.max_age v) code uri
          state k4 in
      let (human, some_scope, allowed) =
        with_session-eq-ok tenant_id req client session code uri state v' k5 in
      (
        client,
        v,
        h1,
        record {
          active = get_active_client_by_name_active tenant_id req.client_id w h1;
          redirect_uri = ground arith;
          challenge = ground arith;
          no_login = e3;
          session = session;
          v' = v';
          valid = valid;
          human = human;
          some_scope = some_scope;
          scopes = all-All (contains client.allowed_scopes) req.scope allowed;
        },
      )
