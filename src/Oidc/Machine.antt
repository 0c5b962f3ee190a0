-- ===== src/Oidc/Machine.antt =====
-- crates/knox-services/src/oidc/service.rs: what a successful `validate_client_credentials` grants.
use knox_iam_public.Base.{
  ◌≡◌, refl, sym, ◌∙◌, ap, subst, Bool, true, false, Option, none, some, String, List, arith,
  contains, string_eq, all, All, if◌then◌else◌,
}
use knox_iam_public.Base.Rows.{All-contains, all-All}
use knox_iam_public.Common.Error.{ServiceError}
use knox_iam_public.Common.Directory.{Uuid, Client}
use knox_iam_public.Externals.{Externals}
use knox_iam_public.World.{World, ok, pure, fail}
use knox_iam_public.World.Laws.{>>=-eq-ok, fail_if-eq-ok, pure-eq-ok}
use knox_iam_public.Oidc.Models.{MintingContext, split_whitespace}
use knox_iam_public.Oidc.Grants.{validate_client_credentials, requested_scopes}

module _ {ext : Externals} where
  requested_from :
      (allowed given : List String) (b : Bool) (w : World ext) {scopes : List String}
      {w' : World ext}
      → all (contains allowed) given ≡ b
      → (if b then pure given else fail (ServiceError.validation "Invalid scopes requested")) w
        ≡ (ok scopes, w')
      → All (λ s. contains allowed s ≡ true) scopes
  requested_from allowed given true w e h =
      subst (All (λ s. contains allowed s ≡ true)) (sym (pure-eq-ok given w h).0)
        (all-All (contains allowed) given e)
  requested_from allowed given false w e h = cc

  requested_scopes-eq-ok :
      (client : Client) (scope : Option String) (w : World ext) {scopes : List String}
      {w' : World ext}
      → requested_scopes ext client scope w ≡ (ok scopes, w')
      → All (λ s. contains client.allowed_scopes s ≡ true) scopes
  requested_scopes-eq-ok client none w h =
      subst (All (λ s. contains client.allowed_scopes s ≡ true)) (sym (pure-eq-ok _ w h).0)
        (All-contains client.allowed_scopes)
  requested_scopes-eq-ok client (some scope) w h =
      requested_from client.allowed_scopes (split_whitespace scope) _ w refl h

  -- A client that authenticates as itself gets only scopes that it is allowed and no user, refresh
  -- family or authentication.
  pub validate_client_credentials-eq-ok :
      (tenant_id : Uuid) (client_id secret : String) (scope : Option String) (w : World ext)
      {context : MintingContext} {w' : World ext}
      → validate_client_credentials ext tenant_id client_id secret scope w ≡ (ok context, w')
      → All (λ s. contains context.client.allowed_scopes s ≡ true) context.scopes
        × (contains context.client.grant_types "client_credentials" ≡ true)
        × (context.identity_id ≡ none)
        × (context.refresh_token_family_id ≡ none)
        × (context.auth ≡ none)
        × (context.subject ≡ context.client.name)
  unfolding validate_client_credentials
  validate_client_credentials-eq-ok tenant_id client_id secret scope w h =
      let (client, w1, h1, k1) = >>=-eq-ok _ _ w h in
      let (_, w2, h2, k2) = >>=-eq-ok _ _ w1 k1 in
      let (g, _) = fail_if-eq-ok _ _ w1 h2 in
      let (scopes, w3, h3, k3) = >>=-eq-ok _ _ w2 k2 in
      let allowed = requested_scopes-eq-ok client scope w2 h3 in
      let (e, _) = pure-eq-ok _ w3 k3 in
      (
        subst (λ x. All (λ s. contains x.client.allowed_scopes s ≡ true) x.scopes) (sym e) allowed,
        ap (λ x. contains x.client.grant_types "client_credentials") e ∙ ground arith,
        ap (λ x. x.identity_id) e,
        ap (λ x. x.refresh_token_family_id) e,
        ap (λ x. x.auth) e,
        ap (λ x. x.subject) e ∙ sym (ap (λ x. x.client.name) e),
      )
