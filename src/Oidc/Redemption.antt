-- ===== src/Oidc/Redemption.antt =====
-- crates/knox-services/src/oidc/service.rs: what a successful `validate_authorization_code` has
-- checked, and what it hands on.
use knox_iam_public.Base.{
  ◌≡◌, sym, ◌∙◌, ap, subst, ◌≤◌, ◌-◌, Bool, true, false, not, Option, none, some, String, arith,
  contains, string_eq, nat_eq, filter, find,
}
use knox_iam_public.Common.Directory.{Uuid, Identity, Client, AuthorizationConfiguration, is_active}
use knox_iam_public.Common.Token.{AuthCodeContext}
use knox_iam_public.Externals.{Externals}
use knox_iam_public.World.{World, Action, ok, pure, ◌>>=◌, ◌>>◌, fail_if}
use knox_iam_public.World.Frame.{Keeps-eq}
use knox_iam_public.World.Laws.{>>=-eq-ok, or_fail-eq-ok, fail_if-eq-ok, pure-eq-ok}
use knox_iam_public.World.Tables.{same_tables, SameTables, SameTables-trans}
use knox_iam_public.Token.Service.{exchange_auth_code}
use knox_iam_public.Common.Error.{ServiceError}
use knox_iam_public.Identity.{get_identity, in_pool}
use knox_iam_public.Oidc.Scopes.{permitted_scopes}
use knox_iam_public.Oidc.Models.{MintingContext}
use knox_iam_public.Oidc.Grants.{
  validate_authorization_code, auth_of, check_code, user_context, pkce_ok, verifier_ok,
  is_other_uri,
}
use knox_iam_public.Oidc.Scopes.Laws.{may_grant, permitted_scopes-eq-ok, may_grant_same}
use knox_iam_public.Oidc.Tables
use knox_iam_public.Oidc.Rotation.Steps.{get_identity-eq-ok}

-- A code that is good for a client and a verifier: the checks of the token endpoint.
pub record IsCodeFor {ext : Externals} (config : AuthorizationConfiguration) (w : World ext)
    (client : Client) (redirect_uri : Option String) (code_verifier : String)
    (ctx : AuthCodeContext) : Type 0 where
  pub for_client : ctx.client_id ≡ client.id
  pub young : w.now - ctx.created_at ≤ config.auth_code_ttl_seconds
  pub same_uri : is_other_uri redirect_uri ctx.redirect_uri ≡ false
  pub grant_type : contains client.grant_types "authorization_code" ≡ true
  pub verifier : verifier_ok code_verifier ≡ true
  pub pkce : pkce_ok ext config ctx code_verifier ≡ true

true_of_not : (b : Bool) → not b ≡ false → b ≡ true
true_of_not b h = ground arith

-- What is granted for a code.
pub record IsRedemption {ext : Externals} (tenant_id : Uuid) (config : AuthorizationConfiguration)
    (w : World ext) (uri : Option String) (verifier : String) (ctx : AuthCodeContext)
    (context : MintingContext) : Type 0 where
  pub tenant : ctx.tenant_id ≡ tenant_id
  pub code : IsCodeFor config w context.client uri verifier ctx
  pub active :
      (i : Identity) × (find (in_pool context.client.pool_id ctx.identity_id) w.identities ≡ some i)
      × (is_active i.status ≡ true)
  pub identity_id : context.identity_id ≡ some ctx.identity_id
  pub family_id : context.refresh_token_family_id ≡ none
  pub nonce : context.nonce ≡ ctx.nonce
  pub auth : context.auth ≡ auth_of ctx.auth_time ctx.amr
  pub scopes : context.scopes ≡ filter (may_grant w tenant_id ctx.identity_id config) ctx.scopes

module _ {ext : Externals} where
  check_code-eq-ok :
      (client : Client) (ctx : AuthCodeContext) (uri : Option String) (verifier : String)
      (config : AuthorizationConfiguration) (w : World ext) {u : Unit {0}} {w' : World ext}
      → check_code ext client ctx uri verifier config w ≡ (ok u, w')
      → IsCodeFor config w client uri verifier ctx × (w' ≡ w)
  unfolding check_code
  check_code-eq-ok client ctx uri verifier config w h =
      let (_, w1, h1, k1) = >>=-eq-ok _ _ w h in
      let (e1, s1) = fail_if-eq-ok _ _ w h1 in
      let (now, w2, h2, k2) = >>=-eq-ok _ _ w1 k1 in
      let (e2, s2) = pure-eq-ok w1.now w1 h2 in
      let (_, w3, h3, k3) = >>=-eq-ok _ _ w2 k2 in
      let (e3, s3) = fail_if-eq-ok _ _ w2 h3 in
      let (_, w4, h4, k4) = >>=-eq-ok _ _ w3 k3 in
      let (e4, s4) = fail_if-eq-ok _ _ w3 h4 in
      let (_, w5, h5, k5) = >>=-eq-ok _ _ w4 k4 in
      let (e5, s5) = fail_if-eq-ok _ _ w4 h5 in
      let (_, w6, h6, k6) = >>=-eq-ok _ _ w5 k5 in
      let (e6, s6) = fail_if-eq-ok _ _ w5 h6 in
      let (e7, s7) = fail_if-eq-ok _ _ w6 k6 in
      let now_w : now ≡ w.now = e2 ∙ ap (λ v. v.now) s1 in
      let young : now - ctx.created_at ≤ config.auth_code_ttl_seconds = ground arith in
      (
        record {
          for_client = (nat_eq.eqb_iff ctx.client_id client.id).0 (true_of_not _ e1);
          young = subst (λ t. t - ctx.created_at ≤ config.auth_code_ttl_seconds) now_w young;
          same_uri = e4;
          grant_type = true_of_not _ e5;
          verifier = true_of_not _ e6;
          pkce = true_of_not _ e7;
        },
        s7 ∙ s6 ∙ s5 ∙ s4 ∙ s3 ∙ s2 ∙ s1,
      )

  IsCodeFor-later :
      (config : AuthorizationConfiguration) (v w : World ext) (c : Client) (uri : Option String)
      (verifier : String) (ctx : AuthCodeContext)
      → w.now ≡ v.now
      → IsCodeFor config w c uri verifier ctx
      → IsCodeFor config v c uri verifier ctx
  IsCodeFor-later config v w c uri verifier ctx e r = record {
    for_client = r.for_client;
    young = subst (λ t. t - ctx.created_at ≤ config.auth_code_ttl_seconds) e r.young;
    same_uri = r.same_uri;
    grant_type = r.grant_type;
    verifier = r.verifier;
    pkce = r.pkce;
  }

  -- From the lookup of the identity on.
  finish : Uuid → Client → AuthCodeContext → AuthorizationConfiguration → Action ext MintingContext
  finish tenant_id client ctx config = do
    identity ← get_identity ext client.pool_id ctx.identity_id
    fail_if (not (is_active identity.status)) ServiceError.invalid_credentials
    scopes ← permitted_scopes ext tenant_id identity.id ctx.scopes config
    pure (
        user_context ext tenant_id client identity scopes ctx.nonce none
          (auth_of ctx.auth_time ctx.amr))

  finish-eq-ok :
      (tenant_id : Uuid) (client : Client) (ctx : AuthCodeContext)
      (config : AuthorizationConfiguration) (uri : Option String) (verifier : String)
      (v w : World ext) {context : MintingContext} {w' : World ext}
      → ctx.tenant_id ≡ tenant_id
      → SameTables v w
      → IsCodeFor config v client uri verifier ctx
      → finish tenant_id client ctx config w ≡ (ok context, w')
      → IsRedemption tenant_id config v uri verifier ctx context
  unfolding finish
  finish-eq-ok tenant_id client ctx config uri verifier v w {context} tenant s good h =
      let (identity, w1, h1, k1) = >>=-eq-ok _ _ w h in
      let s1 : SameTables w w1 =
        Keeps-eq (same_tables ext) _ w
          (Tables.get_identity-Keeps ext client.pool_id ctx.identity_id) h1 in
      let (here, i) = get_identity-eq-ok client.pool_id ctx.identity_id w h1 in
      let (_, w2, h2, k2) = >>=-eq-ok _ _ w1 k1 in
      let (act, s2) = fail_if-eq-ok _ _ w1 h2 in
      let (scopes, w3, h3, k3) = >>=-eq-ok _ _ w2 k2 in
      let (granted, _) = permitted_scopes-eq-ok tenant_id identity.id ctx.scopes config w2 h3 in
      let (e, _) = pure-eq-ok _ w3 k3 in
      let t : SameTables v w2 =
        SameTables-trans v w w2 s (subst (λ x. SameTables w x) (sym s2) s1) in
      record {
        tenant = tenant;
        code = subst (λ c. IsCodeFor config v c uri verifier ctx) (sym (ap (λ x. x.client) e)) good;
        active = (
          identity,
          (λ j. find (in_pool (e j).client.pool_id ctx.identity_id) v.identities)
              ∙ ap (find (in_pool client.pool_id ctx.identity_id)) (sym s.identities)
              ∙ here,
          true_of_not _ act,
        );
        identity_id = ap (λ x. x.identity_id) e ∙ ap some i;
        family_id = ap (λ x. x.refresh_token_family_id) e;
        nonce = ap (λ x. x.nonce) e;
        auth = ap (λ x. x.auth) e;
        scopes =
            ap (λ x. x.scopes) e
            ∙ granted
            ∙ ap (λ id. filter (may_grant w2 tenant_id id config) ctx.scopes) i
            ∙ ap (λ test. filter test ctx.scopes)
                (may_grant_same w2 v tenant_id ctx.identity_id config t.permissions t.mfa_methods);
      }

  pub validate_authorization_code-eq-ok :
      (tenant_id : Uuid) (client_id : String) (secret : Option String) (code : String)
      (uri : Option String) (verifier : String) (config : AuthorizationConfiguration)
      (w : World ext) {context : MintingContext} {w' : World ext}
      → validate_authorization_code ext tenant_id client_id secret code uri verifier config w
        ≡ (ok context, w')
      → (ctx : AuthCodeContext) × (w1 : World ext) × (exchange_auth_code ext code w
          ≡ (ok (some ctx), w1))
        × IsRedemption tenant_id config w uri verifier ctx context
  unfolding validate_authorization_code finish
  validate_authorization_code-eq-ok tenant_id client_id secret code uri verifier config w h =
      let (found, w1, h1, k1) = >>=-eq-ok _ _ w h in
      let s1 : SameTables w w1 =
        Keeps-eq (same_tables ext) _ w (Tables.exchange_auth_code-Keeps ext code) h1 in
      let (ctx, w2, h2, k2) = >>=-eq-ok _ _ w1 k1 in
      let (e2, s2) = or_fail-eq-ok found _ w1 h2 in
      let (_, w3, h3, k3) = >>=-eq-ok _ _ w2 k2 in
      let (e3, s3) = fail_if-eq-ok _ _ w2 h3 in
      let (client, w4, h4, k4) = >>=-eq-ok _ _ w3 k3 in
      let s4 : SameTables w3 w4 =
        Keeps-eq (same_tables ext) _ w3 (Tables.resolve_client-Keeps ext tenant_id client_id secret)
          h4 in
      let (_, w5, h5, k5) = >>=-eq-ok _ _ w4 k4 in
      let (good, s5) = check_code-eq-ok client ctx uri verifier config w4 h5 in
      let t : SameTables w w4 =
        SameTables-trans w w3 w4 (subst (λ x. SameTables w x) (sym (s3 ∙ s2)) s1) s4 in
      (
        ctx,
        w1,
        subst (λ o. exchange_auth_code ext code w ≡ (ok o, w1)) e2 h1,
        finish-eq-ok tenant_id client ctx config uri verifier w w5
            ((nat_eq.eqb_iff ctx.tenant_id tenant_id).0 (true_of_not _ e3))
            (subst (λ x. SameTables w x) (sym s5) t)
            (IsCodeFor-later config w w4 client uri verifier ctx t.now good) k5,
      )
