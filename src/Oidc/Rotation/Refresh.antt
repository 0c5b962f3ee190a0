-- ===== src/Oidc/Rotation/Refresh.antt =====
-- crates/knox-services/src/oidc/service.rs: what a successful `validate_refresh_token` has checked,
-- and what it hands on.
use knox_iam_public.Base.{
  ◌≡◌, sym, ◌∙◌, ap, subst, ◌≤◌, true, false, Option, none, some, String, update_where, is_some,
  contains, string_eq, find, filter,
}
use knox_iam_public.Common.Directory.{Identity, is_active, Uuid, Client, AuthorizationConfiguration}
use knox_iam_public.Common.Token.{RefreshToken}
use knox_iam_public.Externals.{Externals}
use knox_iam_public.World.{held_by, World, Action, ok, pure, ◌>>◌, ◌>>=◌}
use knox_iam_public.World.Frame.{Keeps-eq}
use knox_iam_public.World.Laws.{>>=-eq-ok, or_fail-eq-ok, pure-eq-ok}
use knox_iam_public.World.Tables.{same_tables, SameTables, SameTables-trans}
use knox_iam_public.Token.Store.{set_revoked, live_with_id, has_hash}
use knox_iam_public.Token.Service.{hash_token}
use knox_iam_public.Identity.{get_identity, in_pool}
use knox_iam_public.Oidc.Models.{MintingContext}
use knox_iam_public.Oidc.Grants.{
  validate_refresh_token, auth_of, rotate, refuse_inactive, user_context,
}
use knox_iam_public.Oidc.Scopes.{permitted_scopes}
use knox_iam_public.Oidc.Scopes.Laws.{may_grant, permitted_scopes-eq-ok, may_grant_same}
use knox_iam_public.Oidc.Tables
use knox_iam_public.Oidc.Rotation.Steps.{
  rotate-eq-ok, refuse_inactive-eq-ok, get_refresh_token-eq-ok, get_identity-eq-ok,
}

-- The refresh of a token row: the checks on it, the context of the grant, and its revocation.
pub record IsRefresh {ext : Externals} (tenant_id : Uuid) (config : AuthorizationConfiguration)
    (w : World ext) (token : RefreshToken) (context : MintingContext) (w' : World ext)
    : Type 0 where
  pub live : is_some token.revoked_at ≡ false
  pub unexpired : w.now ≤ token.expires_at
  pub client : token.client_id ≡ context.client.id
  pub grant_type : contains context.client.grant_types "refresh_token" ≡ true
  pub active :
      (i : Identity) × (find (in_pool context.client.pool_id token.identity_id) w.identities
        ≡ some i)
      × (is_active i.status ≡ true)
  pub identity_id : context.identity_id ≡ some token.identity_id
  pub family_id : context.refresh_token_family_id ≡ some token.family_id
  pub auth : context.auth ≡ auth_of token.auth_time token.amr
  pub scopes : context.scopes ≡ filter (may_grant w tenant_id token.identity_id config) token.scopes
  pub revoked :
      w'.refresh_tokens ≡ update_where (live_with_id token.id) (set_revoked w.now) w.refresh_tokens

module _ {ext : Externals} where
  -- From the rotation on.
  finish : Uuid → Client → RefreshToken → AuthorizationConfiguration → Action ext MintingContext
  finish tenant_id client token config = do
    rotate ext tenant_id client token
    identity ← get_identity ext client.pool_id token.identity_id
    refuse_inactive ext identity token
    scopes ← permitted_scopes ext tenant_id identity.id token.scopes config
    pure (
        user_context ext tenant_id client identity scopes none (some token.family_id)
          (auth_of token.auth_time token.amr))

  finish-eq-ok :
      (tenant_id : Uuid) (client : Client) (token : RefreshToken)
      (config : AuthorizationConfiguration) (w : World ext) {context : MintingContext}
      {w' : World ext}
      → finish tenant_id client token config w ≡ (ok context, w')
      → IsRefresh tenant_id config w token context w'
  unfolding finish
  finish-eq-ok tenant_id client token config w {context} h =
      let (_, w1, h1, k1) = >>=-eq-ok _ _ w h in
      let (c, l, t, g, rest, s1) = rotate-eq-ok tenant_id client token w h1 in
      let (identity, w2, h2, k2) = >>=-eq-ok _ _ w1 k1 in
      let s2 : SameTables w1 w2 =
        Keeps-eq (same_tables ext) _ w1
          (Tables.get_identity-Keeps ext client.pool_id token.identity_id) h2 in
      let (here, i) = get_identity-eq-ok client.pool_id token.identity_id w1 h2 in
      let (_, w3, h3, k3) = >>=-eq-ok _ _ w2 k2 in
      let (act, s3) = refuse_inactive-eq-ok identity token w2 h3 in
      let (scopes, w4, h4, k4) = >>=-eq-ok _ _ w3 k3 in
      let (granted, _) = permitted_scopes-eq-ok tenant_id identity.id token.scopes config w3 h4 in
      let s4 : SameTables w3 w4 =
        Keeps-eq (same_tables ext) _ w3
          (Tables.permitted_scopes-Keeps ext tenant_id identity.id token.scopes config) h4 in
      let (e, s5) = pure-eq-ok _ w4 k4 in
      let p : held_by w3 ≡ held_by w = ap held_by s3 ∙ s2.permissions ∙ ap held_by s1 in
      let m : w3.mfa_methods ≡ w.mfa_methods =
        ap (λ v. v.mfa_methods) s3 ∙ s2.mfa_methods ∙ ap (λ v. v.mfa_methods) s1 in
      record {
        live = l;
        unexpired = t;
        client = c ∙ sym (ap (λ x. x.client.id) e);
        grant_type = ap (λ x. contains x.client.grant_types "refresh_token") e ∙ g;
        active = (
          identity,
          (λ j. find (in_pool (e j).client.pool_id token.identity_id) w.identities)
              ∙ ap (λ v. find (in_pool client.pool_id token.identity_id) v.identities) (sym s1)
              ∙ here,
          act,
        );
        identity_id = ap (λ x. x.identity_id) e ∙ ap some i;
        family_id = ap (λ x. x.refresh_token_family_id) e;
        auth = ap (λ x. x.auth) e;
        scopes =
            ap (λ x. x.scopes) e
            ∙ granted
            ∙ ap (λ id. filter (may_grant w3 tenant_id id config) token.scopes) i
            ∙ ap (λ test. filter test token.scopes)
                (may_grant_same w3 w tenant_id token.identity_id config p m);
        revoked =
            ap (λ v. v.refresh_tokens) s5
            ∙ s4.refresh_tokens
            ∙ ap (λ v. v.refresh_tokens) s3
            ∙ s2.refresh_tokens
            ∙ ap (λ v. v.refresh_tokens) s1;
      }

  -- What was found in the tables of an earlier state.
  IsRefresh-SameTables :
      (tenant_id : Uuid) (config : AuthorizationConfiguration) (v w : World ext)
      (token : RefreshToken) (context : MintingContext) (w' : World ext)
      → SameTables v w
      → IsRefresh tenant_id config w token context w'
      → IsRefresh tenant_id config v token context w'
  IsRefresh-SameTables tenant_id config v w token context w' s r = record {
    live = r.live;
    unexpired = subst (λ t. t ≤ token.expires_at) s.now r.unexpired;
    client = r.client;
    grant_type = r.grant_type;
    active =
        let (i, here, act) = r.active in
        (
          i,
          ap (find (in_pool context.client.pool_id token.identity_id)) (sym s.identities) ∙ here,
          act,
        );
    identity_id = r.identity_id;
    family_id = r.family_id;
    auth = r.auth;
    scopes =
        r.scopes
        ∙ ap (λ test. filter test token.scopes)
            (may_grant_same w v tenant_id token.identity_id config s.permissions s.mfa_methods);
    revoked =
        r.revoked
        ∙ (λ i. update_where (live_with_id token.id) (set_revoked (s.now i)) (s.refresh_tokens i));
  }

  pub validate_refresh_token-eq-ok :
      (tenant_id : Uuid) (client_id : String) (secret : Option String) (raw : String)
      (config : AuthorizationConfiguration) (w : World ext) {context : MintingContext}
      {w' : World ext}
      → validate_refresh_token ext tenant_id client_id secret raw config w ≡ (ok context, w')
      → (token : RefreshToken) × (find (has_hash tenant_id (hash_token ext raw)) w.refresh_tokens
          ≡ some token)
        × IsRefresh tenant_id config w token context w'
  unfolding validate_refresh_token finish
  validate_refresh_token-eq-ok tenant_id client_id secret raw config w h =
      let (found, w1, h1, k1) = >>=-eq-ok _ _ w h in
      let s1 =
        Keeps-eq (same_tables ext) _ w
          (Tables.get_refresh_token-Keeps ext tenant_id (hash_token ext raw)) h1 in
      let (token, w2, h2, k2) = >>=-eq-ok _ _ w1 k1 in
      let (e2, s2) = or_fail-eq-ok found _ w1 h2 in
      let (client, w3, h3, k3) = >>=-eq-ok _ _ w2 k2 in
      let s3 =
        Keeps-eq (same_tables ext) _ w2 (Tables.resolve_client-Keeps ext tenant_id client_id secret)
          h3 in
      let found_w : find (has_hash tenant_id (hash_token ext raw)) w.refresh_tokens ≡ some token =
        sym (get_refresh_token-eq-ok tenant_id (hash_token ext raw) w h1) ∙ e2 in
      (
        token,
        found_w,
        IsRefresh-SameTables tenant_id config w w3 token _ _
            (SameTables-trans w w1 w3 s1 (subst (λ v. SameTables v w3) s2 s3))
            (finish-eq-ok tenant_id client token config w3 k3),
      )
