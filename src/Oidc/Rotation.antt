-- ===== src/Oidc/Rotation.antt =====
-- crates/knox-services/src/oidc/service.rs: the live refresh tokens of a family over a validation.
pub mod Steps
pub mod Reuse
pub mod Refresh
pub mod Invariant
pub mod Issue
pub mod Request
pub mod Reachable
use knox_iam_public.Base.{
  ◌≡◌, refl, sym, ◌∙◌, ap, subst, ℕ, suc, ◌≤◌, Bool, true, false, not, Option, none, some, String,
  List, arith, find, update_where, all, contains, string_eq, is_some, ◌==◌, nat_eq,
}
use knox_iam_public.Common.Directory.{Uuid, Identity, Client, AuthorizationConfiguration, is_active}
use knox_iam_public.Common.Token.{RefreshToken, AuthCodeContext}
use knox_iam_public.Common.Audit.{AuditEventType, AuditActor, AuditOutcome}
use knox_iam_public.Externals.{Externals}
use knox_iam_public.World.{World, Action, ok, fail, ◌>>=◌}
use knox_iam_public.World.Frame.{
  Relation, Keeps, Keeps-eq, Keeps_weaken, if-Keeps, storage-Keeps, frame,
}
use knox_iam_public.World.Laws.{
  >>=-eq-ok, fail_if-eq-ok, or_fail-eq-ok, query-eq-ok, storage-eq-ok, pure-eq-ok,
}
use knox_iam_public.World.Tables.{SameTables, same_tables}
use knox_iam_public.Token.Families.{live_count, live_count-revoke, live_count-revoke_found}
use knox_iam_public.Token.Store.{
  revoke, revoke_family, set_revoked, live_in_family, live_with_id, has_hash,
}
use knox_iam_public.Token.Service
use knox_iam_public.Audit.{record_event}
use knox_iam_public.Client.{authenticate_client_by_name}
use knox_iam_public.Identity.{get_identity}
use knox_iam_public.Oidc.Scopes.{permitted_scopes}
use knox_iam_public.Oidc.Models.{MintingContext, split_whitespace, TokenGrantRequest}
use knox_iam_public.Oidc.Tables
use knox_iam_public.Oidc.Grants.{
  refuse_reuse, rotate, refuse_inactive, validate_refresh_token, validate_authorization_code,
  validate_client_credentials, resolve_client, check_code, requested_scopes,
}
use knox_iam_public.Oidc.Token.{validate_grant}

module _ {ext : Externals} where
  -- No family has more live tokens than before.
  pub record NoneRevived (w w' : World ext) : Type 0 where
    pub draws : w.draws ≤ w'.draws
    pub live : (f : Uuid) → live_count f w'.refresh_tokens ≤ live_count f w.refresh_tokens

  pub NoneRevived-trans : (u v w : World ext) → NoneRevived u v → NoneRevived v w → NoneRevived u w
  NoneRevived-trans u v w h k =
      let d1 = h.draws in
      let d2 = k.draws in
      record {
        draws = omega arith;
        live = λ f. let a = h.live f in let b = k.live f in omega arith;
      }

  pub NoneRevived-refl : (w : World ext) → NoneRevived w w
  NoneRevived-refl w = record { draws = omega arith; live = λ f. omega arith }

  SameTables-NoneRevived : (v w : World ext) → SameTables v w → NoneRevived v w
  SameTables-NoneRevived v w h = record {
    draws = h.draws;
    live = λ f.
        subst (λ rows. live_count f rows ≤ live_count f v.refresh_tokens) (sym h.refresh_tokens)
          (omega arith);
  }

abbrev pub none_revived : (ext : Externals) → Relation ext
none_revived ext = record {
  rel = NoneRevived;
  rel_refl = NoneRevived-refl;
  rel_trans = NoneRevived-trans;
  rel_outages = λ w os. record { draws = omega arith; live = λ f. omega arith };
}

module _ (ext : Externals) where
  pub quiet :
      {A : Type 0} (m : Action ext A) → Keeps (same_tables ext) m → Keeps (none_revived ext) m
  quiet m h = Keeps_weaken (same_tables ext) (none_revived ext) SameTables-NoneRevived m h

  revoke-Keeps : (id : Uuid) → Keeps (none_revived ext) (Service.revoke_refresh_token ext id)
  unfolding Keeps Service.revoke_refresh_token revoke
  revoke-Keeps id = storage-Keeps (none_revived ext) _ (λ w. record {
    draws = omega arith;
    live = λ f. live_count-revoke _ w.now f w.refresh_tokens;
  })

  revoke_family-Keeps : (f : Uuid) → Keeps (none_revived ext) (Service.revoke_token_family ext f)
  unfolding Keeps Service.revoke_token_family revoke_family
  revoke_family-Keeps id = storage-Keeps (none_revived ext) _ (λ w. record {
    draws = omega arith;
    live = λ f. live_count-revoke _ w.now f w.refresh_tokens;
  })

  pub record_event-Keeps :
      (tenant_id : Uuid) (e : AuditEventType) (a : AuditActor) (o : AuditOutcome)
      → Keeps (none_revived ext) (record_event ext tenant_id e a o)
  record_event-Keeps tenant_id e a o = quiet _ (Tables.record_event-Keeps ext tenant_id e a o)

  refuse_reuse-Keeps :
      (tenant_id : Uuid) (reused : Bool) (token : RefreshToken)
      → Keeps (none_revived ext) (refuse_reuse ext tenant_id reused token)
  unfolding refuse_reuse
  refuse_reuse-Keeps tenant_id reused token =
      search (frame, revoke_family-Keeps, record_event-Keeps) depth 12

  rotate-Keeps :
      (tenant_id : Uuid) (client : Client) (token : RefreshToken)
      → Keeps (none_revived ext) (rotate ext tenant_id client token)
  unfolding rotate
  rotate-Keeps tenant_id client token = search (frame, refuse_reuse-Keeps, revoke-Keeps) depth 16

  refuse_inactive-Keeps :
      (identity : Identity) (token : RefreshToken)
      → Keeps (none_revived ext) (refuse_inactive ext identity token)
  unfolding refuse_inactive
  refuse_inactive-Keeps identity token = search (frame, revoke_family-Keeps) depth 12

  get_identity-Keeps : (p i : Uuid) → Keeps (none_revived ext) (get_identity ext p i)
  get_identity-Keeps p i = quiet _ (Tables.get_identity-Keeps ext p i)

  permitted_scopes-Keeps :
      (t i : Uuid) (ss : List String) (config : AuthorizationConfiguration)
      → Keeps (none_revived ext) (permitted_scopes ext t i ss config)
  permitted_scopes-Keeps t i ss config = quiet _ (Tables.permitted_scopes-Keeps ext t i ss config)

  resolve_client-Keeps :
      (t : Uuid) (id : String) (secret : Option String)
      → Keeps (none_revived ext) (resolve_client ext t id secret)
  resolve_client-Keeps t id secret = quiet _ (Tables.resolve_client-Keeps ext t id secret)

  get_refresh_token-Keeps :
      (t : Uuid) (h : String) → Keeps (none_revived ext) (Service.get_refresh_token ext t h)
  get_refresh_token-Keeps t h = quiet _ (Tables.get_refresh_token-Keeps ext t h)

  validate_refresh_token-Keeps :
      (t : Uuid) (id : String) (secret : Option String) (token : String)
      (config : AuthorizationConfiguration)
      → Keeps (none_revived ext) (validate_refresh_token ext t id secret token config)
  unfolding validate_refresh_token
  validate_refresh_token-Keeps t id secret token config =
      search
        (
          frame, get_refresh_token-Keeps, resolve_client-Keeps, rotate-Keeps, get_identity-Keeps,
          refuse_inactive-Keeps, permitted_scopes-Keeps,
        )
        depth 24

  exchange_auth_code-Keeps :
      (code : String) → Keeps (none_revived ext) (Service.exchange_auth_code ext code)
  exchange_auth_code-Keeps code = quiet _ (Tables.exchange_auth_code-Keeps ext code)

  check_code-Keeps :
      (client : Client) (ctx : AuthCodeContext) (uri : Option String) (verifier : String)
      (config : AuthorizationConfiguration)
      → Keeps (none_revived ext) (check_code ext client ctx uri verifier config)
  check_code-Keeps client ctx uri verifier config =
      quiet _ (Tables.check_code-Keeps ext client ctx uri verifier config)

  validate_authorization_code-Keeps :
      (t : Uuid) (id : String) (secret : Option String) (code : String) (uri : Option String)
      (verifier : String) (config : AuthorizationConfiguration)
      → Keeps
          (none_revived ext)
          (validate_authorization_code ext t id secret code uri verifier config)
  unfolding validate_authorization_code
  validate_authorization_code-Keeps t id secret code uri verifier config =
      search
        (
          frame, exchange_auth_code-Keeps, resolve_client-Keeps, check_code-Keeps,
          get_identity-Keeps, permitted_scopes-Keeps,
        )
        depth 24

  requested_scopes-Keeps :
      (client : Client) (scope : Option String)
      → Keeps (none_revived ext) (requested_scopes ext client scope)
  requested_scopes-Keeps client none = search (frame)
  requested_scopes-Keeps client (some scope) =
      if-Keeps (none_revived ext) (all (contains client.allowed_scopes) (split_whitespace scope)) _
        _ (search (frame)) (search (frame))

  authenticate_client_by_name-Keeps :
      (t : Uuid) (name secret : String)
      → Keeps (none_revived ext) (authenticate_client_by_name ext t name secret)
  unfolding resolve_client
  authenticate_client_by_name-Keeps t name secret = resolve_client-Keeps t name (some secret)

  validate_client_credentials-Keeps :
      (t : Uuid) (id secret : String) (scope : Option String)
      → Keeps (none_revived ext) (validate_client_credentials ext t id secret scope)
  unfolding validate_client_credentials
  validate_client_credentials-Keeps t id secret scope =
      search (frame, authenticate_client_by_name-Keeps, requested_scopes-Keeps) depth 16

  -- Validating a grant, whatever comes of it, makes no refresh token live again.
  pub validate_grant-Keeps :
      (t : Uuid) (req : TokenGrantRequest) (config : AuthorizationConfiguration)
      → Keeps (none_revived ext) (validate_grant ext t req config)
  unfolding validate_grant
  validate_grant-Keeps t (TokenGrantRequest.client_credentials id secret scope) config =
      validate_client_credentials-Keeps t id secret scope
  validate_grant-Keeps t (TokenGrantRequest.authorization_code id secret code uri verifier) config =
      validate_authorization_code-Keeps t id secret code uri verifier config
  validate_grant-Keeps t (TokenGrantRequest.refresh_token id secret token) config =
      validate_refresh_token-Keeps t id secret token config
