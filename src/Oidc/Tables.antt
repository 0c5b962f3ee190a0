-- ===== src/Oidc/Tables.antt =====
-- The service calls of the grants that leave the tables as they were.
use knox_iam_public.Base.{
  ℕ, suc, refl, arith, String, Option, none, some, List, Bool, true, false, [], ◌∷◌,
}
use knox_iam_public.Common.Directory.{Uuid, AuthorizationConfiguration, Client, PoolKind}
use knox_iam_public.Common.Audit.{AuditEventType, AuditActor, AuditOutcome}
use knox_iam_public.Common.Token.{AuthenticationContext, IdTokenInput, AuthCodeContext}
use knox_iam_public.Common.Mfa.{MfaOption}
use knox_iam_public.Externals.{Externals}
use knox_iam_public.World.{World, ok}
use knox_iam_public.World.Frame.{Keeps, frame, storage-Keeps}
use knox_iam_public.World.Tables.{same_tables}
use knox_iam_public.Audit.{record_event}
use knox_iam_public.Identity.{get_identity, get_permissions}
use knox_iam_public.Client.{check_secret, authenticate_client_by_name, get_active_client_by_name}
use knox_iam_public.Mfa.Service.{offers_backup_code}
use knox_iam_public.Mfa.Store
use knox_iam_public.Token.Service.{
  exchange_auth_code, get_refresh_token, generate_opaque_token, new_v4,
}
use knox_iam_public.Token.Jwt.{
  mint_access_token, mint_id_token, get_signing_key, get_active_for_tenant, decrypt_private_key,
  encoding_key, mint_jwt_internal,
}
use knox_iam_public.Token.Cache.{get_and_delete_value, parse_code, exchange_code}
use knox_iam_public.Authentication.Session.{has_verified_mfa}
use knox_iam_public.Oidc.Scopes.{permitted_scopes, narrow_for_mfa, refuse_empty}
use knox_iam_public.Oidc.Grants.{resolve_client, check_code}
use knox_iam_public.Oidc.Models.{MintingContext}
use knox_iam_public.Oidc.Token.{pool_kind_for, issue_id_token}

module _ (ext : Externals) where
  pub get_identity-Keeps :
      (pool_id id : Uuid) → Keeps (same_tables ext) (get_identity ext pool_id id)
  unfolding get_identity
  get_identity-Keeps pool_id id = search (frame)

  pub get_active_client_by_name-Keeps :
      (tenant_id : Uuid) (name : String)
      → Keeps (same_tables ext) (get_active_client_by_name ext tenant_id name)
  unfolding get_active_client_by_name
  get_active_client_by_name-Keeps tenant_id name = search (frame)

  pub get_permissions-Keeps :
      (identity_id : Uuid) → Keeps (same_tables ext) (get_permissions ext identity_id)
  unfolding get_permissions
  get_permissions-Keeps identity_id = search (frame)

  pub get_refresh_token-Keeps :
      (tenant_id : Uuid) (h : String) → Keeps (same_tables ext) (get_refresh_token ext tenant_id h)
  unfolding get_refresh_token
  get_refresh_token-Keeps tenant_id h = search (frame)

  pub check_secret-Keeps :
      (client : Client) (secret : String) → Keeps (same_tables ext) (check_secret ext client secret)
  unfolding check_secret
  check_secret-Keeps client secret = search (frame)

  pub resolve_client-Keeps :
      (tenant_id : Uuid) (id : String) (secret : Option String)
      → Keeps (same_tables ext) (resolve_client ext tenant_id id secret)
  unfolding resolve_client authenticate_client_by_name
  resolve_client-Keeps tenant_id id none = get_active_client_by_name-Keeps tenant_id id
  resolve_client-Keeps tenant_id id (some secret) =
      search (frame, get_active_client_by_name-Keeps, check_secret-Keeps)

  offers_backup_code-Keeps :
      (tenant_id identity_id : Uuid) (os : List MfaOption)
      → Keeps (same_tables ext) (offers_backup_code ext tenant_id identity_id os)
  unfolding Store.count_unused_backup_codes
  offers_backup_code-Keeps tenant_id identity_id [] = search (frame)
  offers_backup_code-Keeps tenant_id identity_id (o ∷ os) = search (frame)

  has_verified_mfa-Keeps :
      (tenant_id identity_id : Uuid)
      → Keeps (same_tables ext) (has_verified_mfa ext tenant_id identity_id)
  unfolding has_verified_mfa Store.list_verified_methods
  has_verified_mfa-Keeps tenant_id identity_id = search (frame, offers_backup_code-Keeps)

  refuse_empty-Keeps : (ss : List String) → Keeps (same_tables ext) (refuse_empty ext ss)
  refuse_empty-Keeps [] = search (frame)
  refuse_empty-Keeps (s ∷ ss) = search (frame)

  narrow_for_mfa-Keeps :
      (b : Bool) (tenant_id identity_id : Uuid) (granted : List String)
      → Keeps (same_tables ext) (narrow_for_mfa ext b tenant_id identity_id granted)
  unfolding narrow_for_mfa
  narrow_for_mfa-Keeps false tenant_id identity_id granted = search (frame)
  narrow_for_mfa-Keeps true tenant_id identity_id granted =
      search (frame, has_verified_mfa-Keeps, refuse_empty-Keeps)

  pub permitted_scopes-Keeps :
      (tenant_id identity_id : Uuid) (requested : List String) (config : AuthorizationConfiguration)
      → Keeps (same_tables ext) (permitted_scopes ext tenant_id identity_id requested config)
  unfolding permitted_scopes
  permitted_scopes-Keeps tenant_id identity_id requested config =
      search (frame, get_permissions-Keeps, narrow_for_mfa-Keeps, refuse_empty-Keeps)

  pub check_code-Keeps :
      (client : Client) (ctx : AuthCodeContext) (uri : Option String) (verifier : String)
      (config : AuthorizationConfiguration)
      → Keeps (same_tables ext) (check_code ext client ctx uri verifier config)
  unfolding check_code
  check_code-Keeps client ctx uri verifier config = search (frame) depth 16

  draw :
      {A : Type 0} (a : World ext → A)
      → Keeps (same_tables ext) (λ (w : World ext). (ok (a w), record w { draws = suc w.draws }))
  unfolding Keeps
  draw a w = record {
    draws = omega arith;
    now = refl;
    refresh_tokens = refl;
    identities = refl;
    clients = refl;
    permissions = refl;
    mfa_methods = refl;
  }

  pub new_v4-Keeps : Keeps (same_tables ext) (new_v4 ext)
  unfolding new_v4
  new_v4-Keeps = draw _

  pub generate_opaque_token-Keeps : (n : ℕ) → Keeps (same_tables ext) (generate_opaque_token ext n)
  unfolding generate_opaque_token
  generate_opaque_token-Keeps n = draw _

  get_signing_key-Keeps :
      (tenant_id : Uuid) → Keeps (same_tables ext) (get_signing_key ext tenant_id)
  unfolding get_signing_key get_active_for_tenant decrypt_private_key
  get_signing_key-Keeps tenant_id = search (frame)

  pub mint_access_token-Keeps :
      (tenant_id : Uuid) (issuer subject : String) (scopes : List String) (client : Client)
      (kind : PoolKind) (auth : Option AuthenticationContext)
      → Keeps
          (same_tables ext)
          (mint_access_token ext tenant_id issuer subject scopes client kind auth)
  unfolding mint_access_token encoding_key mint_jwt_internal
  mint_access_token-Keeps tenant_id issuer subject scopes client kind auth =
      search (frame, get_signing_key-Keeps, new_v4-Keeps)

  mint_id_token-Keeps :
      (tenant_id : Uuid) (issuer : String) (ttl : ℕ) (input : IdTokenInput) (token : String)
      → Keeps (same_tables ext) (mint_id_token ext tenant_id issuer ttl input token)
  unfolding mint_id_token encoding_key
  mint_id_token-Keeps tenant_id issuer ttl input token = search (frame, get_signing_key-Keeps)

  pub issue_id_token-Keeps :
      (b : Bool) (tenant_id : Uuid) (issuer : String) (context : MintingContext) (token : String)
      → Keeps (same_tables ext) (issue_id_token ext b tenant_id issuer context token)
  unfolding issue_id_token
  issue_id_token-Keeps false tenant_id issuer context token = search (frame)
  issue_id_token-Keeps true tenant_id issuer context token = search (frame, mint_id_token-Keeps)

  pub pool_kind_for-Keeps :
      (tenant_id pool_id : Uuid) → Keeps (same_tables ext) (pool_kind_for ext tenant_id pool_id)
  unfolding pool_kind_for
  pool_kind_for-Keeps tenant_id pool_id = search (frame)

  pub record_event-Keeps :
      (tenant_id : Uuid) (e : AuditEventType) (a : AuditActor) (o : AuditOutcome)
      → Keeps (same_tables ext) (record_event ext tenant_id e a o)
  unfolding Keeps record_event
  record_event-Keeps tenant_id e a o w = record {
    draws = omega arith;
    now = refl;
    refresh_tokens = refl;
    identities = refl;
    clients = refl;
    permissions = refl;
    mfa_methods = refl;
  }

  delete_code : (k : String) → Keeps (same_tables ext) (get_and_delete_value ext k)
  unfolding Keeps get_and_delete_value
  delete_code k = storage-Keeps (same_tables ext) _ (λ w. record {
    draws = omega arith;
    now = refl;
    refresh_tokens = refl;
    identities = refl;
    clients = refl;
    permissions = refl;
    mfa_methods = refl;
  })

  parse_code-Keeps : (o : Option ext.redis.Text) → Keeps (same_tables ext) (parse_code ext o)
  parse_code-Keeps none = search (frame)
  parse_code-Keeps (some json) = search (frame)

  pub exchange_auth_code-Keeps :
      (code : String) → Keeps (same_tables ext) (exchange_auth_code ext code)
  unfolding exchange_auth_code exchange_code
  exchange_auth_code-Keeps code = search (frame, delete_code, parse_code-Keeps)
