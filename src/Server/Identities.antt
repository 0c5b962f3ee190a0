-- ===== src/Server/Identities.antt =====
-- server/src/handlers/identity.rs: the handlers of identities and roles, for a caller whose token
-- was accepted.
use Prim.Native.String.{◌++◌}
use knox_iam_public.Base.{
  ℕ, String, ◌&&◌, not, Option, some, List, [], ◌∷◌, map, ◌==◌, string_eq, nat_eq, contains, get_or,
  is_some, ltb, if◌then◌else◌,
}
use knox_iam_public.Common.Directory.{Uuid, is_active, public_identity}
use knox_iam_public.Common.Token.{JwtClaims}
use knox_iam_public.Common.Audit.{AuditEventType, AuditOutcome}
use knox_iam_public.Externals.{Externals}
use knox_iam_public.World.{pure, fail_if, when, ◌>>=◌, ◌>>◌}
use knox_iam_public.Roles.{
  identity_create_scope, identity_read_scope, identity_update_scope, identity_delete_scope,
}
use knox_iam_public.Identity.Administration
use knox_iam_public.Identity.Administration.{
  CreateIdentityRequest, UpdateIdentityRequest, RoleAssignmentRequest,
}
use knox_iam_public.Identity.Rows.{IdentityFilter}
use knox_iam_public.Identity.{get_identity as find_identity}
use knox_iam_public.Authentication.Session.{revoke_all_sessions}
use knox_iam_public.Authentication.Password
use knox_iam_public.Mfa.Service as MfaService
use package.knox_iam_public.Server.Error.{AppError}
use package.knox_iam_public.Server.Access.{
  ResolvedTenant, ServerAction, service, require_scope, self_identity_id, audit,
}
use package.knox_iam_public.Server.Bearer.{require_auth}
use package.knox_iam_public.Server.Pools.{resolve_pool}
use package.knox_iam_public.Server.Requests.{
  IdentityRoute, CreateIdentityDto, ListIdentitiesQuery, ChangePasswordDto, Body, Response,
  answer_ok,
}

abbrev pub max_page_size : ℕ → ℕ
max_page_size size = if ltb 100 size then 100 else size

module _ (ext : Externals) where
  -- Anyone else's identity needs the elevated scope.
  unfoldable pub ensure_self_or_elevated : JwtClaims → Uuid → ServerAction ext (Unit {0})
  ensure_self_or_elevated claims identity_id =
      fail_if
        (not (claims.sub == ext.uuid_text identity_id)
          && not (contains claims.scopes identity_create_scope))
        (AppError.forbidden "Another identity needs the elevated scope")

  unfoldable pub ensure_can_grant_each :
      Uuid → List String → JwtClaims → ServerAction ext (Unit {0})
  unfolding Administration.ensure_can_grant
  ensure_can_grant_each tenant_id [] claims = pure tt
  ensure_can_grant_each tenant_id (role ∷ roles) claims = do
    service ext (Administration.ensure_can_grant ext tenant_id role claims.scopes)
    ensure_can_grant_each tenant_id roles claims

module _ (ext : Externals) (tenant : ResolvedTenant) (claims : JwtClaims) where
  abbrev create_request : Uuid → CreateIdentityDto → CreateIdentityRequest
  create_request pool_id payload = record {
    tenant_id = tenant.id;
    pool_id = pool_id;
    email = payload.email;
    username = payload.email;
    password = payload.password;
    initial_roles = payload.roles;
    first_name = payload.first_name;
    last_name = payload.last_name;
  }

  unfoldable pub create_identity : CreateIdentityDto → ServerAction ext Response
  unfolding require_scope resolve_pool ensure_can_grant_each Administration.create_user audit
  create_identity payload = do
    require_scope ext claims identity_create_scope
    pool_id ← resolve_pool ext tenant.id claims.pool_id payload.pool_id
    ensure_can_grant_each ext tenant.id (get_or payload.roles []) claims
    identity ← service ext (Administration.create_user ext (create_request pool_id payload))
    audit ext tenant.id AuditEventType.identity_created claims AuditOutcome.success
    pure (record { status = 201; body = Body.identity (public_identity identity) })

  unfoldable pub update_identity :
      Uuid → Option Uuid → UpdateIdentityRequest → ServerAction ext Response
  unfolding require_scope ensure_self_or_elevated resolve_pool Administration.update_identity
      revoke_all_sessions audit
  update_identity identity_id requested_pool update = do
    require_scope ext claims identity_update_scope
    ensure_self_or_elevated ext claims identity_id
    pool_id ← resolve_pool ext tenant.id claims.pool_id requested_pool
    updated ← service ext (Administration.update_identity ext pool_id identity_id update)
    when (is_some update.status && not (is_active updated.status))
        (service ext (revoke_all_sessions ext tenant.id identity_id tenant.config))
    audit ext tenant.id AuditEventType.identity_updated claims AuditOutcome.success
    pure (answer_ok (Body.identity (public_identity updated)))

  unfoldable pub delete_identity : Uuid → Option Uuid → ServerAction ext Response
  unfolding require_scope ensure_self_or_elevated resolve_pool revoke_all_sessions
      Administration.delete_identity audit
  delete_identity identity_id requested_pool = do
    require_scope ext claims identity_delete_scope
    ensure_self_or_elevated ext claims identity_id
    pool_id ← resolve_pool ext tenant.id claims.pool_id requested_pool
    service ext (revoke_all_sessions ext tenant.id identity_id tenant.config)
    service ext (Administration.delete_identity ext pool_id identity_id)
    audit ext tenant.id AuditEventType.identity_deleted claims AuditOutcome.success
    pure (answer_ok (Body.message "Identity deleted"))

  abbrev search_request : Uuid → ListIdentitiesQuery → IdentityFilter
  search_request pool_id query = record {
    tenant_id = tenant.id;
    pool_id = some pool_id;
    page = get_or query.page 1;
    page_size = max_page_size (get_or query.page_size 20);
    query = query.query;
    status = query.status;
  }

  unfoldable pub list_identities : ListIdentitiesQuery → ServerAction ext Response
  unfolding require_scope resolve_pool Administration.list_identities
  list_identities query = do
    require_scope ext claims identity_read_scope
    fail_if (not (contains claims.scopes identity_create_scope))
        (AppError.forbidden "Cannot list identities without elevated scope")
    pool_id ← resolve_pool ext tenant.id claims.pool_id query.pool_id
    (identities, total) ←
        service ext (Administration.list_identities ext (search_request pool_id query))
    pure (
        answer_ok (
          Body.identities (record {
            items = map public_identity identities;
            total = total;
            page = get_or query.page 1;
            page_size = max_page_size (get_or query.page_size 20);
          })))

  unfoldable pub get_identity : Uuid → Option Uuid → ServerAction ext Response
  unfolding require_scope ensure_self_or_elevated resolve_pool find_identity
  get_identity identity_id requested_pool = do
    require_scope ext claims identity_read_scope
    ensure_self_or_elevated ext claims identity_id
    pool_id ← resolve_pool ext tenant.id claims.pool_id requested_pool
    identity ← service ext (find_identity ext pool_id identity_id)
    pure (answer_ok (Body.identity (public_identity identity)))

  unfoldable pub list_identity_roles : Uuid → ServerAction ext Response
  unfolding require_scope ensure_self_or_elevated Administration.get_identity_roles
  list_identity_roles identity_id = do
    require_scope ext claims identity_read_scope
    ensure_self_or_elevated ext claims identity_id
    roles ← service ext (Administration.get_identity_roles ext tenant.id identity_id)
    pure (answer_ok (Body.held_roles roles))

  abbrev pub assignment_request : Uuid → String → RoleAssignmentRequest
  assignment_request identity_id role = record {
    tenant_id = tenant.id;
    identity_id = identity_id;
    role_name = role;
  }

  unfoldable pub assign_identity_role : Uuid → String → ServerAction ext Response
  unfolding require_scope Administration.assign_role audit
  assign_identity_role identity_id role = do
    require_scope ext claims identity_update_scope
    service ext (Administration.assign_role ext (assignment_request identity_id role) claims.scopes)
    audit ext tenant.id AuditEventType.role_assigned claims AuditOutcome.success
    pure (answer_ok (Body.message ("Role '" ++ role ++ "' assigned")))

  unfoldable pub revoke_identity_role : Uuid → String → ServerAction ext Response
  unfolding require_scope Administration.revoke_role audit
  revoke_identity_role identity_id role = do
    require_scope ext claims identity_update_scope
    service ext (Administration.revoke_role ext (assignment_request identity_id role) claims.scopes)
    audit ext tenant.id AuditEventType.role_revoked claims AuditOutcome.success
    pure (answer_ok (Body.message ("Role '" ++ role ++ "' revoked")))

  unfoldable pub list_roles : ServerAction ext Response
  unfolding require_scope Administration.list_roles
  list_roles = do
    require_scope ext claims identity_read_scope
    roles ← service ext (Administration.list_roles ext tenant.id)
    pure (answer_ok (Body.roles roles))

  unfoldable pub change_own_password : ChangePasswordDto → ServerAction ext Response
  unfolding self_identity_id Password.change_own_password
  change_own_password payload = do
    identity_id ← self_identity_id ext claims
    outcome ← service ext (
        Password.change_own_password ext tenant.id claims.pool_id identity_id
          payload.current_password payload.new_password payload.mfa tenant.config)
    pure (answer_ok (Body.password_change outcome))

  unfoldable pub admin_create_reset_link : Uuid → Option Uuid → ServerAction ext Response
  unfolding require_scope ensure_self_or_elevated resolve_pool find_identity
      Password.request_password_reset audit
  admin_create_reset_link identity_id requested_pool = do
    require_scope ext claims identity_update_scope
    ensure_self_or_elevated ext claims identity_id
    pool_id ← resolve_pool ext tenant.id claims.pool_id requested_pool
    identity ← service ext (find_identity ext pool_id identity_id)
    (token, expires_at) ←
        service ext
          (Password.request_password_reset ext tenant.id pool_id identity_id tenant.config)
    audit ext tenant.id AuditEventType.password_reset_requested claims AuditOutcome.success
    pure (
        answer_ok (
          Body.reset_link
            (record { issuer = tenant.issuer; token = token; expires_at = expires_at })))

  unfoldable pub admin_reset_mfa : Uuid → Option Uuid → ServerAction ext Response
  unfolding require_scope ensure_self_or_elevated resolve_pool find_identity MfaService.remove_all
      audit
  admin_reset_mfa identity_id requested_pool = do
    require_scope ext claims identity_update_scope
    ensure_self_or_elevated ext claims identity_id
    pool_id ← resolve_pool ext tenant.id claims.pool_id requested_pool
    identity ← service ext (find_identity ext pool_id identity_id)
    service ext (MfaService.remove_all ext tenant.id identity_id)
    audit ext tenant.id AuditEventType.mfa_reset claims AuditOutcome.success
    pure (answer_ok (Body.message "MFA enrolment cleared"))

  -- `identity_routes` and `role_routes`
  unfoldable pub handle : IdentityRoute → ServerAction ext Response
  unfolding create_identity list_identities change_own_password get_identity update_identity
      delete_identity admin_create_reset_link admin_reset_mfa list_identity_roles
      assign_identity_role revoke_identity_role list_roles
  handle (IdentityRoute.create_identity payload) = create_identity payload
  handle (IdentityRoute.list_identities query) = list_identities query
  handle (IdentityRoute.change_own_password payload) = change_own_password payload
  handle (IdentityRoute.get_identity id pool) = get_identity id pool
  handle (IdentityRoute.update_identity id pool update) = update_identity id pool update
  handle (IdentityRoute.delete_identity id pool) = delete_identity id pool
  handle (IdentityRoute.admin_create_reset_link id pool) = admin_create_reset_link id pool
  handle (IdentityRoute.admin_reset_mfa id pool) = admin_reset_mfa id pool
  handle (IdentityRoute.list_identity_roles id) = list_identity_roles id
  handle (IdentityRoute.assign_identity_role id role) = assign_identity_role id role
  handle (IdentityRoute.revoke_identity_role id role) = revoke_identity_role id role
  handle IdentityRoute.list_roles = list_roles

-- A request with its `Authorization` header: the token first, then the route.
module _ (ext : Externals) (tenant : ResolvedTenant) where
  unfoldable pub respond : Option String → IdentityRoute → ServerAction ext Response
  unfolding require_auth handle
  respond header route = do claims ← require_auth ext tenant header; handle ext tenant claims route
