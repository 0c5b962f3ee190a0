-- ===== src/Authorization/Repository.antt =====
-- crates/knox-storage/src/authorization/repository.rs: `KnoxAuthorizationRepository`.
use knox_iam_public.Base.{
  String, Bool, false, not, Option, none, some, List, [], ◌∷◌, ◌==◌, nat_eq, if◌then◌else◌,
}
use knox_iam_public.Common.Error.{ServiceError, RepositoryError}
use knox_iam_public.Common.Directory.{Uuid}
use knox_iam_public.Common.Authorization.{Role, RoleKind}
use knox_iam_public.Externals.{Externals}
use knox_iam_public.World.{
  Action, Result, World, ok, err, pure, ignore, or_fail, fail_if, ◌>>=◌, ◌>>◌,
}
use package.knox_iam_public.Authorization.Store
use package.knox_iam_public.Authorization.Store.{role_not_found}
use package.knox_iam_public.Authorization.Cache

abbrev pub is_of_tenant : Uuid → Option Role → Bool
is_of_tenant tenant_id none = false
is_of_tenant tenant_id (some r) = r.tenant_id == tenant_id

module _ (ext : Externals) where
  -- `map_err(|e| RepositoryError::Database(e.to_string()))`
  abbrev as_database : {A : Type 0} → Result A × World ext → Result A × World ext
  as_database (ok a, w) = (ok a, w)
  as_database (err e, w) = (err (ServiceError.repository RepositoryError.database), w)

  unfoldable pub get_permission_id : String → Action ext Uuid
  unfolding Store.get_permission_id
  get_permission_id permission_key w = as_database (Store.get_permission_id ext permission_key w)

  abbrev pub permission_ids : List String → Action ext (List Uuid)
  permission_ids [] = pure []
  permission_ids (perm ∷ perms) = do
    id ← get_permission_id perm
    ids ← permission_ids perms
    pure (id ∷ ids)

  unfoldable pub create_role : Uuid → String → List String → RoleKind → Action ext Role
  unfolding Store.create_role get_permission_id
  create_role tenant_id name permissions kind = do
    perm_ids ← permission_ids permissions
    Store.create_role ext tenant_id name perm_ids kind

  unfoldable pub get_role : Uuid → Uuid → Action ext (Option Role)
  unfolding Store.get_role_with_permissions
  get_role tenant_id role_id = do
    role ← Store.get_role_with_permissions ext role_id
    pure (if is_of_tenant tenant_id role then role else none)

  unfoldable pub delete_role : Uuid → Uuid → Action ext (Unit {0})
  unfolding Store.get_role_with_permissions Store.delete_role
  delete_role tenant_id role_id = do
    role ← Store.get_role_with_permissions ext role_id
    fail_if (not (is_of_tenant tenant_id role)) role_not_found
    Store.delete_role ext role_id

  unfoldable pub assign_role : Uuid → Uuid → String → Action ext (Unit {0})
  unfolding Store.get_role_by_name Store.assign_role Cache.invalidate
  assign_role tenant_id identity_id role_name = do
    found ← Store.get_role_by_name ext tenant_id role_name
    role ← or_fail found role_not_found
    Store.assign_role ext identity_id role.id
    ignore (Cache.invalidate ext identity_id)

  unfoldable pub remove_role : Uuid → Uuid → String → Action ext (Unit {0})
  unfolding Store.get_role_by_name Store.remove_role Cache.invalidate
  remove_role tenant_id identity_id role_name = do
    found ← Store.get_role_by_name ext tenant_id role_name
    role ← or_fail found role_not_found
    Store.remove_role ext identity_id role.id
    ignore (Cache.invalidate ext identity_id)

  unfoldable pub list_roles : Uuid → Action ext (List Role)
  unfolding Store.list_roles
  list_roles tenant_id = Store.list_roles ext tenant_id

  unfoldable pub get_identity_roles : Uuid → Uuid → Action ext (List String)
  unfolding Store.roles_for_identity
  get_identity_roles tenant_id identity_id = Store.roles_for_identity ext tenant_id identity_id

  abbrev pub cached_or : Uuid → Option (List String) → Action ext (List String)
  cached_or identity_id (some cached_perms) = pure cached_perms
  cached_or identity_id none = do
    perms ← Store.get_permissions_for_identity ext identity_id
    ignore (Cache.set_permissions ext identity_id perms)
    pure perms

  unfoldable pub get_permissions : Uuid → Action ext (List String)
  unfolding Cache.get_permissions Cache.set_permissions Store.get_permissions_for_identity
  get_permissions identity_id = do
    cached ← Cache.get_permissions ext identity_id
    cached_or identity_id cached
