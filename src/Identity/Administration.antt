-- ===== src/Identity/Administration.antt =====
-- crates/knox-core/src/identity.rs: the administration of identities and of their roles.
use Prim.Native.String.{count}
use knox_iam_public.Base.{
  ℕ, String, Bool, false, ◌&&◌, not, Option, none, some, List, [], ◌∷◌, ◌==◌, string_eq, nat_eq,
  find, any, contains, ltb, get_or,
}
use knox_iam_public.Common.Error.{ServiceError}
use knox_iam_public.Common.Directory.{Uuid, Identity, IdentityKind, Status}
use knox_iam_public.Common.Authorization.{Role, Permission}
use knox_iam_public.Externals.{Externals}
use knox_iam_public.World.{Action, pure, or_fail, fail_if, ◌>>=◌, ◌>>◌}
use knox_iam_public.Authorization.Repository
use package.knox_iam_public.Identity.{user_not_found, hash_password, set_password, get_identity}
use knox_iam_public.Token.Service.{new_v4}
use package.knox_iam_public.Identity.Rows
use package.knox_iam_public.Identity.Rows.{IdentityUpdates, IdentityFilter}

abbrev pub identity_self_role_name : String
identity_self_role_name = "IdentitySelf"

pub record CreateIdentityRequest : Type 0 where
  pub tenant_id : Uuid
  pub pool_id : Uuid
  pub email : String
  pub username : String
  pub password : String
  pub initial_roles : Option (List String)
  pub first_name : Option String
  pub last_name : Option String

pub record UpdateIdentityRequest : Type 0 where
  pub email : Option String
  pub username : Option String
  pub first_name : Option String
  pub last_name : Option String
  pub status : Option Status

pub record ChangePasswordRequest : Type 0 where
  pub pool_id : Uuid
  pub identity_id : Uuid
  pub current_password : String
  pub new_password : String

pub record AdminResetPasswordRequest : Type 0 where
  pub pool_id : Uuid
  pub identity_id : Uuid
  pub new_password : String

pub record RoleAssignmentRequest : Type 0 where
  pub tenant_id : Uuid
  pub identity_id : Uuid
  pub role_name : String

-- The permissions of a role that the granter lacks.
abbrev pub lacks : List String → Permission → Bool
lacks granter_scopes p = not (contains granter_scopes p.key)

module _ (ext : Externals) where
  -- `req.validate()`
  unfoldable pub is_valid_request : CreateIdentityRequest → Bool
  is_valid_request req =
      ext.is_email req.email
      && not (ltb (count req.username) 3)
      && not (ltb 50 (count req.username))
      && not (ltb (count req.password) 8)

  abbrev pub new_identity : Uuid → String → CreateIdentityRequest → Identity
  new_identity id password_hash req = record {
    id = id;
    tenant_id = req.tenant_id;
    pool_id = req.pool_id;
    kind = IdentityKind.human;
    username = req.username;
    email = some req.email;
    password_hash = some password_hash;
    email_verified = false;
    first_name = req.first_name;
    last_name = req.last_name;
    status = Status.active;
  }

  unfoldable pub assign_roles : Uuid → Uuid → List String → Action ext (Unit {0})
  unfolding Repository.assign_role
  assign_roles tenant_id identity_id [] = pure tt
  assign_roles tenant_id identity_id (role ∷ roles) = do
    Repository.assign_role ext tenant_id identity_id role
    assign_roles tenant_id identity_id roles

  -- The identity first, then its roles, the default one in front.
  unfoldable pub create_user : CreateIdentityRequest → Action ext Identity
  unfolding is_valid_request hash_password new_v4 Rows.create assign_roles
  create_user req = do
    fail_if (not (is_valid_request req)) (ServiceError.validation "")
    password_hash ← hash_password ext req.password
    new_id ← new_v4 ext
    created ← Rows.create ext (new_identity new_id password_hash req)
    assign_roles req.tenant_id created.id (identity_self_role_name ∷ get_or req.initial_roles [])
    pure created

  unfoldable pub list_identities : IdentityFilter → Action ext (List Identity × ℕ)
  unfolding Rows.list
  list_identities filter = Rows.list ext filter

  unfoldable pub update_identity : Uuid → Uuid → UpdateIdentityRequest → Action ext Identity
  unfolding Rows.update
  update_identity pool_id id req = Rows.update ext pool_id id (record {
    username = req.username;
    email = req.email;
    password_hash = none;
    email_verified = none;
    first_name = req.first_name;
    last_name = req.last_name;
    status = req.status;
  })

  unfoldable pub delete_identity : Uuid → Uuid → Action ext (Unit {0})
  unfolding Rows.delete
  delete_identity pool_id id = Rows.delete ext pool_id id

  unfoldable pub change_password : ChangePasswordRequest → Action ext (Unit {0})
  unfolding get_identity set_password
  change_password req = do
    fail_if (ltb (count req.new_password) 8)
        (ServiceError.validation "New password must be at least 8 characters")
    user ← get_identity ext req.pool_id req.identity_id
    stored_hash ← or_fail user.password_hash ServiceError.invalid_credentials
    fail_if (not (ext.argon2_parses stored_hash)) ServiceError.invalid_credentials
    fail_if (not (ext.argon2_verify req.current_password stored_hash))
        ServiceError.invalid_credentials
    set_password ext req.pool_id req.identity_id req.new_password

  unfoldable pub admin_reset_password : AdminResetPasswordRequest → Action ext (Unit {0})
  unfolding Rows.exists set_password
  admin_reset_password req = do
    fail_if (ltb (count req.new_password) 8) (ServiceError.validation "")
    found ← Rows.exists ext req.pool_id req.identity_id
    fail_if (not found) user_not_found
    set_password ext req.pool_id req.identity_id req.new_password

  unfoldable pub list_roles : Uuid → Action ext (List Role)
  unfolding Repository.list_roles
  list_roles tenant_id = Repository.list_roles ext tenant_id

  unfoldable pub get_identity_roles : Uuid → Uuid → Action ext (List String)
  unfolding Repository.get_identity_roles
  get_identity_roles tenant_id identity_id = Repository.get_identity_roles ext tenant_id identity_id

  unfoldable pub ensure_can_grant : Uuid → String → List String → Action ext (Unit {0})
  unfolding list_roles
  ensure_can_grant tenant_id role_name granter_scopes = do
    roles ← list_roles tenant_id
    role ← or_fail (find (λ r. r.name == role_name) roles) (ServiceError.validation "Unknown role")
    fail_if (any (lacks granter_scopes) role.permissions) ServiceError.forbidden

  unfoldable pub assign_role : RoleAssignmentRequest → List String → Action ext (Unit {0})
  unfolding ensure_can_grant Repository.assign_role
  assign_role req granter_scopes = do
    ensure_can_grant req.tenant_id req.role_name granter_scopes
    Repository.assign_role ext req.tenant_id req.identity_id req.role_name

  unfoldable pub revoke_role : RoleAssignmentRequest → List String → Action ext (Unit {0})
  unfolding ensure_can_grant Repository.remove_role
  revoke_role req granter_scopes = do
    fail_if (req.role_name == identity_self_role_name)
        (ServiceError.validation "Cannot revoke default role")
    ensure_can_grant req.tenant_id req.role_name granter_scopes
    Repository.remove_role ext req.tenant_id req.identity_id req.role_name
