-- ===== src/Authorization/Store.antt =====
-- crates/knox-storage/src/authorization/store.rs: `PgAuthorizationStore`, the tables of roles and
-- their assignments, in which (tenant_id, name) is UNIQUE for roles. A deleted role takes its
-- assignments along. Lists of roles and names are in the order of the tables.
use knox_iam_public.Base.{
  suc, String, Bool, true, false, ◌&&◌, ◌||◌, not, Option, none, some, List, [], ◌∷◌, ◌++◌, ◌==◌,
  nat_eq, string_eq, find, filter, any, contains, if◌then◌else◌, length,
}
use knox_iam_public.Common.Error.{RepositoryError, ServiceError}
use knox_iam_public.Common.Directory.{Uuid}
use knox_iam_public.Common.Authorization.{Permission, Role, RoleKind, IdentityRole, counts_for}
use knox_iam_public.Externals.{Externals}
use knox_iam_public.World.{
  World, Action, Result, held_by, storage, ok, err, pure, or_fail, fail_if, ◌>>=◌, ◌>>◌,
}

abbrev pub role_not_found : ServiceError
role_not_found = ServiceError.repository RepositoryError.not_found

-- The WHERE clauses.
abbrev pub role_has_id : Uuid → Role → Bool
role_has_id id r = r.id == id

abbrev pub role_named : Uuid → String → Role → Bool
role_named tenant_id name r = r.tenant_id == tenant_id && r.name == name

abbrev pub is_assigned : IdentityRole → IdentityRole → Bool
is_assigned a b = a.identity_id == b.identity_id && a.role_id == b.role_id

module _ (ext : Externals) where
  -- `INSERT INTO role_permissions`: the ids are those of rows, each once.
  abbrev pub rows_with : List Uuid → List Permission → List Permission
  rows_with ids [] = []
  rows_with ids (p ∷ ps) =
      let rest = rows_with ids ps in if contains ids p.id then p ∷ rest else rest

  abbrev pub new_role : Uuid → String → List Uuid → RoleKind → World ext → Role
  new_role tenant_id name permissions kind w = record {
    id = ext.new_v4 w.draws;
    tenant_id = tenant_id;
    name = name;
    kind = kind;
    permissions = rows_with permissions w.permission_rows;
  }

  abbrev pub inserted_role : Role → World ext → Result Role × World ext
  inserted_role role w =
      if any (λ r. r.id == role.id || role_named role.tenant_id role.name r) w.roles
      then (err (ServiceError.repository RepositoryError.database), w)
      else (ok (record role { permissions = [] }), record w { roles = role ∷ w.roles })

  -- One transaction. The answer leaves the permissions out.
  unfoldable pub create_role : Uuid → String → List Uuid → RoleKind → Action ext Role
  create_role tenant_id name permissions kind = storage λ w.
      let role = new_role tenant_id name permissions kind w in
      let drawn = record w { draws = suc w.draws } in
      if length role.permissions == length permissions
      then inserted_role role drawn
      else (err (ServiceError.repository RepositoryError.database), drawn)

  unfoldable pub get_permission_id : String → Action ext Uuid
  get_permission_id permission_key = do
    row ← storage (λ w. (ok (find (λ p. p.key == permission_key) w.permission_rows), w))
    permission ← or_fail row role_not_found
    pure permission.id

  -- The role, then its permissions: two queries.
  unfoldable pub get_role_with_permissions : Uuid → Action ext (Option Role)
  get_role_with_permissions role_id = do
    role ← storage (λ w. (ok (find (role_has_id role_id) w.roles), w))
    elim role [ none ↦ pure none | some r ↦ storage (λ w. (ok (some r), w)) ]

  unfoldable pub get_role_by_name : Uuid → String → Action ext (Option Role)
  get_role_by_name tenant_id name = storage λ w. (ok (find (role_named tenant_id name) w.roles), w)

  unfoldable pub delete_role : Uuid → Action ext (Unit {0})
  delete_role role_id = storage λ w.
      if any (role_has_id role_id) w.roles
      then (
        ok tt,
        record w {
          roles = filter (λ r. not (role_has_id role_id r)) w.roles;
          identity_roles = filter (λ ir. not (ir.role_id == role_id)) w.identity_roles;
        },
      )
      else (err role_not_found, w)

  -- SELECT EXISTS: the identity and the role are of one tenant.
  abbrev pub tenant_matches : Uuid → Uuid → World ext → Bool
  tenant_matches identity_id role_id w =
      any
        (λ i.
          i.id == identity_id && any (λ r. r.id == role_id && i.tenant_id == r.tenant_id) w.roles)
        w.identities

  abbrev pub assignment : Uuid → Role → IdentityRole
  assignment identity_id r = record {
    identity_id = identity_id;
    role_id = r.id;
    tenant_id = r.tenant_id;
  }

  -- ON CONFLICT DO NOTHING
  abbrev pub unless_there : Bool → IdentityRole → List IdentityRole → List IdentityRole
  unless_there true row rows = rows
  unless_there false row rows = row ∷ rows

  -- The rows that the INSERT selects.
  abbrev pub assigned : Uuid → Option Role → List IdentityRole → List IdentityRole
  assigned identity_id none rows = rows
  assigned identity_id (some r) rows =
      let row = assignment identity_id r in unless_there (any (is_assigned row) rows) row rows

  unfoldable pub assign_role : Uuid → Uuid → Action ext (Unit {0})
  assign_role identity_id role_id = do
    matches ← storage (λ w. (ok (tenant_matches identity_id role_id w), w))
    fail_if (not matches) role_not_found
    storage λ w. (
      ok tt,
      record w {
        identity_roles =
            if tenant_matches identity_id role_id w
            then assigned identity_id (find (role_has_id role_id) w.roles) w.identity_roles
            else w.identity_roles;
      },
    )

  unfoldable pub get_permissions_for_identity : Uuid → Action ext (List String)
  get_permissions_for_identity identity_id = storage λ w. (ok (held_by w identity_id), w)

  -- The rows that the DELETE finds.
  abbrev pub is_removed : Uuid → Uuid → World ext → IdentityRole → Bool
  is_removed identity_id role_id w ir =
      ir.role_id == role_id
      && counts_for w.identities identity_id ir
      && any (λ r. r.id == role_id && r.tenant_id == ir.tenant_id) w.roles

  unfoldable pub remove_role : Uuid → Uuid → Action ext (Unit {0})
  remove_role identity_id role_id = storage λ w. (
    ok tt,
    record w {
      identity_roles = filter (λ ir. not (is_removed identity_id role_id w ir)) w.identity_roles;
    },
  )

  unfoldable pub list_roles : Uuid → Action ext (List Role)
  list_roles tenant_id = storage λ w. (ok (filter (λ r. r.tenant_id == tenant_id) w.roles), w)

  abbrev pub names_joined : List Role → IdentityRole → List String
  names_joined [] ir = []
  names_joined (r ∷ rs) ir =
      let rest = names_joined rs ir in
      if r.id == ir.role_id && r.tenant_id == ir.tenant_id then r.name ∷ rest else rest

  abbrev pub role_names : World ext → Uuid → Uuid → List IdentityRole → List String
  role_names w tenant_id identity_id [] = []
  role_names w tenant_id identity_id (ir ∷ irs) =
      let rest = role_names w tenant_id identity_id irs in
      if ir.tenant_id == tenant_id && counts_for w.identities identity_id ir
      then names_joined w.roles ir ++ rest
      else rest

  unfoldable pub roles_for_identity : Uuid → Uuid → Action ext (List String)
  roles_for_identity tenant_id identity_id =
      storage λ w. (ok (role_names w tenant_id identity_id w.identity_roles), w)
