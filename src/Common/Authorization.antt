-- ===== src/Common/Authorization.antt =====
-- crates/knox-common/src/authorization.rs, and the join of crates/knox-storage/src/authorization/
-- store.rs that says what an identity may do. The rows of role_permissions are kept with the role.
use knox_iam_public.Base.{
  String, Bool, ◌&&◌, List, [], ◌∷◌, ◌++◌, ◌==◌, nat_eq, string_eq, any, contains, if◌then◌else◌,
}
use knox_iam_public.Common.Directory.{Uuid, Identity}

pub data RoleKind : Type 0 where
  system custom : RoleKind

pub record Permission : Type 0 where
  pub id : Uuid
  pub key : String

pub record Role : Type 0 where
  pub id : Uuid
  pub tenant_id : Uuid
  pub name : String
  pub kind : RoleKind
  pub permissions : List Permission

-- A row of identity_roles.
pub record IdentityRole : Type 0 where
  pub identity_id : Uuid
  pub role_id : Uuid
  pub tenant_id : Uuid

abbrev pub keys_of : List Permission → List String
keys_of [] = []
keys_of (p ∷ ps) = p.key ∷ keys_of ps

-- JOIN roles r ON r.id = ir.role_id AND r.tenant_id = ir.tenant_id, with its permissions
abbrev pub role_keys : List Role → IdentityRole → List String
role_keys [] ir = []
role_keys (r ∷ rs) ir =
    let rest = role_keys rs ir in
    if r.id == ir.role_id && r.tenant_id == ir.tenant_id
    then keys_of r.permissions ++ rest
    else rest

-- WHERE ir.identity_id = $1, and JOIN identities i ON i.id = ir.identity_id AND i.tenant_id =
-- ir.tenant_id
abbrev pub counts_for : List Identity → Uuid → IdentityRole → Bool
counts_for identities id ir =
    ir.identity_id == id && any (λ i. i.id == id && i.tenant_id == ir.tenant_id) identities

abbrev pub joined_keys : List Identity → List Role → Uuid → List IdentityRole → List String
joined_keys identities roles id [] = []
joined_keys identities roles id (ir ∷ irs) =
    let rest = joined_keys identities roles id irs in
    if counts_for identities id ir then role_keys roles ir ++ rest else rest

-- DISTINCT
abbrev pub distinct : List String → List String
distinct [] = []
distinct (k ∷ ks) = let rest = distinct ks in if contains rest k then rest else k ∷ rest

abbrev pub permissions_of : List Identity → List Role → List IdentityRole → Uuid → List String
permissions_of identities roles identity_roles id =
    distinct (joined_keys identities roles id identity_roles)
