-- ===== src/Roles.antt =====
-- crates/knox-core/src/roles.rs: the scopes, and the predicates by which tokens are narrowed.
pub mod Narrowing
use text.Mathlib.Text.{starts_with}
use knox_iam_public.Base.{String, Bool, ◌||◌, List, [], ◌∷◌, contains, ◌==◌, string_eq}

abbrev pub identity_create_scope : String
identity_create_scope = "IdentityCreate"

abbrev pub identity_read_scope : String
identity_read_scope = "IdentityRead"

abbrev pub identity_update_scope : String
identity_update_scope = "IdentityUpdate"

abbrev pub identity_delete_scope : String
identity_delete_scope = "IdentityDelete"

abbrev pub tenant_create_scope : String
tenant_create_scope = "TenantCreate"

abbrev pub self_service_scopes : List String
self_service_scopes = identity_read_scope ∷ identity_update_scope ∷ identity_delete_scope ∷ []

abbrev pub oidc_scopes : List String
oidc_scopes = "openid" ∷ "profile" ∷ "email" ∷ "address" ∷ "phone" ∷ "offline_access" ∷ []

unfoldable pub is_platform_scope : String → Bool
is_platform_scope scope = starts_with scope "Platform" || scope == tenant_create_scope

unfoldable pub is_self_service_scope : String → Bool
is_self_service_scope scope = contains self_service_scopes scope

unfoldable pub is_oidc_scope : String → Bool
is_oidc_scope scope = contains oidc_scopes scope
