-- ===== src/Oidc/Scopes.antt =====
-- crates/knox-services/src/oidc/service.rs: `permitted_scopes`.
pub mod Laws
pub mod Reach
use knox_iam_public.Base.{
  String, Bool, true, false, ◌&&◌, ◌||◌, not, List, [], ◌∷◌, any, filter, contains, string_eq,
  if◌then◌else◌,
}
use knox_iam_public.Common.Error.{ServiceError}
use knox_iam_public.Common.Directory.{Uuid, AuthorizationConfiguration}
use knox_iam_public.Externals.{Externals}
use knox_iam_public.World.{World, Action, pure, fail, ◌>>=◌}
use knox_iam_public.Identity.{get_permissions}
use knox_iam_public.Authentication.Session.{has_verified_mfa}
use knox_iam_public.Roles.{is_oidc_scope, is_self_service_scope}

abbrev pub is_held : List String → String → Bool
is_held held s = is_oidc_scope s || contains held s

abbrev pub is_kept_without_mfa : String → Bool
is_kept_without_mfa s = is_self_service_scope s || is_oidc_scope s

module _ (ext : Externals) where
  abbrev pub refuse_empty : List String → Action ext (List String)
  refuse_empty [] = fail ServiceError.forbidden
  refuse_empty (s ∷ ss) = pure (s ∷ ss)

  -- The scopes that are left once it is known whether a second factor is enrolled.
  abbrev pub withhold : Bool → List String → List String
  withhold true granted = granted
  withhold false granted = filter is_kept_without_mfa granted

  -- The second factor is looked up only where some scope depends on it.
  unfoldable pub narrow_for_mfa : Bool → Uuid → Uuid → List String → Action ext (List String)
  unfolding has_verified_mfa
  narrow_for_mfa false tenant_id identity_id granted = pure granted
  narrow_for_mfa true tenant_id identity_id granted = do
    enrolled ← has_verified_mfa ext tenant_id identity_id
    refuse_empty (withhold enrolled granted)

  unfoldable pub permitted_scopes :
      Uuid → Uuid → List String → AuthorizationConfiguration → Action ext (List String)
  unfolding narrow_for_mfa get_permissions
  permitted_scopes tenant_id identity_id requested config = do
    held ← get_permissions ext identity_id
    let granted = filter (is_held held) requested
    narrowed ←
        narrow_for_mfa (config.require_admin_mfa && any (λ s. not (is_kept_without_mfa s)) granted)
          tenant_id identity_id granted
    refuse_empty narrowed
