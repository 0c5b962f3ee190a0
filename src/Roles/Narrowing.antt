-- ===== src/Roles/Narrowing.antt =====
-- crates/knox-core/src/roles.rs: the scopes that narrowing spares are no authority over others.
use knox_iam_public.Base.{
  ◌≡◌, refl, sym, ◌∙◌, ap, subst, String, true, false, ◌||◌, List, [], ◌∷◌, contains, ◌==◌,
  string_eq, All, Bool-cases, inl, inr,
}
use knox_iam_public.Roles.{
  is_platform_scope, is_self_service_scope, is_oidc_scope, oidc_scopes, self_service_scopes,
}

contains-All :
    (P : String → Type 0) (xs : List String) (s : String) → All P xs → contains xs s ≡ true → P s
contains-All P [] s h e = cc
contains-All P (x ∷ xs) s (p, h) e = elim (Bool-cases (x == s)) [
  | inl k ↦ subst P ((string_eq.eqb_iff x s).0 k) p
  | inr k ↦ contains-All P xs s h (sym (ap (λ b. b || contains xs s) k) ∙ e)
]

oidc_in_tenant : All (λ s. is_platform_scope s ≡ false) oidc_scopes
unfolding is_platform_scope
oidc_in_tenant = (refl, (refl, (refl, (refl, (refl, (refl, tt))))))

self_service_in_tenant : All (λ s. is_platform_scope s ≡ false) self_service_scopes
unfolding is_platform_scope
self_service_in_tenant = (refl, (refl, (refl, tt)))

pub oidc_scope_in_tenant : (s : String) → is_oidc_scope s ≡ true → is_platform_scope s ≡ false
unfolding is_oidc_scope
oidc_scope_in_tenant s =
    contains-All (λ t. is_platform_scope t ≡ false) oidc_scopes s oidc_in_tenant

pub self_service_scope_in_tenant :
    (s : String) → is_self_service_scope s ≡ true → is_platform_scope s ≡ false
unfolding is_self_service_scope
self_service_scope_in_tenant s =
    contains-All (λ t. is_platform_scope t ≡ false) self_service_scopes s self_service_in_tenant
