-- ===== src/Server/Refusals.antt =====
-- server/src/handlers/identity.rs: what a caller needs for each request.
use knox_iam_public.Base.{
  ◌≡◌, refl, Bool, true, false, ◌&&◌, ◌||◌, not, String, ◌==◌, string_eq, contains, ◌⊎◌, inl, inr,
  Bool-cases, arith,
}
use knox_iam_public.Common.Directory.{Uuid}
use knox_iam_public.Common.Token.{JwtClaims}
use knox_iam_public.Externals.{Externals}
use knox_iam_public.World.{World, err, ok, fail_if, ◌>>=◌, ◌>>◌}
use knox_iam_public.World.Laws.{>>=-ok, >>=-err}
use knox_iam_public.Base.{◌∙◌}
use knox_iam_public.Roles.{
  identity_create_scope, identity_read_scope, identity_update_scope, identity_delete_scope,
}
use package.knox_iam_public.Server.Error.{AppError}
use package.knox_iam_public.Server.Access.{
  ResolvedTenant, ServerAction, require_scope, self_identity_id,
}
use package.knox_iam_public.Server.Requests.{IdentityRoute}
use package.knox_iam_public.Server.Identities.{
  ensure_self_or_elevated, handle, create_identity, list_identities, change_own_password,
  get_identity, update_identity, delete_identity, admin_create_reset_link, admin_reset_mfa,
  list_identity_roles, assign_identity_role, revoke_identity_role, list_roles,
}

module _ (ext : Externals) (claims : JwtClaims) where
  abbrev pub has : String → Bool
  has scope = contains claims.scopes scope

  -- The caller's own identity, or any with the elevated scope.
  abbrev pub reaches : Uuid → Bool
  reaches id = claims.sub == ext.uuid_text id || has identity_create_scope

  -- The scopes that each request needs, as a table.
  unfoldable pub permits : IdentityRoute → Bool
  permits (IdentityRoute.create_identity payload) = has identity_create_scope
  permits (IdentityRoute.list_identities query) =
      has identity_read_scope && has identity_create_scope
  permits (IdentityRoute.change_own_password payload) = has identity_update_scope
  permits (IdentityRoute.get_identity id pool) = has identity_read_scope && reaches id
  permits (IdentityRoute.update_identity id pool update) = has identity_update_scope && reaches id
  permits (IdentityRoute.delete_identity id pool) = has identity_delete_scope && reaches id
  permits (IdentityRoute.admin_create_reset_link id pool) = has identity_update_scope && reaches id
  permits (IdentityRoute.admin_reset_mfa id pool) = has identity_update_scope && reaches id
  permits (IdentityRoute.list_identity_roles id) = has identity_read_scope && reaches id
  permits (IdentityRoute.assign_identity_role id role) = has identity_update_scope
  permits (IdentityRoute.revoke_identity_role id role) = has identity_update_scope
  permits IdentityRoute.list_roles = has identity_read_scope

-- The answer is Forbidden, and nothing has changed.
abbrev pub Refuses : {ext : Externals} {A : Type 0} → ServerAction ext A → World ext → Type 0
Refuses m w = (message : String) × (m w ≡ (err (AppError.forbidden message), w))

module _ {ext : Externals} where
  module _ {A B : Type 0} where
    Refuses->>= :
        (m : ServerAction ext A) (k : A → ServerAction ext B) (w : World ext)
        → Refuses m w
        → Refuses (m >>= k) w
    Refuses->>= m k w (message, e) = (message, >>=-err m k w e)

    Refuses_later :
        (m : ServerAction ext A) (k : A → ServerAction ext B) (w : World ext) (a : A)
        → m w ≡ (ok a, w)
        → Refuses (k a) w
        → Refuses (m >>= k) w
    Refuses_later m k w a e (message, f) = (message, >>=-ok m k w e ∙ f)

  fail_if-Refuses :
      (c : Bool) (message : String) (w : World ext)
      → c ≡ true
      → Refuses (fail_if c (AppError.forbidden message)) w
  unfolding fail_if
  fail_if-Refuses true message w h = (message, refl)
  fail_if-Refuses false message w h = cc

  fail_if_passes :
      (c : Bool) (message : String) (w : World ext)
      → c ≡ false
      → fail_if c (AppError.forbidden message) w ≡ (ok tt, w)
  unfolding fail_if
  fail_if_passes false message w h = refl
  fail_if_passes true message w h = cc

  -- Two guards, one after the other.
  guards-Refuse :
      {A : Type 0} (c d : Bool) (m n : String) (k : ServerAction ext A) (w : World ext)
      → (c ≡ true) ⊎ (d ≡ true)
      → Refuses (fail_if c (AppError.forbidden m) >> (fail_if d (AppError.forbidden n) >> k)) w
  guards-Refuse true d m n k w h = Refuses->>= _ _ w (fail_if-Refuses true m w refl)
  guards-Refuse false d m n k w (inr e) =
      Refuses_later _ _ w tt (fail_if_passes false m w refl)
        (Refuses->>= _ _ w (fail_if-Refuses d n w e))
  guards-Refuse false d m n k w (inl e) = cc

  module _ (claims : JwtClaims) (w : World ext) where
    require_scope-Refuses :
        (scope : String) → has ext claims scope ≡ false → Refuses (require_scope ext claims scope) w
    unfolding require_scope
    require_scope-Refuses scope h = fail_if-Refuses _ _ w (ground arith)

    -- The scope and then the identity.
    self-Refuses :
        {A : Type 0} (scope : String) (id : Uuid) (k : ServerAction ext A)
        → (has ext claims scope && reaches ext claims id) ≡ false
        → Refuses (require_scope ext claims scope >> (ensure_self_or_elevated ext claims id >> k)) w
    unfolding require_scope ensure_self_or_elevated
    self-Refuses scope id k h =
        guards-Refuse _ _ _ _ k w (elim (Bool-cases (has ext claims scope)) [
          | inl e ↦ inr (ground arith)
          | inr e ↦ inl (ground arith)
        ])

    list-Refuses :
        {A : Type 0} (m : String) (k : ServerAction ext A)
        → (has ext claims identity_read_scope && has ext claims identity_create_scope) ≡ false
        → Refuses
            (require_scope ext claims identity_read_scope
              >> (fail_if (not (has ext claims identity_create_scope)) (AppError.forbidden m) >> k))
            w
    unfolding require_scope
    list-Refuses m k h =
        guards-Refuse _ _ _ _ k w (elim (Bool-cases (has ext claims identity_read_scope)) [
          | inl e ↦ inr (ground arith)
          | inr e ↦ inl (ground arith)
        ])

module _ (ext : Externals) (tenant : ResolvedTenant) where
  -- A request without the scopes that its route needs, or for another identity without the
  -- elevated scope, is answered Forbidden and changes nothing.
  pub handle_refused :
      (claims : JwtClaims) (route : IdentityRoute) (w : World ext)
      → permits ext claims route ≡ false
      → Refuses (handle ext tenant claims route) w
  unfolding permits handle create_identity list_identities change_own_password get_identity
      update_identity delete_identity admin_create_reset_link admin_reset_mfa list_identity_roles
      assign_identity_role revoke_identity_role list_roles self_identity_id
  handle_refused claims (IdentityRoute.create_identity payload) w h =
      Refuses->>= _ _ w (require_scope-Refuses claims w _ h)
  handle_refused claims (IdentityRoute.list_identities query) w h = list-Refuses claims w _ _ h
  handle_refused claims (IdentityRoute.change_own_password payload) w h =
      Refuses->>= _ _ w (Refuses->>= _ _ w (require_scope-Refuses claims w _ h))
  handle_refused claims (IdentityRoute.get_identity id pool) w h = self-Refuses claims w _ id _ h
  handle_refused claims (IdentityRoute.update_identity id pool update) w h =
      self-Refuses claims w _ id _ h
  handle_refused claims (IdentityRoute.delete_identity id pool) w h = self-Refuses claims w _ id _ h
  handle_refused claims (IdentityRoute.admin_create_reset_link id pool) w h =
      self-Refuses claims w _ id _ h
  handle_refused claims (IdentityRoute.admin_reset_mfa id pool) w h = self-Refuses claims w _ id _ h
  handle_refused claims (IdentityRoute.list_identity_roles id) w h = self-Refuses claims w _ id _ h
  handle_refused claims (IdentityRoute.assign_identity_role id role) w h =
      Refuses->>= _ _ w (require_scope-Refuses claims w _ h)
  handle_refused claims (IdentityRoute.revoke_identity_role id role) w h =
      Refuses->>= _ _ w (require_scope-Refuses claims w _ h)
  handle_refused claims IdentityRoute.list_roles w h =
      Refuses->>= _ _ w (require_scope-Refuses claims w _ h)
