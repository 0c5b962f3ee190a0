-- ===== src/Authorization/Revoking.antt =====
-- crates/knox-core/src/identity.rs: the revocation of a role.
use knox_iam_public.Base.{
  ◌≡◌, ◌≢◌, sym, ◌∙◌, ap, String, Bool, true, false, not, some, List, string_eq, any, find, filter,
  contains,
}
use knox_iam_public.Common.Directory.{Uuid}
use knox_iam_public.Common.Authorization.{Role, IdentityRole, permissions_of}
use knox_iam_public.Externals.{Externals}
use knox_iam_public.World.{World, ok, held_by}
use knox_iam_public.World.Laws.{>>=-eq-ok, query-eq-ok, storage-eq-ok, fail_if-eq-ok, or_fail-eq-ok}
use knox_iam_public.Identity.Administration
use knox_iam_public.Identity.Administration.{RoleAssignmentRequest, lacks, identity_self_role_name}
use package.knox_iam_public.Authorization.Store
use package.knox_iam_public.Authorization.Store.{role_named, is_removed}
use package.knox_iam_public.Authorization.Repository
use package.knox_iam_public.Authorization.Membership.{
  Has-permissions_of, permissions_of-Has, Has-filter,
}
use package.knox_iam_public.Authorization.Granting.{
  ensure_can_grant-eq-ok, invalidate-held_by, same_permissions,
}

module _ (ext : Externals) where
  -- The permissions after the DELETE are by the assignments that it leaves.
  remove_role-eq-ok :
      (tenant_id id : Uuid) (name : String) (w : World ext) {u : Unit {0}} {w' : World ext}
      → Repository.remove_role ext tenant_id id name w ≡ (ok u, w')
      → (p : IdentityRole → Bool) × ((x : Uuid)
          → held_by w' x ≡ permissions_of w.identities w.roles (filter p w.identity_roles) x)
  unfolding Repository.remove_role Store.get_role_by_name Store.remove_role
  remove_role-eq-ok tenant_id id name w {u} {w'} h =
      let (o, w1, h1, k1) = >>=-eq-ok _ _ w h in
      let (os, s1, e1) = query-eq-ok _ w h1 in
      let (role, w2, h2, k2) = >>=-eq-ok _ _ w1 k1 in
      let (found, s2) = or_fail-eq-ok _ _ w1 h2 in
      let (_, w3, h3, k3) = >>=-eq-ok _ _ w2 k2 in
      let (os3, e) = storage-eq-ok _ w2 h3 in
      (
        λ ir. not (is_removed ext id role.id w ir),
        λ x.
            ap (λ f. f x) (invalidate-held_by ext id w3 k3)
            ∙ ap (λ p. held_by p.1 x) (sym e)
            ∙ ap (λ v. left x role.id v) (s2 ∙ s1),
      )
    where
      left : Uuid → Uuid → World ext → List String
      left x role_id v =
          permissions_of v.identities v.roles
            (filter (λ ir. not (is_removed ext id role_id v ir)) v.identity_roles) x

  -- A role that is revoked is not the default one and is a role of the tenant with no permission
  -- that the granter lacks, and afterwards every permission that any identity holds it held
  -- before.
  pub revoke_role-held_by :
      (req : RoleAssignmentRequest) (granter_scopes : List String) (w w' : World ext)
      → Administration.revoke_role ext req granter_scopes w ≡ (ok tt, w')
      → (req.role_name ≢ "IdentitySelf")
        × ((role : Role) × (find (role_named req.tenant_id req.role_name) w.roles ≡ some role)
            × (any (lacks granter_scopes) role.permissions ≡ false))
        × ((x : Uuid) (s : String)
            → contains (held_by w' x) s ≡ true
            → contains (held_by w x) s ≡ true)
  unfolding Administration.revoke_role
  revoke_role-held_by req granter_scopes w w' h =
      let (_, w0, h0, k0) = >>=-eq-ok _ _ w h in
      let (other, s0) = fail_if-eq-ok _ _ w h0 in
      let (_, w1, h1, k1) = >>=-eq-ok _ _ w0 k0 in
      let (role, named, may, roles, identities, rows) =
        ensure_can_grant-eq-ok ext req.tenant_id req.role_name granter_scopes w0 h1 in
      let (p, held) = remove_role-eq-ok req.tenant_id req.identity_id req.role_name w1 k1 in
      let r = roles ∙ ap (λ v. v.roles) s0 in
      let i = identities ∙ ap (λ v. v.identities) s0 in
      let a = ap (filter p) (rows ∙ ap (λ v. v.identity_roles) s0) in
      (
        λ e. let t = (string_eq.eqb_iff req.role_name "IdentitySelf").1 e in cc,
        (
          role,
          sym (ap (λ v. find (role_named req.tenant_id req.role_name) v.roles) s0) ∙ named,
          may,
        ),
        λ x s has. permissions_of-Has w.identities w.roles x s w.identity_roles (
            Has-filter w.identities w.roles x s p w.identity_roles (
              Has-permissions_of w.identities w.roles x s (filter p w.identity_roles)
                (ap (λ ks. contains ks s) (sym (held x ∙ same_permissions ext x i r a)) ∙ has))),
      )
