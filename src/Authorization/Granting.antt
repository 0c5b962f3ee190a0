-- ===== src/Authorization/Granting.antt =====
-- crates/knox-core/src/identity.rs: assigning and revoking roles never creates a permission.
use knox_iam_public.Base.{
  ◌≡◌, refl, sym, ◌∙◌, ap, subst, String, Bool, true, false, Option, none, some, List, [], ◌∷◌,
  ◌==◌, nat_eq, string_eq, any, find, filter, contains, All, ◌⊎◌, inl, inr, Bool-cases, arith,
  if◌then◌else◌,
}
use knox_iam_public.Base.Rows.{All-map, find-some}
use knox_iam_public.Common.Directory.{Uuid, Identity}
use knox_iam_public.Common.Authorization.{
  Role, Permission, IdentityRole, keys_of, role_keys, permissions_of,
}
use knox_iam_public.Externals.{Externals}
use knox_iam_public.World.{World, ok, ignore, held_by}
use knox_iam_public.World.Laws.{
  >>=-eq-ok, query-eq-ok, storage-eq-ok, fail_if-eq-ok, or_fail-eq-ok, storage-state,
}
use knox_iam_public.Key.Cache.{del_value}
use knox_iam_public.Key.Rows.{find-All}
use knox_iam_public.Identity.Administration
use knox_iam_public.Identity.Administration.{RoleAssignmentRequest, ensure_can_grant, lacks}
use package.knox_iam_public.Authorization.Store
use package.knox_iam_public.Authorization.Store.{
  role_has_id, role_named, assigned, assignment, tenant_matches, is_assigned,
}
use package.knox_iam_public.Authorization.Cache
use package.knox_iam_public.Authorization.Repository
use package.knox_iam_public.Authorization.Membership.{
  Has, Has-permissions_of, permissions_of-Has, Has-cons, role_keys-All,
}

-- Every role is the one that its id finds: `id` is the primary key.
abbrev pub HasOwnId : List Role → Type 0
HasOwnId roles = All (λ r. find (role_has_id r.id) roles ≡ some r) roles

some_injective : {a b : Role} → some a ≡ some b → a ≡ b
some_injective e = cc

same_id-All :
    (roles : List Role) (id : Uuid) (k : Role)
    → HasOwnId roles
    → find (role_has_id id) roles ≡ some k
    → All (λ r. r.id ≡ id → r ≡ k) roles
same_id-All roles id k own found =
    All-map
      (λ r own_r e. some_injective (sym own_r ∙ ap (λ i. find (role_has_id i) roles) e ∙ found))
      roles own

-- The rows of a role that grants nothing the granter lacks.
contains-lacks :
    (scopes : List String) (ps : List Permission) (s : String)
    → any (lacks scopes) ps ≡ false
    → contains (keys_of ps) s ≡ true
    → contains scopes s ≡ true
contains-lacks scopes [] s h k = cc
contains-lacks scopes (p ∷ ps) s h k = elim (Bool-cases (p.key == s)) [
  | inl e ↦
      let same = (string_eq.eqb_iff p.key s).0 e in
      subst (λ t. contains scopes t ≡ true) same (ground arith)
  | inr e ↦ contains-lacks scopes ps s (ground arith) (ground arith)
]

find_named :
    (tenant_id : Uuid) (name : String) (roles : List Role)
    → find (λ r. r.name == name) (filter (λ r. r.tenant_id == tenant_id) roles)
      ≡ find (role_named tenant_id name) roles
find_named tenant_id name [] = refl
find_named tenant_id name (r ∷ rs) =
    let ih = find_named tenant_id name rs in
    elim (Bool-cases (r.tenant_id == tenant_id)) [
      | inl e ↦ elim (Bool-cases (r.name == name)) [ inl d ↦ simp (e, d) | inr d ↦ simp (e, d, ih) ]
      | inr e ↦ simp (e, ih)
    ]

module _ (ext : Externals) where
  -- A grant that passes is of a role of the tenant whose permissions the granter has.
  pub ensure_can_grant-eq-ok :
      (tenant_id : Uuid) (name : String) (scopes : List String) (w : World ext) {u : Unit {0}}
      {w' : World ext}
      → ensure_can_grant ext tenant_id name scopes w ≡ (ok u, w')
      → (role : Role) × (find (role_named tenant_id name) w.roles ≡ some role)
        × (any (lacks scopes) role.permissions ≡ false)
        × (w'.roles ≡ w.roles)
        × (w'.identities ≡ w.identities)
        × (w'.identity_roles ≡ w.identity_roles)
  unfolding ensure_can_grant Administration.list_roles Repository.list_roles Store.list_roles
  ensure_can_grant-eq-ok tenant_id name scopes w h =
      let (roles, w1, h1, k1) = >>=-eq-ok _ _ w h in
      let (os, s1, e1) = query-eq-ok _ w h1 in
      let (role, w2, h2, k2) = >>=-eq-ok _ _ w1 k1 in
      let (found, s2) = or_fail-eq-ok _ _ w1 h2 in
      let (may, s3) = fail_if-eq-ok _ _ w2 k2 in
      (
        role,
        sym (find_named tenant_id name w.roles) ∙ ap (find (λ r. r.name == name)) (sym e1) ∙ found,
        may,
        ap (λ v. v.roles) (s3 ∙ s2 ∙ s1),
        ap (λ v. v.identities) (s3 ∙ s2 ∙ s1),
        ap (λ v. v.identity_roles) (s3 ∙ s2 ∙ s1),
      )

  -- Forgetting the cached permissions changes no table.
  pub invalidate-held_by :
      (id : Uuid) (w : World ext) {u : Unit {0}} {w' : World ext}
      → ignore (Cache.invalidate ext id) w ≡ (ok u, w')
      → held_by w' ≡ held_by w
  unfolding Cache.invalidate del_value
  invalidate-held_by id w h =
      ap (λ p. held_by p.1) (sym h)
      ∙ storage-state (λ v. held_by v ≡ held_by w) _ w (λ rest. refl) (λ rest. refl)

  -- The assignments after an INSERT that adds one row at most.
  unless_there-Has :
      (identities : List Identity) (roles : List Role) (x : Uuid) (s : String) (b : Bool)
      (row : IdentityRole) (rows : List IdentityRole)
      → Has identities roles x s (Store.unless_there ext b row rows)
      → ((row.identity_id ≡ x) × (contains (role_keys roles row) s ≡ true))
        ⊎ Has identities roles x s rows
  unless_there-Has identities roles x s true row rows h = inr h
  unless_there-Has identities roles x s false row rows h = Has-cons identities roles x s row rows h

  assigned-Has :
      (identities : List Identity) (roles : List Role) (x id : Uuid) (s : String) (b : Bool)
      (o : Option Role) (rows : List IdentityRole)
      → Has identities roles x s (if b then assigned ext id o rows else rows)
      → ((r : Role) × (o ≡ some r)
          × (id ≡ x)
          × (contains (role_keys roles (assignment ext id r)) s ≡ true))
        ⊎ Has identities roles x s rows
  assigned-Has identities roles x id s false o rows h = inr h
  assigned-Has identities roles x id s true none rows h = inr h
  assigned-Has identities roles x id s true (some r) rows h =
      elim (unless_there-Has identities roles x s _ (assignment ext id r) rows h) [
        | inl (same, keys) ↦ inl (r, refl, same, keys)
        | inr rest ↦ inr rest
      ]

  -- An assignment that succeeds adds a row of the identity and of that role, or none.
  Store-assign_role-eq-ok :
      (id role_id : Uuid) (w : World ext) {u : Unit {0}} {w' : World ext}
      → Store.assign_role ext id role_id w ≡ (ok u, w')
      → (b : Bool) × (w'.roles ≡ w.roles)
        × (w'.identities ≡ w.identities)
        × (w'.identity_roles ≡ (
            if b
            then assigned ext id (find (role_has_id role_id) w.roles) w.identity_roles
            else w.identity_roles))
  unfolding Store.assign_role
  Store-assign_role-eq-ok id role_id w {u} {w'} h =
      let (m, w1, h1, k1) = >>=-eq-ok _ _ w h in
      let (os, s1, e1) = query-eq-ok _ w h1 in
      let (_, w2, h2, k2) = >>=-eq-ok _ _ w1 k1 in
      let (matches, s2) = fail_if-eq-ok _ _ w1 h2 in
      let (os2, e) = storage-eq-ok _ w2 k2 in
      let left : inserted w2 ≡ (w'.roles, w'.identities, w'.identity_roles) =
        ap (λ p. (p.1.roles, p.1.identities, p.1.identity_roles)) e in
      let same : inserted w2 ≡ inserted w = ap inserted (s2 ∙ s1) in
      let all = sym left ∙ same in
      (tenant_matches ext id role_id w, ap (λ p. p.0) all, ap (λ p. p.1) all, ap (λ p. p.2) all)
    where
      inserted : World ext → List Role × List Identity × List IdentityRole
      inserted v = (
        v.roles,
        v.identities,
        if tenant_matches ext id role_id v
            then assigned ext id (find (role_has_id role_id) v.roles) v.identity_roles
            else v.identity_roles,
      )

  pub same_permissions :
      {is js : List Identity} {rs qs : List Role} {irs jrs : List IdentityRole} (x : Uuid)
      → is ≡ js
      → rs ≡ qs
      → irs ≡ jrs
      → permissions_of is rs irs x ≡ permissions_of js qs jrs x
  same_permissions x p q r = λ i. permissions_of (p i) (q i) (r i) x

  same_assigned :
      {rs qs : List Role} {irs jrs : List IdentityRole} (b : Bool) (id role_id : Uuid)
      → rs ≡ qs
      → irs ≡ jrs
      → (if b then assigned ext id (find (role_has_id role_id) rs) irs else irs)
        ≡ (if b then assigned ext id (find (role_has_id role_id) qs) jrs else jrs)
  same_assigned b id role_id q r =
      λ i. if b then assigned ext id (find (role_has_id role_id) (q i)) (r i) else r i

  -- An assignment through the repository, by the role's name.
  Repository-assign_role-eq-ok :
      (tenant_id id : Uuid) (name : String) (w : World ext) {u : Unit {0}} {w' : World ext}
      → Repository.assign_role ext tenant_id id name w ≡ (ok u, w')
      → (role : Role) × (b : Bool) × (find (role_named tenant_id name) w.roles ≡ some role)
        × ((x : Uuid)
            → held_by w' x
              ≡ permissions_of w.identities w.roles
                  (if b
                    then assigned ext id (find (role_has_id role.id) w.roles) w.identity_roles
                    else w.identity_roles)
                  x)
  unfolding Repository.assign_role Store.get_role_by_name
  Repository-assign_role-eq-ok tenant_id id name w h =
      let (o, w1, h1, k1) = >>=-eq-ok _ _ w h in
      let (os, s1, e1) = query-eq-ok _ w h1 in
      let (role, w2, h2, k2) = >>=-eq-ok _ _ w1 k1 in
      let (found, s2) = or_fail-eq-ok _ _ w1 h2 in
      let (_, w3, h3, k3) = >>=-eq-ok _ _ w2 k2 in
      let (b, roles, identities, rows) = Store-assign_role-eq-ok id role.id w2 h3 in
      let r2 = ap (λ v. v.roles) (s2 ∙ s1) in
      let i2 = ap (λ v. v.identities) (s2 ∙ s1) in
      let a2 = ap (λ v. v.identity_roles) (s2 ∙ s1) in
      (
        role,
        b,
        sym e1 ∙ found,
        λ x.
            ap (λ f. f x) (invalidate-held_by id w3 k3)
            ∙ same_permissions x (identities ∙ i2) (roles ∙ r2)
                (rows ∙ same_assigned b id role.id r2 a2),
      )

  -- After a role has been assigned, every permission that any identity holds it held before, or it
  -- is the identity that the role was assigned to and the permission is among the granter's
  -- scopes; so assigning roles spreads privilege and never creates it, where each role has its own
  -- id.
  pub assign_role-held_by :
      (req : RoleAssignmentRequest) (granter_scopes : List String) (w w' : World ext)
      → HasOwnId w.roles
      → Administration.assign_role ext req granter_scopes w ≡ (ok tt, w')
      → (x : Uuid) (s : String) → contains (held_by w' x) s ≡ true
      → (contains (held_by w x) s ≡ true)
        ⊎ ((x ≡ req.identity_id) × (contains granter_scopes s ≡ true))
  unfolding Administration.assign_role
  assign_role-held_by req granter_scopes w w' own h x s has =
      let (_, w1, h1, k1) = >>=-eq-ok _ _ w h in
      let (role, named, may, roles, identities, rows) =
        ensure_can_grant-eq-ok req.tenant_id req.role_name granter_scopes w h1 in
      let (role2, b, named2, held) =
        Repository-assign_role-eq-ok req.tenant_id req.identity_id req.role_name w1 k1 in
      let rows_then =
        same_permissions x identities roles (same_assigned b req.identity_id role2.id roles rows) in
      let there =
        Has-permissions_of w.identities w.roles x s _
          (ap (λ ks. contains ks s) (sym (held x ∙ rows_then)) ∙ has) in
      let same2 : role2 ≡ role =
        some_injective
          (sym named2 ∙ ap (find (role_named req.tenant_id req.role_name)) roles ∙ named) in
      elim (assigned-Has w.identities w.roles x req.identity_id s b _ w.identity_roles there) [
        | inr before ↦ inl (permissions_of-Has w.identities w.roles x s w.identity_roles before)
        | inl (r, found, same_x, keys) ↦
            let same_r : r ≡ role = some_injective (
              sym found
              ∙ ap (λ k. find (role_has_id k.id) w.roles) same2
              ∙ find-All (λ k. find (role_has_id k.id) w.roles ≡ some k) _ w.roles own named) in
            let id_r =
              (nat_eq.eqb_iff r.id role2.id).0 (find-some (role_has_id role2.id) w.roles found) in
            inr (
              sym same_x,
              role_keys-All (contains granter_scopes s ≡ true) (assignment ext req.identity_id r) s
                  w.roles
                  (All-map
                    (λ k only e c. contains-lacks granter_scopes role.permissions s may (
                      subst (λ y. contains (keys_of y.permissions) s ≡ true)
                        (only (e ∙ id_r) ∙ same_r) c))
                    w.roles (same_id-All w.roles role2.id r own found))
                  keys,
            )
      ]
