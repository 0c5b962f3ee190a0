-- ===== src/Identity/Provisioning.antt =====
-- crates/knox-core/src/identity.rs: what `create_user` leaves in the table.
use knox_iam_public.Base.{
  ◌≡◌, refl, ◌∙◌, ap, suc, String, Bool, true, false, ◌&&◌, ◌||◌, not, List, [], ◌∷◌, ◌==◌, nat_eq,
  any, get_or,
}
use knox_iam_public.Common.Error.{ServiceError}
use knox_iam_public.Common.Directory.{Uuid, Identity}
use knox_iam_public.Common.Authorization.{IdentityRole}
use knox_iam_public.Externals.{Externals}
use knox_iam_public.World.{World, ok, pure, storage, fail_if, ◌>>=◌}
use knox_iam_public.World.Laws.{>>=-ok, storage_up}
use knox_iam_public.World.Frame.{Relation, Keeps, storage-Keeps, frame}
use knox_iam_public.Key.Cache.{del_value}
use knox_iam_public.Authorization.Store
use knox_iam_public.Authorization.Cache
use knox_iam_public.Authorization.Repository
use knox_iam_public.Token.Service.{new_v4}
use package.knox_iam_public.Identity.{hash_password}
use package.knox_iam_public.Identity.Rows
use package.knox_iam_public.Identity.Rows.{collides, inserted_identity}
use package.knox_iam_public.Identity.Administration.{
  CreateIdentityRequest, identity_self_role_name, is_valid_request, new_identity, assign_roles,
  create_user,
}

abbrev same_identities : (ext : Externals) → Relation ext
same_identities ext = record {
  rel = λ w w'. w'.identities ≡ w.identities;
  rel_refl = λ w. refl;
  rel_trans = λ u v w h k. k ∙ h;
  rel_outages = λ w os. refl;
}

module _ (ext : Externals) where
  invalidate-Keeps : (id : Uuid) → Keeps (same_identities ext) (Cache.invalidate ext id)
  unfolding Keeps Cache.invalidate del_value
  invalidate-Keeps id = storage-Keeps (same_identities ext) _ (λ w. refl)

  added-Keeps :
      (f : World ext → List IdentityRole)
      → Keeps (same_identities ext) (storage (λ w. (ok tt, record w { identity_roles = f w })))
  unfolding Keeps
  added-Keeps f = storage-Keeps (same_identities ext) _ (λ w. refl)

  insert_role-Keeps :
      (id role_id : Uuid) → Keeps (same_identities ext) (Store.assign_role ext id role_id)
  unfolding Store.assign_role
  insert_role-Keeps id role_id = search (frame, added-Keeps) depth 8

  assign_role-Keeps :
      (tenant_id id : Uuid) (name : String)
      → Keeps (same_identities ext) (Repository.assign_role ext tenant_id id name)
  unfolding Repository.assign_role Store.get_role_by_name
  assign_role-Keeps tenant_id id name = search (frame, insert_role-Keeps, invalidate-Keeps) depth 8

  assign_roles-Keeps :
      (tenant_id id : Uuid) (names : List String)
      → Keeps (same_identities ext) (assign_roles ext tenant_id id names)
  unfolding assign_roles
  assign_roles-Keeps tenant_id id [] = search (frame)
  assign_roles-Keeps tenant_id id (name ∷ names) =
      let rest = assign_roles-Keeps tenant_id id names in search (frame, assign_role-Keeps, rest)

  -- What follows the INSERT.
  provisioned-Keeps :
      (req : CreateIdentityRequest) (i : Identity)
      → Keeps (same_identities ext) (
          assign_roles ext req.tenant_id i.id
            (identity_self_role_name ∷ get_or req.initial_roles [])
          >>= λ _. pure i)
  provisioned-Keeps req i =
      let roles =
        assign_roles-Keeps req.tenant_id i.id
          (identity_self_role_name ∷ get_or req.initial_roles []) in
      search (frame, roles)

  passes_guard :
      (c : Bool) (e : ServiceError) (w : World ext) → c ≡ true → fail_if (not c) e w ≡ (ok tt, w)
  unfolding fail_if
  passes_guard c e w h = ap (λ b. fail_if (not b) e w) h

  inserted_identity-ok :
      (i : Identity) (w : World ext)
      → any (λ j. j.id == i.id || collides ext i j) w.identities ≡ false
      → any (λ p. p.id == i.pool_id && p.tenant_id == i.tenant_id) w.pools ≡ true
      → inserted_identity ext i w ≡ (ok i, record w { identities = i ∷ w.identities })
  inserted_identity-ok i w a b = simp (a, b)

  -- The id that `create_user` draws, and the row that it writes.
  abbrev pub created_row : CreateIdentityRequest → World ext → Identity
  created_row req w =
      new_identity ext (ext.new_v4 (suc w.draws)) (ext.argon2_hash w.draws req.password) req

  -- Once a valid request passes the checks of the table, the new identity stands in front of the
  -- identities, active and with the hash of its password, whatever the call answers, be it an
  -- error because one of its roles cannot be assigned, where the storage is up.
  pub create_user-identities :
      (req : CreateIdentityRequest) (w : World ext)
      → w.outages ≡ []
      → is_valid_request ext req ≡ true
      → any
          (λ i. i.id == ext.new_v4 (suc w.draws) || collides ext (created_row req w) i)
          w.identities
        ≡ false
      → any (λ p. p.id == req.pool_id && p.tenant_id == req.tenant_id) w.pools ≡ true
      → (create_user ext req w).1.identities ≡ created_row req w ∷ w.identities
  unfolding create_user hash_password new_v4 Rows.create Keeps
  create_user-identities req w up valid fresh pool =
      let i = created_row req w in
      let w2 = record w { draws = suc (suc w.draws) } in
      let w3 = record w2 { identities = i ∷ w.identities } in
      let stored = storage_up _ w2 up ∙ inserted_identity-ok i w2 fresh pool in
      let call =
        >>=-ok (fail_if (not (is_valid_request ext req)) (ServiceError.validation "")) _ w
          (passes_guard _ _ w valid)
        ∙ >>=-ok (hash_password ext req.password) _ w refl
        ∙ >>=-ok (new_v4 ext) _ (record w { draws = suc w.draws }) refl
        ∙ >>=-ok (Rows.create ext i) _ w2 stored in
      ap (λ p. p.1.identities) call ∙ provisioned-Keeps req i w3
