-- ===== src/Tests/Directory.antt =====
-- Roles and identities of the tenant of Fixtures.
use knox_iam_public.Base.{
  ◌≡◌, ◌≢◌, refl, String, true, false, none, some, List, [], ◌∷◌, nat_eq, string_eq, any, find,
  contains, ◌⊎◌,
}
use knox_iam_public.Common.Error.{ServiceError, RepositoryError}
use knox_iam_public.Common.Directory.{Uuid}
use knox_iam_public.Common.Authorization.{Role}
use knox_iam_public.World.{World, ok, err, held_by, ◌>>=◌, storage, or_fail, fail_if}
use knox_iam_public.Sample.{sample}
use knox_iam_public.Authorization.Store.{role_named}
use knox_iam_public.Authorization.Granting.{assign_role-held_by}
use knox_iam_public.Authorization.Revoking.{revoke_role-held_by}
use knox_iam_public.Authorization.Repository
use knox_iam_public.Authorization.Cache
use knox_iam_public.Authorization.Store
use knox_iam_public.Identity.Administration.{
  RoleAssignmentRequest, CreateIdentityRequest, ensure_can_grant, assign_role, revoke_role,
  list_roles, create_user, lacks, assign_roles, is_valid_request,
}
use knox_iam_public.Identity.Provisioning.{create_user-identities, created_row}
use package.knox_iam_public.Tests.Fixtures.{world, role}

abbrev two_roles : World sample
two_roles = record world {
  roles =
      role 41 "reader" ("IdentityRead" ∷ [])
      ∷ role 40 "auditor" ("IdentityRead" ∷ "AuditRead" ∷ [])
      ∷ [];
  identity_roles = [];
}

abbrev reader : RoleAssignmentRequest
reader = record { tenant_id = 1; identity_id = 2; role_name = "reader" }

abbrev auditor : RoleAssignmentRequest
auditor = record reader { role_name = "auditor" }

abbrev identity_read : List String
identity_read = "IdentityRead" ∷ []

abbrev given : World sample
given = (assign_role sample reader ("IdentityRead" ∷ []) two_roles).1

assigned_run : assign_role sample reader ("IdentityRead" ∷ []) two_roles ≡ (ok tt, given)
unfolding assign_role ensure_can_grant list_roles Repository.list_roles Store.list_roles
    Repository.assign_role Store.get_role_by_name Store.assign_role ◌>>=◌ storage or_fail fail_if
assigned_run = refl

has_reader : contains (held_by given 2) "IdentityRead" ≡ true
unfolding assign_role ensure_can_grant list_roles Repository.list_roles Store.list_roles
    Repository.assign_role Store.get_role_by_name Store.assign_role Cache.invalidate
    knox_iam_public.Key.Cache.del_value ◌>>=◌ storage or_fail fail_if
has_reader = refl

refused :
    (assign_role sample auditor ("IdentityRead" ∷ []) two_roles).0 ≡ err ServiceError.forbidden
unfolding assign_role ensure_can_grant list_roles Repository.list_roles Store.list_roles ◌>>=◌
    storage or_fail fail_if
refused = refl

assign_role-held_by_example :
    (contains (held_by two_roles 2) "IdentityRead" ≡ true)
    ⊎ ((2 ≡ reader.identity_id) × (contains identity_read "IdentityRead" ≡ true))
assign_role-held_by_example =
    assign_role-held_by sample reader ("IdentityRead" ∷ []) two_roles given (refl, (refl, tt))
      assigned_run 2 "IdentityRead" has_reader

abbrev taken : World sample
taken = (revoke_role sample auditor ("IdentityRead" ∷ "AuditRead" ∷ []) world).1

revoked_run : revoke_role sample auditor ("IdentityRead" ∷ "AuditRead" ∷ []) world ≡ (ok tt, taken)
unfolding revoke_role ensure_can_grant list_roles Repository.list_roles Store.list_roles
    Repository.remove_role Store.get_role_by_name Store.remove_role ◌>>=◌ storage or_fail fail_if
revoked_run = refl

revoke_role-held_by_example :
    (auditor.role_name ≢ "IdentitySelf")
    × ((r : Role) × (find (role_named 1 "auditor") world.roles ≡ some r)
        × (any (lacks ("IdentityRead" ∷ "AuditRead" ∷ [])) r.permissions ≡ false))
    × ((x : Uuid) (s : String)
        → contains (held_by taken x) s ≡ true
        → contains (held_by world x) s ≡ true)
revoke_role-held_by_example =
    revoke_role-held_by sample auditor ("IdentityRead" ∷ "AuditRead" ∷ []) world taken revoked_run

-- The tenant has no role named IdentitySelf, so the call fails after it has written the identity.
abbrev bob : CreateIdentityRequest
bob = record {
  tenant_id = 1;
  pool_id = 5;
  email = "bob@example.com";
  username = "bob";
  password = "correct battery";
  initial_roles = none;
  first_name = none;
  last_name = none;
}

half_provisioned :
    (create_user sample bob world).0 ≡ err (ServiceError.repository RepositoryError.not_found)
unfolding create_user is_valid_request assign_roles Repository.assign_role Store.get_role_by_name
    knox_iam_public.Identity.hash_password knox_iam_public.Token.Service.new_v4
    knox_iam_public.Identity.Rows.create ◌>>=◌ storage or_fail fail_if
half_provisioned = refl

create_user-identities_example :
    (create_user sample bob world).1.identities ≡ created_row sample bob world ∷ world.identities
unfolding is_valid_request
create_user-identities_example = create_user-identities sample bob world refl refl refl refl
