-- ===== src/Server/Pools.antt =====
-- The pool that a handler acts on: `resolve_pool` of server/src/handlers/identity.rs, with
-- `get_pool` of crates/knox-core/src/tenant.rs and crates/knox-storage/src/pool/store.rs.
use knox_iam_public.Base.{◌&&◌, Bool, Option, none, some, ◌==◌, nat_eq, find, if◌then◌else◌}
use knox_iam_public.Common.Error.{ServiceError}
use knox_iam_public.Common.Directory.{Uuid, IdentityPool}
use knox_iam_public.Externals.{Externals}
use knox_iam_public.World.{Action, storage, ok, pure, or_fail, ◌>>=◌}
use package.knox_iam_public.Server.Access.{ServerAction, service}

abbrev pub pool_of : Uuid → Uuid → IdentityPool → Bool
pool_of tenant_id id p = p.id == id && p.tenant_id == tenant_id

module _ (ext : Externals) where
  unfoldable pub get_in_tenant : Uuid → Uuid → Action ext (Option IdentityPool)
  get_in_tenant tenant_id id = storage λ w. (ok (find (pool_of tenant_id id) w.pools), w)

  unfoldable pub get_pool : Uuid → Uuid → Action ext IdentityPool
  unfolding get_in_tenant
  get_pool tenant_id pool_id = do
    found ← get_in_tenant tenant_id pool_id
    or_fail found (ServiceError.validation "Pool not found")

  unfoldable pub resolve_pool : Uuid → Uuid → Option Uuid → ServerAction ext Uuid
  unfolding get_pool
  resolve_pool tenant_id caller_pool none = pure caller_pool
  resolve_pool tenant_id caller_pool (some p) =
      if p == caller_pool
      then pure caller_pool
      else (do pool ← service ext (get_pool tenant_id p); pure p)
