-- ===== src/Key/Repository.antt =====
-- crates/knox-storage/src/key/repository.rs: `KnoxKeyRepository`, the table behind the cache. An
-- error of the cache is only logged, but for that of a read.
use knox_iam_public.Base.{ℕ, String, Option, none, some, List}
use knox_iam_public.Common.Directory.{Uuid, TenantKey, KeyState}
use knox_iam_public.Common.Key.{CreateKeyParams}
use knox_iam_public.Externals.{Externals}
use knox_iam_public.World.{Action, pure, ignore, ignore_or, ◌>>=◌, ◌>>◌}
use package.knox_iam_public.Key.Store
use package.knox_iam_public.Key.Cache

module _ (ext : Externals) where
  -- The cached value, or else what the table says, which is cached first.
  abbrev pub read_through :
      {A : Type 0} → Option A → Action ext A → (A → Action ext (Unit {0})) → Action ext A
  read_through (some cached) load save = pure cached
  read_through none load save = do found ← load; ignore (save found); pure found

  -- `if let Some(ref k) = key { … }`
  abbrev pub when_some :
      {A : Type 0} → (A → Action ext (Unit {0})) → Option A → Action ext (Unit {0})
  when_some save none = pure tt
  when_some save (some k) = save k

  abbrev pub map_some : {A : Type 0} → Option A → Option (Option A)
  map_some none = none
  map_some (some a) = some (some a)

  unfoldable pub create : CreateKeyParams → Action ext TenantKey
  unfolding Store.create Cache.set Cache.set_by_kid Cache.delete_jwks Cache.delete_active_for_tenant
  create params = do
    key ← Store.create ext params
    ignore (Cache.set ext key)
    ignore (Cache.set_by_kid ext key)
    ignore (Cache.delete_jwks ext params.tenant_id)
    ignore (Cache.delete_active_for_tenant ext params.tenant_id)
    pure key

  unfoldable pub get : Uuid → Action ext (Option TenantKey)
  unfolding Cache.get Store.get Cache.set
  get id = do
    cached ← Cache.get ext id
    read_through (map_some cached) (Store.get ext id) (when_some (Cache.set ext))

  unfoldable pub get_by_kid : Uuid → String → Action ext (Option TenantKey)
  unfolding Cache.get_by_kid Store.get_by_kid Cache.set_by_kid
  get_by_kid tenant_id kid = do
    cached ← Cache.get_by_kid ext tenant_id kid
    read_through (map_some cached) (Store.get_by_kid ext tenant_id kid)
        (when_some (Cache.set_by_kid ext))

  unfoldable pub get_active_for_tenant : Uuid → Action ext (Option TenantKey)
  unfolding Cache.get_active_for_tenant Store.get_active_for_tenant Cache.set_active_for_tenant
  get_active_for_tenant tenant_id = do
    cached ← Cache.get_active_for_tenant ext tenant_id
    read_through (map_some cached) (Store.get_active_for_tenant ext tenant_id)
        (when_some (Cache.set_active_for_tenant ext))

  unfoldable pub list_for_jwks : Uuid → Action ext (List TenantKey)
  unfolding Cache.get_jwks Store.list_for_jwks Cache.set_jwks
  list_for_jwks tenant_id = do
    cached ← Cache.get_jwks ext tenant_id
    read_through cached (Store.list_for_jwks ext tenant_id) (Cache.set_jwks ext tenant_id)

  unfoldable pub list : Uuid → ℕ → ℕ → Action ext (List TenantKey × ℕ)
  unfolding Store.list
  list tenant_id page page_size = Store.list ext tenant_id page page_size

  unfoldable pub update_state : Uuid → KeyState → Action ext TenantKey
  unfolding Store.update_state Cache.set Cache.delete Cache.set_by_kid Cache.delete_by_kid
      Cache.delete_jwks Cache.delete_active_for_tenant
  update_state id new_state = do
    updated ← Store.update_state ext id new_state
    ignore_or (Cache.set ext updated) (Cache.delete ext id)
    ignore_or (Cache.set_by_kid ext updated) (Cache.delete_by_kid ext updated.tenant_id updated.kid)
    ignore (Cache.delete_jwks ext updated.tenant_id)
    ignore (Cache.delete_active_for_tenant ext updated.tenant_id)
    pure updated

  abbrev pub forget : Option TenantKey → Action ext (Unit {0})
  forget none = pure tt
  forget (some k) = do
    ignore (Cache.delete_by_kid ext k.tenant_id k.kid)
    ignore (Cache.delete_jwks ext k.tenant_id)
    ignore (Cache.delete_active_for_tenant ext k.tenant_id)

  unfoldable pub delete : Uuid → Action ext (Unit {0})
  unfolding Store.get Store.delete Cache.delete Cache.delete_by_kid Cache.delete_jwks
      Cache.delete_active_for_tenant
  delete id = do
    key ← Store.get ext id
    Store.delete ext id
    ignore (Cache.delete ext id)
    forget key

  unfoldable pub revoke_all_for_tenant : Uuid → Action ext (Unit {0})
  unfolding Store.revoke_all_for_tenant Cache.invalidate_all_for_tenant
  revoke_all_for_tenant tenant_id = do
    Store.revoke_all_for_tenant ext tenant_id
    ignore (Cache.invalidate_all_for_tenant ext tenant_id)
