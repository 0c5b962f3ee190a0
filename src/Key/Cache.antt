-- ===== src/Key/Cache.antt =====
-- crates/knox-storage/src/key/cache.rs: `RedisKeyCache`.
use Prim.Native.String.{◌++◌}
use knox_iam_public.Base.{ℕ, String, Option, none, some, List}
use knox_iam_public.Common.Directory.{Uuid, TenantKey}
use knox_iam_public.Externals.{Externals, Codec}
use knox_iam_public.World.{Action, storage, ok, pure, or_fail, ignore, ◌>>=◌, ◌>>◌}
use knox_iam_public.Token.Cache.{database_error, get_value, set_value}

abbrev pub jwks_cache_ttl : ℕ
jwks_cache_ttl = 3600

abbrev pub active_key_cache_ttl : ℕ
active_key_cache_ttl = 300

abbrev pub key_cache_ttl : ℕ
key_cache_ttl = 1800

module _ (ext : Externals) where
  unfoldable pub key_by_id : Uuid → String
  key_by_id id = "key:id:" ++ ext.uuid_text id

  unfoldable pub key_by_kid : Uuid → String → String
  key_by_kid tenant_id kid = "key:tenant:" ++ (ext.uuid_text tenant_id ++ (":kid:" ++ kid))

  unfoldable pub key_active : Uuid → String
  key_active tenant_id = "key:tenant:" ++ (ext.uuid_text tenant_id ++ ":active")

  unfoldable pub key_jwks : Uuid → String
  key_jwks tenant_id = "key:tenant:" ++ (ext.uuid_text tenant_id ++ ":jwks")

  abbrev pub parse_cached :
      {A : Type 0} → Codec ext.redis.Text A → Option ext.redis.Text → Action ext (Option A)
  parse_cached codec none = pure none
  parse_cached codec (some json) = do a ← or_fail (codec.read json) database_error; pure (some a)

  abbrev pub get_cached : {A : Type 0} → Codec ext.redis.Text A → String → Action ext (Option A)
  get_cached codec k = do data_text ← get_value ext k; parse_cached codec data_text

  -- DEL
  unfoldable pub del_value : String → Action ext (Unit {0})
  del_value k = storage λ w. (ok tt, record w { redis = ext.redis.del k w.now w.redis })

  unfoldable pub get : Uuid → Action ext (Option TenantKey)
  get id = get_cached ext.key_codec (key_by_id id)

  unfoldable pub set : TenantKey → Action ext (Unit {0})
  set key = set_value ext (key_by_id key.id) (ext.key_codec.write key) key_cache_ttl

  unfoldable pub delete : Uuid → Action ext (Unit {0})
  delete id = del_value (key_by_id id)

  unfoldable pub get_by_kid : Uuid → String → Action ext (Option TenantKey)
  get_by_kid tenant_id kid = get_cached ext.key_codec (key_by_kid tenant_id kid)

  unfoldable pub set_by_kid : TenantKey → Action ext (Unit {0})
  set_by_kid key =
      set_value ext (key_by_kid key.tenant_id key.kid) (ext.key_codec.write key) key_cache_ttl

  unfoldable pub delete_by_kid : Uuid → String → Action ext (Unit {0})
  delete_by_kid tenant_id kid = del_value (key_by_kid tenant_id kid)

  unfoldable pub get_active_for_tenant : Uuid → Action ext (Option TenantKey)
  get_active_for_tenant tenant_id = get_cached ext.key_codec (key_active tenant_id)

  unfoldable pub set_active_for_tenant : TenantKey → Action ext (Unit {0})
  set_active_for_tenant key =
      set_value ext (key_active key.tenant_id) (ext.key_codec.write key) active_key_cache_ttl

  unfoldable pub delete_active_for_tenant : Uuid → Action ext (Unit {0})
  delete_active_for_tenant tenant_id = del_value (key_active tenant_id)

  unfoldable pub get_jwks : Uuid → Action ext (Option (List TenantKey))
  get_jwks tenant_id = get_cached ext.keys_codec (key_jwks tenant_id)

  unfoldable pub set_jwks : Uuid → List TenantKey → Action ext (Unit {0})
  set_jwks tenant_id keys =
      set_value ext (key_jwks tenant_id) (ext.keys_codec.write keys) jwks_cache_ttl

  unfoldable pub delete_jwks : Uuid → Action ext (Unit {0})
  delete_jwks tenant_id = del_value (key_jwks tenant_id)

  -- The JWKS and the active key only.
  unfoldable pub invalidate_all_for_tenant : Uuid → Action ext (Unit {0})
  invalidate_all_for_tenant tenant_id = do
    ignore (delete_jwks tenant_id)
    ignore (delete_active_for_tenant tenant_id)
