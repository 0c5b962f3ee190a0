-- ===== src/Authorization/Cache.antt =====
-- crates/knox-storage/src/authorization/cache.rs: `RedisAuthorizationCache`.
use Prim.Native.String.{◌++◌}
use knox_iam_public.Base.{ℕ, String, Option, List}
use knox_iam_public.Common.Directory.{Uuid}
use knox_iam_public.Externals.{Externals}
use knox_iam_public.World.{Action}
use knox_iam_public.Token.Cache.{set_value}
use knox_iam_public.Key.Cache.{get_cached, del_value}

abbrev pub auth_ttl : ℕ
auth_ttl = 300

module _ (ext : Externals) where
  unfoldable pub permissions_key : Uuid → String
  permissions_key identity_id = "auth:perms:" ++ ext.uuid_text identity_id

  unfoldable pub get_permissions : Uuid → Action ext (Option (List String))
  get_permissions identity_id = get_cached ext ext.strings_codec (permissions_key identity_id)

  unfoldable pub set_permissions : Uuid → List String → Action ext (Unit {0})
  set_permissions identity_id perms =
      set_value ext (permissions_key identity_id) (ext.strings_codec.write perms) auth_ttl

  unfoldable pub invalidate : Uuid → Action ext (Unit {0})
  invalidate identity_id = del_value ext (permissions_key identity_id)
