-- ===== src/Token/Repository.antt =====
-- crates/knox-storage/src/token/repository.rs: `KnoxTokenRepository`, which sends the transient
-- tokens to the cache and the refresh tokens to the store.
use knox_iam_public.Base.{ℕ, String, Option}
use knox_iam_public.Common.Directory.{Uuid}
use knox_iam_public.Common.Token.{AuthCodeContext, RefreshToken}
use knox_iam_public.Externals.{Externals}
use knox_iam_public.World.{Action}
use knox_iam_public.Token.Store
use knox_iam_public.Token.Cache.{
  set_value, get_value, get_and_delete_value, increment_value, touch_value, set_code, exchange_code,
}
use knox_iam_public.Token.Store.{create, get_by_hash, revoke, revoke_family}

module _ (ext : Externals) where
  unfoldable pub store_transient_string : String → ext.redis.Text → ℕ → Action ext (Unit {0})
  unfolding set_value
  store_transient_string key value ttl_seconds = set_value ext key value ttl_seconds

  unfoldable pub read_transient_string : String → Action ext (Option ext.redis.Text)
  unfolding get_value
  read_transient_string key = get_value ext key

  unfoldable pub get_and_delete_transient_string : String → Action ext (Option ext.redis.Text)
  unfolding get_and_delete_value
  get_and_delete_transient_string key = get_and_delete_value ext key

  unfoldable pub increment_transient_counter : String → ℕ → Action ext ℕ
  unfolding increment_value
  increment_transient_counter key ttl_seconds = increment_value ext key ttl_seconds

  unfoldable pub touch_transient : String → ℕ → Action ext (Unit {0})
  unfolding touch_value
  touch_transient key ttl_seconds = touch_value ext key ttl_seconds

  unfoldable pub save_auth_code : String → AuthCodeContext → ℕ → Action ext (Unit {0})
  unfolding set_code
  save_auth_code hashed_code context ttl_seconds = set_code ext hashed_code context ttl_seconds

  unfoldable pub exchange_auth_code : String → Action ext (Option AuthCodeContext)
  unfolding exchange_code
  exchange_auth_code hashed_code = exchange_code ext hashed_code

  unfoldable pub save_refresh_token : RefreshToken → Action ext RefreshToken
  unfolding create
  save_refresh_token token = create ext token

  unfoldable pub get_refresh_token : Uuid → String → Action ext (Option RefreshToken)
  unfolding get_by_hash
  get_refresh_token tenant_id token_hash = get_by_hash ext tenant_id token_hash

  unfoldable pub revoke_refresh_token : Uuid → Action ext (Unit {0})
  unfolding revoke
  revoke_refresh_token id = revoke ext id

  unfoldable pub revoke_token_family : Uuid → Action ext (Unit {0})
  unfolding revoke_family
  revoke_token_family family_id = revoke_family ext family_id

  unfoldable pub revoke_all_for_identity : Uuid → Uuid → Action ext (Unit {0})
  unfolding Store.revoke_all_for_identity
  revoke_all_for_identity tenant_id identity_id =
      Store.revoke_all_for_identity ext tenant_id identity_id
