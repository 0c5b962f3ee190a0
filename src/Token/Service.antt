-- ===== src/Token/Service.antt =====
-- crates/knox-core/src/token.rs: the transient tokens, the session epoch and the refresh tokens of
-- `TokenService`. The JWTs are in Jwt.
use Prim.Native.String.{◌++◌}
use knox_iam_public.Base.{ℕ, suc, String, Option, none, some, get_or}
use knox_iam_public.Common.Error.{ServiceError}
use knox_iam_public.Common.Directory.{Uuid}
use knox_iam_public.Common.Token.{AuthCodeContext, RefreshToken}
use knox_iam_public.Externals.{Externals, Codec}
use knox_iam_public.World.{Action, ok, pure, or_fail, ◌>>=◌, ◌>>◌}
use knox_iam_public.Token.Repository

pub data TransientKind : Type 0 where
  sso_token auth_code password_reset magic_link mfa_used mfa_attempts sso_epoch : TransientKind
  password_reset_throttle login_account_attempts login_tenant_attempts : TransientKind
  login_ip_attempts : TransientKind

unfoldable pub prefix : TransientKind → String
prefix TransientKind.sso_token = "sso"
prefix TransientKind.auth_code = "auth_code"
prefix TransientKind.password_reset = "pwd_reset"
prefix TransientKind.magic_link = "magic_link"
prefix TransientKind.mfa_used = "mfa_used"
prefix TransientKind.mfa_attempts = "mfa_att"
prefix TransientKind.sso_epoch = "sso_epoch"
prefix TransientKind.password_reset_throttle = "pwd_reset_throttle"
prefix TransientKind.login_account_attempts = "login_att_acct"
prefix TransientKind.login_tenant_attempts = "login_att_tenant"
prefix TransientKind.login_ip_attempts = "login_att_ip"

-- `format!("{}:{}", kind.prefix(), key)`
unfoldable pub full_key : TransientKind → String → String
full_key kind key = prefix kind ++ ":" ++ key

module _ (ext : Externals) where
  abbrev pub parse_token :
      {T : Type 0} → Codec ext.redis.Text T → Option ext.redis.Text → Action ext (Option T)
  parse_token codec none = pure none
  parse_token codec (some json) = do
    token ← or_fail (codec.read json) (ServiceError.internal "Failed to deserialize token")
    pure (some token)

  unfoldable pub store_transient_token :
      {T : Type 0} → Codec ext.redis.Text T → TransientKind → String → T → ℕ → Action ext (Unit {0})
  unfolding Repository.store_transient_string
  store_transient_token codec kind key token ttl =
      Repository.store_transient_string ext (full_key kind key) (codec.write token) ttl

  unfoldable pub retrieve_transient_token :
      {T : Type 0} → Codec ext.redis.Text T → TransientKind → String → Action ext (Option T)
  unfolding Repository.read_transient_string
  retrieve_transient_token codec kind key = do
    value ← Repository.read_transient_string ext (full_key kind key)
    parse_token codec value

  unfoldable pub increment_transient_counter : TransientKind → String → ℕ → Action ext ℕ
  unfolding Repository.increment_transient_counter
  increment_transient_counter kind key ttl =
      Repository.increment_transient_counter ext (full_key kind key) ttl

  unfoldable pub take_transient_token :
      {T : Type 0} → Codec ext.redis.Text T → TransientKind → String → Action ext (Option T)
  unfolding Repository.get_and_delete_transient_string
  take_transient_token codec kind key = do
    value ← Repository.get_and_delete_transient_string ext (full_key kind key)
    parse_token codec value

  unfoldable pub touch_transient : TransientKind → String → ℕ → Action ext (Unit {0})
  unfolding Repository.touch_transient
  touch_transient kind key ttl = Repository.touch_transient ext (full_key kind key) ttl

  unfoldable pub sso_epoch_key : Uuid → Uuid → String
  sso_epoch_key tenant_id identity_id = ext.uuid_text tenant_id ++ ":" ++ ext.uuid_text identity_id

  -- Absent reads as 0.
  unfoldable pub current_sso_epoch : Uuid → Uuid → Action ext ℕ
  unfolding retrieve_transient_token
  current_sso_epoch tenant_id identity_id = do
    epoch ←
        retrieve_transient_token ext.u64_codec TransientKind.sso_epoch
          (sso_epoch_key tenant_id identity_id)
    pure (get_or epoch 0)

  unfoldable pub bump_sso_epoch : Uuid → Uuid → ℕ → Action ext ℕ
  unfolding increment_transient_counter touch_transient
  bump_sso_epoch tenant_id identity_id ttl = do
    next ←
        increment_transient_counter TransientKind.sso_epoch (sso_epoch_key tenant_id identity_id)
          ttl
    touch_transient TransientKind.sso_epoch (sso_epoch_key tenant_id identity_id) ttl
    pure next

  unfoldable pub touch_sso_epoch : Uuid → Uuid → ℕ → Action ext (Unit {0})
  unfolding touch_transient
  touch_sso_epoch tenant_id identity_id ttl =
      touch_transient TransientKind.sso_epoch (sso_epoch_key tenant_id identity_id) ttl

  unfoldable pub exchange_auth_code : String → Action ext (Option AuthCodeContext)
  unfolding Repository.exchange_auth_code
  exchange_auth_code hashed_code = Repository.exchange_auth_code ext hashed_code

  -- The next draw of the thread's generator.
  unfoldable pub generate_opaque_token : ℕ → Action ext String
  generate_opaque_token length w =
      (ok (ext.opaque_token length w.draws), record w { draws = suc w.draws })

  unfoldable pub new_v4 : Action ext Uuid
  new_v4 w = (ok (ext.new_v4 w.draws), record w { draws = suc w.draws })

  unfoldable pub hash_token : String → String
  hash_token token = ext.sha256_hex token

  unfoldable pub save_refresh_token : RefreshToken → Action ext RefreshToken
  unfolding Repository.save_refresh_token
  save_refresh_token token = Repository.save_refresh_token ext token

  unfoldable pub get_refresh_token : Uuid → String → Action ext (Option RefreshToken)
  unfolding Repository.get_refresh_token
  get_refresh_token tenant_id hashed_token = Repository.get_refresh_token ext tenant_id hashed_token

  unfoldable pub revoke_refresh_token : Uuid → Action ext (Unit {0})
  unfolding Repository.revoke_refresh_token
  revoke_refresh_token id = Repository.revoke_refresh_token ext id

  unfoldable pub revoke_token_family : Uuid → Action ext (Unit {0})
  unfolding Repository.revoke_token_family
  revoke_token_family family_id = Repository.revoke_token_family ext family_id

  unfoldable pub revoke_all_for_identity : Uuid → Uuid → Action ext (Unit {0})
  unfolding Repository.revoke_all_for_identity
  revoke_all_for_identity tenant_id identity_id =
      Repository.revoke_all_for_identity ext tenant_id identity_id
