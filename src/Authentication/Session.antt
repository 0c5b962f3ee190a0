-- ===== src/Authentication/Session.antt =====
-- crates/knox-core/src/authentication.rs: SSO sessions and the epoch that revokes them.
use knox_iam_public.Base.{
  ℕ, ◌-◌, ◌*◌, max, String, Bool, false, ◌&&◌, not, Option, none, some, List, ◌==◌, nat_eq, ltb,
  is_empty,
}
use knox_iam_public.Common.Error.{ServiceError}
use knox_iam_public.Common.Directory.{Uuid, Identity, AuthenticationConfiguration, is_active}
use knox_iam_public.Common.Token.{SsoSessionContext}
use knox_iam_public.Externals.{Externals}
use knox_iam_public.World.{Action, pure, fail, fail_if, gets, ◌>>=◌, ◌>>◌}
use knox_iam_public.Token.Service
use knox_iam_public.Token.Service.{TransientKind, generate_opaque_token}
use knox_iam_public.Identity.{get_identity}
use knox_iam_public.Mfa.Service.{get_available_options}

-- `SsoSession`
pub record SsoSession : Type 0 where
  pub identity : Identity
  pub amr : List String
  pub authenticated_at : ℕ

-- At least a day, and twice the lifetime of the cookie.
unfoldable pub sso_epoch_ttl : AuthenticationConfiguration → ℕ
sso_epoch_ttl config = max (config.sso_cookie_lifetime_seconds * 2) (24 * 3600)

-- `age > Duration::seconds(max_age)`, where a maximal age is asked for.
abbrev pub is_too_old : Option ℕ → ℕ → Bool
is_too_old none age = false
is_too_old (some max_age) age = ltb max_age age

module _ (ext : Externals) where
  unfoldable pub has_verified_mfa : Uuid → Uuid → Action ext Bool
  unfolding get_available_options
  has_verified_mfa tenant_id identity_id = do
    options ← get_available_options ext tenant_id identity_id
    pure (not (is_empty options))

  unfoldable pub establish_sso_session :
      Uuid → Uuid → Uuid → List String → AuthenticationConfiguration → Action ext String
  unfolding sso_epoch_ttl generate_opaque_token Service.current_sso_epoch Service.touch_sso_epoch
      Service.store_transient_token
  establish_sso_session tenant_id pool_id identity_id amr config = do
    epoch ← Service.current_sso_epoch ext tenant_id identity_id
    Service.touch_sso_epoch ext tenant_id identity_id (sso_epoch_ttl config)
    now ← gets (λ w. w.now)
    token ← generate_opaque_token ext 32
    Service.store_transient_token ext ext.sso_codec TransientKind.sso_token token
        (record {
          tenant_id = tenant_id;
          pool_id = pool_id;
          identity_id = identity_id;
          amr = amr;
          epoch = epoch;
          created_at = now;
        })
        config.sso_cookie_lifetime_seconds
    pure token

  unfoldable pub revoke_all_sessions :
      Uuid → Uuid → AuthenticationConfiguration → Action ext (Unit {0})
  unfolding sso_epoch_ttl Service.revoke_all_for_identity Service.bump_sso_epoch
  revoke_all_sessions tenant_id identity_id config = do
    Service.revoke_all_for_identity ext tenant_id identity_id
    epoch ← Service.bump_sso_epoch ext tenant_id identity_id (sso_epoch_ttl config)
    pure tt

  -- The session found behind the token.
  unfoldable pub check_session : Uuid → Uuid → Option ℕ → SsoSessionContext → Action ext SsoSession
  unfolding Service.current_sso_epoch get_identity
  check_session tenant_id pool_id max_age session = do
    fail_if (not (session.tenant_id == tenant_id && session.pool_id == pool_id))
        ServiceError.invalid_sso_token
    epoch ← Service.current_sso_epoch ext tenant_id session.identity_id
    fail_if (ltb session.epoch epoch) ServiceError.invalid_sso_token
    now ← gets (λ w. w.now)
    fail_if (is_too_old max_age (now - session.created_at)) ServiceError.sso_token_expired
    identity ← get_identity ext pool_id session.identity_id
    fail_if (not (is_active identity.status)) ServiceError.invalid_sso_token
    pure (record { identity = identity; amr = session.amr; authenticated_at = session.created_at })

  abbrev pub check_stored :
      Uuid → Uuid → Option ℕ → Option SsoSessionContext → Action ext SsoSession
  check_stored tenant_id pool_id max_age none = fail ServiceError.invalid_sso_token
  check_stored tenant_id pool_id max_age (some session) =
      check_session tenant_id pool_id max_age session

  unfoldable pub validate_sso_code : Uuid → Uuid → String → Option ℕ → Action ext SsoSession
  unfolding check_session Service.retrieve_transient_token
  validate_sso_code tenant_id pool_id token max_age = do
    stored ← Service.retrieve_transient_token ext ext.sso_codec TransientKind.sso_token token
    check_stored tenant_id pool_id max_age stored
