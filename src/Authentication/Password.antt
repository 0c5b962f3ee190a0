-- ===== src/Authentication/Password.antt =====
-- crates/knox-core/src/authentication.rs: changing and resetting a password.
use Prim.Native.String.{◌++◌}
use knox_iam_public.Base.{
  ℕ, ◌+◌, String, Bool, true, false, not, Option, none, some, List, [], ◌∷◌, ◌==◌, nat_eq, ltb,
  if◌then◌else◌,
}
use knox_iam_public.Common.Error.{ServiceError}
use knox_iam_public.Common.Directory.{
  Uuid, Identity, IdentityHandle, AuthenticationConfiguration, is_active,
}
use knox_iam_public.Common.Mfa.{MfaOption, MfaRequiredDetails}
use knox_iam_public.Common.Audit.{AuditEventType, AuditActor, AuditOutcome}
use knox_iam_public.Common.Token.{PasswordResetContext}
use knox_iam_public.Externals.{Externals}
use knox_iam_public.World.{Action, pure, or_fail, fail_if, gets, ◌>>=◌, ◌>>◌}
use knox_iam_public.Audit.{record_event}
use knox_iam_public.Token.Service
use knox_iam_public.Token.Service.{TransientKind, generate_opaque_token, hash_token}
use knox_iam_public.Identity
use knox_iam_public.Identity.{set_password, find_by_handle}
use knox_iam_public.Mfa.Service as MfaService
use knox_iam_public.Authentication.Session.{revoke_all_sessions, has_verified_mfa}
use knox_iam_public.Authentication.Challenge.{
  mint_mfa_challenge, consume_mfa_challenge, count_attempt, pwd_reset_mfa_scope,
}

abbrev pub max_reset_requests_per_window : ℕ
max_reset_requests_per_window = 5

pub data ChangePasswordOutcome : Type 0 where
  completed : ChangePasswordOutcome
  mfa_required : List MfaOption → ChangePasswordOutcome

pub data PasswordResetOutcome : Type 0 where
  completed : PasswordResetOutcome
  mfa_required : MfaRequiredDetails → PasswordResetOutcome

module _ (ext : Externals) where
  -- The writes that every password change ends with: the hash, every session, the audit event.
  unfoldable pub write_password :
      Uuid → Uuid → Uuid → String → AuthenticationConfiguration → Action ext (Unit {0})
  unfolding set_password revoke_all_sessions record_event
  write_password tenant_id pool_id identity_id new_password config = do
    set_password ext pool_id identity_id new_password
    revoke_all_sessions ext tenant_id identity_id config
    record_event ext tenant_id AuditEventType.password_changed (AuditActor.identity identity_id)
        AuditOutcome.success

  -- The second factor of a password change: the attempts are counted by identity.
  unfoldable pub check_second_factor :
      Uuid → Uuid → MfaOption → String → AuthenticationConfiguration → Action ext (Unit {0})
  unfolding count_attempt MfaService.verify
  check_second_factor tenant_id identity_id method code config = do
    count_attempt ext tenant_id ("self:" ++ ext.uuid_text identity_id) identity_id config
    MfaService.verify ext tenant_id identity_id method code

  unfoldable pub change_enrolled :
      Bool
      → Uuid
      → Uuid
      → Uuid
      → String
      → Option (MfaOption × String)
      → AuthenticationConfiguration
      → Action ext ChangePasswordOutcome
  unfolding check_second_factor write_password MfaService.get_available_options
  change_enrolled false tenant_id pool_id identity_id new_password mfa config = do
    write_password tenant_id pool_id identity_id new_password config
    pure ChangePasswordOutcome.completed
  change_enrolled true tenant_id pool_id identity_id new_password none config = do
    options ← MfaService.get_available_options ext tenant_id identity_id
    pure (ChangePasswordOutcome.mfa_required options)
  change_enrolled true tenant_id pool_id identity_id new_password (some (method, code)) config = do
    check_second_factor tenant_id identity_id method code config
    write_password tenant_id pool_id identity_id new_password config
    pure ChangePasswordOutcome.completed

  unfoldable pub change_own_password :
      Uuid
      → Uuid
      → Uuid
      → String
      → String
      → Option (MfaOption × String)
      → AuthenticationConfiguration
      → Action ext ChangePasswordOutcome
  unfolding change_enrolled Identity.authenticate has_verified_mfa
  change_own_password tenant_id pool_id identity_id current_password new_password mfa config = do
    user ← Identity.authenticate ext pool_id (IdentityHandle.id identity_id) current_password
    enrolled ← has_verified_mfa ext tenant_id identity_id
    change_enrolled enrolled tenant_id pool_id identity_id new_password mfa config

  -- The token, and when it expires. The hash of the token is what is stored.
  unfoldable pub request_password_reset :
      Uuid → Uuid → Uuid → AuthenticationConfiguration → Action ext (String × ℕ)
  unfolding generate_opaque_token hash_token Service.store_transient_token
  request_password_reset tenant_id pool_id identity_id config = do
    token ← generate_opaque_token ext 32
    now ← gets (λ w. w.now)
    Service.store_transient_token ext ext.reset_codec TransientKind.password_reset
        (hash_token ext token)
        (record {
          tenant_id = tenant_id;
          pool_id = pool_id;
          identity_id = identity_id;
          created_at = now;
        })
        config.password_reset_token_lifetime_seconds
    pure (token, now + config.password_reset_token_lifetime_seconds)

  -- An identity that is found and active gets a token; any other answer is none.
  unfoldable pub issue_reset :
      Uuid
      → Uuid
      → AuthenticationConfiguration
      → Option Identity
      → Action ext (Option (String × ℕ × Uuid))
  unfolding request_password_reset record_event
  issue_reset tenant_id pool_id config none = pure none
  issue_reset tenant_id pool_id config (some identity) =
      if is_active identity.status
      then (do
        (token, expires_at) ← request_password_reset tenant_id pool_id identity.id config
        record_event ext tenant_id AuditEventType.password_reset_requested
            (AuditActor.identity identity.id) AuditOutcome.success
        pure (some (token, expires_at, identity.id)))
      else pure none

  -- Past the limit no lookup is made.
  unfoldable pub throttle :
      Bool
      → Uuid
      → Uuid
      → String
      → AuthenticationConfiguration
      → Action ext (Option (String × ℕ × Uuid))
  unfolding issue_reset find_by_handle
  throttle true tenant_id pool_id username config = pure none
  throttle false tenant_id pool_id username config = do
    identity ← find_by_handle ext pool_id (IdentityHandle.username username)
    issue_reset tenant_id pool_id config identity

  unfoldable pub request_password_reset_by_username :
      Uuid → Uuid → String → AuthenticationConfiguration → Action ext (Option (String × ℕ × Uuid))
  unfolding throttle Service.increment_transient_counter
  request_password_reset_by_username tenant_id pool_id username config = do
    attempts ←
        Service.increment_transient_counter ext TransientKind.password_reset_throttle
          (ext.uuid_text pool_id ++ ":" ++ ext.to_lowercase username)
          config.password_reset_token_lifetime_seconds
    throttle (ltb max_reset_requests_per_window attempts) tenant_id pool_id username config

  -- With no second factor the password is written; else a challenge of the reset scope is minted.
  unfoldable pub redeem_reset :
      Uuid
      → String
      → String
      → AuthenticationConfiguration
      → PasswordResetContext
      → List MfaOption
      → Action ext PasswordResetOutcome
  unfolding write_password mint_mfa_challenge
  redeem_reset tenant_id issuer new_password config context [] = do
    write_password tenant_id context.pool_id context.identity_id new_password config
    pure PasswordResetOutcome.completed
  redeem_reset tenant_id issuer new_password config context (o ∷ os) = do
    details ←
        mint_mfa_challenge ext tenant_id context.pool_id issuer context.identity_id
          pwd_reset_mfa_scope (o ∷ os) config
    pure (PasswordResetOutcome.mfa_required details)

  unfoldable pub reset_password_with_token :
      Uuid
      → String
      → String
      → String
      → AuthenticationConfiguration
      → Action ext PasswordResetOutcome
  unfolding redeem_reset hash_token Service.take_transient_token MfaService.get_available_options
  reset_password_with_token tenant_id issuer token new_password config = do
    found ←
        Service.take_transient_token ext ext.reset_codec TransientKind.password_reset
          (hash_token ext token)
    context ← or_fail found ServiceError.invalid_reset_token
    fail_if (not (context.tenant_id == tenant_id)) ServiceError.invalid_reset_token
    options ← MfaService.get_available_options ext tenant_id context.identity_id
    redeem_reset tenant_id issuer new_password config context options

  unfoldable pub complete_password_reset_mfa :
      Uuid
      → String
      → String
      → MfaOption
      → String
      → String
      → AuthenticationConfiguration
      → Action ext (Unit {0})
  unfolding consume_mfa_challenge write_password
  complete_password_reset_mfa tenant_id issuer mfa_token method code new_password config = do
    (identity_id, pool_id) ←
        consume_mfa_challenge ext tenant_id none issuer mfa_token method code pwd_reset_mfa_scope
          config
    write_password tenant_id pool_id identity_id new_password config
