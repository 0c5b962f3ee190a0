-- ===== src/Authentication/Challenge.antt =====
-- crates/knox-core/src/authentication.rs: the password step, the challenge that it may issue, and
-- the second factor.
use knox_iam_public.Base.{
  String, Bool, true, false, not, Option, none, some, List, [], ◌∷◌, ◌==◌, nat_eq, string_eq, ltb,
  any, is_some,
}
use knox_iam_public.Common.Error.{ServiceError}
use knox_iam_public.Common.Directory.{
  Uuid, Identity, IdentityHandle, AuthenticationConfiguration, is_active,
}
use knox_iam_public.Common.Mfa.{MfaOption, MfaRequiredDetails}
use knox_iam_public.Common.Audit.{AuditEventType, AuditActor, AuditOutcome}
use knox_iam_public.Common.Token.{JwtClaims}
use knox_iam_public.Externals.{Externals}
use knox_iam_public.World.{Action, on_error, pure, fail, or_fail, fail_if, when, ◌>>=◌, ◌>>◌}
use knox_iam_public.Audit.{record_event}
use knox_iam_public.Token.Service
use knox_iam_public.Token.Service.{TransientKind}
use knox_iam_public.Token.Jwt.{
  mint_jwt_custom, verify_jwt, amr_password, amr_otp, amr_sms, amr_software_key, amr_multi_factor,
}
use knox_iam_public.Identity
use knox_iam_public.Identity.{get_identity}
use knox_iam_public.Mfa.Service as MfaService
use knox_iam_public.Authentication.Session.{establish_sso_session}

abbrev pub mfa_scope : String
mfa_scope = "knox:mfa"

abbrev pub pwd_reset_mfa_scope : String
pwd_reset_mfa_scope = "knox:pwd_reset_mfa"

unfoldable pub amr_for_method : MfaOption → String
amr_for_method MfaOption.totp = amr_otp
amr_for_method MfaOption.backup_code = amr_otp
amr_for_method MfaOption.web_authn = amr_software_key
amr_for_method MfaOption.sms = amr_sms

-- The outcome under which a failed password step is audited, if it is.
abbrev pub audited_outcome : ServiceError → Option AuditOutcome
audited_outcome ServiceError.invalid_credentials = some AuditOutcome.failure
audited_outcome ServiceError.forbidden = some AuditOutcome.denied
audited_outcome _ = none

-- `matches!(e, ServiceError::InvalidMfaCode | ServiceError::MfaNotEnrolled)`
abbrev pub is_wrong_code : ServiceError → Bool
is_wrong_code ServiceError.invalid_mfa_code = true
is_wrong_code ServiceError.mfa_not_enrolled = true
is_wrong_code _ = false

-- `if let Some(expected) = expected_pool`
abbrev pub is_other_pool : Option Uuid → Uuid → Bool
is_other_pool none pool_id = false
is_other_pool (some expected) pool_id = not (pool_id == expected)

module _ (ext : Externals) where
  unfoldable pub mint_mfa_challenge :
      Uuid
      → Uuid
      → String
      → Uuid
      → String
      → List MfaOption
      → AuthenticationConfiguration
      → Action ext MfaRequiredDetails
  unfolding mint_jwt_custom
  mint_mfa_challenge tenant_id pool_id issuer identity_id scope options config = do
    token ← mint_jwt_custom ext tenant_id issuer config.mfa_token_lifetime_seconds (record {
      sub = ext.uuid_text identity_id;
      aud = ext.uuid_text identity_id;
      tenant_id = tenant_id;
      pool_id = pool_id;
      scopes = scope ∷ [];
    })
    pure (record { token = token; user_id = identity_id; options = options })

  abbrev audit_password_failure : Uuid → ServiceError → Action ext (Unit {0})
  audit_password_failure tenant_id e = elim (audited_outcome e) [
    | none ↦ pure tt
    | some outcome ↦
        record_event ext tenant_id AuditEventType.auth_login AuditActor.anonymous outcome
  ]

  -- What follows the password: a session, or a challenge if a second factor is on offer.
  unfoldable pub after_password :
      Uuid
      → Uuid
      → String
      → AuthenticationConfiguration
      → Identity
      → List MfaOption
      → Action ext String
  unfolding record_event establish_sso_session mint_mfa_challenge
  after_password tenant_id pool_id issuer config identity [] = do
    record_event ext tenant_id AuditEventType.auth_login (AuditActor.identity identity.id)
        AuditOutcome.success
    establish_sso_session ext tenant_id pool_id identity.id (amr_password ∷ []) config
  after_password tenant_id pool_id issuer config identity (o ∷ os) = do
    details ← mint_mfa_challenge tenant_id pool_id issuer identity.id mfa_scope (o ∷ os) config
    record_event ext tenant_id AuditEventType.auth_mfa_challenge (AuditActor.identity identity.id)
        AuditOutcome.success
    fail (ServiceError.mfa_required details)

  unfoldable pub authenticate_user_sso :
      Uuid
      → Uuid
      → String
      → IdentityHandle
      → String
      → AuthenticationConfiguration
      → Action ext String
  unfolding after_password Identity.authenticate MfaService.get_available_options
  authenticate_user_sso tenant_id pool_id issuer handle password config = do
    identity ←
        on_error (Identity.authenticate ext pool_id handle password)
          (audit_password_failure tenant_id)
    options ← MfaService.get_available_options ext tenant_id identity.id
    after_password tenant_id pool_id issuer config identity options

  -- The error that an unreadable token is answered with, whatever was wrong with it.
  abbrev audit_invalid_token : Uuid → ServiceError → Action ext (Unit {0})
  audit_invalid_token tenant_id e = do
    record_event ext tenant_id AuditEventType.auth_mfa_verify AuditActor.anonymous
        AuditOutcome.failure
    fail ServiceError.invalid_mfa_token

  -- The claims of a challenge that is authentic, of the expected scope and of the expected pool,
  -- with the identity that it names.
  unfoldable pub open_challenge :
      Uuid → Option Uuid → String → String → String → Action ext (JwtClaims × Uuid)
  unfolding record_event verify_jwt
  open_challenge tenant_id expected_pool issuer mfa_token expected_scope = do
    claims ←
        on_error (verify_jwt ext tenant_id issuer mfa_token none) (audit_invalid_token tenant_id)
    fail_if (not (any (λ s. s == expected_scope) claims.scopes)) ServiceError.invalid_mfa_token
    fail_if (is_other_pool expected_pool claims.pool_id) ServiceError.invalid_mfa_token
    identity_id ← or_fail (ext.parse_uuid claims.sub) ServiceError.invalid_mfa_token
    pure (claims, identity_id)

  -- A challenge that was redeemed before is refused.
  unfoldable pub refuse_used : Uuid → JwtClaims → Uuid → Action ext (Unit {0})
  unfolding record_event Service.retrieve_transient_token
  refuse_used tenant_id claims identity_id = do
    used ← Service.retrieve_transient_token ext ext.bool_codec TransientKind.mfa_used claims.jti
    when (is_some used) do
      record_event ext tenant_id AuditEventType.auth_mfa_verify (AuditActor.identity identity_id)
          AuditOutcome.failure
      fail ServiceError.invalid_mfa_token

  -- Every attempt is counted, and refused past the limit.
  unfoldable pub count_attempt :
      Uuid → String → Uuid → AuthenticationConfiguration → Action ext (Unit {0})
  unfolding record_event Service.increment_transient_counter
  count_attempt tenant_id key identity_id config = do
    attempts ←
        Service.increment_transient_counter ext TransientKind.mfa_attempts key
          config.mfa_token_lifetime_seconds
    when (ltb config.mfa_max_verification_attempts attempts) do
      record_event ext tenant_id AuditEventType.auth_mfa_lockout (AuditActor.identity identity_id)
          AuditOutcome.denied
      fail ServiceError.mfa_too_many_attempts

  abbrev audit_wrong_code : Uuid → Uuid → ServiceError → Action ext (Unit {0})
  audit_wrong_code tenant_id identity_id e = when (is_wrong_code e) (
      record_event ext tenant_id AuditEventType.auth_mfa_verify (AuditActor.identity identity_id)
        AuditOutcome.failure)

  unfoldable pub consume_mfa_challenge :
      Uuid
      → Option Uuid
      → String
      → String
      → MfaOption
      → String
      → String
      → AuthenticationConfiguration
      → Action ext (Uuid × Uuid)
  unfolding record_event open_challenge refuse_used count_attempt get_identity MfaService.verify
      Service.store_transient_token
  consume_mfa_challenge tenant_id expected_pool issuer mfa_token method code expected_scope config =
      do
        (claims, identity_id) ←
            open_challenge tenant_id expected_pool issuer mfa_token expected_scope
        refuse_used tenant_id claims identity_id
        count_attempt tenant_id claims.jti identity_id config
        identity ← get_identity ext claims.pool_id identity_id
        fail_if (not (is_active identity.status)) ServiceError.forbidden
        on_error (MfaService.verify ext tenant_id identity_id method code)
            (audit_wrong_code tenant_id identity_id)
        Service.store_transient_token ext ext.bool_codec TransientKind.mfa_used claims.jti true
            config.mfa_token_lifetime_seconds
        record_event ext tenant_id AuditEventType.auth_mfa_verify (AuditActor.identity identity_id)
            AuditOutcome.success
        pure (identity_id, claims.pool_id)

  unfoldable pub authenticate_user_mfa :
      Uuid
      → Uuid
      → String
      → String
      → MfaOption
      → String
      → AuthenticationConfiguration
      → Action ext String
  unfolding record_event consume_mfa_challenge establish_sso_session amr_for_method
  authenticate_user_mfa tenant_id pool_id issuer mfa_token method code config = do
    (identity_id, token_pool) ←
        consume_mfa_challenge tenant_id (some pool_id) issuer mfa_token method code mfa_scope config
    record_event ext tenant_id AuditEventType.auth_login (AuditActor.identity identity_id)
        AuditOutcome.success
    establish_sso_session ext tenant_id pool_id identity_id
        (amr_password ∷ amr_for_method method ∷ amr_multi_factor ∷ []) config
