-- ===== src/Mfa/Service.antt =====
-- crates/knox-core/src/mfa.rs: `MfaService`.
use Prim.Native.Char.{code}
use Prim.Native.String.{◌++◌}
use knox_iam_public.Base.{
  ℕ, suc, zero, String, Bool, false, not, Option, none, some, List, [], ◌∷◌, ◌==◌, nat_eq, map,
  is_empty, ltb, if◌then◌else◌,
}
use mathlib.Core.List.{◌++◌ as append}
use knox_iam_public.Common.Error.{RepositoryError, ServiceError}
use knox_iam_public.Common.Directory.{Uuid}
use knox_iam_public.Common.Mfa.{MfaMethod, MfaMethodKind, MfaOption, option_of_kind}
use knox_iam_public.Externals.{Externals}
use knox_iam_public.World.{Action, ok, err, pure, fail, or_fail, fail_if, gets, when, ◌>>=◌, ◌>>◌}
use knox_iam_public.Mfa.Store
use knox_iam_public.Mfa.Store.{is_verified}
use knox_iam_public.Mfa.Totp.{totp_matched_step, hash_backup_code}

pub record StartTotpEnrollmentResponse : Type 0 where
  pub method_id : Uuid
  pub secret : String
  pub otpauth_uri : String

abbrev pub backup_code_count : ℕ
backup_code_count = 10

-- `replace(':', "")`
unfoldable pub remove_colons : String → String
remove_colons String.[] = String.[]
remove_colons (String.◌∷◌ c s) =
    let rest = remove_colons s in if code c == b':' then rest else String.◌∷◌ c rest

-- `.filter(|m| m.verified_at.is_some())`
abbrev pub only_verified : Option MfaMethod → Option MfaMethod
only_verified none = none
only_verified (some m) = if is_verified m then some m else none

abbrev pub has_verified : Option MfaMethod → Bool
has_verified none = false
has_verified (some m) = is_verified m

module _ (ext : Externals) where
  unfoldable pub encryption_context : Uuid → Uuid → String
  encryption_context tenant_id identity_id =
      "mfa:" ++ ext.uuid_text tenant_id ++ ":" ++ ext.uuid_text identity_id

  -- One draw of the generator, as the given function reads it.
  abbrev draw : {A : Type 0} → (ℕ → A) → Action ext A
  draw f w = (ok (f w.draws), record w { draws = suc w.draws })

  unfoldable pub draw_codes : ℕ → Action ext (List String)
  draw_codes zero = pure []
  draw_codes (suc n) = do code ← draw ext.backup_code; codes ← draw_codes n; pure (code ∷ codes)

  unfoldable pub generate_backup_codes : Action ext (List String)
  unfolding draw_codes
  generate_backup_codes = draw_codes backup_code_count

  -- `.map_err` on `create_method`
  abbrev duplicate_is_enrolled : {A : Type 0} → Action ext A → Action ext A
  duplicate_is_enrolled m w =
      let (r, w') = m w in
      elim r [
        | ok a ↦ (ok a, w')
        | err (ServiceError.repository RepositoryError.duplicate) ↦
            (err ServiceError.mfa_already_enrolled, w')
        | err e ↦ (err e, w')
      ]

  unfoldable pub start_totp_enrollment :
      Uuid → Uuid → String → String → Action ext StartTotpEnrollmentResponse
  unfolding remove_colons encryption_context Store.get_method_by_kind Store.create_method
  start_totp_enrollment tenant_id identity_id issuer account_name = do
    existing ← Store.get_method_by_kind ext tenant_id identity_id MfaMethodKind.totp
    fail_if (has_verified existing) ServiceError.mfa_already_enrolled
    secret_b32 ← draw ext.totp_secret
    url ←
        or_fail (ext.totp_url (remove_colons issuer) (remove_colons account_name) secret_b32)
          (ServiceError.internal "TOTP setup failed")
    nonce ← draw (λ n. n)
    secret_enc ←
        or_fail (ext.encrypt nonce secret_b32 (encryption_context tenant_id identity_id))
          (ServiceError.internal "Secret encryption failed")
    created ←
        duplicate_is_enrolled
          (Store.create_method ext tenant_id identity_id MfaMethodKind.totp (some secret_enc))
    pure (record { method_id = created.id; secret = secret_b32; otpauth_uri = url })

  unfoldable pub check_totp_code : MfaMethod → String → Action ext (Unit {0})
  unfolding encryption_context totp_matched_step Store.claim_totp_step
  check_totp_code method code = do
    secret_enc ← or_fail method.secret_enc (ServiceError.internal "TOTP enrollment missing secret")
    secret_b32 ←
        or_fail (ext.decrypt secret_enc (encryption_context method.tenant_id method.identity_id))
          (ServiceError.internal "Secret decryption failed")
    now ← gets (λ w. w.now)
    found ← totp_matched_step ext secret_b32 code now
    matched_step ← or_fail found ServiceError.invalid_mfa_code
    claimed ← Store.claim_totp_step ext method.tenant_id method.id matched_step
    fail_if (not claimed) ServiceError.invalid_mfa_code

  unfoldable pub confirm_totp_enrollment : Uuid → Uuid → String → Action ext (List String)
  unfolding check_totp_code generate_backup_codes hash_backup_code Store.get_method_by_kind
      Store.mark_verified Store.replace_backup_codes
  confirm_totp_enrollment tenant_id identity_id code = do
    found ← Store.get_method_by_kind ext tenant_id identity_id MfaMethodKind.totp
    method ← or_fail found ServiceError.mfa_not_enrolled
    fail_if (is_verified method) ServiceError.mfa_already_enrolled
    check_totp_code method code
    Store.mark_verified ext tenant_id method.id
    codes ← generate_backup_codes
    Store.replace_backup_codes ext tenant_id identity_id (map (hash_backup_code ext) codes)
    pure codes

  unfoldable pub verify_totp : Uuid → Uuid → String → Action ext (Unit {0})
  unfolding check_totp_code Store.get_method_by_kind
  verify_totp tenant_id identity_id code = do
    found ← Store.get_method_by_kind ext tenant_id identity_id MfaMethodKind.totp
    method ← or_fail (only_verified found) ServiceError.mfa_not_enrolled
    check_totp_code method code

  unfoldable pub verify_backup_code : Uuid → Uuid → String → Action ext (Unit {0})
  unfolding hash_backup_code Store.consume_backup_code
  verify_backup_code tenant_id identity_id code = do
    consumed ← Store.consume_backup_code ext tenant_id identity_id (hash_backup_code ext code)
    fail_if (not consumed) ServiceError.invalid_mfa_code

  unfoldable pub verify : Uuid → Uuid → MfaOption → String → Action ext (Unit {0})
  unfolding verify_totp verify_backup_code
  verify tenant_id identity_id MfaOption.totp code = verify_totp tenant_id identity_id code
  verify tenant_id identity_id MfaOption.backup_code code =
      verify_backup_code tenant_id identity_id code
  verify tenant_id identity_id MfaOption.web_authn code =
      fail (ServiceError.validation "MFA method not supported yet")
  verify tenant_id identity_id MfaOption.sms code =
      fail (ServiceError.validation "MFA method not supported yet")

  -- The backup codes are counted only where some method is verified.
  abbrev pub offers_backup_code : Uuid → Uuid → List MfaOption → Action ext Bool
  offers_backup_code tenant_id identity_id [] = pure false
  offers_backup_code tenant_id identity_id (o ∷ os) = do
    unused ← Store.count_unused_backup_codes ext tenant_id identity_id
    pure (ltb 0 unused)

  unfoldable pub get_available_options : Uuid → Uuid → Action ext (List MfaOption)
  unfolding Store.list_verified_methods Store.count_unused_backup_codes
  get_available_options tenant_id identity_id = do
    methods ← Store.list_verified_methods ext tenant_id identity_id
    let options = map (λ (m : MfaMethod). option_of_kind m.method) methods
    more ← offers_backup_code tenant_id identity_id options
    pure (if more then append options (MfaOption.backup_code ∷ []) else options)

  unfoldable pub remove_method : Uuid → Uuid → Uuid → Action ext (Unit {0})
  unfolding Store.delete_method Store.list_verified_methods Store.delete_backup_codes
  remove_method tenant_id identity_id method_id = do
    Store.delete_method ext tenant_id identity_id method_id
    remaining ← Store.list_verified_methods ext tenant_id identity_id
    when (is_empty remaining) (Store.delete_backup_codes ext tenant_id identity_id)

  unfoldable pub delete_each : Uuid → Uuid → List MfaMethod → Action ext (Unit {0})
  unfolding Store.delete_method
  delete_each tenant_id identity_id [] = pure tt
  delete_each tenant_id identity_id (m ∷ ms) = do
    Store.delete_method ext tenant_id identity_id m.id
    delete_each tenant_id identity_id ms

  unfoldable pub remove_all : Uuid → Uuid → Action ext (Unit {0})
  unfolding delete_each Store.list_methods Store.delete_backup_codes
  remove_all tenant_id identity_id = do
    methods ← Store.list_methods ext tenant_id identity_id
    delete_each tenant_id identity_id methods
    Store.delete_backup_codes ext tenant_id identity_id

  unfoldable pub regenerate_backup_codes : Uuid → Uuid → Action ext (List String)
  unfolding generate_backup_codes hash_backup_code Store.list_verified_methods
      Store.replace_backup_codes
  regenerate_backup_codes tenant_id identity_id = do
    verified ← Store.list_verified_methods ext tenant_id identity_id
    fail_if (is_empty verified) ServiceError.mfa_not_enrolled
    codes ← generate_backup_codes
    Store.replace_backup_codes ext tenant_id identity_id (map (hash_backup_code ext) codes)
    pure codes
