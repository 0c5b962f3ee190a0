-- ===== src/Common/Mfa.antt =====
-- crates/knox-common/src/mfa.rs, and the verification options of identity.rs.
use knox_iam_public.Base.{ℕ, String, Option, List}
use knox_iam_public.Common.Directory.{Uuid}

pub data MfaMethodKind : Type 0 where
  totp web_authn sms : MfaMethodKind

pub data MfaOption : Type 0 where
  totp web_authn sms backup_code : MfaOption

abbrev pub option_of_kind : MfaMethodKind → MfaOption
option_of_kind MfaMethodKind.totp = MfaOption.totp
option_of_kind MfaMethodKind.web_authn = MfaOption.web_authn
option_of_kind MfaMethodKind.sms = MfaOption.sms

pub record MfaRequiredDetails : Type 0 where
  pub token : String
  pub user_id : Uuid
  pub options : List MfaOption

pub record MfaMethod : Type 0 where
  pub id : Uuid
  pub tenant_id : Uuid
  pub identity_id : Uuid
  pub method : MfaMethodKind
  pub secret_enc : Option String
  pub last_used_step : Option ℕ
  pub verified_at : Option ℕ
  pub last_used_at : Option ℕ
  pub created_at : ℕ

-- A row of mfa_backup_codes.
pub record BackupCode : Type 0 where
  pub tenant_id : Uuid
  pub identity_id : Uuid
  pub code_hash : String
  pub used_at : Option ℕ
