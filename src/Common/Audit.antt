-- ===== src/Common/Audit.antt =====
-- crates/knox-common/src/audit.rs. The request context and the free-form details of an event are
-- left out.
use knox_iam_public.Common.Directory.{Uuid}

pub data AuditEventType : Type 0 where
  auth_login auth_mfa_challenge auth_mfa_verify auth_mfa_lockout : AuditEventType
  mfa_enroll_started mfa_enrolled mfa_removed mfa_backup_codes_regenerated : AuditEventType
  token_issued token_refresh_reuse_detected : AuditEventType
  identity_created identity_updated identity_deleted : AuditEventType
  client_created client_updated client_deleted pool_created : AuditEventType
  tenant_created tenant_deleted authz_cross_tenant_denied : AuditEventType
  role_assigned role_revoked password_changed password_reset_requested mfa_reset : AuditEventType

pub data AuditOutcome : Type 0 where
  success failure denied : AuditOutcome

pub data AuditActor : Type 0 where
  identity : Uuid → AuditActor
  client : Uuid → AuditActor
  anonymous : AuditActor

pub record AuditEvent : Type 0 where
  pub tenant_id : Uuid
  pub event_type : AuditEventType
  pub actor : AuditActor
  pub outcome : AuditOutcome
