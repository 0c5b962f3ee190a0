-- ===== src/Audit.antt =====
-- crates/knox-core/src/audit.rs: `AuditService::record` sends the event to the writer and never
-- fails. The channel's capacity and the writer itself are left out: the log holds what was sent.
use knox_iam_public.Base.{◌∷◌}
use knox_iam_public.Common.Directory.{Uuid}
use knox_iam_public.Common.Audit.{AuditEventType, AuditActor, AuditOutcome}
use knox_iam_public.Externals.{Externals}
use knox_iam_public.World.{Action, ok}

module _ (ext : Externals) where
  unfoldable pub record_event :
      Uuid → AuditEventType → AuditActor → AuditOutcome → Action ext (Unit {0})
  record_event tenant_id event_type actor outcome w = (
    ok tt,
    record w {
      audit =
          record {
            tenant_id = tenant_id;
            event_type = event_type;
            actor = actor;
            outcome = outcome;
          }
          ∷ w.audit;
    },
  )
