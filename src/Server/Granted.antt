-- ===== src/Server/Granted.antt =====
-- server/src/handlers/identity.rs: what a request to assign a role gives, from the bearer token to
-- the tables.
use knox_iam_public.Base.{◌≡◌, sym, ap, ◌∙◌, true, String, contains, string_eq}
use knox_iam_public.Common.Directory.{Uuid}
use knox_iam_public.Common.Token.{JwtClaims}
use knox_iam_public.Common.Audit.{AuditEventType, AuditOutcome}
use knox_iam_public.Externals.{Externals}
use knox_iam_public.World.{World, ok}
use knox_iam_public.World.Laws.{fail_if-eq-ok, map_err-eq-ok}
use knox_iam_public.Audit.{record_event}
use package.knox_iam_public.Server.Access.{require_scope, audit}
use package.knox_iam_public.Server.Same.{not-false}

module _ {ext : Externals} where
  pub require_scope-eq-ok :
      (claims : JwtClaims) (scope : String) (w : World ext) {u : Unit {0}} {w' : World ext}
      → require_scope ext claims scope w ≡ (ok u, w')
      → (contains claims.scopes scope ≡ true) × (w' ≡ w)
  unfolding require_scope
  require_scope-eq-ok claims scope w h = let (e, s) = fail_if-eq-ok _ _ w h in (not-false _ e, s)

  -- An event is all that an audit adds.
  pub audit-tables :
      {A : Type 0} (f : World ext → A) (tenant_id : Uuid) (event_type : AuditEventType)
      (claims : JwtClaims) (outcome : AuditOutcome) (w : World ext) {u : Unit {0}} {w' : World ext}
      → ((event : _) → f (record w { audit = event }) ≡ f w)
      → audit ext tenant_id event_type claims outcome w ≡ (ok u, w')
      → f w' ≡ f w
  unfolding audit record_event
  audit-tables f tenant_id event_type claims outcome w blind h =
      ap (λ p. f p.1) (sym (map_err-eq-ok _ _ w h)) ∙ blind _
