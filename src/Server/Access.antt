-- ===== src/Server/Access.antt =====
-- server/src/middleware/auth.rs (the scopes of a token), server/src/middleware/audit_context.rs
-- and server/src/handlers/mod.rs: what a handler reads from the claims of its caller.
use knox_iam_public.Base.{
  String, Bool, true, false, not, Option, none, some, List, string_eq, any, contains,
}
use knox_iam_public.Common.Directory.{Uuid, PoolKind, AuthenticationConfiguration}
use knox_iam_public.Common.Token.{JwtClaims}
use knox_iam_public.Common.Audit.{AuditActor, AuditEventType, AuditOutcome}
use knox_iam_public.Externals.{Externals}
use knox_iam_public.World.{World, Action, Outcome, or_fail, fail_if, map_err, ◌>>◌}
use knox_iam_public.Roles.{identity_update_scope}
use knox_iam_public.Audit.{record_event}
use package.knox_iam_public.Server.Error.{AppError}

-- The tenant of a request, with the part of its configuration that the handlers use.
pub record ResolvedTenant : Type 0 where
  pub id : Uuid
  pub slug : String
  pub issuer : String
  pub config : AuthenticationConfiguration
  pub is_platform : Bool
  pub from_request : Bool

abbrev pub ServerAction : Externals → Type 0 → Type 0
ServerAction ext A = World ext → Outcome AppError A × World ext

abbrev pub is_staff : PoolKind → Bool
is_staff PoolKind.staff = true
is_staff PoolKind.customer = false

module _ (ext : Externals) where
  -- `?` on the result of a service
  abbrev pub service : {A : Type 0} → Action ext A → ServerAction ext A
  service m = map_err AppError.service_error m

  -- `map_err(|_| AppError::Unauthorized(…))`
  abbrev pub or_unauthorized : {A : Type 0} → String → Action ext A → ServerAction ext A
  or_unauthorized message m = map_err (λ _. AppError.unauthorized message) m

  unfoldable pub require_scope : JwtClaims → String → ServerAction ext (Unit {0})
  require_scope claims scope =
      fail_if (not (contains claims.scopes scope)) (AppError.forbidden "Requires scope")

  unfoldable pub require_any_scope : JwtClaims → List String → ServerAction ext (Unit {0})
  require_any_scope claims scopes =
      fail_if (not (any (contains claims.scopes) scopes))
        (AppError.forbidden "Requires one of scopes")

  unfoldable pub self_identity_id : JwtClaims → ServerAction ext Uuid
  unfolding require_scope
  self_identity_id claims = do
    require_scope claims identity_update_scope
    or_fail (ext.parse_uuid claims.sub)
        (AppError.bad_request "Token subject is not a user identity")

  abbrev client_actor : Option Uuid → AuditActor
  client_actor none = AuditActor.anonymous
  client_actor (some client_id) = AuditActor.client client_id

  abbrev identity_actor : Option Uuid → AuditActor → AuditActor
  identity_actor none other = other
  identity_actor (some id) other = AuditActor.identity id

  unfoldable pub actor_from_claims : JwtClaims → AuditActor
  actor_from_claims claims =
      identity_actor (ext.parse_uuid claims.sub) (client_actor (ext.parse_uuid claims.aud))

  unfoldable pub audit :
      Uuid → AuditEventType → JwtClaims → AuditOutcome → ServerAction ext (Unit {0})
  unfolding record_event actor_from_claims
  audit tenant_id event_type claims outcome =
      service (record_event ext tenant_id event_type (actor_from_claims claims) outcome)
