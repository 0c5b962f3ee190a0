-- ===== src/Tests/Server.antt =====
-- Requests of a member of the staff, with the tenant of Fixtures.
use knox_iam_public.Base.{
  ◌≡◌, refl, String, true, false, Option, none, some, [], ◌∷◌, nat_eq, string_eq,
}
use knox_iam_public.Common.Directory.{Status, PublicIdentity, public_identity}
use knox_iam_public.Common.Token.{JwtClaims}
use knox_iam_public.World.{World, Outcome, ok, err, ◌>>=◌, storage, or_fail, fail_if, when, map_err}
use knox_iam_public.Sample.{sample, staff_claims}
use knox_iam_public.Names.{strip_prefix}
use knox_iam_public.Audit.{record_event}
use knox_iam_public.Identity
use knox_iam_public.Identity.Administration
use knox_iam_public.Identity.Administration.{UpdateIdentityRequest}
use knox_iam_public.Identity.Rows
use knox_iam_public.Authorization.Repository
use knox_iam_public.Authorization.Store
use knox_iam_public.Authorization.Cache
use knox_iam_public.Client
use knox_iam_public.Token.Jwt
use knox_iam_public.Token.Cache as TokenCache
use knox_iam_public.Token.Repository as TokenRepository
use knox_iam_public.Token.Service as TokenService
use knox_iam_public.Token.Store as TokenStore
use knox_iam_public.Authentication.Session.{revoke_all_sessions}
use knox_iam_public.Authentication.PasswordChange.{live_of}
use knox_iam_public.Server.Suspended.{update_identity-live_of}
use knox_iam_public.Server.Error.{AppError}
use knox_iam_public.Server.Access.{ResolvedTenant, require_scope, actor_from_claims, audit}
use knox_iam_public.Server.Bearer
use knox_iam_public.Server.Pools.{resolve_pool}
use knox_iam_public.Server.Requests.{IdentityRoute, Response}
use knox_iam_public.Server.Identities.{
  ensure_self_or_elevated, handle, respond, delete_identity, update_identity, assign_identity_role,
}
use knox_iam_public.Server.Refusals.{permits, Refuses, handle_refused}
use knox_iam_public.Server.Same.{Same}
use package.knox_iam_public.Tests.Fixtures.{world, lifetimes, role, alice}

abbrev acme : ResolvedTenant
acme = record {
  id = 1;
  slug = "acme";
  issuer = "knox";
  config = lifetimes;
  is_platform = false;
  from_request = true;
}

abbrev header : Option String
header = some "Bearer s"

abbrev caller : JwtClaims
caller = record staff_claims { jti = "s" }

-- The same token for another tenant is refused.
other_tenant :
    (Bearer.require_auth sample (record acme { id = 3 }) header world).0
    ≡ err (AppError.unauthorized "Invalid or expired token")
unfolding Bearer.require_auth Bearer.verify_bearer_token Bearer.bearer_token strip_prefix
    Jwt.verify_jwt Jwt.get_key_by_kid ◌>>=◌ storage or_fail fail_if map_err
other_tenant = refl

not_permitted : permits sample caller (IdentityRoute.delete_identity 9 none) ≡ false
unfolding permits
not_permitted = refl

handle_refused_example :
    Refuses (handle sample acme caller (IdentityRoute.delete_identity 9 none)) world
handle_refused_example =
    handle_refused sample acme caller (IdentityRoute.delete_identity 9 none) world not_permitted

abbrev deleted : Outcome AppError Response × World sample
deleted = respond sample acme header (IdentityRoute.delete_identity 2 none) world

abbrev answer_of : String → Response
answer_of text = record { status = 200; body = knox_iam_public.Server.Requests.Body.message text }

abbrev two_roles : World sample
two_roles = record world {
  roles = role 41 "reader" ("IdentityRead" ∷ []) ∷ [];
  identity_roles = [];
}

abbrev given_role : Outcome AppError Response × World sample
given_role = respond sample acme header (IdentityRoute.assign_identity_role 2 "reader") two_roles

-- A caller that suspends itself.
abbrev suspension : UpdateIdentityRequest
suspension = record {
  email = none;
  username = none;
  first_name = none;
  last_name = none;
  status = some Status.suspended;
}

abbrev suspended : Outcome AppError Response × World sample
suspended = update_identity sample acme caller 2 none suspension world

abbrev suspended_alice : PublicIdentity
suspended_alice = record (public_identity alice) { status = Status.suspended }

abbrev shown : Response
shown = record {
  status = 200;
  body = knox_iam_public.Server.Requests.Body.identity suspended_alice;
}

suspended_run : suspended ≡ (ok shown, suspended.1)
unfolding update_identity require_scope ensure_self_or_elevated resolve_pool audit record_event
    actor_from_claims Administration.update_identity Rows.update Rows.set_columns
    revoke_all_sessions TokenService.revoke_all_for_identity TokenRepository.revoke_all_for_identity
    TokenStore.revoke_all_for_identity TokenService.bump_sso_epoch
    TokenService.increment_transient_counter TokenService.touch_transient
    TokenRepository.increment_transient_counter TokenRepository.touch_transient
    TokenCache.increment_value TokenCache.incr TokenCache.touch_value ◌>>=◌ storage or_fail fail_if
    when map_err
suspended_run = refl

update_identity-live_of_example : live_of suspended.1 1 2 ≡ 0
update_identity-live_of_example =
    update_identity-live_of sample acme caller 2 none suspension world suspended.1 shown
      suspended_alice suspended_run refl refl refl
