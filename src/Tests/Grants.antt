-- ===== src/Tests/Grants.antt =====
-- The theorems of the code and client grants, and of a run, at the state of Fixtures.
use knox_iam_public.Base.{
  ◌≡◌, refl, ◌≤◌, true, false, none, some, [], ◌∷◌, All, contains, string_eq,
}
use knox_iam_public.World.{World, ok, ◌>>=◌, fail_if, or_fail, storage}
use knox_iam_public.Sample.{sample}
use knox_iam_public.Token.Families.{live_count}
use knox_iam_public.Oidc.Models.{MintingContext, TokenGrantRequest}
use knox_iam_public.Oidc.Grants.{validate_client_credentials}
use knox_iam_public.Oidc.Token.{handle_token_request}
use knox_iam_public.Oidc.Machine.{validate_client_credentials-eq-ok}
use knox_iam_public.Oidc.Rotation.Reachable.{Step, Run, single_live_token}
use knox_iam_public.Tests.Fixtures.{app, world, code_world, no_admin_mfa, verifier}

abbrev redeemed_world : World sample
redeemed_world = record code_world { redis = sample.redis.del "auth_code:c" 100 code_world.redis }

abbrev machine_context : MintingContext
machine_context = record {
  tenant_id = 1;
  client = app;
  subject = "app";
  scopes = "TenantCreate" ∷ [];
  nonce = none;
  identity_id = none;
  refresh_token_family_id = none;
  auth = none;
  email = none;
  email_verified = false;
  preferred_username = none;
  name = none;
}

machine :
    validate_client_credentials sample 1 "app" "secret" (some "TenantCreate") world
    ≡ (ok machine_context, world)
unfolding validate_client_credentials ◌>>=◌ storage fail_if or_fail
machine = refl

validate_client_credentials-eq-ok_example :
    All (λ s. contains app.allowed_scopes s ≡ true) ("TenantCreate" ∷ [])
    × (contains app.grant_types "client_credentials" ≡ true)
    × (machine_context.identity_id ≡ none)
    × (machine_context.refresh_token_family_id ≡ none)
    × (machine_context.auth ≡ none)
    × (machine_context.subject ≡ app.name)
validate_client_credentials-eq-ok_example =
    validate_client_credentials-eq-ok 1 "app" "secret" (some "TenantCreate") world machine

-- What is left after a code is exchanged at the token endpoint.
abbrev served_world : World sample
served_world =
    (handle_token_request sample 1 false "knox"
      (TokenGrantRequest.authorization_code "app" none "c" none verifier) no_admin_mfa code_world).1

single_live_token_example : live_count 23 served_world.refresh_tokens ≤ 1
single_live_token_example = single_live_token sample code_world served_world 23 refl (
    Run.next code_world code_world served_world (Run.start code_world) (
      Step.request 1 false "knox"
        (TokenGrantRequest.authorization_code "app" none "c" none verifier) no_admin_mfa
        code_world))
