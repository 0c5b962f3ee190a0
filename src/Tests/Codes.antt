-- ===== src/Tests/Codes.antt =====
-- The theorems of authorization codes and of the token endpoint's answers at the state of Fixtures.
use knox_iam_public.Base.{◌≡◌, refl, ◌≤◌, false, none, some, [], ◌∷◌, arith}
use knox_iam_public.World.{World, ok, ◌>>=◌, fail_if, or_fail, when, storage}
use knox_iam_public.Sample.{sample, unary}
use knox_iam_public.Token.Service.{exchange_auth_code, full_key, prefix, sso_epoch_key}
use knox_iam_public.Common.Directory.{Client}
use knox_iam_public.Authentication.Session.{SsoSession, establish_sso_session}
use knox_iam_public.Client.{get_active_client_by_name}
use knox_iam_public.Oidc.Consent.{IsAuthorized, handle_authorize_request-IsAuthorized}
use knox_iam_public.Oidc.Models.{
  TokenGrantRequest, TokenResponse, AuthorizeRequest, AuthorizeResult, CodeChallengeMethod,
}
use knox_iam_public.Oidc.Authorize.{issue_code, handle_authorize_request}
use knox_iam_public.Oidc.Grants.{validate_authorization_code}
use knox_iam_public.Oidc.Token.{handle_token_request}
use knox_iam_public.Oidc.Codes.{code_redeemed_once, issue_code-exchange_auth_code, issued_context}
use knox_iam_public.Tests.Fixtures.{
  alice, app, lifetimes, redeemed_context, world, code_world, no_admin_mfa, verifier, code_context,
}

abbrev machine_request : TokenGrantRequest
machine_request =
    TokenGrantRequest.client_credentials "app" "secret" (some "TenantCreate IdentityRead")

abbrev machine_response : TokenResponse
machine_response = record {
  access_token = "t";
  token_type = "Bearer";
  expires_in = 300;
  refresh_token = none;
  id_token = none;
  scope = some "IdentityRead";
}

abbrev answered_world : World sample
answered_world = (handle_token_request sample 1 false "knox" machine_request no_admin_mfa world).1

-- After the code of Fixtures was exchanged.
abbrev redeemed_world : World sample
redeemed_world = (exchange_auth_code sample "c" code_world).1

abbrev later_world : World sample
later_world = record redeemed_world { now = 130 }

code_taken : exchange_auth_code sample "c" code_world ≡ (ok (some code_context), redeemed_world)
unfolding exchange_auth_code ◌>>=◌ storage or_fail
code_taken = refl

time_passed : code_world.now ≤ 130
time_passed = omega arith

code_redeemed_once_example : ¬ (
    validate_authorization_code sample 1 "app" none "c" none verifier no_admin_mfa later_world
    ≡ (ok redeemed_context, later_world))
code_redeemed_once_example =
    code_redeemed_once "c" code_world later_world 1 "app" none none verifier no_admin_mfa code_taken
      refl time_passed redeemed_context later_world

abbrev request : AuthorizeRequest
request = record {
  sso_token = "sso";
  client_id = "app";
  redirect_uri = "https://app.example.com/cb";
  state = "st";
  code_challenge = verifier;
  code_challenge_method = CodeChallengeMethod.s256;
  scope = "openid" ∷ [];
  nonce = none;
  max_age = none;
  prompt = none;
}

abbrev session : SsoSession
session = record { identity = alice; amr = "pwd" ∷ []; authenticated_at = 95 }

abbrev issued_world : World sample
issued_world = (issue_code sample 1 request app session world).1

abbrev exchanging_world : World sample
exchanging_world = record issued_world { now = 140; outages = [] }

issued :
    issue_code sample 1 request app session world
    ≡ (ok (AuthorizeResult.success (unary 20) "https://app.example.com/cb" "st"), issued_world)
unfolding issue_code ◌>>=◌ storage
issued = refl

issue_code-exchange_auth_code_example :
    (AuthorizeResult.success (unary 20) "https://app.example.com/cb" "st"
      ≡ AuthorizeResult.success (unary 20) "https://app.example.com/cb" "st")
    × ((exchange_auth_code sample (unary 20) exchanging_world).0
        ≡ ok (some (issued_context 1 request app session 100)))
issue_code-exchange_auth_code_example =
    issue_code-exchange_auth_code 1 request app session world exchanging_world issued refl refl
      (omega arith) (omega arith)

-- Alice signs on and opens the authorize endpoint.
abbrev signed_on : World sample
signed_on = (establish_sso_session sample 1 5 2 ("pwd" ∷ []) lifetimes world).1

abbrev cookie_request : AuthorizeRequest
cookie_request = record request {
  sso_token = unary 20;
  code_challenge = "abcdefghijklmnopqrstuvwxyz0123456789-_ABCDE";
}

abbrev consented_world : World sample
consented_world = (handle_authorize_request sample 1 cookie_request no_admin_mfa signed_on).1

consented :
    handle_authorize_request sample 1 cookie_request no_admin_mfa signed_on
    ≡ (ok (AuthorizeResult.success (unary 21) "https://app.example.com/cb" "st"), consented_world)
unfolding handle_authorize_request establish_sso_session ◌>>=◌ storage or_fail fail_if when full_key
    prefix sso_epoch_key
consented = refl

handle_authorize_request-IsAuthorized_example :
    (client : Client) × (v : World sample) × (get_active_client_by_name sample 1 "app" signed_on
      ≡ (ok client, v))
    × IsAuthorized 1 cookie_request no_admin_mfa client v
handle_authorize_request-IsAuthorized_example =
    handle_authorize_request-IsAuthorized 1 cookie_request no_admin_mfa signed_on (unary 21)
      "https://app.example.com/cb" "st" consented
