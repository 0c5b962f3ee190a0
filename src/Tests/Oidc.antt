-- ===== src/Tests/Oidc.antt =====
-- The theorems of the token endpoint at the state of Fixtures.
use knox_iam_public.Base.{◌≡◌, refl, true, none, some, [], ◌∷◌, find, nat_eq, string_eq}
use knox_iam_public.Common.Error.{ServiceError}
use knox_iam_public.World.{World, ok, err, ◌>>=◌, fail_if, or_fail, storage}
use knox_iam_public.Sample.{sample}
use knox_iam_public.Token.Families.{live_count}
use knox_iam_public.Token.Store.{has_hash}
use knox_iam_public.Token.Service.{hash_token}
use knox_iam_public.Oidc.Models.{MintingContext}
use knox_iam_public.Oidc.Grants.{validate_refresh_token, resolve_client}
use knox_iam_public.Oidc.Rotation.Reuse.{reuse-revokes_family}
use knox_iam_public.Tests.Fixtures.{app, world, refresh, no_admin_mfa}

-- The grant of the live refresh token, and the state after it.
abbrev refreshed_context : MintingContext
refreshed_context = record {
  tenant_id = 1;
  client = app;
  subject = "aa";
  scopes = "openid" ∷ "AuditRead" ∷ "IdentityRead" ∷ [];
  nonce = none;
  identity_id = some 2;
  refresh_token_family_id = some 3;
  auth = some (record { amr = "pwd" ∷ []; auth_time = 90 });
  email = some "alice@example.com";
  email_verified = true;
  preferred_username = some "alice";
  name = some "Alice";
}

abbrev refreshed_world : World sample
refreshed_world = record world {
  refresh_tokens =
      record (refresh 31 "new" none) { revoked_at = some 100; updated_at = 100 }
      ∷ refresh 30 "old" (some 95)
      ∷ [];
}

old_found :
    find (has_hash 1 (hash_token sample "old")) world.refresh_tokens
    ≡ some (refresh 30 "old" (some 95))
unfolding hash_token
old_found = refl

app_known : resolve_client sample 1 "app" (some "secret") world ≡ (ok app, world)
unfolding resolve_client ◌>>=◌ storage fail_if or_fail
app_known = refl

reuse-revokes_family_example :
    (w' : World sample) × (validate_refresh_token sample 1 "app"
        (some "secret")
        "old"
        no_admin_mfa
        world
      ≡ (err ServiceError.invalid_credentials, w'))
    × (live_count 3 w'.refresh_tokens ≡ 0)
reuse-revokes_family_example =
    reuse-revokes_family 1 "app" (some "secret") "old" no_admin_mfa world
      (refresh 30 "old" (some 95)) app refl old_found app_known refl
