-- ===== src/Tests/Factors.antt =====
-- The theorems of second factors and of sessions at the state of Fixtures.
use knox_iam_public.Base.{◌≡◌, refl, ◌≤◌, none, [], ◌∷◌, arith, inl}
use knox_iam_public.World.{World, ok, ◌>>=◌, fail_if, or_fail, when, storage}
use knox_iam_public.Sample.{sample, unary}
use knox_iam_public.Token.Service.{full_key, prefix, sso_epoch_key}
use knox_iam_public.Mfa.Totp.{hash_backup_code}
use knox_iam_public.Mfa.Service.{check_totp_code, verify_backup_code}
use knox_iam_public.Mfa.Replay.{verify_backup_code_once}
use knox_iam_public.Authentication.Session.{
  SsoSession, establish_sso_session, revoke_all_sessions, validate_sso_code,
}
use knox_iam_public.Authentication.Revocation.{revoked_session_refused}
use knox_iam_public.Tests.Fixtures.{alice, world, totp_method, lifetimes}

abbrev mfa_world : World sample
mfa_world = record world {
  mfa_methods = totp_method ∷ [];
  backup_codes = record { tenant_id = 1; identity_id = 2; code_hash = "AB"; used_at = none } ∷ [];
}

abbrev claimed_world : World sample
claimed_world = (check_totp_code sample totp_method "s" mfa_world).1

abbrev later_world : World sample
later_world = record claimed_world { now = 200 }

abbrev claimed_again : World sample
claimed_again = (check_totp_code sample totp_method "s" later_world).1

abbrev used_world : World sample
used_world = (verify_backup_code sample 1 2 "A-B" mfa_world).1

used : verify_backup_code sample 1 2 "AB" mfa_world ≡ (ok tt, used_world)
unfolding verify_backup_code ◌>>=◌ storage fail_if
used = refl

same_code : hash_backup_code sample "A-B" ≡ hash_backup_code sample "AB"
unfolding hash_backup_code
same_code = refl

verify_backup_code_once_example :
    ¬ (verify_backup_code sample 1 2 "A-B" used_world ≡ (ok tt, used_world))
verify_backup_code_once_example =
    verify_backup_code_once 1 2 "AB" "A-B" mfa_world used_world used refl same_code used_world

-- Sign-on, sign-out everywhere, and a request 50 seconds later.
abbrev signed_on : World sample
signed_on = (establish_sso_session sample 1 5 2 ("pwd" ∷ []) lifetimes world).1

abbrev signed_out : World sample
signed_out = (revoke_all_sessions sample 1 2 lifetimes signed_on).1

abbrev request_world : World sample
request_world = record signed_out { now = 150 }

abbrev any_session : SsoSession
any_session = record { identity = alice; amr = []; authenticated_at = 100 }

sign_on :
    establish_sso_session sample 1 5 2 ("pwd" ∷ []) lifetimes world ≡ (ok (unary 20), signed_on)
unfolding establish_sso_session ◌>>=◌ storage or_fail
sign_on = refl

sign_out : revoke_all_sessions sample 1 2 lifetimes signed_on ≡ (ok tt, signed_out)
unfolding revoke_all_sessions establish_sso_session ◌>>=◌ storage or_fail when full_key prefix
    sso_epoch_key
sign_out = refl

not_before : world.now ≤ signed_on.now
unfolding establish_sso_session ◌>>=◌ storage or_fail
not_before = omega arith

not_after : signed_on.now ≤ 150
unfolding establish_sso_session ◌>>=◌ storage or_fail
not_after = omega arith

revoked_session_refused_example :
    ¬ (validate_sso_code sample 1 5 (unary 20) none request_world ≡ (ok any_session, request_world))
unfolding revoke_all_sessions establish_sso_session ◌>>=◌ storage or_fail when full_key prefix
    sso_epoch_key
revoked_session_refused_example =
    revoked_session_refused sample 1 5 2 ("pwd" ∷ []) lifetimes (unary 20) 0 world signed_on
      signed_on signed_out request_world (inl (refl, refl)) sign_on not_before refl sign_out
      not_after refl refl 5 none any_session request_world
