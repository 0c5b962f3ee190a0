-- ===== src/Tests/Login.antt =====
-- The theorems of passwords and TOTP codes at the state of Fixtures.
use knox_iam_public.Base.{◌≡◌, refl, String, some}
use knox_iam_public.Common.Directory.{IdentityHandle}
use knox_iam_public.World.{ok, ◌>>=◌, or_fail, storage}
use knox_iam_public.Sample.{sample}
use knox_iam_public.Identity.{get, authenticate}
use knox_iam_public.Identity.Credentials.{accepted, authenticate-accepted}
use knox_iam_public.Mfa.Totp.{totp_matched_step}
use knox_iam_public.Mfa.Window.{IsMatch, totp_matched_step-IsMatch}
use knox_iam_public.Tests.Fixtures.{alice, world}

looked_up : get sample 5 (IdentityHandle.username "alice") world ≡ (ok (some alice), world)
unfolding get storage
looked_up = refl

authenticate-accepted_example :
    authenticate sample 5 (IdentityHandle.username "alice") "correct horse" world
    ≡ (accepted sample (some alice) "correct horse", world)
authenticate-accepted_example =
    authenticate-accepted sample 5 (IdentityHandle.username "alice") "correct horse" world looked_up
      refl

logged_in : accepted sample (some alice) "correct horse" ≡ ok alice
logged_in = refl

matched : totp_matched_step sample "s" "s" 100 world ≡ (ok (some 2), world)
unfolding totp_matched_step ◌>>=◌ or_fail
matched = refl

totp_matched_step-IsMatch_example :
    (secret : String) × (sample.totp_bytes "s" ≡ some secret)
    × IsMatch sample secret "s" 100 (some 2)
    × (world ≡ world)
totp_matched_step-IsMatch_example = totp_matched_step-IsMatch "s" "s" 100 world matched
