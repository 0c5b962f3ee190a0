-- ===== src/Tests/Challenges.antt =====
-- The theorems of challenges and reset links at the state of Fixtures.
use knox_iam_public.Base.{◌≡◌, refl, ◌≤◌, ◌<◌, ◌+◌, none, some, [], ◌∷◌, String, arith}
use knox_iam_public.Common.Directory.{Uuid}
use knox_iam_public.Common.Token.{JwtClaims, PasswordResetContext}
use knox_iam_public.Common.Mfa.{MfaOption}
use knox_iam_public.World.{World, ok, ◌>>=◌, fail_if, or_fail, when, storage, on_error}
use knox_iam_public.Sample.{sample, unary}
use knox_iam_public.Token.Service.{
  TransientKind, full_key, prefix, hash_token, take_transient_token,
}
use knox_iam_public.Authentication.Challenge.{open_challenge, consume_mfa_challenge}
use knox_iam_public.Authentication.Password.{
  PasswordResetOutcome, request_password_reset, reset_password_with_token,
}
use knox_iam_public.Authentication.Redeemed.{challenge_redeemed_once, reset_link_used_once}
use knox_iam_public.Tests.Fixtures.{world, totp_method, lifetimes}

abbrev mfa_world : World sample
mfa_world = record world {
  mfa_methods = totp_method ∷ [];
  backup_codes = record { tenant_id = 1; identity_id = 2; code_hash = "AB"; used_at = none } ∷ [];
}

abbrev redeemed_world : World sample
redeemed_world =
    (consume_mfa_challenge sample 1 (some 5) "knox" "t" MfaOption.backup_code "A-B" "knox:mfa"
      lifetimes mfa_world).1

abbrev later_world : World sample
later_world = record redeemed_world { now = 200 }

abbrev second_world : World sample
second_world =
    (consume_mfa_challenge sample 1 (some 5) "knox" "u" MfaOption.totp "s" "knox:mfa" lifetimes
      later_world).1

redeemed :
    consume_mfa_challenge sample 1
      (some 5)
      "knox"
      "t"
      MfaOption.backup_code
      "A-B"
      "knox:mfa"
      lifetimes
      mfa_world
    ≡ (ok (2, 5), redeemed_world)
unfolding consume_mfa_challenge ◌>>=◌ storage fail_if or_fail when on_error
redeemed = refl

redeemed_second :
    consume_mfa_challenge sample 1
      (some 5)
      "knox"
      "u"
      MfaOption.totp
      "s"
      "knox:mfa"
      lifetimes
      later_world
    ≡ (ok (2, 5), second_world)
unfolding consume_mfa_challenge ◌>>=◌ storage fail_if or_fail when on_error full_key prefix
redeemed_second = refl

not_before : redeemed_world.now ≤ 200
unfolding consume_mfa_challenge ◌>>=◌ storage fail_if or_fail when on_error
not_before = omega arith

alive : 200 < redeemed_world.now + 300
unfolding consume_mfa_challenge ◌>>=◌ storage fail_if or_fail when on_error
alive = omega arith

challenge_redeemed_once_example :
    (claims claims2 : JwtClaims) × (identity_id identity_id2 : Uuid) × (w1 v1 : World sample)
    × (open_challenge sample 1 (some 5) "knox" "t" "knox:mfa" mfa_world
        ≡ (ok (claims, identity_id), w1))
    × (open_challenge sample 1 (some 5) "knox" "u" "knox:mfa" later_world
        ≡ (ok (claims2, identity_id2), v1))
    × (¬ (claims.jti ≡ claims2.jti))
challenge_redeemed_once_example =
    challenge_redeemed_once 1 (some 5) (some 5) "knox" "t" "u" MfaOption.backup_code MfaOption.totp
      "A-B" "s" "knox:mfa" "knox:mfa" lifetimes lifetimes mfa_world later_world redeemed (λ k. refl)
      not_before alive redeemed_second

-- A reset link is asked for, and its token taken.
abbrev requested_world : World sample
requested_world = (request_password_reset sample 1 5 2 lifetimes world).1

abbrev token_hash : String
token_hash = hash_token sample (unary 20)

abbrev taken_world : World sample
taken_world =
    (take_transient_token sample sample.reset_codec TransientKind.password_reset token_hash
      requested_world).1

abbrev reset_context : PasswordResetContext
reset_context = record { tenant_id = 1; pool_id = 5; identity_id = 2; created_at = 100 }

taken :
    take_transient_token sample sample.reset_codec TransientKind.password_reset token_hash
      requested_world
    ≡ (ok (some reset_context), taken_world)
unfolding take_transient_token request_password_reset ◌>>=◌ storage or_fail full_key prefix
taken = refl

requested_before : requested_world.now ≤ 200
unfolding request_password_reset ◌>>=◌ storage
requested_before = omega arith

reset_link_used_once_example : ¬ (
    reset_password_with_token sample 1 "knox"
      (unary 20)
      "correct battery"
      lifetimes
      (record taken_world { now = 200 })
    ≡ (ok PasswordResetOutcome.completed, taken_world))
reset_link_used_once_example =
    reset_link_used_once (unary 20) requested_world (record taken_world { now = 200 }) 1 "knox"
      "correct battery" lifetimes taken refl requested_before PasswordResetOutcome.completed
      taken_world
