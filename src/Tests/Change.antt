-- ===== src/Tests/Change.antt =====
-- The theorem of password changes: alice gives both factors.
use knox_iam_public.Base.{some, [], ◌∷◌, nat_eq}
use knox_iam_public.Common.Directory.{Identity}
use knox_iam_public.Common.Mfa.{MfaOption}
use knox_iam_public.World.{World}
use knox_iam_public.Sample.{sample}
use knox_iam_public.Identity
use knox_iam_public.Authentication.Password.{change_own_password}
use knox_iam_public.Tests.Fixtures.{world, totp_method, lifetimes}

abbrev enrolled_world : World sample
enrolled_world = record world { mfa_methods = totp_method ∷ [] }

abbrev changed_world : World sample
changed_world =
    (change_own_password sample 1 5 2 "correct horse" "battery staple" (some (MfaOption.totp, "s"))
      lifetimes enrolled_world).1
