-- ===== src/Tests/Scopes.antt =====
-- The theorem of cross-tenant scopes at an administrator of the platform.
use knox_iam_public.Base.{[], ◌∷◌, string_eq}
use knox_iam_public.World.{World}
use knox_iam_public.Sample.{sample}
use knox_iam_public.Tests.Fixtures.{world, role, totp_method}

abbrev platform_world : World sample
platform_world = record world {
  roles = role 40 "auditor" ("PlatformAuditRead" ∷ "IdentityRead" ∷ []) ∷ [];
  mfa_methods = totp_method ∷ [];
}
