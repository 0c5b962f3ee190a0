-- ===== src/Server/Accepted.antt =====
-- server/src/middleware/auth.rs: what holds of a bearer token that `require_auth` accepts.
use knox_iam_public.Base.{◌≡◌, true, false, String, Option, some, nat_eq, string_eq, is_some, ◌⊎◌}
use knox_iam_public.Common.Token.{JwtClaims}
use knox_iam_public.Externals.{Externals}
use knox_iam_public.World.{World}
use knox_iam_public.Names.{strip_prefix}
use package.knox_iam_public.Server.Access.{ResolvedTenant, is_staff}
use package.knox_iam_public.Server.Same.{Same}
use package.knox_iam_public.Server.Signed.{IsSigned}
use package.knox_iam_public.Server.Named.{HasClient, HasActiveSubject}

pub record IsAccepted {ext : Externals} (tenant : ResolvedTenant) (header : Option String)
    (w : World ext) (claims : JwtClaims) : Type 0 where
  pub text : String
  pub sent : header ≡ some text
  pub token : String
  pub bearer : strip_prefix "Bearer " text ≡ some token
  pub signed : IsSigned tenant w token claims
  pub same_tenant : claims.tenant_id ≡ tenant.id
  pub client : HasClient tenant w claims
  pub subject : (is_some claims.auth_time ≡ false) ⊎ HasActiveSubject w claims
  pub staff : is_staff claims.pool_kind ≡ true
