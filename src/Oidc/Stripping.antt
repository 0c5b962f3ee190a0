-- ===== src/Oidc/Stripping.antt =====
-- crates/knox-services/src/oidc/service.rs: the scopes of what `handle_token_request` issues.
use knox_iam_public.Base.{◌≡◌, some, String, List, ◌+◌}
use knox_iam_public.Common.Directory.{Uuid}
use knox_iam_public.Common.Token.{JwtClaims}
use knox_iam_public.Externals.{Externals, JwtHeader}
use knox_iam_public.World.{World}
use knox_iam_public.Oidc.Models.{MintingContext, TokenResponse, join_spaces}

-- A response whose access token is the JWT of claims with these scopes.
pub record IsIssued (ext : Externals) (tenant_id : Uuid) (issuer : String)
    (context : MintingContext) (scopes : List String) (response : TokenResponse) : Type 0 where
  pub claims : JwtClaims
  pub header : JwtHeader
  pub pem : String
  pub encoded : ext.jwt.encode header claims pem ≡ some response.access_token
  pub claims_scopes : claims.scopes ≡ scopes
  pub claims_subject : claims.sub ≡ context.subject
  pub claims_tenant : claims.tenant_id ≡ tenant_id
  pub claims_issuer : claims.iss ≡ issuer
  pub claims_audience : claims.aud ≡ ext.uuid_text context.client.id
  pub expiry : claims.exp ≡ claims.iat + response.expires_in
  pub scope : response.scope ≡ some (join_spaces scopes)
