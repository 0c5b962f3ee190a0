-- ===== src/Common/Token.antt =====
-- crates/knox-common/src/token.rs, with the payloads that crates/knox-core/src/authentication.rs
-- keeps behind opaque tokens, and the claims of crates/knox-core/src/token.rs.
use knox_iam_public.Base.{ℕ, String, Bool, Option, List}
use knox_iam_public.Common.Directory.{Uuid, PoolKind}

pub record AuthCodeContext : Type 0 where
  pub tenant_id : Uuid
  pub client_id : Uuid
  pub identity_id : Uuid
  pub scopes : List String
  pub redirect_uri : String
  pub pkce_code_challenge : String
  pub pkce_code_challenge_method : String
  pub nonce : Option String
  pub amr : List String
  pub auth_time : Option ℕ
  pub created_at : ℕ

pub record RefreshToken : Type 0 where
  pub id : Uuid
  pub tenant_id : Uuid
  pub client_id : Uuid
  pub identity_id : Uuid
  pub token_hash : String
  pub scopes : List String
  pub amr : List String
  pub auth_time : Option ℕ
  pub expires_at : ℕ
  pub revoked_at : Option ℕ
  pub family_id : Uuid
  pub created_at : ℕ
  pub updated_at : ℕ

-- `SsoSessionContext`
pub record SsoSessionContext : Type 0 where
  pub tenant_id : Uuid
  pub pool_id : Uuid
  pub identity_id : Uuid
  pub amr : List String
  pub epoch : ℕ
  pub created_at : ℕ

pub record PasswordResetContext : Type 0 where
  pub tenant_id : Uuid
  pub pool_id : Uuid
  pub identity_id : Uuid
  pub created_at : ℕ

-- How the human authenticated.
pub record AuthenticationContext : Type 0 where
  pub amr : List String
  pub auth_time : ℕ

pub record JwtClaims : Type 0 where
  pub iss : String
  pub sub : String
  pub aud : String
  pub exp : ℕ
  pub iat : ℕ
  pub jti : String
  pub client_id : Option String
  pub amr : List String
  pub acr : Option String
  pub auth_time : Option ℕ
  pub tenant_id : Uuid
  pub pool_id : Uuid
  pub pool_kind : PoolKind
  pub scopes : List String
  pub token_version : ℕ

pub record JwtCustomClaims : Type 0 where
  pub sub : String
  pub aud : String
  pub tenant_id : Uuid
  pub pool_id : Uuid
  pub scopes : List String

pub record IdTokenInput : Type 0 where
  pub subject : String
  pub audience : String
  pub auth : Option AuthenticationContext
  pub nonce : Option String
  pub email : Option String
  pub email_verified : Bool
  pub preferred_username : Option String
  pub name : Option String

pub record IdTokenClaims : Type 0 where
  pub iss : String
  pub sub : String
  pub aud : String
  pub exp : ℕ
  pub iat : ℕ
  pub auth_time : Option ℕ
  pub nonce : Option String
  pub acr : Option String
  pub amr : List String
  pub azp : Option String
  pub at_hash : Option String
  pub email : Option String
  pub email_verified : Option Bool
  pub preferred_username : Option String
  pub name : Option String
