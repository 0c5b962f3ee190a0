-- ===== src/Common/Directory.antt =====
-- identity.rs, pool.rs, client.rs, tenant.rs and key.rs of crates/knox-common/src. A UUID is the
-- number that its 128 bits spell; times are whole seconds since the epoch.
use knox_iam_public.Base.{ℕ, ℤ, String, Bool, true, false, Option, List}

abbrev pub Uuid : Type 0
Uuid = ℕ

pub data Status : Type 0 where
  active disabled inactive suspended pending : Status

abbrev pub is_active : Status → Bool
is_active Status.active = true
is_active _ = false

abbrev pub same_status : Status → Status → Bool
same_status Status.active Status.active = true
same_status Status.disabled Status.disabled = true
same_status Status.inactive Status.inactive = true
same_status Status.suspended Status.suspended = true
same_status Status.pending Status.pending = true
same_status _ _ = false

pub data IdentityKind : Type 0 where
  human machine service_account : IdentityKind

pub data IdentityHandle : Type 0 where
  id : Uuid → IdentityHandle
  email : String → IdentityHandle
  username : String → IdentityHandle

pub record Identity : Type 0 where
  pub id : Uuid
  pub tenant_id : Uuid
  pub pool_id : Uuid
  pub kind : IdentityKind
  pub username : String
  pub email : Option String
  pub password_hash : Option String
  pub email_verified : Bool
  pub first_name : Option String
  pub last_name : Option String
  pub status : Status

-- An identity without its password hash.
pub record PublicIdentity : Type 0 where
  pub id : Uuid
  pub tenant_id : Uuid
  pub pool_id : Uuid
  pub kind : IdentityKind
  pub username : String
  pub email : Option String
  pub email_verified : Bool
  pub first_name : Option String
  pub last_name : Option String
  pub status : Status

abbrev pub public_identity : Identity → PublicIdentity
public_identity i = record {
  id = i.id;
  tenant_id = i.tenant_id;
  pool_id = i.pool_id;
  kind = i.kind;
  username = i.username;
  email = i.email;
  email_verified = i.email_verified;
  first_name = i.first_name;
  last_name = i.last_name;
  status = i.status;
}

pub data PoolKind : Type 0 where
  staff customer : PoolKind

pub record IdentityPool : Type 0 where
  pub id : Uuid
  pub tenant_id : Uuid
  pub kind : PoolKind

pub record Client : Type 0 where
  pub id : Uuid
  pub tenant_id : Uuid
  pub pool_id : Uuid
  pub name : String
  pub client_secret_hash : Option String
  pub allow_refresh_tokens : Bool
  pub grant_types : List String
  pub redirect_uris : List String
  pub allowed_scopes : List String
  pub access_token_ttl : ℕ
  pub refresh_token_ttl : ℕ
  pub id_token_ttl : ℕ
  pub auth_code_ttl : ℕ
  pub token_version : ℕ
  pub status : Status

pub record AuthorizationConfiguration : Type 0 where
  pub allow_plain_pkce : Bool
  pub auth_code_ttl_seconds : ℕ
  pub require_admin_mfa : Bool

pub record AuthenticationConfiguration : Type 0 where
  pub sso_cookie_lifetime_seconds : ℕ
  pub mfa_token_lifetime_seconds : ℕ
  pub mfa_max_verification_attempts : ℕ
  pub password_reset_token_lifetime_seconds : ℕ

pub data KeyState : Type 0 where
  active expired revoked : KeyState

abbrev pub is_revoked : KeyState → Bool
is_revoked KeyState.revoked = true
is_revoked _ = false

abbrev pub is_active_key : KeyState → Bool
is_active_key KeyState.active = true
is_active_key _ = false

pub record TenantKey : Type 0 where
  pub id : Uuid
  pub tenant_id : Uuid
  pub kid : String
  pub use_type : String
  pub kty : String
  pub alg : String
  pub public_key_pem : String
  pub x509_cert_pem : Option String
  pub encrypted_private_key : String
  pub state : KeyState
  pub created_at : ℕ
  pub expires_at : ℤ
