-- ===== src/Tests/Fixtures.antt =====
-- A tenant with one client, one active identity, a signing key, and two refresh tokens of a family.
use Prim.Native.String.{len}
use knox_iam_public.Base.{
  ℕ, pos, String, List, map, true, false, Option, none, some, [], ◌∷◌, ◌==◌, string_eq,
  if◌then◌else◌,
}
use knox_iam_public.Common.Directory.{
  Uuid, Status, IdentityKind, Identity, PoolKind, Client, AuthorizationConfiguration,
  AuthenticationConfiguration, KeyState, TenantKey,
}
use knox_iam_public.Common.Authorization.{Permission, Role, RoleKind}
use knox_iam_public.Common.Token.{RefreshToken, AuthCodeContext}
use knox_iam_public.Common.Mfa.{MfaMethod, MfaMethodKind}
use knox_iam_public.World.{World}
use knox_iam_public.Oidc.Models.{MintingContext}
use knox_iam_public.Sample.{sample}
use knox_iam_public.Sample.Store.{code}

abbrev pub alice : Identity
alice = record {
  id = 2;
  tenant_id = 1;
  pool_id = 5;
  kind = IdentityKind.human;
  username = "alice";
  email = some "alice@example.com";
  password_hash = some "correct horse";
  email_verified = true;
  first_name = some "Alice";
  last_name = none;
  status = Status.active;
}

abbrev pub app : Client
app = record {
  id = 7;
  tenant_id = 1;
  pool_id = 5;
  name = "app";
  client_secret_hash = some "secret";
  allow_refresh_tokens = true;
  grant_types = "authorization_code" ∷ "refresh_token" ∷ "client_credentials" ∷ [];
  redirect_uris = "https://app.example.com/cb" ∷ [];
  allowed_scopes = "openid" ∷ "IdentityRead" ∷ "TenantCreate" ∷ [];
  access_token_ttl = 300;
  refresh_token_ttl = 3600;
  id_token_ttl = 300;
  auth_code_ttl = 60;
  token_version = 1;
  status = Status.active;
}

-- A refresh token of alice, with its id and hash, and when it was revoked.
abbrev pub refresh : Uuid → String → Option ℕ → RefreshToken
refresh id hash revoked_at = record {
  id = id;
  tenant_id = 1;
  client_id = 7;
  identity_id = 2;
  token_hash = hash;
  scopes = "openid" ∷ "AuditRead" ∷ "IdentityRead" ∷ [];
  amr = "pwd" ∷ [];
  auth_time = some 90;
  expires_at = 1000;
  revoked_at = revoked_at;
  family_id = 3;
  created_at = 90;
  updated_at = 90;
}

abbrev pub verifier : String
verifier = "abcdefghijklmnopqrstuvwxyz0123456789-._~ABC"

abbrev pub code_context : AuthCodeContext
code_context = record {
  tenant_id = 1;
  client_id = 7;
  identity_id = 2;
  scopes = "openid" ∷ [];
  redirect_uri = "https://app.example.com/cb";
  pkce_code_challenge = verifier;
  pkce_code_challenge_method = "S256";
  nonce = some "n";
  amr = "pwd" ∷ [];
  auth_time = some 90;
  created_at = 90;
}

abbrev pub totp_method : MfaMethod
totp_method = record {
  id = 11;
  tenant_id = 1;
  identity_id = 2;
  method = MfaMethodKind.totp;
  secret_enc = some "s";
  last_used_step = none;
  verified_at = some 50;
  last_used_at = none;
  created_at = 40;
}

abbrev pub no_admin_mfa : AuthorizationConfiguration
no_admin_mfa = record {
  allow_plain_pkce = false;
  auth_code_ttl_seconds = 60;
  require_admin_mfa = false;
}

abbrev pub admin_mfa : AuthorizationConfiguration
admin_mfa = record no_admin_mfa { require_admin_mfa = true }

abbrev pub lifetimes : AuthenticationConfiguration
lifetimes = record {
  sso_cookie_lifetime_seconds = 1000;
  mfa_token_lifetime_seconds = 300;
  mfa_max_verification_attempts = 5;
  password_reset_token_lifetime_seconds = 900;
}

abbrev pub permission : String → Permission
permission key = record { id = len key; key = key }

abbrev pub role : Uuid → String → List String → Role
role id name keys = record {
  id = id;
  tenant_id = 1;
  name = name;
  kind = RoleKind.custom;
  permissions = map permission keys;
}

abbrev pub signing_key : TenantKey
signing_key = record {
  id = 12;
  tenant_id = 1;
  kid = "k";
  use_type = "sig";
  kty = "RSA";
  alg = "RS256";
  public_key_pem = "p";
  x509_cert_pem = none;
  encrypted_private_key = "e";
  state = KeyState.active;
  created_at = 10;
  expires_at = pos 1000;
}

abbrev pub world : World sample
world = record {
  now = 100;
  draws = 20;
  redis = λ k t. none;
  refresh_tokens = refresh 31 "new" none ∷ refresh 30 "old" (some 95) ∷ [];
  identities = alice ∷ [];
  pools = record { id = 5; tenant_id = 1; kind = PoolKind.customer } ∷ [];
  clients = app ∷ [];
  keys = signing_key ∷ [];
  mfa_methods = [];
  backup_codes = [];
  permission_rows = permission "IdentityRead" ∷ permission "AuditRead" ∷ [];
  roles = role 40 "auditor" ("IdentityRead" ∷ "AuditRead" ∷ []) ∷ [];
  identity_roles = record { identity_id = 2; role_id = 40; tenant_id = 1 } ∷ [];
  audit = [];
  outages = [];
}

-- The same with an authorization code in Redis, and no refresh token yet.
abbrev pub code_world : World sample
code_world = record world {
  refresh_tokens = [];
  redis = λ k t. if k == "auth_code:c" then some (code code_context) else none;
}

-- The grant of that code.
abbrev pub redeemed_context : MintingContext
redeemed_context = record {
  tenant_id = 1;
  client = app;
  subject = "aa";
  scopes = "openid" ∷ [];
  nonce = some "n";
  identity_id = some 2;
  refresh_token_family_id = none;
  auth = some (record { amr = "pwd" ∷ []; auth_time = 90 });
  email = some "alice@example.com";
  email_verified = true;
  preferred_username = some "alice";
  name = some "Alice";
}
