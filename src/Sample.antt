-- ===== src/Sample.antt =====
-- Concrete externals, at which the theorems about any externals are instantiated: Redis as a
-- function from keys and times to values, and the simplest hashes and generators that keep the laws.
pub mod Store
use Prim.Native.String
use Prim.Native.String.{count}
use knox_iam_public.Base.{
  all_chars, ℕ, zero, suc, ◌+◌, ◌≤◌, String, not, Bool, true, false, ◌&&◌, ◌||◌, Option, none, some,
  ◌≡◌, refl, List, [], ◌∷◌, ltb, leb, ◌==◌, nat_eq, string_eq, if◌then◌else◌, is_some, arith,
  eq_iff, ap,
}
use knox_iam_public.Common.Directory.{PoolKind, TenantKey}
use knox_iam_public.Common.Token.{
  AuthCodeContext, SsoSessionContext, PasswordResetContext, JwtClaims,
}
use knox_iam_public.Externals.{Redis, Codec, JwtHeader, Validation, Jwt, Externals}
use Store.{Text, sample_redis, num, code, sso, reset, flag, tenant_key, tenant_keys, strings}

abbrev pub code_codec : Codec Text AuthCodeContext
code_codec = record { write = code; read = read; read-write = λ a. refl }
  where
    read : Text → Option AuthCodeContext
    read (code c) = some c
    read _ = none

abbrev pub sso_codec : Codec Text SsoSessionContext
sso_codec = record { write = sso; read = read; read-write = λ a. refl }
  where
    read : Text → Option SsoSessionContext
    read (sso c) = some c
    read _ = none

abbrev pub reset_codec : Codec Text PasswordResetContext
reset_codec = record { write = reset; read = read; read-write = λ a. refl }
  where
    read : Text → Option PasswordResetContext
    read (reset c) = some c
    read _ = none

abbrev pub bool_codec : Codec Text Bool
bool_codec = record { write = flag; read = read; read-write = λ a. refl }
  where
    read : Text → Option Bool
    read (flag b) = some b
    read _ = none

abbrev pub key_codec : Codec Text TenantKey
key_codec = record { write = tenant_key; read = read; read-write = λ a. refl }
  where
    read : Text → Option TenantKey
    read (tenant_key k) = some k
    read _ = none

abbrev pub keys_codec : Codec Text (List TenantKey)
keys_codec = record { write = tenant_keys; read = read; read-write = λ a. refl }
  where
    read : Text → Option (List TenantKey)
    read (tenant_keys ks) = some ks
    read _ = none

abbrev pub strings_codec : Codec Text (List String)
strings_codec = record { write = strings; read = read; read-write = λ a. refl }
  where
    read : Text → Option (List String)
    read (strings s) = some s
    read _ = none

abbrev pub u64_codec : Codec Text ℕ
u64_codec = record { write = num; read = read; read-write = λ a. refl }
  where
    read : Text → Option ℕ
    read (num n) = some n
    read _ = none

-- n times the letter a, for the tokens and UUIDs that are drawn
abbrev pub unary : ℕ → String
unary zero = ""
unary (suc n) = String.◌∷◌ "a" (unary n)

abbrev pub letters : String → ℕ
letters String.[] = 0
letters (String.◌∷◌ c s) = suc (letters s)

pub letters-unary : (n : ℕ) → letters (unary n) ≡ n
letters-unary zero = refl
letters-unary (suc n) = ap suc (letters-unary n)

pub unary_colon : (n : ℕ) → all_chars (λ c. not (c == b':')) (unary n) ≡ true
unfolding all_chars
unary_colon zero = refl
unary_colon (suc n) = unary_colon n

-- The claims of the two challenge tokens that the sample knows, but for their `jti`.
abbrev pub sample_claims : JwtClaims
sample_claims = record {
  iss = "knox";
  sub = unary 2;
  aud = unary 2;
  exp = 400;
  iat = 100;
  jti = "j";
  client_id = none;
  amr = [];
  acr = none;
  auth_time = none;
  tenant_id = 1;
  pool_id = 5;
  pool_kind = PoolKind.customer;
  scopes = "knox:mfa" ∷ [];
  token_version = 1;
}

-- The token of a member of the staff.
abbrev pub staff_claims : JwtClaims
staff_claims = record sample_claims {
  aud = unary 7;
  auth_time = some 90;
  pool_kind = PoolKind.staff;
  scopes = "IdentityRead" ∷ "IdentityUpdate" ∷ "IdentityDelete" ∷ [];
}

abbrev pub claims_of : String → JwtClaims
claims_of token = if token == "s" then staff_claims else sample_claims

abbrev pub sample_decode : Validation → ℕ → String → String → Option JwtClaims
sample_decode v now token pem =
    if v.issuer == "knox" && leb now 460 && (token == "t" || token == "u" || token == "s")
    then some (record (claims_of token) { jti = token })
    else none

pub sample_decode-issuer :
    (v : Validation) (now : ℕ) (token pem : String) (c : JwtClaims)
    → sample_decode v now token pem ≡ some c
    → c.iss ≡ v.issuer
sample_decode-issuer v now token pem c e = ground (arith, eq_iff v.issuer "knox")

pub sample_decode-exp :
    (v : Validation) (now : ℕ) (token pem : String) (c : JwtClaims)
    → sample_decode v now token pem ≡ some c
    → now ≤ c.exp + 60
sample_decode-exp v now token pem c e = ground arith

abbrev pub sample_jwt : Jwt
sample_jwt = record {
  leeway = 60;
  pem_parses = λ _. true;
  encode = λ _ _ _. some "t";
  encode_id = λ _ _ _. some "i";
  decode_header = λ _. some (record { rs256 = true; kid = some "k"; typ = some "JWT" });
  decode = sample_decode;
  decode-issuer = sample_decode-issuer;
  decode-exp = sample_decode-exp;
}

abbrev pub sample : Externals
sample = record {
  redis = sample_redis;
  jwt = sample_jwt;
  code_codec = code_codec;
  sso_codec = sso_codec;
  reset_codec = reset_codec;
  bool_codec = bool_codec;
  key_codec = key_codec;
  keys_codec = keys_codec;
  strings_codec = strings_codec;
  u64_codec = u64_codec;
  u64-decimal = λ n. refl;
  sha256_hex = λ s. s;
  sha256_base64url = λ s. s;
  sha256_half = λ s. s;
  opaque_token = λ _ n. unary n;
  new_v4 = λ n. n;
  new_v4_injective = λ m n e. e;
  uuid_text = unary;
  uuid_text_colon = unary_colon;
  parse_uuid = λ s. some (letters s);
  parse_uuid-text = λ u. ap some (letters-unary u);
  argon2_parses = λ _. true;
  argon2_verify = λ p h. p == h;
  argon2_hash = λ _ p. p;
  argon2_dummy = "";
  uuid_bytes = unary;
  decrypt = λ c _. some c;
  to_lowercase = λ s. s;
  sql_lower = λ s. s;
  to_uppercase = λ s. s;
  trim = λ s. s;
  sql_like = λ t p. t == p;
  is_email = λ s. true;
  encrypt = λ _ p _. some p;
  totp_secret = unary;
  totp_bytes = λ s. some s;
  totp_generate = λ s t. s;
  totp_url = λ _ _ s. some s;
  rsa_key_pair = λ n. some (unary n, unary n);
  rsa_public_parts = λ p. some (p, "AQAB");
  random_u32 = λ n. n;
  backup_code = unary;
}
