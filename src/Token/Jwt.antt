-- ===== src/Token/Jwt.antt =====
-- crates/knox-core/src/token.rs: the tokens that are minted and verified with a tenant's RSA key,
-- and the key lookups of crates/knox-core/src/key.rs and crates/knox-storage/src/key/store.rs.
use knox_iam_public.Base.{
  ℕ, ◌+◌, String, true, ◌&&◌, not, Option, none, some, List, [], ◌==◌, nat_eq, string_eq, find,
  find_latest, any, get_or, ltb, if◌then◌else◌,
}
use knox_iam_public.Common.Error.{ServiceError}
use knox_iam_public.Common.Directory.{Uuid, Client, PoolKind, TenantKey, is_revoked, is_active_key}
use knox_iam_public.Common.Token.{JwtClaims, JwtCustomClaims, AuthenticationContext, IdTokenInput}
use knox_iam_public.Externals.{Externals}
use knox_iam_public.World.{Action, storage, ok, pure, or_fail, fail_if, gets, ◌>>=◌, ◌>>◌}
use knox_iam_public.Token.Service.{new_v4}

abbrev pub access_token_typ : String
access_token_typ = "at+jwt"

abbrev pub amr_password : String
amr_password = "pwd"

abbrev pub amr_otp : String
amr_otp = "otp"

abbrev pub amr_sms : String
amr_sms = "sms"

abbrev pub amr_software_key : String
amr_software_key = "swk"

abbrev pub amr_multi_factor : String
amr_multi_factor = "mfa"

-- `AuthenticationContext::acr`
unfoldable pub acr : AuthenticationContext → String
acr a = if any (λ m. m == amr_multi_factor) a.amr then "urn:knox:loa:mfa" else "urn:knox:loa:pwd"

abbrev pub map_option : {A B : Type 0} → (A → B) → Option A → Option B
map_option f none = none
map_option f (some a) = some (f a)

module _ (ext : Externals) where
  unfoldable pub get_active_for_tenant : Uuid → Action ext (Option TenantKey)
  get_active_for_tenant tenant_id = storage λ w. (
    ok (
        find_latest (λ k. k.tenant_id == tenant_id && is_active_key k.state) (λ k. k.created_at)
          w.keys),
    w,
  )

  unfoldable pub get_key_by_kid : Uuid → String → Action ext (Option TenantKey)
  get_key_by_kid tenant_id kid =
      storage λ w. (ok (find (λ k. k.kid == kid && k.tenant_id == tenant_id) w.keys), w)

  unfoldable pub decrypt_private_key : TenantKey → Action ext String
  decrypt_private_key key = do
    fail_if (is_revoked key.state) ServiceError.forbidden
    or_fail (ext.decrypt key.encrypted_private_key (ext.uuid_bytes key.tenant_id))
        (ServiceError.internal "Key decryption failed")

  unfoldable pub get_signing_key : Uuid → Action ext (TenantKey × String)
  unfolding get_active_for_tenant decrypt_private_key
  get_signing_key tenant_id = do
    found ← get_active_for_tenant tenant_id
    key ← or_fail found (ServiceError.internal "No active signing key for tenant")
    decrypted ← decrypt_private_key key
    pure (key, decrypted)

  unfoldable pub mint_jwt_internal : String → String → JwtClaims → String → Action ext String
  mint_jwt_internal kid key claims typ =
      or_fail (ext.jwt.encode (record { rs256 = true; kid = some kid; typ = some typ }) claims key)
        (ServiceError.internal "JWT minting failed")

  -- `EncodingKey::from_rsa_pem`
  unfoldable pub encoding_key : String → Action ext (Unit {0})
  encoding_key pem =
      fail_if (not (ext.jwt.pem_parses pem)) (ServiceError.internal "Invalid RSA PEM")

  unfoldable pub mint_access_token :
      Uuid
      → String
      → String
      → List String
      → Client
      → PoolKind
      → Option AuthenticationContext
      → Action ext String
  unfolding get_signing_key encoding_key mint_jwt_internal new_v4 acr
  mint_access_token tenant_id issuer subject scopes client pool_kind auth = do
    (key_meta, pem) ← get_signing_key tenant_id
    encoding_key pem
    now ← gets (λ w. w.now)
    jti ← new_v4 ext
    mint_jwt_internal key_meta.kid pem
        (record {
          iss = issuer;
          sub = subject;
          aud = ext.uuid_text client.id;
          exp = now + client.access_token_ttl;
          iat = now;
          jti = ext.uuid_text jti;
          client_id = some client.name;
          amr = get_or (map_option (λ a. a.amr) auth) [];
          acr = map_option acr auth;
          auth_time = map_option (λ a. a.auth_time) auth;
          tenant_id = tenant_id;
          pool_id = client.pool_id;
          pool_kind = pool_kind;
          scopes = scopes;
          token_version = client.token_version;
        })
        access_token_typ

  unfoldable pub mint_id_token : Uuid → String → ℕ → IdTokenInput → String → Action ext String
  unfolding get_signing_key encoding_key acr
  mint_id_token tenant_id issuer ttl input access_token = do
    (key_meta, pem) ← get_signing_key tenant_id
    encoding_key pem
    now ← gets (λ w. w.now)
    or_fail
        (ext.jwt.encode_id (record { rs256 = true; kid = some key_meta.kid; typ = some "JWT" })
          (record {
            iss = issuer;
            sub = input.subject;
            aud = input.audience;
            exp = now + ttl;
            iat = now;
            auth_time = map_option (λ a. a.auth_time) input.auth;
            nonce = input.nonce;
            acr = map_option acr input.auth;
            amr = get_or (map_option (λ a. a.amr) input.auth) [];
            azp = some input.audience;
            at_hash = some (ext.sha256_half access_token);
            email = input.email;
            email_verified = map_option (λ _. input.email_verified) input.email;
            preferred_username = input.preferred_username;
            name = input.name;
          })
          pem)
        (ServiceError.internal "ID token minting failed")

  unfoldable pub mint_jwt_custom : Uuid → String → ℕ → JwtCustomClaims → Action ext String
  unfolding get_signing_key encoding_key mint_jwt_internal new_v4
  mint_jwt_custom tenant_id issuer expiry claims = do
    (key_meta, pem) ← get_signing_key tenant_id
    encoding_key pem
    now ← gets (λ w. w.now)
    jti ← new_v4 ext
    mint_jwt_internal key_meta.kid pem
        (record {
          iss = issuer;
          sub = claims.sub;
          aud = claims.aud;
          exp = now + expiry;
          iat = now;
          jti = ext.uuid_text jti;
          client_id = none;
          amr = [];
          acr = none;
          auth_time = none;
          tenant_id = tenant_id;
          pool_id = claims.pool_id;
          pool_kind = PoolKind.customer;
          scopes = claims.scopes;
          token_version = 1;
        })
        "JWT"

  -- The checks with the key that the token names.
  unfoldable pub verify_with_key :
      TenantKey → Uuid → String → String → Option String → Action ext JwtClaims
  verify_with_key tenant_key tenant_id expected_issuer token expected_audience = do
    fail_if (is_revoked tenant_key.state) ServiceError.forbidden
    fail_if (not (ext.jwt.pem_parses tenant_key.public_key_pem))
        (ServiceError.internal "Invalid public key PEM")
    now ← gets (λ w. w.now)
    claims ←
        or_fail
          (ext.jwt.decode (record { issuer = expected_issuer; audience = expected_audience }) now
            token tenant_key.public_key_pem)
          ServiceError.invalid_credentials
    fail_if (not (claims.tenant_id == tenant_id)) ServiceError.invalid_credentials
    pure claims

  unfoldable pub verify_jwt : Uuid → String → String → Option String → Action ext JwtClaims
  unfolding get_key_by_kid verify_with_key
  verify_jwt tenant_id expected_issuer token expected_audience = do
    header ← or_fail (ext.jwt.decode_header token) (ServiceError.validation "Malformed JWT header")
    fail_if (not header.rs256) (ServiceError.validation "Unsupported token algorithm")
    kid ← or_fail header.kid (ServiceError.validation "Token header is missing 'kid'")
    found ← get_key_by_kid tenant_id kid
    tenant_key ← or_fail found (ServiceError.validation "Signing key not found")
    verify_with_key tenant_key tenant_id expected_issuer token expected_audience

  unfoldable pub validate_token_version : JwtClaims → Client → Action ext (Unit {0})
  validate_token_version claims client =
      fail_if (ltb claims.token_version client.token_version) ServiceError.invalid_credentials
