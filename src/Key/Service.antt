-- ===== src/Key/Service.antt =====
-- crates/knox-core/src/key.rs: `KeyService`.
use Prim.Native.String.{◌++◌, len}
use knox_iam_public.Base.{
  ℕ, suc, ◌+ℤ◌, ℤ, pos, times, String, Bool, false, Option, none, some, List, [], ◌∷◌, ◌==◌,
  string_eq, ltb, get_or, if◌then◌else◌, decimal_text, hex_text,
}
use knox_iam_public.Common.Error.{ServiceError}
use knox_iam_public.Common.Directory.{Uuid, TenantKey, KeyState, is_revoked}
use knox_iam_public.Common.Key.{
  KeyAlgorithm, KeyUse, GeneratedKeyPair, JwksKey, is_rsa, key_type, algorithm_text, use_text,
}
use knox_iam_public.Externals.{Externals}
use knox_iam_public.World.{Action, pure, fail, or_fail, fail_if, gets, modify, ok, ◌>>=◌, ◌>>◌}
use package.knox_iam_public.Key.Repository
use package.knox_iam_public.Key.Repository.{update_state, create, get_active_for_tenant}

abbrev pub default_key_validity_days : ℤ
default_key_validity_days = pos 365

pub record CreateKeyRequest : Type 0 where
  pub kid : Option String
  pub algorithm : Option KeyAlgorithm
  pub validity_days : Option ℤ

pub record RotateKeysRequest : Type 0 where
  pub algorithm : Option KeyAlgorithm
  pub validity_days : Option ℤ
  pub revoke_existing : Bool

abbrev pub is_too_long : Option String → Bool
is_too_long none = false
is_too_long (some kid) = ltb 64 (len kid)

module _ (ext : Externals) where
  abbrev pub kid_text : ℕ → ℕ → String
  kid_text timestamp random = "k" ++ (decimal_text timestamp ++ ("-" ++ hex_text 8 random))

  unfoldable pub generate_kid : Action ext String
  generate_kid w = (ok (kid_text w.now (ext.random_u32 w.draws)), record w { draws = suc w.draws })

  abbrev pub kid_or_new : Option String → Action ext String
  kid_or_new none = generate_kid
  kid_or_new (some kid) = pure kid

  abbrev pub key_pair_of : Option (String × String) → Action ext GeneratedKeyPair
  key_pair_of none = fail (ServiceError.internal "RSA key generation failed")
  key_pair_of (some (public_key_pem, private_key_pem)) = pure (record {
    public_key_pem = public_key_pem;
    private_key_pem = private_key_pem;
    algorithm = KeyAlgorithm.rs256;
  })

  unfoldable pub generate_rsa_key_pair : Action ext GeneratedKeyPair
  generate_rsa_key_pair w =
      key_pair_of (ext.rsa_key_pair w.draws) (record w { draws = suc w.draws })

  unfoldable pub generate_key_pair : KeyAlgorithm → Action ext GeneratedKeyPair
  unfolding generate_rsa_key_pair
  generate_key_pair algorithm =
      if is_rsa algorithm
      then generate_rsa_key_pair
      else fail (ServiceError.internal "EC key generation not yet implemented")

  unfoldable pub encrypt_private_key : Uuid → String → Action ext String
  encrypt_private_key tenant_id private_key_pem = do
    n ← gets (λ w. w.draws)
    modify (λ w. record w { draws = suc w.draws })
    or_fail (ext.encrypt n private_key_pem (ext.uuid_bytes tenant_id))
        (ServiceError.internal "Key encryption failed")

  unfoldable pub create_key : Uuid → CreateKeyRequest → Action ext TenantKey
  unfolding generate_key_pair generate_kid encrypt_private_key create
  create_key tenant_id req = do
    fail_if (is_too_long req.kid) (ServiceError.validation "Kid too long")
    let algorithm = get_or req.algorithm KeyAlgorithm.rs256
    let validity_days = get_or req.validity_days default_key_validity_days
    kid ← kid_or_new req.kid
    key_pair ← generate_key_pair algorithm
    encrypted_private_key ← encrypt_private_key tenant_id key_pair.private_key_pem
    now ← gets (λ w. w.now)
    create ext (record {
      tenant_id = tenant_id;
      kid = kid;
      use_type = use_text KeyUse.signature;
      kty = key_type algorithm;
      alg = algorithm_text algorithm;
      public_key_pem = key_pair.public_key_pem;
      x509_cert_pem = none;
      encrypted_private_key = encrypted_private_key;
      expires_at = pos now +ℤ times 86400 validity_days;
    })

  -- The key that signed until now.
  abbrev pub retire : Bool → Option TenantKey → Action ext (Unit {0})
  retire revoke_existing none = pure tt
  retire revoke_existing (some old_key) = do
    retired ←
        update_state ext old_key.id (if revoke_existing then KeyState.revoked else KeyState.expired)
    pure tt

  unfoldable pub rotate_keys : Uuid → RotateKeysRequest → Action ext TenantKey
  unfolding get_active_for_tenant create_key update_state
  rotate_keys tenant_id req = do
    current_active ← get_active_for_tenant ext tenant_id
    key ←
        create_key tenant_id
          (record { kid = none; algorithm = req.algorithm; validity_days = req.validity_days })
    retire req.revoke_existing current_active
    pure key

  unfoldable pub get_active_key : Uuid → Action ext (Option TenantKey)
  unfolding get_active_for_tenant
  get_active_key tenant_id = get_active_for_tenant ext tenant_id

  unfoldable pub get_key : Uuid → Action ext (Option TenantKey)
  unfolding Repository.get
  get_key id = Repository.get ext id

  unfoldable pub get_key_by_kid : Uuid → String → Action ext (Option TenantKey)
  unfolding Repository.get_by_kid
  get_key_by_kid tenant_id kid = Repository.get_by_kid ext tenant_id kid

  unfoldable pub list_keys : Uuid → ℕ → ℕ → Action ext (List TenantKey × ℕ)
  unfolding Repository.list
  list_keys tenant_id page page_size = Repository.list ext tenant_id page page_size

  unfoldable pub expire_key : Uuid → Action ext TenantKey
  unfolding update_state
  expire_key id = update_state ext id KeyState.expired

  unfoldable pub revoke_key : Uuid → Action ext TenantKey
  unfolding update_state
  revoke_key id = update_state ext id KeyState.revoked

  unfoldable pub revoke_all_keys : Uuid → Action ext (Unit {0})
  unfolding Repository.revoke_all_for_tenant
  revoke_all_keys tenant_id = Repository.revoke_all_for_tenant ext tenant_id

  unfoldable pub delete_key : Uuid → Action ext (Unit {0})
  unfolding Repository.delete
  delete_key id = Repository.delete ext id

  abbrev pub jwks_of_parts : TenantKey → Option (String × String) → Option JwksKey
  jwks_of_parts key none = none
  jwks_of_parts key (some (n, e)) = some (record {
    kid = key.kid;
    kty = key.kty;
    alg = key.alg;
    use_type = key.use_type;
    n = some n;
    e = some e;
    crv = none;
    x = none;
    y = none;
    x5c = chain key.x509_cert_pem;
  })
    where
      chain : Option String → Option (List String)
      chain none = none
      chain (some cert) = some (cert ∷ [])

  -- `rsa_key_to_jwks`, `ec_key_to_jwks` and `tenant_key_to_jwks`; their errors are dropped.
  unfoldable pub rsa_key_to_jwks : TenantKey → Option JwksKey
  rsa_key_to_jwks key = jwks_of_parts key (ext.rsa_public_parts key.public_key_pem)

  unfoldable pub tenant_key_to_jwks : TenantKey → Option JwksKey
  unfolding rsa_key_to_jwks
  tenant_key_to_jwks key = if key.kty == "RSA" then rsa_key_to_jwks key else none

  abbrev pub kept : Option JwksKey → List JwksKey → List JwksKey
  kept none ks = ks
  kept (some k) ks = k ∷ ks

  -- `filter_map`
  abbrev pub published : List TenantKey → List JwksKey
  published [] = []
  published (key ∷ keys) = kept (tenant_key_to_jwks key) (published keys)

  unfoldable pub get_jwks : Uuid → Action ext (List JwksKey)
  unfolding Repository.list_for_jwks tenant_key_to_jwks
  get_jwks tenant_id = do keys ← Repository.list_for_jwks ext tenant_id; pure (published keys)

  unfoldable pub decrypt_private_key : TenantKey → Action ext String
  decrypt_private_key key = do
    fail_if (is_revoked key.state) ServiceError.forbidden
    or_fail (ext.decrypt key.encrypted_private_key (ext.uuid_bytes key.tenant_id))
        (ServiceError.internal "Key decryption failed")

  unfoldable pub get_signing_key : Uuid → Action ext (TenantKey × String)
  unfolding get_active_key decrypt_private_key
  get_signing_key tenant_id = do
    found ← get_active_key tenant_id
    key ← or_fail found (ServiceError.internal "No active signing key for tenant")
    decrypted ← decrypt_private_key key
    pure (key, decrypted)
