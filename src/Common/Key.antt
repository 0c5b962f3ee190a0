-- ===== src/Common/Key.antt =====
-- crates/knox-common/src/key.rs: the algorithms and uses of keys, what a key is created from, and
-- the published form of a key. `TenantKey` and `KeyState` are in Common.Directory.
use knox_iam_public.Base.{
  ℤ, String, Bool, true, false, Option, none, some, List, ◌==◌, string_eq, if◌then◌else◌,
}
use knox_iam_public.Common.Directory.{Uuid}

pub data KeyUse : Type 0 where
  signature encryption : KeyUse

-- `KeyUse::as_str` and `from_str`
abbrev pub use_text : KeyUse → String
use_text KeyUse.signature = "sig"
use_text KeyUse.encryption = "enc"

unfoldable pub parse_use : String → Option KeyUse
parse_use s =
    if s == "sig"
    then some KeyUse.signature
    else if s == "enc"
    then some KeyUse.encryption
    else none

pub data KeyAlgorithm : Type 0 where
  rs256 rs384 rs512 es256 es384 : KeyAlgorithm

-- `KeyAlgorithm::as_str`, `key_type` and `from_str`
abbrev pub algorithm_text : KeyAlgorithm → String
algorithm_text KeyAlgorithm.rs256 = "RS256"
algorithm_text KeyAlgorithm.rs384 = "RS384"
algorithm_text KeyAlgorithm.rs512 = "RS512"
algorithm_text KeyAlgorithm.es256 = "ES256"
algorithm_text KeyAlgorithm.es384 = "ES384"

abbrev pub is_rsa : KeyAlgorithm → Bool
is_rsa KeyAlgorithm.es256 = false
is_rsa KeyAlgorithm.es384 = false
is_rsa _ = true

abbrev pub key_type : KeyAlgorithm → String
key_type a = if is_rsa a then "RSA" else "EC"

unfoldable pub parse_algorithm : String → Option KeyAlgorithm
parse_algorithm s =
    if s == "RS256"
    then some KeyAlgorithm.rs256
    else if s == "RS384"
    then some KeyAlgorithm.rs384
    else if s == "RS512"
    then some KeyAlgorithm.rs512
    else if s == "ES256"
    then some KeyAlgorithm.es256
    else if s == "ES384"
    then some KeyAlgorithm.es384
    else none

pub record CreateKeyParams : Type 0 where
  pub tenant_id : Uuid
  pub kid : String
  pub use_type : String
  pub kty : String
  pub alg : String
  pub public_key_pem : String
  pub x509_cert_pem : Option String
  pub encrypted_private_key : String
  pub expires_at : ℤ

pub record GeneratedKeyPair : Type 0 where
  pub public_key_pem : String
  pub private_key_pem : String
  pub algorithm : KeyAlgorithm

pub record JwksKey : Type 0 where
  pub kid : String
  pub kty : String
  pub alg : String
  pub use_type : String
  pub n : Option String
  pub e : Option String
  pub crv : Option String
  pub x : Option String
  pub y : Option String
  pub x5c : Option (List String)
