-- ===== src/Externals.antt =====
-- What the program calls and does not implement: Redis, serde_json, the hashes, the JWT library,
-- the random generators. Each is a set of functions with the behaviour that its documentation
-- promises, as named laws.
use knox_iam_public.Base.{
  all_chars, ℕ, suc, ◌+◌, ◌≤◌, ◌<◌, String, Bool, true, List, Option, none, some, ◌≡◌, ltb, ◌==◌,
  if◌then◌else◌, is_some, string_eq, nat_eq, not,
}
use knox_iam_public.Common.Directory.{Uuid, TenantKey}
use knox_iam_public.Common.Token.{
  AuthCodeContext, SsoSessionContext, PasswordResetContext, JwtClaims, IdTokenClaims,
}

-- A Redis database. `get s k t` is what GET answers at time `t` if no other command comes first,
-- so it shows both the value and the expiry of a key.
pub record Redis : Type 1 where
  pub State : Type 0
  -- The texts that it stores.
  pub Text : Type 0
  pub get : State → String → ℕ → Option Text
  -- The decimal text that INCR keeps.
  pub decimal : ℕ → Text
  -- SETEX key value ttl, at a time: `none` where the server refuses it.
  pub set_ex : String → Text → ℕ → ℕ → State → Option State
  -- GETDEL key: the state that it leaves. Its answer is that of GET.
  pub del : String → ℕ → State → State
  -- INCR key: `none` where the value is no number.
  pub incr : String → ℕ → State → Option (ℕ × State)
  -- EXPIRE key ttl.
  pub expire : String → ℕ → ℕ → State → State
  -- An expiry of zero seconds is an error.
  pub set_ex_zero : (k : String) (v : Text) (now : ℕ) (s : State) → set_ex k v 0 now s ≡ none
  pub set_ex_lem :
      (k : String) (v : Text) (ttl now : ℕ) (s : State)
      → 0 < ttl
      → (s' : State) × (set_ex k v ttl now s ≡ some s')
        × ((j : String) (t : ℕ)
            → now ≤ t
            → get s' j t
              ≡ (if k == j then (if ltb t (now + ttl) then some v else none) else get s j t))
  pub get-del :
      (k : String) (now : ℕ) (s : State) (j : String) (t : ℕ)
      → now ≤ t
      → get (del k now s) j t ≡ (if k == j then none else get s j t)
  -- A new counter starts at 1 and never expires.
  pub incr_new :
      (k : String) (now : ℕ) (s : State)
      → get s k now ≡ none
      → (s' : State) × (incr k now s ≡ some (1, s'))
        × ((j : String) (t : ℕ)
            → now ≤ t
            → get s' j t ≡ (if k == j then some (decimal 1) else get s j t))
  -- A counter that exists keeps its expiry.
  pub incr_old :
      (k : String) (n now : ℕ) (s : State)
      → get s k now ≡ some (decimal n)
      → (s' : State) × (incr k now s ≡ some (suc n, s'))
        × ((j : String) (t : ℕ)
            → now ≤ t
            → get s' j t ≡ (
                if k == j
                then (if is_some (get s k t) then some (decimal (suc n)) else none)
                else get s j t))
  -- EXPIRE changes no other key, and nothing where the key is absent.
  pub get-expire :
      (k : String) (ttl now : ℕ) (s : State) (j : String) (t : ℕ)
      → now ≤ t
      → get (expire k ttl now s) j t
        ≡ (if k == j then (if ltb t (now + ttl) then get s k now else none) else get s j t)

-- serde_json on one type: what was written reads back.
pub record Codec (Text A : Type 0) : Type 0 where
  pub write : A → Text
  pub read : Text → Option A
  pub read-write : (a : A) → read (write a) ≡ some a

pub record JwtHeader : Type 0 where
  pub rs256 : Bool
  pub kid : Option String
  pub typ : Option String

-- The checks that `jsonwebtoken::Validation` is asked for.
pub record Validation : Type 0 where
  pub issuer : String
  pub audience : Option String

pub record Jwt : Type 1 where
  -- Seconds past `exp` in which a token is still accepted (60 by default).
  pub leeway : ℕ
  -- Whether a PEM text holds an RSA key.
  pub pem_parses : String → Bool
  pub encode : JwtHeader → JwtClaims → String → Option String
  pub encode_id : JwtHeader → IdTokenClaims → String → Option String
  pub decode_header : String → Option JwtHeader
  pub decode : Validation → ℕ → String → String → Option JwtClaims
  pub decode-issuer :
      (v : Validation) (now : ℕ) (token pem : String) (c : JwtClaims)
      → decode v now token pem ≡ some c
      → c.iss ≡ v.issuer
  pub decode-exp :
      (v : Validation) (now : ℕ) (token pem : String) (c : JwtClaims)
      → decode v now token pem ≡ some c
      → now ≤ c.exp + leeway

pub record Externals : Type 1 where
  pub redis : Redis
  pub jwt : Jwt
  pub code_codec : Codec redis.Text AuthCodeContext
  pub sso_codec : Codec redis.Text SsoSessionContext
  pub reset_codec : Codec redis.Text PasswordResetContext
  pub key_codec : Codec redis.Text TenantKey
  pub keys_codec : Codec redis.Text (List TenantKey)
  pub strings_codec : Codec redis.Text (List String)
  pub bool_codec : Codec redis.Text Bool
  -- `serde_json` on `u64`, whose text is the decimal that INCR keeps.
  pub u64_codec : Codec redis.Text ℕ
  pub u64-decimal : (n : ℕ) → u64_codec.write n ≡ redis.decimal n
  -- hex(SHA-256(text)), and base64url of it
  pub sha256_hex : String → String
  pub sha256_base64url : String → String
  -- base64url of the first 16 bytes of SHA-256(text)
  pub sha256_half : String → String
  -- The n-th draw of the random generators.
  pub opaque_token : ℕ → ℕ → String
  pub new_v4 : ℕ → Uuid
  pub new_v4_injective : (m n : ℕ) → new_v4 m ≡ new_v4 n → m ≡ n
  pub uuid_text : Uuid → String
  -- Hexadecimal digits and hyphens.
  pub uuid_text_colon : (u : Uuid) → all_chars (λ c. not (c == b':')) (uuid_text u) ≡ true
  pub parse_uuid : String → Option Uuid
  pub parse_uuid-text : (u : Uuid) → parse_uuid (uuid_text u) ≡ some u
  -- Argon2id: whether a stored hash parses, and whether a password matches it.
  pub argon2_parses : String → Bool
  pub argon2_verify : String → String → Bool
  pub argon2_hash : ℕ → String → String
  pub argon2_dummy : String
  pub uuid_bytes : Uuid → String
  -- `KeyEncryptionProvider::decrypt` on a ciphertext and its context
  pub decrypt : String → String → Option String
  -- `str::to_lowercase`, and `lower` of Postgres
  pub to_lowercase : String → String
  pub sql_lower : String → String
  pub to_uppercase : String → String
  pub trim : String → String
  -- `text LIKE pattern` of Postgres, and the `email` check of the validator crate.
  pub sql_like : String → String → Bool
  pub is_email : String → Bool
  -- `KeyEncryptionProvider::encrypt`
  pub encrypt : ℕ → String → String → Option String
  -- totp_rs: a random base32 secret, its bytes, the code of a secret at a time, and the otpauth URI
  -- of an issuer, an account and a secret, where those are accepted.
  pub totp_secret : ℕ → String
  pub totp_bytes : String → Option String
  pub totp_generate : String → ℕ → String
  pub totp_url : String → String → String → Option String
  -- An RSA key pair of 2048 bits, as the PEM texts of its public and its private key, where the
  -- generation and the two encodings succeed; the modulus and exponent of a PEM text in base64url.
  pub rsa_key_pair : ℕ → Option (String × String)
  pub rsa_public_parts : String → Option (String × String)
  -- `rand::random::<u32>()`
  pub random_u32 : ℕ → ℕ
  -- The n-th draw as a backup code.
  pub backup_code : ℕ → String
