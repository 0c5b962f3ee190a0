-- ===== src/Key/Encryption.antt =====
-- crates/knox-core/src/key.rs: `LocalKeyEncryptionProvider`, over the AES-256-GCM cipher of aes_gcm
-- as a parameter. Bytes are numbers.
use knox_iam_public.Base.{
  ◌≡◌, ℕ, ◌+◌, not, Option, none, some, List, [], ◌∷◌, ◌++◌, length, take, drop, ltb, ◌==◌, nat_eq,
  if◌then◌else◌,
}
use knox_iam_public.World.{Outcome, ok, err, and_then, ok_or}

-- A cipher with its key: nonce, associated data, message. The tag makes a ciphertext 16 bytes
-- longer than its message. Also the texts, with their UTF-8 bytes (`as_bytes`, `from_utf8`).
pub record Aead : Type 1 where
  pub seal : List ℕ → List ℕ → List ℕ → Option (List ℕ)
  pub unseal : List ℕ → List ℕ → List ℕ → Option (List ℕ)
  pub unseal-seal :
      (nonce aad msg : List ℕ) {c : List ℕ}
      → seal nonce aad msg ≡ some c
      → unseal nonce aad c ≡ some msg
  pub length-seal :
      (nonce aad msg : List ℕ) {c : List ℕ}
      → seal nonce aad msg ≡ some c
      → length c ≡ length msg + 16
  pub Text : Type 0
  pub as_bytes : Text → List ℕ
  pub from_utf8 : List ℕ → Option Text
  pub from_utf8-as_bytes : (s : Text) → from_utf8 (as_bytes s) ≡ some s

pub data KeyEncryptionError : Type 0 where
  encryption_failed blob_too_short decryption_failed not_utf8 : KeyEncryptionError
  invalid_base64 : KeyEncryptionError
  unsupported_version : ℕ → KeyEncryptionError
  master_key_length : ℕ → KeyEncryptionError

abbrev pub nonce_size : ℕ
nonce_size = 12

abbrev pub blob_version : ℕ
blob_version = 1

-- The length check of `from_base64`, on what the base64 decoder answers: 32 bytes for AES-256.
unfoldable pub from_base64 : Option (List ℕ) → Outcome KeyEncryptionError (List ℕ)
from_base64 none = err KeyEncryptionError.invalid_base64
from_base64 (some key_bytes) =
    if not (length key_bytes == 32)
    then err (KeyEncryptionError.master_key_length (length key_bytes))
    else ok key_bytes

-- No context is empty associated data.
abbrev pub aad_of : Option (List ℕ) → List ℕ
aad_of none = []
aad_of (some aad) = aad

module _ (cipher : Aead) where
  -- The nonce is a draw of `nonce_size` bytes.
  unfoldable pub encrypt :
      List ℕ → cipher.Text → Option (List ℕ) → Outcome KeyEncryptionError (List ℕ)
  encrypt nonce_bytes plaintext_key_pem context =
      and_then
        (ok_or (cipher.seal nonce_bytes (aad_of context) (cipher.as_bytes plaintext_key_pem))
          KeyEncryptionError.encryption_failed)
        λ ciphertext. ok (blob_version ∷ nonce_bytes ++ ciphertext)

  abbrev pub decrypt_payload : List ℕ → Option (List ℕ) → Outcome KeyEncryptionError cipher.Text
  decrypt_payload payload context =
      and_then
        (ok_or (cipher.unseal (take nonce_size payload) (aad_of context) (drop nonce_size payload))
          KeyEncryptionError.decryption_failed)
        λ plaintext_bytes. ok_or (cipher.from_utf8 plaintext_bytes) KeyEncryptionError.not_utf8

  abbrev pub decrypt_versioned : List ℕ → Option (List ℕ) → Outcome KeyEncryptionError cipher.Text
  decrypt_versioned [] context = err KeyEncryptionError.blob_too_short
  decrypt_versioned (version ∷ payload) context =
      if not (version == blob_version)
      then err (KeyEncryptionError.unsupported_version version)
      else decrypt_payload payload context

  -- Version, nonce and tag: 29 bytes at least.
  unfoldable pub decrypt : List ℕ → Option (List ℕ) → Outcome KeyEncryptionError cipher.Text
  decrypt encrypted_blob context =
      if ltb (length encrypted_blob) (1 + nonce_size + 16)
      then err KeyEncryptionError.blob_too_short
      else decrypt_versioned encrypted_blob context
