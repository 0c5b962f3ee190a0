-- ===== src/Tests/Keys.antt =====
-- The keys of the tenant of Fixtures: one active key, nothing cached.
use knox_iam_public.Base.{
  ◌≡◌, refl, sym, ◌∙◌, drop, ap, ℕ, ◌+◌, pos, false, Option, none, some, List, [], ◌∷◌, ◌++◌, any,
  ◌==◌, string_eq, if◌then◌else◌, arith, length, ◌≤◌, All,
}
use knox_iam_public.Common.Directory.{KeyState}
use knox_iam_public.Common.Key.{CreateKeyParams}
use knox_iam_public.World.{World, ok, err}
use knox_iam_public.World.Runs.{Runs}
use knox_iam_public.Sample.{sample}
use knox_iam_public.Sample.Store.{tenant_key}
use knox_iam_public.Key.Store.{published_of, published_keys}
use knox_iam_public.Key.Cache.{key_by_kid}
use knox_iam_public.Key.Encryption.{Aead, KeyEncryptionError, aad_of, encrypt, decrypt}
use knox_iam_public.Key.Refinement.{
  Command, Lookup, run, look_up, answer, Coherent, look_up_lem, run_lem,
}
use knox_iam_public.Key.Refusal.{run_refused, Refuses}
use knox_iam_public.Key.History.{History, IsFresh, look_up-History}
use knox_iam_public.Key.Revocation.{get_key_by_kid-revoke_all_keys}
use knox_iam_public.Key.Published.{IsBacked, get_jwks-IsBacked}
use knox_iam_public.Key.Service.{get_jwks, published, revoke_all_keys, get_key_by_kid, generate_kid}
use knox_iam_public.Key.Blobs.{decrypt-encrypt, decrypt-ok}
use package.knox_iam_public.Tests.Fixtures.{world, signing_key}

world-Coherent : Coherent sample world.keys world
world-Coherent = record {
  unique = (tt, tt);
  sound = record { up = refl; rows = refl; cached = λ j t v le out e. absurd cc };
}

look_up_lem_example :
    Runs
      (look_up sample (Lookup.by_kid 1 "k"))
      world
      λ a t. (a ≡ answer (Lookup.by_kid 1 "k") world.keys) × Coherent sample world.keys t
look_up_lem_example = look_up_lem sample (Lookup.by_kid 1 "k") world.keys world world-Coherent

run_lem_example :
    Runs
      (run sample (Command.set_key_state 12 KeyState.revoked))
      world
      λ _ t. Coherent sample (record (signing_key) { state = KeyState.revoked } ∷ []) t
run_lem_example =
    run_lem sample (Command.set_key_state 12 KeyState.revoked) world.keys _ world world-Coherent
      refl

run_refused_example :
    Refuses sample (run sample (Command.delete_key 99)) world (Coherent sample world.keys)
run_refused_example =
    run_refused sample (Command.delete_key 99) world.keys world world-Coherent refl

-- A database and a Redis without keys, in which one key is created and time passes.
abbrev fresh : World sample
fresh = record world { keys = [] }

fresh-IsFresh : IsFresh sample fresh
fresh-IsFresh = record { up = refl; rows = refl; cold = λ j t le. refl }

abbrev params : CreateKeyParams
params = record {
  tenant_id = 1;
  kid = "k2";
  use_type = "sig";
  kty = "RSA";
  alg = "RS256";
  public_key_pem = "p";
  x509_cert_pem = none;
  encrypted_private_key = "e";
  expires_at = pos 1000;
}

abbrev created : World sample
created = (run sample (Command.create_key params) fresh).1

created_past : History sample fresh (record created { now = created.now + 60 })
created_past = History.later 60 (History.command (Command.create_key params) History.start refl)

look_up-History_example :
    Runs
      (look_up sample (Lookup.active 1))
      (record created { now = created.now + 60 })
      λ a t. a ≡ answer (Lookup.active 1) created.keys
look_up-History_example =
    look_up-History sample fresh (record created { now = created.now + 60 }) (Lookup.active 1)
      fresh-IsFresh created_past

-- The signing key is cached under its kid.
abbrev cached_world : World sample
cached_world = record world {
  redis = λ j t. if j == "key:tenant:a:kid:k" then some (tenant_key signing_key) else none;
}

get_key_by_kid-revoke_all_keys_example : Runs (revoke_all_keys sample 1) cached_world λ _ w'.
    (any (published_of 1) w'.keys ≡ false)
    × Runs (get_key_by_kid sample 1 "k") (record w' { now = 200 }) (λ a v. a ≡ some signing_key)
unfolding key_by_kid
get_key_by_kid-revoke_all_keys_example =
    get_key_by_kid-revoke_all_keys sample 1 "k" signing_key cached_world 200 refl (omega arith) refl

get_jwks-IsBacked_example : Runs (get_jwks sample 1) world λ js t.
    (js ≡ published sample (published_keys 1 world.keys))
    × All (IsBacked 1 world.keys) js
    × Coherent sample world.keys t
get_jwks-IsBacked_example = get_jwks-IsBacked sample 1 world.keys world world-Coherent

kid_test : (generate_kid sample world).0 ≡ ok "k100-00000014"
unfolding generate_kid
kid_test = refl

-- The simplest cipher of that shape: the tag is in front, and the texts are their bytes.
abbrev tag : List ℕ → List ℕ
tag m = 0 ∷ 0 ∷ 0 ∷ 0 ∷ 0 ∷ 0 ∷ 0 ∷ 0 ∷ 0 ∷ 0 ∷ 0 ∷ 0 ∷ 0 ∷ 0 ∷ 0 ∷ 0 ∷ m

tag_injective : (m n : List ℕ) → tag m ≡ tag n → m ≡ n
tag_injective m n e = ap (drop 16) e

abbrev plain_cipher : Aead
plain_cipher = record {
  seal = λ n a m. some (tag m);
  unseal = λ n a c. some (drop 16 c);
  unseal-seal = λ n a m {c} e. ap (λ o. opened o) (sym e);
  length-seal = λ n a m {c} e. ap (λ o. sealed_length o) (sym e) ∙ omega arith;
  Text = List ℕ;
  as_bytes = λ s. s;
  from_utf8 = λ b. some b;
  from_utf8-as_bytes = λ s. refl;
}
  where
    opened : Option (List ℕ) → Option (List ℕ)
    opened none = none
    opened (some c) = some (drop 16 c)

    sealed_length : Option (List ℕ) → ℕ
    sealed_length none = 0
    sealed_length (some c) = length c

abbrev nonce : List ℕ
nonce = 1 ∷ 2 ∷ 3 ∷ 4 ∷ 5 ∷ 6 ∷ 7 ∷ 8 ∷ 9 ∷ 10 ∷ 11 ∷ 12 ∷ []

abbrev blob : List ℕ
blob = 1 ∷ nonce ++ tag (80 ∷ 69 ∷ 77 ∷ [])

decrypt-encrypt_example : decrypt plain_cipher blob none ≡ ok (80 ∷ 69 ∷ 77 ∷ [])
unfolding encrypt
decrypt-encrypt_example = decrypt-encrypt plain_cipher nonce (80 ∷ 69 ∷ 77 ∷ []) none blob refl refl

decrypt-ok_example :
    (29 ≤ length blob)
    × ((n s m : List ℕ) × (blob ≡ 1 ∷ n ++ s)
        × (length n ≡ 12)
        × (plain_cipher.unseal n (aad_of none) s ≡ some m)
        × (plain_cipher.from_utf8 m ≡ some (80 ∷ 69 ∷ 77 ∷ [])))
unfolding decrypt
decrypt-ok_example = decrypt-ok plain_cipher blob none (80 ∷ 69 ∷ 77 ∷ []) refl

short_blob : decrypt plain_cipher (1 ∷ 2 ∷ []) none ≡ err KeyEncryptionError.blob_too_short
unfolding decrypt
short_blob = refl

other_version :
    decrypt plain_cipher (2 ∷ nonce ++ tag []) none ≡ err (KeyEncryptionError.unsupported_version 2)
unfolding decrypt
other_version = refl
