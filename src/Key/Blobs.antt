-- ===== src/Key/Blobs.antt =====
-- crates/knox-core/src/key.rs: the blobs of `LocalKeyEncryptionProvider`.
use knox_iam_public.Base.{
  ◌≡◌, refl, sym, ◌∙◌, ap, subst, ℕ, zero, suc, ◌+◌, ◌≤◌, inl, inr, false, Option, none, some, List,
  [], ◌∷◌, ◌++◌, length, take, drop, ltb, ◌==◌, nat_eq, arith, Bool-cases,
}
use knox_iam_public.World.{ok, and_then, ok_or}
use package.knox_iam_public.Key.Encryption.{
  Aead, KeyEncryptionError, encrypt, decrypt, decrypt_payload, decrypt_versioned, aad_of,
  blob_version,
}

length-append : {A : Type 0} (xs ys : List A) → length (xs ++ ys) ≡ length xs + length ys
length-append [] ys = omega arith
length-append (x ∷ xs) ys = let ih = length-append xs ys in ground arith

take-append : {A : Type 0} (xs ys : List A) (n : ℕ) → length xs ≡ n → take n (xs ++ ys) ≡ xs
take-append [] ys zero h = refl
take-append [] ys (suc n) h = absurd (omega arith)
take-append (x ∷ xs) ys zero h = absurd (omega arith)
take-append (x ∷ xs) ys (suc n) h = ap (λ t. x ∷ t) (take-append xs ys n (omega arith))

drop-append : {A : Type 0} (xs ys : List A) (n : ℕ) → length xs ≡ n → drop n (xs ++ ys) ≡ ys
drop-append [] ys zero h = refl
drop-append [] ys (suc n) h = absurd (omega arith)
drop-append (x ∷ xs) ys zero h = absurd (omega arith)
drop-append (x ∷ xs) ys (suc n) h = drop-append xs ys n (omega arith)

take-drop : {A : Type 0} (n : ℕ) (xs : List A) → take n xs ++ drop n xs ≡ xs
take-drop zero xs = refl
take-drop (suc n) [] = refl
take-drop (suc n) (x ∷ xs) = ap (λ t. x ∷ t) (take-drop n xs)

length-take : {A : Type 0} (n : ℕ) (xs : List A) → n ≤ length xs → length (take n xs) ≡ n
length-take zero xs h = refl
length-take (suc n) [] h = absurd (omega arith)
length-take (suc n) (x ∷ xs) h = let ih = length-take n xs (omega arith) in omega arith

module _ (cipher : Aead) where
  opened-ok :
      (o : Option (List ℕ)) {text : cipher.Text}
      → and_then
          (ok_or o KeyEncryptionError.decryption_failed)
          (λ msg. ok_or (cipher.from_utf8 msg) KeyEncryptionError.not_utf8)
        ≡ ok text
      → (msg : List ℕ) × (o ≡ some msg) × (cipher.from_utf8 msg ≡ some text)
  opened-ok none h = cc
  opened-ok (some msg) h = (msg, refl, ok_or-ok _ h)
    where
      ok_or-ok :
          {text : cipher.Text} (o : Option cipher.Text)
          → ok_or o KeyEncryptionError.not_utf8 ≡ ok text
          → o ≡ some text
      ok_or-ok none h = cc
      ok_or-ok (some t) h = cc

  encrypt-ok :
      (o : Option (List ℕ)) (nonce : List ℕ) {blob : List ℕ}
      → and_then
          (ok_or o KeyEncryptionError.encryption_failed)
          (λ c. ok (blob_version ∷ nonce ++ c))
        ≡ ok blob
      → (c : List ℕ) × (o ≡ some c) × (blob ≡ blob_version ∷ nonce ++ c)
  encrypt-ok none nonce h = cc
  encrypt-ok (some c) nonce h = (c, refl, cc)

  decrypt_payload-append :
      (nonce c msg : List ℕ) (context : Option (List ℕ)) (text : cipher.Text)
      → length nonce ≡ 12
      → cipher.unseal nonce (aad_of context) c ≡ some msg
      → cipher.from_utf8 msg ≡ some text
      → decrypt_payload cipher (nonce ++ c) context ≡ ok text
  decrypt_payload-append nonce c msg context text h u f =
      simp (take-append nonce c 12 h, drop-append nonce c 12 h, u, f)

  -- A blob that the local provider encrypts with a nonce of 12 bytes decrypts to the same text
  -- under the same context.
  pub decrypt-encrypt :
      (nonce : List ℕ) (text : cipher.Text) (context : Option (List ℕ)) (blob : List ℕ)
      → length nonce ≡ 12
      → encrypt cipher nonce text context ≡ ok blob
      → decrypt cipher blob context ≡ ok text
  unfolding encrypt decrypt
  decrypt-encrypt nonce text context blob h e =
      let (c, sealed, shape) = encrypt-ok _ nonce e in
      let n = cipher.length-seal nonce (aad_of context) (cipher.as_bytes text) sealed in
      let m = length-append nonce c in
      let long : ltb (length (blob_version ∷ nonce ++ c)) 29 ≡ false = ground arith in
      subst (λ b. decrypt cipher b context ≡ ok text) (sym shape)
        (simp long (
          decrypt_payload-append nonce c (cipher.as_bytes text) context text h
            (cipher.unseal-seal nonce (aad_of context) (cipher.as_bytes text) sealed)
            (cipher.from_utf8-as_bytes text)))

  versioned-ok :
      (blob : List ℕ) (context : Option (List ℕ)) {text : cipher.Text}
      → decrypt_versioned cipher blob context ≡ ok text
      → (payload : List ℕ) × (blob ≡ blob_version ∷ payload)
        × (decrypt_payload cipher payload context ≡ ok text)
  versioned-ok [] context h = cc
  versioned-ok (version ∷ payload) context {text} h = elim (Bool-cases (version == blob_version)) [
    | inl e ↦
        (payload, ap (λ v. v ∷ payload) ((nat_eq.eqb_iff version blob_version).0 e), ground arith)
    | inr e ↦ absurd (ground arith)
  ]

  -- A blob that decrypts is at least 29 bytes long and is the version byte 1, a nonce of 12 bytes
  -- and a ciphertext that the cipher opens under that nonce and context to the bytes of the text.
  pub decrypt-ok :
      (blob : List ℕ) (context : Option (List ℕ)) (text : cipher.Text)
      → decrypt cipher blob context ≡ ok text
      → (29 ≤ length blob)
        × ((nonce sealed msg : List ℕ) × (blob ≡ blob_version ∷ nonce ++ sealed)
            × (length nonce ≡ 12)
            × (cipher.unseal nonce (aad_of context) sealed ≡ some msg)
            × (cipher.from_utf8 msg ≡ some text))
  unfolding decrypt
  decrypt-ok blob context text h = elim (Bool-cases (ltb (length blob) 29)) [
    | inl e ↦ absurd (ground arith)
    | inr e ↦
        let (payload, shape, k) = versioned-ok blob context {text = text} (ground arith) in
        let long : 28 ≤ length payload = let n = ap length shape in ground arith in
        let (msg, u, f) = opened-ok _ k in
        (
          ground arith,
          (
            take 12 payload,
            drop 12 payload,
            msg,
            shape ∙ ap (λ p. blob_version ∷ p) (sym (take-drop 12 payload)),
            length-take 12 payload (omega arith),
            u,
            f,
          ),
        )
  ]
