-- ===== src/Key/CacheNames.antt =====
-- crates/knox-storage/src/key/cache.rs: the four kinds of cache keys never meet, and each names one
-- row, tenant or kid.
use Prim.Native.Char.{Char, code}
use Prim.Native.String.{◌++◌}
use text.Mathlib.TextLemmas.{
  append_assoc, append_cancel_left, head-eq_of_cons-eq, tail-eq_of_cons-eq, nil-append, cons-append,
}
use knox_iam_public.Base.{
  ◌≡◌, ◌≢◌, refl, sym, ◌∙◌, ap, String, true, not, ◌==◌, nat_eq, all_chars, arith,
}
use knox_iam_public.Common.Directory.{Uuid}
use knox_iam_public.Externals.{Externals}
use package.knox_iam_public.Key.Cache.{key_by_id, key_by_kid, key_active, key_jwks}

-- A text without a colon.
abbrev pub HasNoColon : String → Type 0
HasNoColon s = all_chars (λ c. not (c == b':')) s ≡ true

-- Two texts that are the same up to their first colon and after it.
pub colon_split :
    (s t x y : String)
    → HasNoColon s
    → HasNoColon t
    → s ++ String.◌∷◌ ":" x ≡ t ++ String.◌∷◌ ":" y
    → (s ≡ t) × (x ≡ y)
unfolding all_chars
colon_split String.[] String.[] x y hs ht e =
    (refl, tail-eq_of_cons-eq (sym (nil-append _) ∙ e ∙ nil-append _))
colon_split String.[] (String.◌∷◌ d t) x y hs ht e =
    let h = ap code (head-eq_of_cons-eq (sym (nil-append _) ∙ e ∙ cons-append d t _)) in
    absurd (ground arith)
colon_split (String.◌∷◌ c s) String.[] x y hs ht e =
    let h = ap code (head-eq_of_cons-eq (sym (cons-append c s _) ∙ e ∙ nil-append _)) in
    absurd (ground arith)
colon_split (String.◌∷◌ c s) (String.◌∷◌ d t) x y hs ht e =
    let k = sym (cons-append c s _) ∙ e ∙ cons-append d t _ in
    let (l, r) = colon_split s t x y (ground arith) (ground arith) (tail-eq_of_cons-eq k) in
    (cong₂ (head-eq_of_cons-eq k) l, r)
  where
    cong₂ : {c d : Char} {s t : String} → c ≡ d → s ≡ t → String.◌∷◌ c s ≡ String.◌∷◌ d t
    cong₂ p q = λ i. String.◌∷◌ (p i) (q i)

-- Texts that start with other characters.
other_start : (c d : Char) (s t : String) → code c ≢ code d → String.◌∷◌ c s ≢ String.◌∷◌ d t
other_start c d s t ne e = ne (ap code (head-eq_of_cons-eq e))

module _ (ext : Externals) where
  uuid_text_injective : (a b : Uuid) → ext.uuid_text a ≡ ext.uuid_text b → a ≡ b
  uuid_text_injective a b e =
      let p = sym (ext.parse_uuid-text a) ∙ ap ext.parse_uuid e ∙ ext.parse_uuid-text b in cc

  pub key_by_id-injective : (a b : Uuid) → key_by_id ext a ≡ key_by_id ext b → a ≡ b
  unfolding key_by_id
  key_by_id-injective a b e = uuid_text_injective a b (append_cancel_left "key:id:" _ _ e)

  -- The key of a row is none of a tenant.
  id-tenant : (id : Uuid) (s : String) → key_by_id ext id ≢ "key:tenant:" ++ s
  unfolding key_by_id
  id-tenant id s e =
      other_start "i" "t" ("d:" ++ ext.uuid_text id) ("enant:" ++ s) (λ h. ground arith)
        (sym (cons-append "i" "d:" _)
          ∙ append_cancel_left "key:" ("id:" ++ ext.uuid_text id) ("tenant:" ++ s)
              (sym (append_assoc "key:" "id:" _) ∙ e ∙ append_assoc "key:" "tenant:" s)
          ∙ cons-append "t" "enant:" s)

  -- What follows the tenant.
  tenant_split :
      (a b : Uuid) (x y : String)
      → "key:tenant:" ++ (ext.uuid_text a ++ String.◌∷◌ ":" x)
        ≡ "key:tenant:" ++ (ext.uuid_text b ++ String.◌∷◌ ":" y)
      → (a ≡ b) × (x ≡ y)
  tenant_split a b x y e =
      let (l, r) =
        colon_split _ _ x y (ext.uuid_text_colon a) (ext.uuid_text_colon b)
          (append_cancel_left "key:tenant:" _ _ e) in
      (uuid_text_injective a b l, r)

  key_by_kid_colon :
      (tenant_id : Uuid) (kid : String)
      → key_by_kid ext tenant_id kid
        ≡ "key:tenant:" ++ (ext.uuid_text tenant_id ++ String.◌∷◌ ":" ("kid:" ++ kid))
  unfolding key_by_kid
  key_by_kid_colon tenant_id kid =
      ap (λ s. "key:tenant:" ++ (ext.uuid_text tenant_id ++ s)) (cons-append ":" "kid:" kid)

  pub key_by_kid-injective :
      (a b : Uuid) (k l : String) → key_by_kid ext a k ≡ key_by_kid ext b l → (a ≡ b) × (k ≡ l)
  key_by_kid-injective a b k l e =
      let (h, r) = tenant_split a b _ _ (sym (key_by_kid_colon a k) ∙ e ∙ key_by_kid_colon b l) in
      (h, append_cancel_left "kid:" k l r)

  pub key_active-injective : (a b : Uuid) → key_active ext a ≡ key_active ext b → a ≡ b
  unfolding key_active
  key_active-injective a b e = (tenant_split a b "active" "active" e).0

  pub key_jwks-injective : (a b : Uuid) → key_jwks ext a ≡ key_jwks ext b → a ≡ b
  unfolding key_jwks
  key_jwks-injective a b e = (tenant_split a b "jwks" "jwks" e).0

  pub id-kid : (id t : Uuid) (kid : String) → key_by_id ext id ≢ key_by_kid ext t kid
  unfolding key_by_kid
  id-kid id t kid e = id-tenant id _ e

  pub id-active : (id t : Uuid) → key_by_id ext id ≢ key_active ext t
  unfolding key_active
  id-active id t e = id-tenant id _ e

  pub id-jwks : (id t : Uuid) → key_by_id ext id ≢ key_jwks ext t
  unfolding key_jwks
  id-jwks id t e = id-tenant id _ e

  pub kid-active : (t u : Uuid) (kid : String) → key_by_kid ext t kid ≢ key_active ext u
  unfolding key_active
  kid-active t u kid e =
      let r = (tenant_split t u _ "active" (sym (key_by_kid_colon t kid) ∙ e)).1 in
      other_start "k" "a" ("id:" ++ kid) "ctive" (λ h. ground arith)
        (sym (cons-append "k" "id:" kid) ∙ r)

  pub kid-jwks : (t u : Uuid) (kid : String) → key_by_kid ext t kid ≢ key_jwks ext u
  unfolding key_jwks
  kid-jwks t u kid e =
      let r = (tenant_split t u _ "jwks" (sym (key_by_kid_colon t kid) ∙ e)).1 in
      other_start "k" "j" ("id:" ++ kid) "wks" (λ h. ground arith)
        (sym (cons-append "k" "id:" kid) ∙ r)

  pub active-jwks : (t u : Uuid) → key_active ext t ≢ key_jwks ext u
  unfolding key_active key_jwks
  active-jwks t u e =
      other_start "a" "j" "ctive" "wks" (λ h. ground arith) (tenant_split t u "active" "jwks" e).1
