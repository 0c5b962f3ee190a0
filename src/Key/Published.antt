-- ===== src/Key/Published.antt =====
-- crates/knox-core/src/key.rs: the JWKS that `get_jwks` publishes.
use knox_iam_public.Base.{
  ◌≡◌, refl, sym, ap, subst, ℕ, true, false, Option, none, some, List, [], ◌∷◌, String, arith,
  filter, find, sort_desc, insert_desc, All, ltb, Bool-cases, inl, inr, ◌==◌, nat_eq, string_eq,
}
use knox_iam_public.Base.Rows.{All-filter}
use knox_iam_public.Common.Directory.{Uuid, TenantKey, is_revoked}
use knox_iam_public.Common.Key.{JwksKey}
use knox_iam_public.Externals.{Externals}
use knox_iam_public.World.{World}
use knox_iam_public.World.Runs.{Runs, runs->>=, runs-pure}
use package.knox_iam_public.Key.Store.{has_kid, published_of, published_keys}
use package.knox_iam_public.Key.Repository
use package.knox_iam_public.Key.Reads.{list_for_jwks_runs}
use package.knox_iam_public.Key.Rows.{IsUnique, AreApart, has_kid_self, apart_sym}
use package.knox_iam_public.Key.Service.{
  get_jwks, published, kept, tenant_key_to_jwks, jwks_of_parts,
}
use package.knox_iam_public.Key.Refinement.{Coherent}

-- Each row is the one that its kid finds.
pub own_kid-All :
    (keys : List TenantKey)
    → IsUnique keys
    → All (λ k. find (has_kid k.tenant_id k.kid) keys ≡ some k) keys
own_kid-All [] h = tt
own_kid-All (k ∷ keys) (h, hs) =
    let self = has_kid_self k in (simp self, both keys h (own_kid-All keys hs))
  where
    both :
        (xs : List TenantKey)
        → All (AreApart k) xs
        → All (λ x. find (has_kid x.tenant_id x.kid) keys ≡ some x) xs
        → All (λ x. find (has_kid x.tenant_id x.kid) (k ∷ keys) ≡ some x) xs
    both [] a b = tt
    both (x ∷ xs) (a, rest) (b, bs) =
        let other = apart_sym k x a.1 in (simp other b, both xs rest bs)

module _ {A : Type 0} (P : A → Type 0) where
  All-insert_desc :
      (at : A → ℕ) (x : A) (xs : List A) → P x → All P xs → All P (insert_desc at x xs)
  All-insert_desc at x [] p ps = (p, tt)
  All-insert_desc at x (y ∷ ys) p (q, qs) = elim (Bool-cases (ltb (at x) (at y))) [
    | inl e ↦ rw e (q, All-insert_desc at x ys p qs)
    | inr e ↦ rw e (p, (q, qs))
  ]

  All-sort_desc : (at : A → ℕ) (xs : List A) → All P xs → All P (sort_desc at xs)
  All-sort_desc at [] ps = tt
  All-sort_desc at (x ∷ xs) (p, ps) =
      All-insert_desc at x (sort_desc at xs) p (All-sort_desc at xs ps)

-- The row behind a published key: an RSA key of the tenant that is not revoked.
abbrev pub IsBacked : Uuid → List TenantKey → JwksKey → Type 0
IsBacked tenant_id keys j =
    (k : TenantKey) × (find (has_kid tenant_id j.kid) keys ≡ some k)
    × (is_revoked k.state ≡ false)
    × (k.kty ≡ "RSA")

module _ (ext : Externals) where
  jwks_of_parts-kid :
      (key : TenantKey) (parts : Option (String × String)) {j : JwksKey}
      → jwks_of_parts ext key parts ≡ some j
      → j.kid ≡ key.kid
  jwks_of_parts-kid key none e = cc
  jwks_of_parts-kid key (some (n, x)) e = ap kid_of (sym e)
    where
      kid_of : Option JwksKey → String
      kid_of none = key.kid
      kid_of (some j) = j.kid

  tenant_key_to_jwks-some :
      (key : TenantKey) {j : JwksKey}
      → tenant_key_to_jwks ext key ≡ some j
      → (j.kid ≡ key.kid) × (key.kty ≡ "RSA")
  unfolding tenant_key_to_jwks
  tenant_key_to_jwks-some key {j} e = elim (Bool-cases (key.kty == "RSA")) [
    | inl d ↦ (jwks_of_parts-kid key _ {j = j} (converted d), (string_eq.eqb_iff key.kty "RSA").0 d)
    | inr d ↦ absurd (ground arith)
  ]
    where
      converted :
          (key.kty == "RSA") ≡ true
          → jwks_of_parts ext key (ext.rsa_public_parts key.public_key_pem) ≡ some j
      converted d = ground arith

  All-published :
      (tenant_id : Uuid) (keys ks : List TenantKey)
      → All
          (λ k.
            (find (has_kid k.tenant_id k.kid) keys ≡ some k) × (published_of tenant_id k ≡ true))
          ks
      → All (IsBacked tenant_id keys) (published ext ks)
  All-published tenant_id keys [] h = tt
  All-published tenant_id keys (k ∷ ks) ((own, p), hs) =
      added (All-published tenant_id keys ks hs) (tenant_key_to_jwks ext k) refl
    where
      backed : (j : JwksKey) → tenant_key_to_jwks ext k ≡ some j → IsBacked tenant_id keys j
      backed j e =
          let (same, rsa) = tenant_key_to_jwks-some k e in
          let tenant : k.tenant_id ≡ tenant_id = ground arith in
          (
            k,
            subst (λ x. find (has_kid tenant_id x) keys ≡ some k) (sym same)
                (subst (λ x. find (has_kid x k.kid) keys ≡ some k) tenant own),
            ground arith,
            rsa,
          )

      added :
          All (IsBacked tenant_id keys) (published ext ks)
          → (o : Option JwksKey) → tenant_key_to_jwks ext k ≡ o
          → All (IsBacked tenant_id keys) (published ext (k ∷ ks))
      added ih none e =
          subst (λ o. All (IsBacked tenant_id keys) (kept ext o (published ext ks))) (sym e) ih
      added ih (some j) e =
          subst (λ o. All (IsBacked tenant_id keys) (kept ext o (published ext ks))) (sym e)
            (backed j e, ih)

  -- The published key set is what the table's keys convert to, newest first, and each entry stands
  -- for an RSA key of the tenant that is in the table under the entry's kid and is not revoked,
  -- where the storage is up and the cache agrees with a table in which no two keys have one id or
  -- one kid in a tenant.
  pub get_jwks-IsBacked :
      (tenant_id : Uuid) (keys : List TenantKey) (w : World ext)
      → Coherent ext keys w
      → Runs (get_jwks ext tenant_id) w λ js t.
        (js ≡ published ext (published_keys tenant_id keys))
        × All (IsBacked tenant_id keys) js
        × Coherent ext keys t
  unfolding get_jwks
  get_jwks-IsBacked tenant_id keys w h =
      let published_All =
        All-sort_desc _ (λ k. k.created_at) (filter (published_of tenant_id) keys)
          (All-filter _ (published_of tenant_id) keys (own_kid-All keys h.unique)) in
      runs->>= (Repository.list_for_jwks ext tenant_id) _ w _ _
        (list_for_jwks_runs ext tenant_id keys w h.sound)
        λ ks t (e, s). runs-pure (published ext ks) t _ (
          ap (published ext) e,
          subst (λ x. All (IsBacked tenant_id keys) (published ext x)) (sym e)
              (All-published tenant_id keys (published_keys tenant_id keys) published_All),
          record { unique = h.unique; sound = s },
        )
