-- ===== src/Key/Fitting.antt =====
-- crates/knox-storage/src/key/cache.rs: the values that agree with the table, one for each kind of
-- name.
use knox_iam_public.Base.{
  ◌≡◌, refl, sym, ap, subst, some, List, [], ◌∷◌, String, find, nat_eq, string_eq,
}
use knox_iam_public.Common.Directory.{Uuid, TenantKey}
use knox_iam_public.Externals.{Externals}
use knox_iam_public.World.{World}
use package.knox_iam_public.Key.Store.{has_id, has_kid, active_key, published_keys}
use package.knox_iam_public.Key.Cache.{key_by_id, key_by_kid, key_active, key_jwks}
use package.knox_iam_public.Key.CacheNames.{
  key_by_id-injective, key_by_kid-injective, key_active-injective, key_jwks-injective, id-kid,
  id-active, id-jwks, kid-active, kid-jwks, active-jwks,
}
use package.knox_iam_public.Key.Coherence.{Fits, Sound}

module _ (ext : Externals) where
  -- The four kinds of values that the cache may hold.
  pub by_id-Fits :
      (keys : List TenantKey) (id : Uuid) (k : TenantKey)
      → find (has_id id) keys ≡ some k
      → Fits ext keys (key_by_id ext id) (ext.key_codec.write k)
  by_id-Fits keys id k e = record {
    by_id = λ i n.
        (k, refl, subst (λ x. find (has_id x) keys ≡ some k) (key_by_id-injective ext id i n) e);
    by_kid = λ t kid n. absurd (id-kid ext id t kid n);
    active = λ t n. absurd (id-active ext id t n);
    jwks = λ t n. absurd (id-jwks ext id t n);
  }

  pub by_kid-Fits :
      (keys : List TenantKey) (tenant_id : Uuid) (kid : String) (k : TenantKey)
      → find (has_kid tenant_id kid) keys ≡ some k
      → Fits ext keys (key_by_kid ext tenant_id kid) (ext.key_codec.write k)
  by_kid-Fits keys tenant_id kid k e = record {
    by_id = λ i n. absurd (id-kid ext i tenant_id kid (sym n));
    by_kid = λ t l n.
        let (a, b) = key_by_kid-injective ext tenant_id t kid l n in
        (
          k,
          refl,
          subst (λ x. find (has_kid t x) keys ≡ some k) b
              (subst (λ x. find (has_kid x kid) keys ≡ some k) a e),
        );
    active = λ t n. absurd (kid-active ext tenant_id t kid n);
    jwks = λ t n. absurd (kid-jwks ext tenant_id t kid n);
  }

  pub active-Fits :
      (keys : List TenantKey) (tenant_id : Uuid) (k : TenantKey)
      → active_key tenant_id keys ≡ some k
      → Fits ext keys (key_active ext tenant_id) (ext.key_codec.write k)
  active-Fits keys tenant_id k e = record {
    by_id = λ i n. absurd (id-active ext i tenant_id (sym n));
    by_kid = λ t kid n. absurd (kid-active ext t tenant_id kid (sym n));
    active = λ t n. (
      k,
      refl,
      subst (λ x. active_key x keys ≡ some k) (key_active-injective ext tenant_id t n) e,
    );
    jwks = λ t n. absurd (active-jwks ext tenant_id t n);
  }

  pub jwks-Fits :
      (keys : List TenantKey) (tenant_id : Uuid)
      → Fits ext keys
          (key_jwks ext tenant_id)
          (ext.keys_codec.write (published_keys tenant_id keys))
  jwks-Fits keys tenant_id = record {
    by_id = λ i n. absurd (id-jwks ext i tenant_id (sym n));
    by_kid = λ t kid n. absurd (kid-jwks ext t tenant_id kid (sym n));
    active = λ t n. absurd (active-jwks ext t tenant_id (sym n));
    jwks = λ t n.
        ap (λ x. ext.keys_codec.write (published_keys x keys))
          (key_jwks-injective ext tenant_id t n);
  }

  pub Sound-weaken :
      (j : String) (names : List String) (keys : List TenantKey) (w : World ext)
      → Sound ext [] keys w
      → Sound ext (j ∷ names) keys w
  Sound-weaken j names keys w h = record {
    up = h.up;
    rows = h.rows;
    cached = λ i t v le out e. h.cached i t v le refl e;
  }
