-- ===== src/Key/Reads.antt =====
-- crates/knox-storage/src/key/repository.rs: a read through a sound cache answers what the table
-- says, and leaves the cache sound.
use knox_iam_public.Base.{
  ◌≡◌, refl, sym, ap, subst, Option, none, some, List, [], inl, inr, arith, String, find, nat_eq,
  string_eq, true,
}
use knox_iam_public.Base.Rows.{find-some}
use knox_iam_public.Common.Directory.{Uuid, TenantKey}
use knox_iam_public.Externals.{Externals}
use knox_iam_public.World.{World, Action, ok, ignore, storage, ◌>>=◌}
use knox_iam_public.World.Runs.{Runs, runs->>=, runs-pure, runs-storage}
use package.knox_iam_public.Key.Store
use package.knox_iam_public.Key.Store.{has_id, has_kid, active_of, active_key, published_keys}
use package.knox_iam_public.Key.Cache
use package.knox_iam_public.Key.Cache.{key_by_id, key_by_kid, key_active, key_jwks}
use package.knox_iam_public.Key.Rows.{active_key-tenant_id}
use package.knox_iam_public.Key.Coherence.{
  Fits, Sound, Finds, get_cached_runs, ignore-set_value_runs,
}
use package.knox_iam_public.Key.Repository.{
  read_through, map_some, when_some, get, get_by_kid, get_active_for_tenant, list_for_jwks,
}
use package.knox_iam_public.Key.Fitting.{
  by_id-Fits, by_kid-Fits, active-Fits, jwks-Fits, Sound-weaken,
}

module _ (ext : Externals) where
  -- The answer with the cache as sound as before.
  abbrev pub Answers : {A : Type 0} → List TenantKey → A → A → World ext → Type 0
  Answers keys answer a w = (a ≡ answer) × Sound ext [] keys w

  save_runs :
      (answer : Option TenantKey) (save : TenantKey → Action ext (Unit {0})) (keys : List TenantKey)
      (w : World ext)
      → Sound ext [] keys w
      → ((k : TenantKey) → answer ≡ some k → Runs (ignore (save k)) w (λ u t. Sound ext [] keys t))
      → Runs (ignore (when_some ext save answer)) w (λ u t. Sound ext [] keys t)
  save_runs none save keys w h k = (tt, w, refl, h)
  save_runs (some a) save keys w h k = k a refl

  read_through_runs :
      {A : Type 0} (found : Option A) (load : Action ext A) (save : A → Action ext (Unit {0}))
      (keys : List TenantKey) (answer : A) (w : World ext)
      → Finds ext found (λ a. a ≡ answer)
      → Sound ext [] keys w
      → ((v : World ext) → Sound ext [] keys v → Runs load v (Answers keys answer))
      → ((v : World ext)
          → Sound ext [] keys v
          → Runs (ignore (save answer)) v (λ u t. Sound ext [] keys t))
      → Runs (read_through ext found load save) w (Answers keys answer)
  read_through_runs none load save keys answer w (inl e) h runs_load runs_save =
      runs->>= load _ w (Answers keys answer) _ (runs_load w h) λ a v (e, s).
        runs->>= (ignore (save a)) _ v (λ u t. Sound ext [] keys t) _
          (subst (λ x. Runs (ignore (save x)) v (λ u t. Sound ext [] keys t)) (sym e)
            (runs_save v s))
          λ u t q. runs-pure a t _ (e, q)
  read_through_runs none load save keys answer w (inr (a, e, q)) h runs_load runs_save = absurd cc
  read_through_runs (some a) load save keys answer w (inl e) h runs_load runs_save = absurd cc
  read_through_runs (some a) load save keys answer w (inr (b, e, q)) h runs_load runs_save =
      (a, w, refl, (cc, h))

  some_Finds :
      (answer : Option TenantKey) (o : Option TenantKey)
      → Finds ext o (λ k. answer ≡ some k)
      → Finds ext (map_some ext o) (λ a. a ≡ answer)
  some_Finds answer none f = inl refl
  some_Finds answer (some k) (inl e) = absurd cc
  some_Finds answer (some k) (inr (a, e, q)) = inr (some k, refl, cc)

  query_runs :
      {A : Type 0} (f : List TenantKey → A) (keys : List TenantKey) (w : World ext)
      → Sound ext [] keys w
      → Runs (storage λ v. (ok (f v.keys), v)) w (Answers keys (f keys))
  query_runs f keys w h =
      runs-storage (λ v. (ok (f v.keys), v)) w _ h.up (f w.keys, w, refl, (ap f h.rows, h))

  key_read_runs :
      (j : String) (load : Action ext (Option TenantKey)) (save : TenantKey → Action ext (Unit {0}))
      (keys : List TenantKey) (answer : Option TenantKey) (w : World ext)
      → Sound ext [] keys w
      → ((v : ext.redis.Text)
          → Fits ext keys j v
          → (k : TenantKey) × (v ≡ ext.key_codec.write k) × (answer ≡ some k))
      → ((v : World ext) → Sound ext [] keys v → Runs load v (Answers keys answer))
      → ((v : World ext) (k : TenantKey)
          → Sound ext [] keys v
          → answer ≡ some k
          → Runs (ignore (save k)) v (λ u t. Sound ext [] keys t))
      → Runs
          (Cache.get_cached ext ext.key_codec j >>= λ cached.
            read_through ext (map_some ext cached) load (when_some ext save))
          w
          (Answers keys answer)
  key_read_runs j load save keys answer w h says loads saves =
      runs->>= (Cache.get_cached ext ext.key_codec j) _ w _ _
        (get_cached_runs ext ext.key_codec j keys w (λ k. answer ≡ some k) h says)
        λ o v (s, f).
          read_through_runs (map_some ext o) load (when_some ext save) keys answer v
            (some_Finds answer o f) s loads
            λ t q. save_runs answer save keys t q (λ k e. saves t k q e)

  pub get_runs :
      (id : Uuid) (keys : List TenantKey) (w : World ext)
      → Sound ext [] keys w
      → Runs (get ext id) w (Answers keys (find (has_id id) keys))
  unfolding get Cache.get Store.get Cache.set
  get_runs id keys w h =
      key_read_runs (key_by_id ext id) _ (Cache.set ext) keys _ w h (λ v f. f.by_id id refl)
        (query_runs (find (has_id id)) keys)
        λ t k s e.
          let same = (nat_eq.eqb_iff k.id id).0 (find-some (has_id id) keys e) in
          let own : find (has_id k.id) keys ≡ some k =
            subst (λ i. find (has_id i) keys ≡ some k) (sym same) e in
          ignore-set_value_runs ext (key_by_id ext k.id) _ _ [] keys t (omega arith)
            (by_id-Fits ext keys k.id k own) (Sound-weaken ext _ [] keys t s)

  has_kid-true :
      (tenant_id : Uuid) (kid : String) (k : TenantKey)
      → has_kid tenant_id kid k ≡ true
      → (k.tenant_id ≡ tenant_id) × (k.kid ≡ kid)
  has_kid-true tenant_id kid k h =
      (ground (arith, string_eq.eqb_iff k.kid kid), ground (arith, string_eq.eqb_iff k.kid kid))

  pub get_by_kid_runs :
      (tenant_id : Uuid) (kid : String) (keys : List TenantKey) (w : World ext)
      → Sound ext [] keys w
      → Runs (get_by_kid ext tenant_id kid) w (Answers keys (find (has_kid tenant_id kid) keys))
  unfolding get_by_kid Cache.get_by_kid Store.get_by_kid Cache.set_by_kid
  get_by_kid_runs tenant_id kid keys w h =
      key_read_runs (key_by_kid ext tenant_id kid) _ (Cache.set_by_kid ext) keys _ w h
        (λ v f. f.by_kid tenant_id kid refl) (query_runs (find (has_kid tenant_id kid)) keys)
        λ t k s e.
          let (a, b) = has_kid-true tenant_id kid k (find-some (has_kid tenant_id kid) keys e) in
          let own : find (has_kid k.tenant_id k.kid) keys ≡ some k =
            subst (λ x. find (has_kid x k.kid) keys ≡ some k) (sym a)
              (subst (λ x. find (has_kid tenant_id x) keys ≡ some k) (sym b) e) in
          ignore-set_value_runs ext (key_by_kid ext k.tenant_id k.kid) _ _ [] keys t (omega arith)
            (by_kid-Fits ext keys k.tenant_id k.kid k own) (Sound-weaken ext _ [] keys t s)

  pub get_active_for_tenant_runs :
      (tenant_id : Uuid) (keys : List TenantKey) (w : World ext)
      → Sound ext [] keys w
      → Runs (get_active_for_tenant ext tenant_id) w (Answers keys (active_key tenant_id keys))
  unfolding get_active_for_tenant Cache.get_active_for_tenant Store.get_active_for_tenant
      Cache.set_active_for_tenant
  get_active_for_tenant_runs tenant_id keys w h =
      key_read_runs (key_active ext tenant_id) _ (Cache.set_active_for_tenant ext) keys _ w h
        (λ v f. f.active tenant_id refl) (query_runs (active_key tenant_id) keys)
        λ t k s e.
          let same = active_key-tenant_id tenant_id keys e in
          let own : active_key k.tenant_id keys ≡ some k =
            subst (λ x. active_key x keys ≡ some k) (sym same) e in
          ignore-set_value_runs ext (key_active ext k.tenant_id) _ _ [] keys t (omega arith)
            (active-Fits ext keys k.tenant_id k own) (Sound-weaken ext _ [] keys t s)

  pub list_for_jwks_runs :
      (tenant_id : Uuid) (keys : List TenantKey) (w : World ext)
      → Sound ext [] keys w
      → Runs (list_for_jwks ext tenant_id) w (Answers keys (published_keys tenant_id keys))
  unfolding list_for_jwks Cache.get_jwks Store.list_for_jwks Cache.set_jwks
  list_for_jwks_runs tenant_id keys w h =
      runs->>= (Cache.get_cached ext ext.keys_codec (key_jwks ext tenant_id)) _ w _ _
        (get_cached_runs ext ext.keys_codec (key_jwks ext tenant_id) keys w
          (λ a. a ≡ published_keys tenant_id keys) h
          (λ v f. (published_keys tenant_id keys, f.jwks tenant_id refl, refl)))
        λ o v (s, f).
          read_through_runs o _ (Cache.set_jwks ext tenant_id) keys (published_keys tenant_id keys)
            v f s (query_runs (published_keys tenant_id) keys)
            λ t q.
              ignore-set_value_runs ext (key_jwks ext tenant_id) _ _ [] keys t (omega arith)
                (jwks-Fits ext keys tenant_id) (Sound-weaken ext _ [] keys t q)
