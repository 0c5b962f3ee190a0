-- ===== src/Key/Coherence.antt =====
-- crates/knox-storage/src/key/cache.rs and repository.rs: what the cached keys say of the table.
use knox_iam_public.Base.{
  ◌≡◌, refl, ◌∙◌, ap, subst, ℕ, ◌+◌, ◌≤◌, ◌<◌, Bool, true, false, Option, none, some, List, [], ◌∷◌,
  ◌==◌, string_eq, nat_eq, String, find, contains, if◌then◌else◌, ltb, arith, ◌⊎◌, inl, inr,
  Bool-cases,
}
use knox_iam_public.Common.Directory.{Uuid, TenantKey}
use knox_iam_public.Externals.{Externals, Codec}
use knox_iam_public.World.{
  World, Action, ok, pure, ignore, ignore_or, or_fail, after, otherwise, ◌>>=◌,
}
use knox_iam_public.World.Laws.{storage_up}
use knox_iam_public.World.Runs.{Runs}
use knox_iam_public.Token.Cache.{database_error, set_value, get_value, set_answer}
use package.knox_iam_public.Key.Store.{has_id, has_kid, active_key, published_keys}
use package.knox_iam_public.Key.Cache.{
  key_by_id, key_by_kid, key_active, key_jwks, del_value, parse_cached, get_cached,
}

module _ (ext : Externals) where
  -- A cached text says what the table says, where its name is that of a cached answer.
  pub record Fits (keys : List TenantKey) (j : String) (v : ext.redis.Text) : Type 0 where
    pub by_id :
        (id : Uuid)
        → j ≡ key_by_id ext id
        → (k : TenantKey) × (v ≡ ext.key_codec.write k) × (find (has_id id) keys ≡ some k)
    pub by_kid :
        (tenant_id : Uuid) (kid : String)
        → j ≡ key_by_kid ext tenant_id kid
        → (k : TenantKey) × (v ≡ ext.key_codec.write k)
          × (find (has_kid tenant_id kid) keys ≡ some k)
    pub active :
        (tenant_id : Uuid)
        → j ≡ key_active ext tenant_id
        → (k : TenantKey) × (v ≡ ext.key_codec.write k) × (active_key tenant_id keys ≡ some k)
    pub jwks :
        (tenant_id : Uuid)
        → j ≡ key_jwks ext tenant_id
        → v ≡ ext.keys_codec.write (published_keys tenant_id keys)

  -- A world without outages whose table holds these rows, and whose cached texts say what it says
  -- now and later, but for those of some names.
  pub record Sound (names : List String) (keys : List TenantKey) (w : World ext) : Type 0 where
    pub up : w.outages ≡ []
    pub rows : w.keys ≡ keys
    pub cached :
        (j : String) (t : ℕ) (v : ext.redis.Text)
        → w.now ≤ t
        → contains names j ≡ false
        → ext.redis.get w.redis j t ≡ some v
        → Fits keys j v

  -- DEL takes a name off the list.
  pub del_value_runs :
      (j : String) (names : List String) (keys : List TenantKey) (w : World ext)
      → Sound (j ∷ names) keys w
      → Runs (ignore (del_value ext j)) w (λ u w'. Sound names keys w')
  unfolding del_value
  del_value_runs j names keys w h = (
    tt,
    _,
    ap (λ p. (ok tt, p.1)) (storage_up _ w h.up),
    record {
      up = h.up;
      rows = h.rows;
      cached = λ i t v le out e.
          let g = ext.redis.get-del j w.now w.redis i t le in
          elim (Bool-cases (j == i)) [
            | inl d ↦ absurd (ground arith)
            | inr d ↦ h.cached i t v le (ground arith) (ground arith)
          ];
    },
  )

  -- What is found under the name that was just written.
  written :
      (j i : String) (v x : ext.redis.Text) (b : Bool) (o p : Option ext.redis.Text)
      → (j == i) ≡ true
      → o ≡ (if j == i then (if b then some v else none) else p)
      → o ≡ some x
      → (j ≡ i) × (v ≡ x)
  written j i v x true o p d q g = ((string_eq.eqb_iff j i).0 d, ground arith)
  written j i v x false o p d q g = absurd (ground arith)

  same_Fits :
      {keys : List TenantKey} {j i : String} {v x : ext.redis.Text}
      → Fits keys j v
      → j ≡ i
      → v ≡ x
      → Fits keys i x
  same_Fits {keys} {j} {i} {v} {x} fits name text =
      subst (Fits keys i) text (subst (λ n. Fits keys n v) name fits)

  -- SETEX of what the table says does so too.
  set_value_runs :
      (j : String) (v : ext.redis.Text) (ttl : ℕ) (names : List String) (keys : List TenantKey)
      (w : World ext)
      → 0 < ttl
      → Fits keys j v
      → Sound (j ∷ names) keys w
      → Runs (set_value ext j v ttl) w (λ u w'. Sound names keys w')
  unfolding set_value
  set_value_runs j v ttl names keys w pos fits h =
      let (s, e, get) = ext.redis.set_ex_lem j v ttl w.now w.redis pos in
      (
        tt,
        record w { redis = s },
        storage_up _ w h.up ∙ ap (λ o. set_answer ext o w) e,
        record {
          up = h.up;
          rows = h.rows;
          cached = λ i t x le out g.
              let q = get i t le in
              elim (Bool-cases (j == i)) [
                | inl d ↦
                    let (name, text) =
                      written j i v x (ltb t (w.now + ttl)) _ (ext.redis.get w.redis i t) d q g in
                    same_Fits fits name text
                | inr d ↦ h.cached i t x le (ground arith) (ground arith)
              ];
        },
      )

  pub ignore-set_value_runs :
      (j : String) (v : ext.redis.Text) (ttl : ℕ) (names : List String) (keys : List TenantKey)
      (w : World ext)
      → 0 < ttl
      → Fits keys j v
      → Sound (j ∷ names) keys w
      → Runs (ignore (set_value ext j v ttl)) w (λ u w'. Sound names keys w')
  ignore-set_value_runs j v ttl names keys w pos fits h =
      let (u, w', e, s) = set_value_runs j v ttl names keys w pos fits h in
      (tt, w', ap (λ p. (ok tt, p.1)) e, s)

  -- With Redis up, what stands ready for a failure is not run.
  pub ignore_or-set_value_runs :
      (j : String) (v : ext.redis.Text) (ttl : ℕ) (m : Action ext (Unit {0})) (names : List String)
      (keys : List TenantKey) (w : World ext)
      → 0 < ttl
      → Fits keys j v
      → Sound (j ∷ names) keys w
      → Runs (ignore_or (set_value ext j v ttl) m) w (λ u w'. Sound names keys w')
  ignore_or-set_value_runs j v ttl m names keys w pos fits h =
      let (u, w', e, s) = set_value_runs j v ttl names keys w pos fits h in
      (tt, w', ap (λ p. otherwise p m) e, s)

  -- What a read finds: nothing, or what the table says.
  abbrev pub Finds : {A : Type 0} → Option A → (A → Type 0) → Type 0
  Finds o Q = (o ≡ none) ⊎ ((a : _) × (o ≡ some a) × Q a)

  read_runs :
      {A : Type 0} (codec : Codec ext.redis.Text A) (o : Option ext.redis.Text)
      (keys : List TenantKey) (w : World ext) (Q : A → Type 0)
      → Sound [] keys w
      → ((v : ext.redis.Text) → o ≡ some v → (a : A) × (v ≡ codec.write a) × Q a)
      → Runs (parse_cached ext codec o) w (λ found w'. Sound [] keys w' × Finds found Q)
  unfolding ◌>>=◌ or_fail
  read_runs codec none keys w Q h says = (none, w, refl, (h, inl refl))
  read_runs codec (some v) keys w Q h says =
      let (a, e, q) = says v refl in
      let read = ap codec.read e ∙ codec.read-write a in
      (
        some a,
        w,
        ap (λ r. (or_fail r database_error >>= λ x. pure (some x)) w) read,
        (h, inr (a, refl, q)),
      )

  pub get_cached_runs :
      {A : Type 0} (codec : Codec ext.redis.Text A) (j : String) (keys : List TenantKey)
      (w : World ext) (Q : A → Type 0)
      → Sound [] keys w
      → ((v : ext.redis.Text) → Fits keys j v → (a : A) × (v ≡ codec.write a) × Q a)
      → Runs (get_cached ext codec j) w (λ found w'. Sound [] keys w' × Finds found Q)
  unfolding get_value ◌>>=◌
  get_cached_runs codec j keys w Q h says =
      let (o, w', e, s) =
        read_runs codec (ext.redis.get w.redis j w.now) keys w Q h
          (λ v g. says v (h.cached j w.now v (omega arith) refl g)) in
      (o, w', ap (λ p. after p (parse_cached ext codec)) (storage_up _ w h.up) ∙ e, s)
