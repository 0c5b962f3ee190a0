-- ===== src/Key/Changed.antt =====
-- crates/knox-storage/src/key: a change of one row of the table, and the cached names of the row.
use knox_iam_public.Base.{
  ◌≡◌, ◌≢◌, refl, sym, ◌∙◌, ap, Bool, false, List, [], ◌∷◌, arith, String, filter, sort_desc,
  contains, All, ◌==◌, nat_eq, string_eq, Bool-cases, inl, inr,
}
use knox_iam_public.Common.Directory.{Uuid, TenantKey, KeyState}
use knox_iam_public.Externals.{Externals}
use knox_iam_public.World.{World, Action, pure, ignore, ◌>>◌}
use knox_iam_public.World.Runs.{Runs, runs->>=, runs-pure}
use package.knox_iam_public.Key.Store.{has_id, has_kid, active_of, published_of, set_state}
use package.knox_iam_public.Key.Cache
use package.knox_iam_public.Key.Cache.{key_by_id, key_by_kid, key_active, key_jwks}
use package.knox_iam_public.Key.Rows.{same_find, same_latest}
use package.knox_iam_public.Key.Coherence.{Fits, Sound, del_value_runs}

module _ (ext : Externals) where
  -- The names under which a row may be cached.
  abbrev pub names_of : TenantKey → List String
  names_of u =
      key_by_id ext u.id
      ∷ key_by_kid ext u.tenant_id u.kid
      ∷ key_jwks ext u.tenant_id
      ∷ key_active ext u.tenant_id
      ∷ []

  -- Two tables that differ in one row at most: the same rows pass each test that the row fails in
  -- every state.
  abbrev pub DifferAt : TenantKey → List TenantKey → List TenantKey → Type 0
  DifferAt u keys keys' =
      (p : TenantKey → Bool)
      → ((s : KeyState) → p (set_state s u) ≡ false)
      → filter p keys' ≡ filter p keys

  contains-false : (j : String) (ns : List String) → contains ns j ≡ false → All (λ n. n ≢ j) ns
  contains-false j [] h = tt
  contains-false j (n ∷ ns) h =
      let self = string_eq.eqb_iff n j in
      ((λ e. let t = self.1 e in ground arith), contains-false j ns (ground arith))

  other_id : (a b : Uuid) → a ≢ b → (a == b) ≡ false
  other_id a b ne = ground arith

  Fits-elsewhere :
      (u : TenantKey) (keys keys' : List TenantKey) (j : String) (v : ext.redis.Text)
      → DifferAt u keys keys'
      → contains (names_of u) j ≡ false
      → Fits ext keys j v
      → Fits ext keys' j v
  Fits-elsewhere u keys keys' j v differ out fits =
      let (ne_id, (ne_kid, (ne_jwks, (ne_active, _)))) = contains-false j (names_of u) out in
      record {
        by_id = λ id n.
            let (k, e, f) = fits.by_id id n in
            let other = other_id u.id id (λ d. ne_id (ap (key_by_id ext) d ∙ sym n)) in
            (k, e, same_find (has_id id) keys' keys (differ (has_id id) (λ s. other)) ∙ f);
        by_kid = λ t kid n.
            let (k, e, f) = fits.by_kid t kid n in
            let other : has_kid t kid u ≡ false = not_kid t kid (λ a b.
              ne_kid (ap (λ x. key_by_kid ext x u.kid) a ∙ ap (key_by_kid ext t) b ∙ sym n)) in
            (k, e, same_find (has_kid t kid) keys' keys (differ (has_kid t kid) (λ s. other)) ∙ f);
        active = λ t n.
            let (k, e, f) = fits.active t n in
            let other = other_id u.tenant_id t (λ d. ne_active (ap (key_active ext) d ∙ sym n)) in
            (
              k,
              e,
              same_latest (active_of t) (λ x. x.created_at) keys' keys
                    (differ (active_of t) (λ s. ground arith))
                  ∙ f,
            );
        jwks = λ t n.
            let other = other_id u.tenant_id t (λ d. ne_jwks (ap (key_jwks ext) d ∙ sym n)) in
            fits.jwks t n
            ∙ ap (λ ks. ext.keys_codec.write (sort_desc (λ x. x.created_at) ks))
                (sym (differ (published_of t) (λ s. ground arith)));
      }
    where
      not_kid :
          (t : Uuid) (kid : String) → (u.tenant_id ≡ t → u.kid ≡ kid → ⊥) → has_kid t kid u ≡ false
      not_kid t kid ne = elim (Bool-cases (has_kid t kid u)) [
        | inl h ↦ absurd (ne (ground arith) (ground (arith, string_eq.eqb_iff u.kid kid)))
        | inr h ↦ h
      ]

  -- A sound cache after a write that changes one row.
  pub Sound-changed :
      (u : TenantKey) (keys keys' rows : List TenantKey) (w : World ext)
      → DifferAt u keys keys'
      → rows ≡ keys'
      → Sound ext [] keys w
      → Sound ext (names_of u) keys' (record w { keys = rows })
  Sound-changed u keys keys' rows w differ same h = record {
    up = h.up;
    rows = same;
    cached =
        λ j t v le out e. Fits-elsewhere u keys keys' j v differ out (h.cached j t v le refl e);
  }

  -- The answer of a write, with a sound cache of the new table.
  abbrev pub Writes : List TenantKey → TenantKey → TenantKey → World ext → Type 0
  Writes keys k a w = (a ≡ k) × Sound ext [] keys w

  -- The two names of the tenant are deleted.
  delete_tenant_names_runs :
      {A : Type 0} (tenant_id : Uuid) (a : A) (keys : List TenantKey) (w : World ext)
      → Sound ext (key_jwks ext tenant_id ∷ key_active ext tenant_id ∷ []) keys w
      → Runs
          (do
            ignore (Cache.delete_jwks ext tenant_id)
            ignore (Cache.delete_active_for_tenant ext tenant_id)
            pure a)
          w
          (λ b t. (b ≡ a) × Sound ext [] keys t)
  unfolding Cache.delete_jwks Cache.delete_active_for_tenant
  delete_tenant_names_runs tenant_id a keys w h =
      runs->>= (ignore (Cache.delete_jwks ext tenant_id)) _ w _ _
        (del_value_runs ext (key_jwks ext tenant_id) _ keys w h)
        λ _ t s.
          runs->>= (ignore (Cache.delete_active_for_tenant ext tenant_id)) _ t _ _
            (del_value_runs ext (key_active ext tenant_id) [] keys t s)
            λ _ v q. runs-pure a v _ (refl, q)

  -- The two names of the row are written, by calls that succeed while Redis is up.
  pub rename_runs :
      (k : TenantKey) (set_id set_kid : Action ext (Unit {0})) (keys : List TenantKey)
      (w : World ext)
      → ((v : World ext)
          → Sound ext (names_of k) keys v
          → Runs set_id v λ _ t.
            Sound ext
              (key_by_kid ext k.tenant_id k.kid
                ∷ key_jwks ext k.tenant_id
                ∷ key_active ext k.tenant_id
                ∷ [])
              keys
              t)
      → ((v : World ext)
          → Sound ext
              (key_by_kid ext k.tenant_id k.kid
                ∷ key_jwks ext k.tenant_id
                ∷ key_active ext k.tenant_id
                ∷ [])
              keys
              v
          → Runs set_kid v
              λ _ t. Sound ext (key_jwks ext k.tenant_id ∷ key_active ext k.tenant_id ∷ []) keys t)
      → Sound ext (names_of k) keys w
      → Runs
          (do
            set_id
            set_kid
            ignore (Cache.delete_jwks ext k.tenant_id)
            ignore (Cache.delete_active_for_tenant ext k.tenant_id)
            pure k)
          w
          (Writes keys k)
  rename_runs k set_id set_kid keys w id_runs kid_runs h =
      runs->>= set_id _ w _ _ (id_runs w h) λ _ t s.
        runs->>= set_kid _ t _ _ (kid_runs t s)
          λ _ v q. delete_tenant_names_runs k.tenant_id k keys v q
