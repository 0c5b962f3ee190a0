-- ===== src/Key/Revocation.antt =====
-- crates/knox-core/src/key.rs and crates/knox-storage/src/key: the revocation of keys, against the
-- cache and against the published set.
use knox_iam_public.Base.{
  ◌≡◌, refl, sym, ◌∙◌, ap, subst, ℕ, ◌≤◌, false, some, List, [], ◌∷◌, String, arith, any,
  update_where, Bool-cases, inl, inr, nat_eq, string_eq,
}
use knox_iam_public.Common.Directory.{Uuid, TenantKey, KeyState}
use knox_iam_public.Externals.{Externals, Codec}
use knox_iam_public.World.{World, ok, pure, after, or_fail, ignore, ◌>>=◌}
use knox_iam_public.World.Laws.{storage_up}
use knox_iam_public.World.Runs.{Runs, runs->>=, runs-ignore, runs-storage}
use knox_iam_public.Token.Cache.{get_value, database_error}
use package.knox_iam_public.Key.Store
use package.knox_iam_public.Key.Store.{has_id, has_kid, published_of, published_keys, set_state}
use package.knox_iam_public.Key.Cache
use package.knox_iam_public.Key.Cache.{
  key_by_kid, key_jwks, key_active, del_value, parse_cached, get_cached,
}
use package.knox_iam_public.Key.CacheNames.{kid-active, kid-jwks}
use package.knox_iam_public.Key.Repository
use package.knox_iam_public.Key.Service.{revoke_all_keys, get_key_by_kid}

module _ (ext : Externals) where
  -- DEL of another name.
  del_elsewhere :
      (k j : String) (w : World ext) (t : ℕ)
      → ¬ (k ≡ j)
      → w.now ≤ t
      → ext.redis.get (ext.redis.del k w.now w.redis) j t ≡ ext.redis.get w.redis j t
  del_elsewhere k j w t ne le =
      let g = ext.redis.get-del k w.now w.redis j t le in
      let self = (string_eq.eqb_iff k j).0 in ground arith

  -- The UPDATE leaves no published key of the tenant.
  revoked-any :
      (tenant_id : Uuid) (keys : List TenantKey)
      → any
          (published_of tenant_id)
          (update_where (published_of tenant_id) (set_state KeyState.revoked) keys)
        ≡ false
  revoked-any tenant_id [] = refl
  revoked-any tenant_id (k ∷ keys) = elim (Bool-cases (published_of tenant_id k)) [
    | inl e ↦
        let ih = revoked-any tenant_id keys in
        let no : published_of tenant_id (set_state KeyState.revoked k) ≡ false = ground arith in
        simp (e, no, ih)
    | inr e ↦ let ih = revoked-any tenant_id keys in simp (e, ih)
  ]

  -- What revoking all keys leaves: nothing published in the table, and the cached kids.
  abbrev AllRevoked : Uuid → String → World ext → World ext → Type 0
  AllRevoked tenant_id kid w w' =
      (w'.outages ≡ [])
      × (w'.now ≡ w.now)
      × (any (published_of tenant_id) w'.keys ≡ false)
      × ((t : ℕ)
          → w.now ≤ t
          → ext.redis.get w'.redis (key_by_kid ext tenant_id kid) t
            ≡ ext.redis.get w.redis (key_by_kid ext tenant_id kid) t)

  -- Deleting a name that is not the kid's.
  delete_other_runs :
      (k : String) (tenant_id : Uuid) (kid : String) (w v : World ext)
      → ¬ (k ≡ key_by_kid ext tenant_id kid)
      → AllRevoked tenant_id kid w v
      → Runs (ignore (del_value ext k)) v (λ _ t. AllRevoked tenant_id kid w t)
  unfolding del_value
  delete_other_runs k tenant_id kid w v ne (up, time, none_left, same) =
      runs-ignore (del_value ext k) v (AllRevoked tenant_id kid w) (
        runs-storage (λ x. (ok tt, record x { redis = ext.redis.del k x.now x.redis })) v _ up
          (
            tt,
            record v { redis = ext.redis.del k v.now v.redis },
            refl,
            (
              up,
              time,
              none_left,
              λ t le.
                  del_elsewhere k (key_by_kid ext tenant_id kid) v t ne
                    (subst (λ n. n ≤ t) (sym time) le)
                  ∙ same t le,
            ),
          ))

  pub revoke_all_keys_runs :
      (tenant_id : Uuid) (kid : String) (w : World ext)
      → w.outages ≡ []
      → Runs (revoke_all_keys ext tenant_id) w (λ _ w'. AllRevoked tenant_id kid w w')
  unfolding revoke_all_keys Repository.revoke_all_for_tenant Store.revoke_all_for_tenant
      Cache.invalidate_all_for_tenant Cache.delete_jwks Cache.delete_active_for_tenant
  revoke_all_keys_runs tenant_id kid w up =
      runs->>= (Store.revoke_all_for_tenant ext tenant_id) _ w (λ _ v. AllRevoked tenant_id kid w v)
        _
        (runs-storage _ w _ up
          (tt, _, refl, (up, refl, revoked-any tenant_id w.keys, λ t le. refl)))
        λ _ v r.
          runs-ignore (Cache.invalidate_all_for_tenant ext tenant_id) v (AllRevoked tenant_id kid w)
            (runs->>= (ignore (Cache.delete_jwks ext tenant_id)) _ v
              (λ _ t. AllRevoked tenant_id kid w t) _
              (delete_other_runs (key_jwks ext tenant_id) tenant_id kid w v
                (λ e. kid-jwks ext tenant_id tenant_id kid (sym e)) r)
              λ _ t q.
                delete_other_runs (key_active ext tenant_id) tenant_id kid w t
                  (λ e. kid-active ext tenant_id tenant_id kid (sym e)) q)

  get_cached_hit :
      {A : Type 0} (codec : Codec ext.redis.Text A) (j : String) (a : A) (w : World ext)
      → w.outages ≡ []
      → ext.redis.get w.redis j w.now ≡ some (codec.write a)
      → get_cached ext codec j w ≡ (ok (some a), w)
  unfolding get_value ◌>>=◌ or_fail
  get_cached_hit codec j a w up hit =
      ap (λ p. after p (parse_cached ext codec)) (storage_up _ w up)
      ∙ ap (λ o. parse_cached ext codec o w) hit
      ∙ ap (λ o. after (or_fail o database_error w) (λ x. pure (some x))) (codec.read-write a)

  -- A read by kid whose name is cached.
  cached_runs :
      (tenant_id : Uuid) (kid : String) (k : TenantKey) (w : World ext)
      → w.outages ≡ []
      → ext.redis.get w.redis (key_by_kid ext tenant_id kid) w.now ≡ some (ext.key_codec.write k)
      → Runs (get_key_by_kid ext tenant_id kid) w (λ a t. (a ≡ some k))
  unfolding get_key_by_kid Repository.get_by_kid Cache.get_by_kid
  cached_runs tenant_id kid k w up hit =
      runs->>= (get_cached ext ext.key_codec (key_by_kid ext tenant_id kid)) _ w (λ o t. o ≡ some k)
        _ (some k, w, get_cached_hit ext.key_codec (key_by_kid ext tenant_id kid) k w up hit, refl)
        λ o t e.
          subst
            (λ x.
              Runs
                (Repository.read_through ext (Repository.map_some ext x)
                  (Store.get_by_kid ext tenant_id kid)
                  (Repository.when_some ext (Cache.set_by_kid ext)))
                t (λ a v. a ≡ some k))
            (sym e) (some k, t, refl, refl)

  -- Revoking all keys of a tenant leaves no published key of it in the table; but a key that is
  -- cached under its kid is found as it was cached, its state included, for as long as the cached
  -- value lives, where the storage is up and nothing else touches the cached value.
  pub get_key_by_kid-revoke_all_keys :
      (tenant_id : Uuid) (kid : String) (k : TenantKey) (w : World ext) (t : ℕ)
      → w.outages ≡ []
      → w.now ≤ t
      → ext.redis.get w.redis (key_by_kid ext tenant_id kid) t ≡ some (ext.key_codec.write k)
      → Runs (revoke_all_keys ext tenant_id) w λ _ w'.
        (any (published_of tenant_id) w'.keys ≡ false)
        × Runs (get_key_by_kid ext tenant_id kid) (record w' { now = t }) (λ a v. a ≡ some k)
  get_key_by_kid-revoke_all_keys tenant_id kid k w t up le hit =
      let (u, w', e, (up', time, none_left, same)) = revoke_all_keys_runs tenant_id kid w up in
      let (a, v, d, f) =
        cached_runs tenant_id kid k (record w' { now = t }) up' (same t le ∙ hit) in
      (u, w', e, (none_left, (a, v, d, f)))
