-- ===== src/Key/Writes.antt =====
-- crates/knox-storage/src/key/repository.rs: a write that changes one row leaves a sound cache sound.
use knox_iam_public.Base.{
  ◌≡◌, refl, sym, ◌∙◌, ap, subst, suc, Bool, true, false, not, some, List, [], ◌∷◌, arith, String,
  find, filter, any, update_where, nat_eq, string_eq,
}
use knox_iam_public.Base.Rows.{find-some, All-map}
use knox_iam_public.Common.Directory.{Uuid, TenantKey, KeyState}
use knox_iam_public.Common.Key.{CreateKeyParams}
use knox_iam_public.Externals.{Externals}
use knox_iam_public.World.{World, Action, ok, pure, ignore, ignore_or, ◌>>◌}
use knox_iam_public.World.Runs.{Runs, runs->>=, runs-storage}
use package.knox_iam_public.Key.Store
use package.knox_iam_public.Key.Store.{
  has_id, has_kid, active_of, published_of, active_key, published_keys, set_state, new_key, insert,
  updated_row,
}
use package.knox_iam_public.Key.Cache
use package.knox_iam_public.Key.Cache.{key_by_id, key_by_kid, key_active, key_jwks}
use package.knox_iam_public.Key.Rows.{
  IsUnique, filter-update_where, filter-delete, any-find, find-update_where, found_by_id-All,
  found_by_id-has_kid, IsUnique-update_where,
}
use package.knox_iam_public.Key.Coherence.{
  Sound, del_value_runs, ignore-set_value_runs, ignore_or-set_value_runs,
}
use package.knox_iam_public.Key.Fitting.{by_id-Fits, by_kid-Fits}
use package.knox_iam_public.Key.Repository.{create, update_state, delete, forget}
use package.knox_iam_public.Key.Changed.{names_of, DifferAt, Writes, Sound-changed, rename_runs}

module _ (ext : Externals) where
  -- An UPDATE by id.
  update_where-DifferAt :
      (id : Uuid) (new_state : KeyState) (keys : List TenantKey) (u : TenantKey)
      → IsUnique keys
      → find (has_id id) keys ≡ some u
      → DifferAt ext u keys (update_where (has_id id) (set_state new_state) keys)
  update_where-DifferAt id new_state keys u unique found p fails =
      filter-update_where p (has_id id) (set_state new_state) keys (
        All-map
          (λ x only h.
            let same = only h in
            (
              subst (λ y. p y ≡ false) (sym same) (fails u.state),
              subst (λ y. p (set_state new_state y) ≡ false) (sym same) (fails new_state),
            ))
          keys (found_by_id-All id keys unique found))

  -- What follows the UPDATE.
  abbrev refreshed : Uuid → TenantKey → Action ext TenantKey
  refreshed id k = do
    ignore_or (Cache.set ext k) (Cache.delete ext id)
    ignore_or (Cache.set_by_kid ext k) (Cache.delete_by_kid ext k.tenant_id k.kid)
    ignore (Cache.delete_jwks ext k.tenant_id)
    ignore (Cache.delete_active_for_tenant ext k.tenant_id)
    pure k

  pub update_state_runs :
      (id : Uuid) (new_state : KeyState) (keys : List TenantKey) (u : TenantKey) (w : World ext)
      → IsUnique keys
      → find (has_id id) keys ≡ some u
      → Sound ext [] keys w
      → Runs (update_state ext id new_state) w (λ a t.
        (a ≡ set_state new_state u)
        × Sound ext [] (update_where (has_id id) (set_state new_state) keys) t)
  unfolding update_state Store.update_state Cache.set Cache.delete Cache.set_by_kid
      Cache.delete_by_kid Cache.delete_jwks Cache.delete_active_for_tenant
  update_state_runs id new_state keys u w unique found h =
      let keys' = update_where (has_id id) (set_state new_state) keys in
      let k = set_state new_state u in
      let same = (nat_eq.eqb_iff u.id id).0 (find-some (has_id id) keys found) in
      let here = find-update_where (has_id id) (set_state new_state) keys (λ x. refl) found in
      let own : find (has_id k.id) keys' ≡ some k =
        subst (λ i. find (has_id i) keys' ≡ some k) (sym same) here in
      let own_kid : find (has_kid k.tenant_id k.kid) keys' ≡ some k =
        found_by_id-has_kid id keys' (IsUnique-update_where (has_id id) new_state keys unique)
          here in
      runs->>= (Store.update_state ext id new_state) _ w
        (λ a t. (a ≡ k) × Sound ext (names_of ext u) keys' t) (Writes ext keys' k)
        (runs-storage _ w _ h.up (
          k,
          record w { keys = update_where (has_id id) (set_state new_state) w.keys },
          ap (updated_row ext id new_state w) (ap (find (has_id id)) h.rows ∙ found),
          (
            refl,
            Sound-changed ext u keys keys' _ w
                (update_where-DifferAt id new_state keys u unique found)
                (ap (update_where (has_id id) (set_state new_state)) h.rows) h,
          ),
        ))
        λ a t (e, s).
          subst (λ x. Runs (refreshed id x) t (Writes ext keys' k)) (sym e)
            (rename_runs ext k _ _ keys' t
              (λ v q.
                ignore_or-set_value_runs ext (key_by_id ext k.id) _ _ _ _ keys' v (omega arith)
                  (by_id-Fits ext keys' k.id k own) q)
              (λ v q.
                ignore_or-set_value_runs ext (key_by_kid ext k.tenant_id k.kid) _ _ _ _ keys' v
                  (omega arith) (by_kid-Fits ext keys' k.tenant_id k.kid k own_kid) q)
              s)

  -- An INSERT.
  cons-DifferAt : (k : TenantKey) (keys : List TenantKey) → DifferAt ext k keys (k ∷ keys)
  cons-DifferAt k keys p fails = let no = fails k.state in simp no

  insert-ok :
      (k : TenantKey) (w : World ext)
      → any (has_kid k.tenant_id k.kid) w.keys ≡ false
      → any (has_id k.id) w.keys ≡ false
      → insert ext k w ≡ (ok k, record w { keys = k ∷ w.keys })
  insert-ok k w a b = simp (a, b)

  -- What follows the INSERT.
  abbrev stored : Uuid → TenantKey → Action ext TenantKey
  stored tenant_id k = do
    ignore (Cache.set ext k)
    ignore (Cache.set_by_kid ext k)
    ignore (Cache.delete_jwks ext tenant_id)
    ignore (Cache.delete_active_for_tenant ext tenant_id)
    pure k

  found_first :
      (p : TenantKey → Bool) (k : TenantKey) (keys : List TenantKey)
      → p k ≡ true
      → find p (k ∷ keys) ≡ some k
  found_first p k keys h = simp h

  pub create_runs :
      (params : CreateKeyParams) (keys : List TenantKey) (w : World ext)
      → any (has_kid params.tenant_id params.kid) keys ≡ false
      → any (has_id (ext.new_v4 w.draws)) keys ≡ false
      → Sound ext [] keys w
      → Runs (create ext params) w (Writes ext (new_key ext params w ∷ keys) (new_key ext params w))
  unfolding create Store.create Cache.set Cache.set_by_kid Cache.delete_jwks
      Cache.delete_active_for_tenant
  create_runs params keys w fresh_kid fresh_id h =
      let k = new_key ext params w in
      let drawn = record w { draws = suc w.draws } in
      let self_id : has_id k.id k ≡ true = ground (arith, nat_eq.eqb_iff k.id k.id) in
      let self_kid : has_kid k.tenant_id k.kid k ≡ true =
        ground (arith, nat_eq.eqb_iff k.tenant_id k.tenant_id, string_eq.eqb_iff k.kid k.kid) in
      let no_kid : any (has_kid k.tenant_id k.kid) w.keys ≡ false =
        ap (any (has_kid k.tenant_id k.kid)) h.rows ∙ fresh_kid in
      let no_id : any (has_id k.id) w.keys ≡ false = ap (any (has_id k.id)) h.rows ∙ fresh_id in
      runs->>= (Store.create ext params) _ w
        (λ a t. (a ≡ k) × Sound ext (names_of ext k) (k ∷ keys) t) (Writes ext (k ∷ keys) k)
        (runs-storage _ w _ h.up (
          k,
          record drawn { keys = k ∷ w.keys },
          insert-ok k drawn no_kid no_id,
          (
            refl,
            Sound-changed ext k keys (k ∷ keys) _ drawn (cons-DifferAt k keys)
                (ap (λ ks. k ∷ ks) h.rows) (record { up = h.up; rows = h.rows; cached = h.cached }),
          ),
        ))
        λ a t (d, s).
          subst (λ x. Runs (stored params.tenant_id x) t (Writes ext (k ∷ keys) k)) (sym d)
            (rename_runs ext k _ _ (k ∷ keys) t
              (λ v q.
                ignore-set_value_runs ext (key_by_id ext k.id) _ _ _ (k ∷ keys) v (omega arith)
                  (by_id-Fits ext (k ∷ keys) k.id k (found_first (has_id k.id) k keys self_id)) q)
              (λ v q.
                ignore-set_value_runs ext (key_by_kid ext k.tenant_id k.kid) _ _ _ (k ∷ keys) v
                  (omega arith)
                  (by_kid-Fits ext (k ∷ keys) k.tenant_id k.kid k
                    (found_first (has_kid k.tenant_id k.kid) k keys self_kid))
                  q)
              s)

  -- A DELETE.
  delete-DifferAt :
      (id : Uuid) (keys : List TenantKey) (u : TenantKey)
      → IsUnique keys
      → find (has_id id) keys ≡ some u
      → DifferAt ext u keys (filter (λ k. not (has_id id k)) keys)
  delete-DifferAt id keys u unique found p fails = filter-delete p (has_id id) keys (
      All-map (λ x only h. subst (λ y. p y ≡ false) (sym (only h)) (fails u.state)) keys
        (found_by_id-All id keys unique found))

  -- The names that `delete` forgets after that of the id.
  abbrev other_names : TenantKey → List String
  other_names u =
      key_by_kid ext u.tenant_id u.kid ∷ key_jwks ext u.tenant_id ∷ key_active ext u.tenant_id ∷ []

  forget_runs :
      (u : TenantKey) (keys : List TenantKey) (w : World ext)
      → Sound ext (other_names u) keys w
      → Runs (forget ext (some u)) w (λ _ t. Sound ext [] keys t)
  unfolding Cache.delete_by_kid Cache.delete_jwks Cache.delete_active_for_tenant
  forget_runs u keys w h =
      runs->>= (ignore (Cache.delete_by_kid ext u.tenant_id u.kid)) _ w _ _
        (del_value_runs ext (key_by_kid ext u.tenant_id u.kid) _ keys w h)
        λ _ t s.
          runs->>= (ignore (Cache.delete_jwks ext u.tenant_id)) _ t _ _
            (del_value_runs ext (key_jwks ext u.tenant_id) _ keys t s)
            λ _ v q. del_value_runs ext (key_active ext u.tenant_id) [] keys v q

  deleted-ok :
      (id : Uuid) (w : World ext)
      → any (has_id id) w.keys ≡ true
      → Store.deleted ext id w ≡ (ok tt, record w { keys = filter (λ k. not (has_id id k)) w.keys })
  deleted-ok id w h = simp h

  pub delete_runs :
      (id : Uuid) (keys : List TenantKey) (u : TenantKey) (w : World ext)
      → IsUnique keys
      → find (has_id id) keys ≡ some u
      → Sound ext [] keys w
      → Runs (delete ext id) w (λ _ t. Sound ext [] (filter (λ k. not (has_id id k)) keys) t)
  unfolding delete Store.get Store.delete Cache.delete
  delete_runs id keys u w unique found h =
      let keys' = filter (λ k. not (has_id id k)) keys in
      let same = (nat_eq.eqb_iff u.id id).0 (find-some (has_id id) keys found) in
      runs->>= (Store.get ext id) _ w (λ o t. (o ≡ some u) × Sound ext [] keys t) _
        (runs-storage _ w _ h.up
          (find (has_id id) w.keys, w, refl, (ap (find (has_id id)) h.rows ∙ found, h)))
        λ o t (e, s).
          runs->>= (Store.delete ext id) _ t (λ _ v. Sound ext (names_of ext u) keys' v) _
            (runs-storage _ t _ s.up (
              tt,
              record t { keys = filter (λ k. not (has_id id k)) t.keys },
              deleted-ok id t (ap (any (has_id id)) s.rows ∙ any-find (has_id id) keys found),
              Sound-changed ext u keys keys' _ t (delete-DifferAt id keys u unique found)
                  (ap (filter (λ k. not (has_id id k))) s.rows) s,
            ))
            λ _ v q.
              runs->>= (ignore (Cache.delete ext id)) _ v (λ _ x. Sound ext (other_names u) keys' x)
                _
                (del_value_runs ext (key_by_id ext id) (other_names u) keys' v
                  (subst (λ i. Sound ext (key_by_id ext i ∷ other_names u) keys' v) same q))
                λ _ x r.
                  subst (λ y. Runs (forget ext y) x (λ _ z. Sound ext [] keys' z)) (sym e)
                    (forget_runs u keys' x r)
