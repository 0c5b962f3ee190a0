-- ===== src/Key/Refusal.antt =====
-- crates/knox-storage/src/key: the writes that the table refuses.
use knox_iam_public.Base.{
  ◌≡◌, refl, sym, ◌∙◌, ap, subst, ◌⊎◌, suc, Bool, true, false, Option, none, some, List, [], ◌∷◌,
  find, any, nat_eq, string_eq, Bool-cases, inl, inr, arith,
}
use knox_iam_public.Common.Error.{ServiceError, RepositoryError}
use knox_iam_public.Common.Directory.{Uuid, TenantKey}
use knox_iam_public.Externals.{Externals}
use knox_iam_public.World.{World, Action, err, ignore, storage, ◌>>=◌, ◌>>◌}
use knox_iam_public.World.Laws.{>>=-err, >>=-ok, storage_up}
use package.knox_iam_public.Key.Store
use package.knox_iam_public.Key.Store.{
  has_id, has_kid, active_key, published_keys, set_state, new_key, insert, updated_row, deleted,
}
use package.knox_iam_public.Key.Cache
use package.knox_iam_public.Key.Repository.{create, update_state, delete, forget}
use package.knox_iam_public.Key.Refinement.{
  Command, run, rows_after, inserted, changed, Coherent, drawn_Coherent,
}

module _ (ext : Externals) where
  deleted-err :
      (id : Uuid) (w : World ext)
      → any (has_id id) w.keys ≡ false
      → deleted ext id w ≡ (err (ServiceError.repository RepositoryError.not_found), w)
  deleted-err id w h = simp h

  -- The refusals of the table.
  abbrev pub Refuses : {A : Type 0} → Action ext A → World ext → (World ext → Type 0) → Type 0
  Refuses m w Q =
      (e : RepositoryError) × (t : World ext) × (m w ≡ (err (ServiceError.repository e), t)) × Q t

  refuses->>= :
      {A B : Type 0} (m : Action ext A) (f : A → Action ext B) (w : World ext)
      (Q : World ext → Type 0)
      → Refuses m w Q
      → Refuses (m >>= f) w Q
  refuses->>= m f w Q (e, t, d, q) = (e, t, >>=-err m f w d, q)

  inserted-none :
      (a b : Bool) (k : TenantKey) (keys : List TenantKey)
      → inserted ext a b k keys ≡ none
      → (a ≡ true) ⊎ ((a ≡ false) × (b ≡ true))
  inserted-none false false k keys e = cc
  inserted-none false true k keys e = inr (refl, refl)
  inserted-none true b k keys e = inl refl

  changed-none :
      (keys : List TenantKey) (o : Option TenantKey) → changed ext keys o ≡ none → o ≡ none
  changed-none keys none e = refl
  changed-none keys (some u) e = cc

  insert_refuses :
      (k : TenantKey) (w : World ext)
      → (any (has_kid k.tenant_id k.kid) w.keys ≡ true)
        ⊎ ((any (has_kid k.tenant_id k.kid) w.keys ≡ false) × (any (has_id k.id) w.keys ≡ true))
      → Refuses (insert ext k) w (λ t. t ≡ w)
  insert_refuses k w (inl h) = (RepositoryError.duplicate, w, simp h, refl)
  insert_refuses k w (inr (a, b)) = (RepositoryError.database, w, simp (a, b), refl)

  any-find-none :
      (p : TenantKey → Bool) (keys : List TenantKey) → find p keys ≡ none → any p keys ≡ false
  any-find-none p [] e = refl
  any-find-none p (x ∷ keys) e = elim (Bool-cases (p x)) [
    | inl d ↦ absurd (ground arith)
    | inr d ↦ let ih = any-find-none p keys (ground arith) in ground arith
  ]

  refuses_storage :
      {A : Type 0} (m : Action ext A) (w : World ext) (Q : World ext → Type 0)
      → w.outages ≡ []
      → Refuses m w Q
      → Refuses (storage m) w Q
  refuses_storage m w Q up (e, t, d, q) = (e, t, storage_up m w up ∙ d, q)

  -- A creation of a key whose kid its tenant has or whose id is taken, and a state change or
  -- deletion of a key that is absent, return a repository error and leave the table of keys as it
  -- was and the cache in agreement with it, where the storage is up and they agreed before.
  pub run_refused :
      (c : Command) (keys : List TenantKey) (w : World ext)
      → Coherent ext keys w
      → rows_after ext c w keys ≡ none
      → Refuses (run ext c) w (Coherent ext keys)
  unfolding create update_state delete Store.create Store.update_state Store.get Store.delete
  run_refused (Command.create_key params) keys w h e =
      let k = new_key ext params w in
      let drawn = record w { draws = suc w.draws } in
      let refused =
        subst
          (λ ks.
            (any (has_kid k.tenant_id k.kid) ks ≡ true)
            ⊎ ((any (has_kid k.tenant_id k.kid) ks ≡ false) × (any (has_id k.id) ks ≡ true)))
          (sym h.sound.rows) (inserted-none _ _ k keys e) in
      let (x, t, d, same) = insert_refuses k drawn refused in
      refuses->>= (create ext params) _ w (Coherent ext keys) (
        refuses->>= (Store.create ext params) _ w (Coherent ext keys) (
          refuses_storage _ w (Coherent ext keys) h.sound.up
            (x, t, d, subst (Coherent ext keys) (sym same) (drawn_Coherent ext keys w h))))
  run_refused (Command.set_key_state id s) keys w h e =
      let absent = ap (find (has_id id)) h.sound.rows ∙ changed-none _ (find (has_id id) keys) e in
      refuses->>= (update_state ext id s) _ w (Coherent ext keys) (
        refuses->>= (Store.update_state ext id s) _ w (Coherent ext keys) (
          refuses_storage _ w (Coherent ext keys) h.sound.up
            (RepositoryError.not_found, w, ap (updated_row ext id s w) absent, h)))
  run_refused (Command.delete_key id) keys w h e =
      let absent = changed-none _ (find (has_id id) keys) e in
      let none_there = ap (any (has_id id)) h.sound.rows ∙ any-find-none (has_id id) keys absent in
      let (x, t, d, q) =
        refuses->>= (Store.delete ext id)
          (λ _. ignore (Cache.delete ext id) >> forget ext (find (has_id id) w.keys)) w
          (Coherent ext keys)
          (refuses_storage (deleted ext id) w (Coherent ext keys) h.sound.up
            (RepositoryError.not_found, w, deleted-err id w none_there, h)) in
      (x, t, >>=-ok (Store.get ext id) _ w (storage_up _ w h.sound.up) ∙ d, q)
