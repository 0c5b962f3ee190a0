-- ===== src/Key/Refinement.antt =====
-- crates/knox-storage/src/key: the repository, with its cache, against the table alone.
use knox_iam_public.Base.{
  ◌≡◌, refl, sym, subst, suc, Bool, true, false, not, Option, none, some, List, [], ◌∷◌, String,
  find, filter, any, update_where, All, nat_eq, string_eq, arith,
}
use knox_iam_public.Common.Directory.{Uuid, TenantKey, KeyState}
use knox_iam_public.Common.Key.{CreateKeyParams}
use knox_iam_public.Externals.{Externals}
use knox_iam_public.World.{World, Action, pure, ◌>>=◌}
use knox_iam_public.World.Runs.{Runs, runs->>=, runs-pure}
use package.knox_iam_public.Key.Store.{has_id, has_kid, active_key, set_state, new_key}
use package.knox_iam_public.Key.Rows.{IsUnique, AreApart, IsUnique-update_where, IsUnique-filter}
use package.knox_iam_public.Key.Coherence.{Sound}
use package.knox_iam_public.Key.Reads.{
  Answers, get_runs, get_by_kid_runs, get_active_for_tenant_runs,
}
use package.knox_iam_public.Key.Writes.{create_runs, update_state_runs, delete_runs}
use package.knox_iam_public.Key.Repository.{
  create, get, get_by_kid, get_active_for_tenant, update_state, delete,
}

-- The writes, and the reads by their keys.
pub data Command : Type 0 where
  create_key : CreateKeyParams → Command
  set_key_state : Uuid → KeyState → Command
  delete_key : Uuid → Command

pub data Lookup : Type 0 where
  by_id : Uuid → Lookup
  by_kid : Uuid → String → Lookup
  active : Uuid → Lookup

abbrev pub answer : Lookup → List TenantKey → Option TenantKey
answer (Lookup.by_id id) keys = find (has_id id) keys
answer (Lookup.by_kid tenant_id kid) keys = find (has_kid tenant_id kid) keys
answer (Lookup.active tenant_id) keys = active_key tenant_id keys

module _ (ext : Externals) where
  abbrev pub look_up : Lookup → Action ext (Option TenantKey)
  look_up (Lookup.by_id id) = get ext id
  look_up (Lookup.by_kid tenant_id kid) = get_by_kid ext tenant_id kid
  look_up (Lookup.active tenant_id) = get_active_for_tenant ext tenant_id

  abbrev pub run : Command → Action ext (Unit {0})
  run (Command.create_key params) = do k ← create ext params; pure tt
  run (Command.set_key_state id s) = do k ← update_state ext id s; pure tt
  run (Command.delete_key id) = delete ext id

  -- A write as a function of the rows: nothing where it is refused.
  abbrev pub inserted : Bool → Bool → TenantKey → List TenantKey → Option (List TenantKey)
  inserted false false k keys = some (k ∷ keys)
  inserted _ _ k keys = none

  abbrev pub changed : List TenantKey → Option TenantKey → Option (List TenantKey)
  changed keys none = none
  changed keys (some u) = some keys

  abbrev pub rows_after : Command → World ext → List TenantKey → Option (List TenantKey)
  rows_after (Command.create_key params) w keys =
      inserted (any (has_kid params.tenant_id params.kid) keys)
        (any (has_id (ext.new_v4 w.draws)) keys) (new_key ext params w) keys
  rows_after (Command.set_key_state id s) w keys =
      changed (update_where (has_id id) (set_state s) keys) (find (has_id id) keys)
  rows_after (Command.delete_key id) w keys =
      changed (filter (λ k. not (has_id id k)) keys) (find (has_id id) keys)

  -- A table of distinct keys, and a cache that says what it says.
  pub record Coherent (keys : List TenantKey) (w : World ext) : Type 0 where
    pub unique : IsUnique keys
    pub sound : Sound ext [] keys w

  fresh-AreApart :
      (k : TenantKey) (keys : List TenantKey)
      → any (has_kid k.tenant_id k.kid) keys ≡ false
      → any (has_id k.id) keys ≡ false
      → All (AreApart k) keys
  fresh-AreApart k [] a b = tt
  fresh-AreApart k (x ∷ keys) a b =
      ((ground arith, ground arith), fresh-AreApart k keys (ground arith) (ground arith))

  -- S
  pub look_up_lem :
      (q : Lookup) (keys : List TenantKey) (w : World ext)
      → Coherent keys w
      → Runs (look_up q) w (λ a t. (a ≡ answer q keys) × Coherent keys t)
  look_up_lem q keys w h = with_rows (look_up q) (answer q keys) (looked q)
    where
      with_rows :
          {A : Type 0} (m : Action ext A) (a : A)
          → Runs m w (Answers ext keys a)
          → Runs m w (λ b t. (b ≡ a) × Coherent keys t)
      with_rows m a (b, t, e, (d, s)) = (b, t, e, (d, record { unique = h.unique; sound = s }))

      looked : (q : Lookup) → Runs (look_up q) w (Answers ext keys (answer q keys))
      looked (Lookup.by_id id) = get_runs ext id keys w h.sound
      looked (Lookup.by_kid tenant_id kid) = get_by_kid_runs ext tenant_id kid keys w h.sound
      looked (Lookup.active tenant_id) = get_active_for_tenant_runs ext tenant_id keys w h.sound

  inserted-some :
      (a b : Bool) (k : TenantKey) (keys : List TenantKey) {keys' : List TenantKey}
      → inserted a b k keys ≡ some keys'
      → (a ≡ false) × (b ≡ false) × (keys' ≡ k ∷ keys)
  inserted-some false false k keys e = (refl, refl, cc)
  inserted-some false true k keys e = cc
  inserted-some true false k keys e = cc
  inserted-some true true k keys e = cc

  changed-some :
      (keys : List TenantKey) (o : Option TenantKey) {keys' : List TenantKey}
      → changed keys o ≡ some keys'
      → (u : TenantKey) × (o ≡ some u) × (keys' ≡ keys)
  changed-some keys none e = cc
  changed-some keys (some u) e = (u, refl, cc)

  pub drawn_Coherent :
      (keys : List TenantKey) (w : World ext)
      → Coherent keys w
      → Coherent keys (record w { draws = suc w.draws })
  drawn_Coherent keys w h = record {
    unique = h.unique;
    sound = record { up = h.sound.up; rows = h.sound.rows; cached = h.sound.cached };
  }

  -- A creation, a state change or a deletion of a key that the table of keys accepts returns, and
  -- leaves the table as it says with a cache that agrees with it, where the storage is up, the
  -- cache agreed before, and no two keys had one id or one kid in a tenant.
  pub run_lem :
      (c : Command) (keys keys' : List TenantKey) (w : World ext)
      → Coherent keys w
      → rows_after c w keys ≡ some keys'
      → Runs (run c) w (λ _ t. Coherent keys' t)
  run_lem (Command.create_key params) keys keys' w h e =
      let k = new_key ext params w in
      let (fresh_kid, fresh_id, same) = inserted-some _ _ k keys e in
      runs->>= (create ext params) _ w _ _
        (create_runs ext params keys w fresh_kid fresh_id h.sound)
        λ a t (d, s).
          runs-pure tt t (λ _ v. Coherent keys' v)
            (subst (λ x. Coherent x t) (sym same)
              (record { unique = (fresh-AreApart k keys fresh_kid fresh_id, h.unique); sound = s }))
  run_lem (Command.set_key_state id new_state) keys keys' w h e =
      let (u, found, same) = changed-some _ (find (has_id id) keys) e in
      runs->>= (update_state ext id new_state) _ w _ _
        (update_state_runs ext id new_state keys u w h.unique found h.sound)
        λ a t (d, s).
          runs-pure tt t (λ _ v. Coherent keys' v)
            (subst (λ x. Coherent x t) (sym same)
              (record {
                unique = IsUnique-update_where (has_id id) new_state keys h.unique;
                sound = s;
              }))
  run_lem (Command.delete_key id) keys keys' w h e =
      let (u, found, same) = changed-some _ (find (has_id id) keys) e in
      let (a, t, d, s) = delete_runs ext id keys u w h.unique found h.sound in
      (
        a,
        t,
        d,
        subst (λ x. Coherent x t) (sym same)
            (record { unique = IsUnique-filter (λ k. not (has_id id k)) keys h.unique; sound = s }),
      )
