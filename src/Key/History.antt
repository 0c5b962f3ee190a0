-- ===== src/Key/History.antt =====
-- crates/knox-storage/src/key/repository.rs: what a read answers after any sequence of creations,
-- changes of state, deletions and reads, in which time passes.
use knox_iam_public.Base.{
  ◌≡◌, refl, sym, ◌∙◌, ap, subst, ℕ, ◌+◌, ◌≤◌, Option, none, some, List, [], arith, String,
}
use knox_iam_public.Common.Error.{ServiceError}
use knox_iam_public.Common.Directory.{TenantKey}
use knox_iam_public.Externals.{Externals}
use knox_iam_public.World.{World, Outcome}
use knox_iam_public.World.Runs.{Runs}
use package.knox_iam_public.Key.Rows.{IsUnique}
use package.knox_iam_public.Key.Refinement.{
  Command, Lookup, run, look_up, answer, rows_after, Coherent, run_lem, look_up_lem,
}
use package.knox_iam_public.Key.Refusal.{run_refused}

module _ (ext : Externals) where
  -- The worlds that the repository's calls lead to, whatever they answer.
  pub data History (w : World ext) : World ext → Type 0 where
    start : History w w
    command :
        {v : World ext} (c : Command) {r : Outcome ServiceError (Unit {0})} {v' : World ext}
        → History w v
        → run ext c v ≡ (r, v')
        → History w v'
    lookup :
        {v : World ext} (q : Lookup) {r : Outcome ServiceError (Option TenantKey)} {v' : World ext}
        → History w v
        → look_up ext q v ≡ (r, v')
        → History w v'
    later : {v : World ext} (n : ℕ) → History w v → History w (record v { now = v.now + n })

  -- Redis and Postgres are up, and neither holds a key.
  pub record IsFresh (w : World ext) : Type 0 where
    pub up : w.outages ≡ []
    pub rows : w.keys ≡ []
    pub cold : (j : String) (t : ℕ) → w.now ≤ t → ext.redis.get w.redis j t ≡ none

  fresh-Coherent : (w : World ext) → IsFresh w → Coherent ext w.keys w
  fresh-Coherent w h = record {
    unique = subst IsUnique (sym h.rows) tt;
    sound = record {
      up = h.up;
      rows = refl;
      cached = λ j t v le out e. let no = h.cold j t le in absurd cc;
    };
  }

  -- The rows are those that the world holds.
  own_rows : (keys : List TenantKey) (w : World ext) → Coherent ext keys w → Coherent ext w.keys w
  own_rows keys w h = subst (λ ks. Coherent ext ks w) (sym h.sound.rows) h

  later-Coherent :
      (n : ℕ) (w : World ext)
      → Coherent ext w.keys w
      → Coherent ext w.keys (record w { now = w.now + n })
  later-Coherent n w h = record {
    unique = h.unique;
    sound = record {
      up = h.sound.up;
      rows = h.sound.rows;
      cached = λ j t v le out e. h.sound.cached j t v (omega arith) out e;
    };
  }

  command-Coherent :
      (c : Command) (w w' : World ext) (r : Outcome ServiceError (Unit {0}))
      → Coherent ext w.keys w
      → run ext c w ≡ (r, w')
      → Coherent ext w'.keys w'
  command-Coherent c w w' r h e = decided (rows_after ext c w w.keys) refl
    where
      decided :
          (o : Option (List TenantKey)) → rows_after ext c w w.keys ≡ o → Coherent ext w'.keys w'
      decided none d =
          let (x, t, f, k) = run_refused ext c w.keys w h d in
          let same : t ≡ w' = ap (λ p. p.1) (sym f ∙ e) in
          own_rows w.keys w' (subst (Coherent ext w.keys) same k)
      decided (some keys') d =
          let (a, t, f, k) = run_lem ext c w.keys keys' w h d in
          let same : t ≡ w' = ap (λ p. p.1) (sym f ∙ e) in
          own_rows keys' w' (subst (Coherent ext keys') same k)

  pub History-Coherent : (w w' : World ext) → IsFresh w → History w w' → Coherent ext w'.keys w'
  History-Coherent w _ fresh History.start = fresh-Coherent w fresh
  History-Coherent w _ fresh (History.command {v} c {r} {v'} past e) =
      command-Coherent c v v' r (History-Coherent w v fresh past) e
  History-Coherent w _ fresh (History.lookup {v} q {r} {v'} past e) =
      let h = History-Coherent w v fresh past in
      let (a, t, f, (_, k)) = look_up_lem ext q v.keys v h in
      let same : t ≡ v' = ap (λ p. p.1) (sym f ∙ e) in
      own_rows v.keys v' (subst (Coherent ext v.keys) same k)
  History-Coherent w _ fresh (History.later {v} n past) =
      later-Coherent n v (History-Coherent w v fresh past)

  -- From a database and a Redis that hold no key, after any sequence of key creations, state
  -- changes, deletions and cached lookups with any time in between, a lookup by id, by kid or for
  -- the active key of a tenant returns, and answers what the table of keys says at that moment,
  -- while the storage is up and no tenant's keys are revoked all at once.
  pub look_up-History :
      (w w' : World ext) (q : Lookup)
      → IsFresh w
      → History w w'
      → Runs (look_up ext q) w' (λ a t. a ≡ answer q w'.keys)
  look_up-History w w' q fresh past =
      let (a, t, e, (d, k)) = look_up_lem ext q w'.keys w' (History-Coherent w w' fresh past) in
      (a, t, e, d)
