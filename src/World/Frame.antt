-- ===== src/World/Frame.antt =====
-- Relations between the states before and after a call, for any call built of calls that keep them.
use knox_iam_public.Base.{
  ◌≡◌, ap, subst, if◌then◌else◌, Bool, true, false, Option, none, some, List, [], ◌∷◌,
}
use knox_iam_public.Common.Error.{ServiceError}
use knox_iam_public.Externals.{Externals}
use knox_iam_public.World.{
  World, Action, Result, ok, err, storage, storage_from, pure, fail, fail_if, or_fail, when, gets,
  ◌>>=◌, after, on_error, recover, ignore,
}

-- A preorder that does not look at the schedule of outages.
pub record Relation (ext : Externals) : Type 1 where
  pub rel : World ext → World ext → Type 0
  pub rel_refl : (w : World ext) → rel w w
  pub rel_trans : (u v w : World ext) → rel u v → rel v w → rel u w
  pub rel_outages : (w : World ext) (os : List Bool) → rel w (record w { outages = os })

module _ {ext : Externals} where
  -- A call that stays in the relation, whether it succeeds or not.
  unfoldable pub Keeps : (R : Relation ext) {A : Type 0} → Action ext A → Type 0
  Keeps R m = (w : World ext) → R.rel w (m w).1

  -- What a call left.
  pub Keeps-eq :
      (R : Relation ext) {A : Type 0} (m : Action ext A) (w : World ext) {a : Result A}
      {w' : World ext}
      → Keeps R m
      → m w ≡ (a, w')
      → R.rel w w'
  unfolding Keeps
  Keeps-eq R m w h e = subst (λ v. R.rel w v) (ap (λ p. p.1) e) (h w)

  -- A relation that is weaker.
  pub Keeps_weaken :
      (R S : Relation ext)
      → ((v w : World ext) → R.rel v w → S.rel v w)
      → {A : Type 0} (m : Action ext A) → Keeps R m
      → Keeps S m
  unfolding Keeps
  Keeps_weaken R S f m h w = f w _ (h w)

module _ {ext : Externals} (R : Relation ext) where
  module _ {A : Type 0} where
    pub pure-Keeps : (a : A) → Keeps R (pure a)
    unfolding Keeps
    pure-Keeps a w = R.rel_refl w

    pub gets-Keeps : (f : World ext → A) → Keeps R (gets f)
    unfolding Keeps
    gets-Keeps f w = R.rel_refl w

    pub or_fail-Keeps : (o : Option A) (e : ServiceError) → Keeps R (or_fail o e)
    unfolding Keeps or_fail
    or_fail-Keeps none e w = R.rel_refl w
    or_fail-Keeps (some a) e w = R.rel_refl w

    storage_from-Keeps :
        (os : List Bool) (m : Action ext A)
        → Keeps R m
        → (w : World ext) → R.rel w (storage_from os m w).1
    unfolding Keeps storage_from
    storage_from-Keeps [] m h w = h w
    storage_from-Keeps (true ∷ os) m h w = R.rel_outages w os
    storage_from-Keeps (false ∷ os) m h w =
        R.rel_trans w (record w { outages = os }) _ (R.rel_outages w os)
          (h (record w { outages = os }))

    pub storage-Keeps : (m : Action ext A) → Keeps R m → Keeps R (storage m)
    unfolding Keeps storage
    storage-Keeps m h w = storage_from-Keeps w.outages m h w

    -- A query
    pub query-Keeps : (f : World ext → A) → Keeps R (storage λ w. (ok (f w), w))
    query-Keeps f = storage-Keeps _ (gets-Keeps f)

    pub if-Keeps :
        (c : Bool) (m n : Action ext A) → Keeps R m → Keeps R n → Keeps R (if c then m else n)
    if-Keeps true m n h k = h
    if-Keeps false m n h k = k

  pub fail-Keeps : (A : Type 0) (e : ServiceError) → Keeps R {A = A} (fail e)
  unfolding Keeps
  fail-Keeps A e w = R.rel_refl w

  module _ {A B : Type 0} where
    after-rel :
        (u : World ext) (p : Result A × World ext) (f : A → Action ext B)
        → R.rel u p.1
        → ((a : A) → Keeps R (f a))
        → R.rel u (after p f).1
    unfolding Keeps
    after-rel u (ok a, v) f h k = R.rel_trans u v _ h (k a v)
    after-rel u (err e, v) f h k = h

    pub >>=-Keeps :
        (m : Action ext A) (f : A → Action ext B)
        → Keeps R m
        → ((a : A) → Keeps R (f a))
        → Keeps R (m >>= f)
    unfolding Keeps ◌>>=◌
    >>=-Keeps m f h k w = after-rel w (m w) f (h w) k

  module _ {A : Type 0} where
    recover-rel :
        (u : World ext) (p : Result A × World ext) (h : ServiceError → Action ext (Unit {0}))
        → R.rel u p.1
        → ((e : ServiceError) → Keeps R (h e))
        → R.rel u (recover p h).1
    unfolding Keeps
    recover-rel u (ok a, v) h r k = r
    recover-rel u (err e, v) h r k =
        R.rel_trans u v _ r (>>=-Keeps (h e) (λ _. fail e) (k e) (λ _. fail-Keeps A e) v)

    pub on_error-Keeps :
        (m : Action ext A) (h : ServiceError → Action ext (Unit {0}))
        → Keeps R m
        → ((e : ServiceError) → Keeps R (h e))
        → Keeps R (on_error m h)
    unfolding Keeps on_error
    on_error-Keeps m h k l w = recover-rel w (m w) h (k w) l

  pub fail_if-Keeps : (c : Bool) (e : ServiceError) → Keeps R (fail_if c e)
  unfolding Keeps fail_if
  fail_if-Keeps true e w = R.rel_refl w
  fail_if-Keeps false e w = R.rel_refl w

  pub when-Keeps : (c : Bool) (m : Action ext (Unit {0})) → Keeps R m → Keeps R (when c m)
  unfolding Keeps when
  when-Keeps true m h w = h w
  when-Keeps false m h w = R.rel_refl w

  pub ignore-Keeps : {A : Type 0} (m : Action ext A) → Keeps R m → Keeps R (ignore m)
  unfolding Keeps
  ignore-Keeps m h w = h w

pub ruleset frame = (
  pure-Keeps, fail-Keeps, gets-Keeps, or_fail-Keeps, query-Keeps, >>=-Keeps, fail_if-Keeps,
  on_error-Keeps, when-Keeps, ignore-Keeps,
)
