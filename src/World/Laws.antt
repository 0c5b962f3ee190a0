-- ===== src/World/Laws.antt =====
-- Inversion of a call that succeeded, step by step.
use knox_iam_public.Base.{
  ◌⊎◌, inl, inr, ◌≡◌, refl, sym, ap, Bool, true, false, Option, none, some, List, [], ◌∷◌,
}
use knox_iam_public.Externals.{Externals}
use knox_iam_public.World.{
  World, Action, Outcome, ok, err, storage, storage_from, pure, fail, fail_if, or_fail, when, after,
  ◌>>=◌, on_error, recover, mapped, map_err,
}

module _ {S E A B : Type 0} where
  -- A sequence that succeeds is a success of both parts.
  pub after-eq-ok :
      {p : Outcome E A × S} {f : A → S → Outcome E B × S} {b : B} {t : S}
      → after p f ≡ (ok b, t)
      → (a : A) × (s' : S) × (p ≡ (ok a, s')) × (f a s' ≡ (ok b, t))
  after-eq-ok {p = (ok a, s')} h = (a, s', refl, h)
  after-eq-ok {p = (err e, s')} h = cc

  pub >>=-eq-ok :
      (m : S → Outcome E A × S) (f : A → S → Outcome E B × S) (s : S) {b : B} {t : S}
      → (m >>= f) s ≡ (ok b, t)
      → (a : A) × (s' : S) × (m s ≡ (ok a, s')) × (f a s' ≡ (ok b, t))
  unfolding ◌>>=◌
  >>=-eq-ok m f s h = after-eq-ok {p = m s} {f = f} h

module _ {S E : Type 0} where
  pub fail_if-eq-ok :
      (c : Bool) (e : E) (s : S) {u : Unit {0}} {t : S}
      → fail_if c e s ≡ (ok u, t)
      → (c ≡ false) × (t ≡ s)
  unfolding fail_if
  fail_if-eq-ok true e s h = cc
  fail_if-eq-ok false e s h = (refl, ap (λ p. p.1) (sym h))

  -- A guard whose body ends in an error.
  pub when-eq-ok :
      (c : Bool) (m : S → Outcome E (Unit {0}) × S) (s : S) {u : Unit {0}} {t : S}
      → ((s t : S) → ¬ (m s ≡ (ok tt, t)))
      → when c m s ≡ (ok u, t)
      → (c ≡ false) × (t ≡ s)
  unfolding when
  when-eq-ok true m s never h = absurd (never _ _ h)
  when-eq-ok false m s never h = (refl, ap (λ p. p.1) (sym h))

  pub or_fail-eq-ok :
      {A : Type 0} (o : Option A) (e : E) (s : S) {a : A} {t : S}
      → or_fail o e s ≡ (ok a, t)
      → (o ≡ some a) × (t ≡ s)
  unfolding or_fail
  or_fail-eq-ok none e s h = cc
  or_fail-eq-ok (some x) e s h = (cc, ap (λ p. p.1) (sym h))

module _ {ext : Externals} {A : Type 0} where
  storage_from-eq-ok :
      (os : List Bool) (m : Action ext A) (w : World ext) {a : A} {w' : World ext}
      → w.outages ≡ os
      → storage_from os m w ≡ (ok a, w')
      → (rest : List Bool) × (m (record w { outages = rest }) ≡ (ok a, w'))
  unfolding storage_from
  storage_from-eq-ok [] m w e h = ([], rw (← e) h)
  storage_from-eq-ok (true ∷ os) m w e h = cc
  storage_from-eq-ok (false ∷ os) m w e h = (os, h)

  -- A storage call that succeeds has made its command or query.
  pub storage-eq-ok :
      (m : Action ext A) (w : World ext) {a : A} {w' : World ext}
      → storage m w ≡ (ok a, w')
      → (rest : List Bool) × (m (record w { outages = rest }) ≡ (ok a, w'))
  unfolding storage
  storage-eq-ok m w h = storage_from-eq-ok w.outages m w refl h

  -- A query that succeeds answers from the tables, and leaves all but the schedule as it was.
  pub query-eq-ok :
      (f : World ext → A) (w : World ext) {a : A} {w' : World ext}
      → storage (λ v. (ok (f v), v)) w ≡ (ok a, w')
      → (rest : List Bool) × (w' ≡ record w { outages = rest })
        × (a ≡ f (record w { outages = rest }))
  query-eq-ok f w h = let (rest, e) = storage-eq-ok _ w h in (rest, cc, cc)

module _ {S E : Type 0} where
  pub pure-eq-ok :
      {A : Type 0} (a : A) (s : S) {b : A} {t : S}
      → pure {E = E} a s ≡ (ok b, t)
      → (b ≡ a) × (t ≡ s)
  pure-eq-ok a s h = (cc, ap (λ p. p.1) (sym h))

  -- A sequence that ends in an error never succeeds.
  pub >>=-fail :
      {A B : Type 0} (m : S → Outcome E A × S) (e : E) (s : S) {b : B} {t : S}
      → ¬ ((m >>= λ _. fail e) s ≡ (ok b, t))
  >>=-fail m e s h = let (_, s', _, k) = >>=-eq-ok m _ s h in cc

module _ {S E A B : Type 0} where
  -- A sequence, forwards.
  pub >>=-ok :
      (m : S → Outcome E A × S) (f : A → S → Outcome E B × S) (s : S) {a : A} {t : S}
      → m s ≡ (ok a, t)
      → (m >>= f) s ≡ f a t
  unfolding ◌>>=◌
  >>=-ok m f s h = ap (λ p. after p f) h

  pub >>=-err :
      (m : S → Outcome E A × S) (f : A → S → Outcome E B × S) (s : S) {e : E} {t : S}
      → m s ≡ (err e, t)
      → (m >>= f) s ≡ (err e, t)
  unfolding ◌>>=◌
  >>=-err m f s h = ap (λ p. after p f) h

module _ {ext : Externals} {A : Type 0} where
  -- Without outages a storage call is its command or query.
  pub storage_up : (m : Action ext A) (w : World ext) → w.outages ≡ [] → storage m w ≡ m w
  unfolding storage storage_from
  storage_up m w e = ap (λ os. storage_from os m w) e

module _ {S E A : Type 0} where
  recover-eq-ok :
      (p : Outcome E A × S) (h : E → S → Outcome E (Unit {0}) × S) {a : A} {t : S}
      → recover p h ≡ (ok a, t)
      → p ≡ (ok a, t)
  recover-eq-ok (ok a, s) h e = e
  recover-eq-ok (err x, s) h e = absurd (>>=-fail (h x) x s e)

  -- A call whose errors are only noted succeeds as the call itself.
  pub on_error-eq-ok :
      (m : S → Outcome E A × S) (h : E → S → Outcome E (Unit {0}) × S) (s : S) {a : A} {t : S}
      → on_error m h s ≡ (ok a, t)
      → m s ≡ (ok a, t)
  unfolding on_error
  on_error-eq-ok m h s e = recover-eq-ok (m s) h e

module _ {S E A B : Type 0} where
  after-state :
      (P : S → Type 0) (p : Outcome E A × S) (f : A → S → Outcome E B × S)
      → P p.1
      → ((a : A) (t : S) → p ≡ (ok a, t) → P (f a t).1)
      → P (after p f).1
  after-state P (ok a, s) f h k = k a s refl
  after-state P (err e, s) f h k = h

  -- What a sequence leaves is what its second part leaves, or its first after an error.
  pub >>=-state :
      (P : S → Type 0) (m : S → Outcome E A × S) (f : A → S → Outcome E B × S) (s : S)
      → P (m s).1
      → ((a : A) (t : S) → m s ≡ (ok a, t) → P (f a t).1)
      → P ((m >>= f) s).1
  unfolding ◌>>=◌
  >>=-state P m f s h k = after-state P (m s) f h k

module _ {ext : Externals} {A : Type 0} where
  storage_from-state :
      (P : World ext → Type 0) (os : List Bool) (m : Action ext A) (w : World ext)
      → w.outages ≡ os
      → ((rest : List Bool) → P (record w { outages = rest }))
      → ((rest : List Bool) → P (m (record w { outages = rest })).1)
      → P (storage_from os m w).1
  unfolding storage_from
  storage_from-state P [] m w e h k = k w.outages
  storage_from-state P (true ∷ os) m w e h k = h os
  storage_from-state P (false ∷ os) m w e h k = k os

  -- What a storage call leaves, an outage included.
  pub storage-state :
      (P : World ext → Type 0) (m : Action ext A) (w : World ext)
      → ((rest : List Bool) → P (record w { outages = rest }))
      → ((rest : List Bool) → P (m (record w { outages = rest })).1)
      → P (storage m w).1
  unfolding storage
  storage-state P m w h k = storage_from-state P w.outages m w refl h k

module _ {S E F A : Type 0} where
  mapped-eq-ok :
      (f : E → F) (p : Outcome E A × S) {a : A} {t : S} → mapped f p ≡ (ok a, t) → p ≡ (ok a, t)
  mapped-eq-ok f (ok a, s) h = cc
  mapped-eq-ok f (err e, s) h = cc

  -- A call that succeeds under another error succeeds.
  pub map_err-eq-ok :
      (f : E → F) (m : S → Outcome E A × S) (s : S) {a : A} {t : S}
      → map_err f m s ≡ (ok a, t)
      → m s ≡ (ok a, t)
  unfolding map_err
  map_err-eq-ok f m s h = mapped-eq-ok f (m s) h

module _ {S E : Type 0} where
  pub when-eq-ok-cases :
      (c : Bool) (m : S → Outcome E (Unit {0}) × S) (s : S) {u : Unit {0}} {t : S}
      → when c m s ≡ (ok u, t)
      → ((c ≡ false) × (t ≡ s)) ⊎ ((c ≡ true) × (m s ≡ (ok u, t)))
  unfolding when
  when-eq-ok-cases true m s h = inr (refl, h)
  when-eq-ok-cases false m s h = inl (refl, ap (λ p. p.1) (sym h))
