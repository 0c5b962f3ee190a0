-- ===== src/World/Runs.antt =====
-- Total correctness: a call returns, and its answer and the state that it leaves satisfy a predicate.
use knox_iam_public.Base.{◌≡◌, refl, ap, ◌∙◌, []}
use knox_iam_public.Externals.{Externals}
use knox_iam_public.World.{World, Action, Outcome, ok, pure, ignore, storage, ◌>>=◌}
use knox_iam_public.World.Laws.{>>=-ok, storage_up}

abbrev pub Runs : {S E A : Type 0} → (S → Outcome E A × S) → S → (A → S → Type 0) → Type 0
Runs {S} {E} {A} m s Q = (a : A) × (t : S) × (m s ≡ (ok a, t)) × Q a t

module _ {S E A B : Type 0} where
  pub runs->>= :
      (m : S → Outcome E A × S) (f : A → S → Outcome E B × S) (s : S) (R : A → S → Type 0)
      (Q : B → S → Type 0)
      → Runs m s R
      → ((a : A) (t : S) → R a t → Runs (f a) t Q)
      → Runs (m >>= f) s Q
  runs->>= m f s R Q (a, t, e, r) k = let (b, u, d, q) = k a t r in (b, u, >>=-ok m f s e ∙ d, q)

module _ {S E A : Type 0} where
  pub runs-pure : (a : A) (s : S) (Q : A → S → Type 0) → Q a s → Runs (pure {E = E} a) s Q
  runs-pure a s Q q = (a, s, refl, q)

module _ {S E A : Type 0} where
  -- A call whose answer is dropped.
  pub runs-ignore :
      (m : S → Outcome E A × S) (s : S) (Q : S → Type 0)
      → Runs m s (λ _ t. Q t)
      → Runs (ignore m) s (λ _ t. Q t)
  runs-ignore m s Q (a, t, e, q) = (tt, t, ap (λ p. (ok tt, p.1)) e, q)

module _ {ext : Externals} {A : Type 0} where
  -- Without outages a storage call runs as its command or query.
  pub runs-storage :
      (m : Action ext A) (w : World ext) (Q : A → World ext → Type 0)
      → w.outages ≡ []
      → Runs m w Q
      → Runs (storage m) w Q
  runs-storage m w Q up (a, t, e, q) = (a, t, storage_up m w up ∙ e, q)
