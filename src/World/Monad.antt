-- ===== src/World/Monad.antt =====
-- State with errors, over any state. The tests and the sequence are shut, so that a proof meets
-- them as they are written; a run has them on its `unfolding` line.
use knox_iam_public.Base.{Bool, Option, none, some, true, false}
use knox_iam_public.Common.Error.{ServiceError}

pub data Outcome (E A : Type 0) : Type 0 where
  ok : A → Outcome E A
  err : E → Outcome E A

-- The results of the services.
abbrev pub Result : Type 0 → Type 0
Result A = Outcome ServiceError A

module _ {S : Type 0} where
  abbrev pub pure : {E A : Type 0} → A → S → Outcome E A × S
  pure a s = (ok a, s)

  abbrev pub fail : {E A : Type 0} → E → S → Outcome E A × S
  fail e s = (err e, s)

  abbrev pub gets : {E A : Type 0} → (S → A) → S → Outcome E A × S
  gets f s = (ok (f s), s)

  abbrev pub modify : {E : Type 0} → (S → S) → S → Outcome E (Unit {0}) × S
  modify f s = (ok tt, f s)

  -- `ok_or`
  unfoldable pub or_fail : {E A : Type 0} → Option A → E → S → Outcome E A × S
  or_fail none e = fail e
  or_fail (some a) e = pure a

  -- `if c { return Err(e); }`
  unfoldable pub fail_if : {E : Type 0} → Bool → E → S → Outcome E (Unit {0}) × S
  fail_if true e = fail e
  fail_if false e = pure tt

  unfoldable pub when :
      {E : Type 0} → Bool → (S → Outcome E (Unit {0}) × S) → S → Outcome E (Unit {0}) × S
  when true m = m
  when false m = pure tt

-- What follows an answer: nothing after an error.
abbrev pub after :
    {S E A B : Type 0} → Outcome E A × S → (A → S → Outcome E B × S) → Outcome E B × S
after (ok a, s) f = f a s
after (err e, s) f = (err e, s)

infixl 5 ◌>>=◌ ◌>>◌
unfoldable pub ◌>>=◌ :
    {S E A B : Type 0} → (S → Outcome E A × S) → (A → S → Outcome E B × S) → S → Outcome E B × S
◌>>=◌ m f s = after (m s) f

abbrev pub ◌>>◌ :
    {S E B : Type 0} → (S → Outcome E (Unit {0}) × S) → (S → Outcome E B × S) → S → Outcome E B × S
m >> k = m >>= λ _. k

abbrev pub recover :
    {S E A : Type 0} → Outcome E A × S → (E → S → Outcome E (Unit {0}) × S) → Outcome E A × S
recover (ok a, s) h = (ok a, s)
recover (err e, s) h = (h e >> fail e) s

-- `if let Err(e) = … { … return Err(e) }`
unfoldable pub on_error :
    {S E A : Type 0}
    → (S → Outcome E A × S)
    → (E → S → Outcome E (Unit {0}) × S)
    → S
    → Outcome E A × S
on_error m h s = recover (m s) h

abbrev pub mapped : {S E F A : Type 0} → (E → F) → Outcome E A × S → Outcome F A × S
mapped f (ok a, s) = (ok a, s)
mapped f (err e, s) = (err (f e), s)

unfoldable pub map_err : {S E F A : Type 0} → (E → F) → (S → Outcome E A × S) → S → Outcome F A × S
map_err f m s = mapped f (m s)

-- `let _ = m;`, and `if let Err(e) = m { … }` where the body only logs.
abbrev pub ignore : {S E A : Type 0} → (S → Outcome E A × S) → S → Outcome E (Unit {0}) × S
ignore m s = (ok tt, (m s).1)

abbrev pub otherwise :
    {S E : Type 0}
    → Outcome E (Unit {0}) × S
    → (S → Outcome E (Unit {0}) × S)
    → Outcome E (Unit {0}) × S
otherwise (ok a, s) h = (ok tt, s)
otherwise (err e, s) h = ignore h s

-- `if let Err(e) = m { let _ = h; }`
abbrev pub ignore_or :
    {S E : Type 0}
    → (S → Outcome E (Unit {0}) × S)
    → (S → Outcome E (Unit {0}) × S)
    → S
    → Outcome E (Unit {0}) × S
ignore_or m h s = otherwise (m s) h

-- `?` and `ok_or`, without a state.
abbrev pub and_then : {E A B : Type 0} → Outcome E A → (A → Outcome E B) → Outcome E B
and_then (ok a) f = f a
and_then (err e) f = err e

abbrev pub ok_or : {E A : Type 0} → Option A → E → Outcome E A
ok_or none e = err e
ok_or (some a) e = ok a
