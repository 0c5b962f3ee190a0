-- ===== src/Sample/Store.antt =====
-- Redis as a function: what each key holds at each time.
use knox_iam_public.Base.{
  ℕ, zero, suc, ◌+◌, ◌≤◌, ◌<◌, String, Bool, List, Option, none, some, ◌≡◌, refl, ltb, ◌==◌, nat_eq,
  string_eq, if◌then◌else◌, is_some, arith,
}
use knox_iam_public.Common.Directory.{TenantKey}
use knox_iam_public.Common.Token.{AuthCodeContext, SsoSessionContext, PasswordResetContext}
use knox_iam_public.Externals.{Redis}

pub data Text : Type 0 where
  num : ℕ → Text
  code : AuthCodeContext → Text
  sso : SsoSessionContext → Text
  reset : PasswordResetContext → Text
  flag : Bool → Text
  tenant_key : TenantKey → Text
  strings : List String → Text
  tenant_keys : List TenantKey → Text

abbrev pub State : Type 0
State = String → ℕ → Option Text

abbrev pub get : State → String → ℕ → Option Text
get s k t = s k t

abbrev pub set_ex : String → Text → ℕ → ℕ → State → Option State
set_ex k v zero now s = none
set_ex k v (suc ttl) now s =
    some λ j t. if k == j then (if ltb t (now + suc ttl) then some v else none) else s j t

abbrev pub del : String → ℕ → State → State
del k now s j t = if k == j then none else s j t

abbrev pub counted : Option Text → ℕ → Option Text
counted none n = none
counted (some v) n = some (num n)

abbrev pub incr_at : Option Text → String → State → Option (ℕ × State)
incr_at none k s = some (1, λ j t. if k == j then some (num 1) else s j t)
incr_at (some (num n)) k s = some (suc n, λ j t. if k == j then counted (s k t) (suc n) else s j t)
incr_at (some v) k s = none

abbrev pub incr : String → ℕ → State → Option (ℕ × State)
incr k now s = incr_at (s k now) k s

abbrev pub expire : String → ℕ → ℕ → State → State
expire k ttl now s j t = if k == j then (if ltb t (now + ttl) then s k now else none) else s j t

pub set_ex_lem :
    (k : String) (v : Text) (ttl now : ℕ) (s : State)
    → 0 < ttl
    → (s' : State) × (set_ex k v ttl now s ≡ some s')
      × ((j : String) (t : ℕ)
          → now ≤ t
          → get s' j t
            ≡ (if k == j then (if ltb t (now + ttl) then some v else none) else get s j t))
set_ex_lem k v zero now s h = absurd (omega arith)
set_ex_lem k v (suc ttl) now s h = (_, refl, λ j t _. refl)

pub incr_new :
    (k : String) (now : ℕ) (s : State)
    → get s k now ≡ none
    → (s' : State) × (incr k now s ≡ some (1, s'))
      × ((j : String) (t : ℕ) → now ≤ t → get s' j t ≡ (if k == j then some (num 1) else get s j t))
incr_new k now s e = ((λ j t. if k == j then some (num 1) else s j t), rw (e, incr), λ j t _. refl)

counted_lem : (o : Option Text) (n : ℕ) → counted o n ≡ (if is_some o then some (num n) else none)
counted_lem none n = refl
counted_lem (some v) n = refl

pub incr_old :
    (k : String) (n now : ℕ) (s : State)
    → get s k now ≡ some (num n)
    → (s' : State) × (incr k now s ≡ some (suc n, s'))
      × ((j : String) (t : ℕ)
          → now ≤ t
          → get s' j t ≡ (
              if k == j
              then (if is_some (get s k t) then some (num (suc n)) else none)
              else get s j t))
incr_old k n now s e = (
  (λ j t. if k == j then counted (s k t) (suc n) else s j t),
  rw (e, incr),
  λ j t _. rw (counted_lem (s k t) (suc n)),
)

abbrev pub sample_redis : Redis
sample_redis = record {
  State = State;
  Text = Text;
  get = get;
  decimal = num;
  set_ex = set_ex;
  del = del;
  incr = incr;
  expire = expire;
  set_ex_zero = λ k v now s. refl;
  set_ex_lem = set_ex_lem;
  get-del = λ k now s j t _. refl;
  incr_new = incr_new;
  incr_old = incr_old;
  get-expire = λ k ttl now s j t _. refl;
}
