-- ===== src/Key/Rows.antt =====
-- crates/knox-storage/src/key/store.rs: the rows of tenant_keys, whose ids are distinct, and whose
-- kids are distinct within a tenant.
use knox_iam_public.Base.{
  ◌≡◌, refl, sym, ◌∙◌, ap, subst, Bool, true, false, not, Option, none, some, List, [], ◌∷◌, nat_eq,
  string_eq, find, find_latest, newer, filter, any, update_where, All, Bool-cases, inl, inr, ltb,
  ◌⊎◌, arith, ℕ,
}
use knox_iam_public.Base.Rows.{All-map}
use knox_iam_public.Common.Directory.{Uuid, TenantKey, KeyState}
use package.knox_iam_public.Key.Store.{has_id, has_kid, active_of, active_key, set_state}

module _ {A : Type 0} where
  -- A SELECT is a function of the rows that its condition keeps.
  abbrev first : List A → Option A
  first [] = none
  first (x ∷ xs) = some x

  find-filter : (p : A → Bool) (xs : List A) → find p xs ≡ first (filter p xs)
  find-filter p [] = refl
  find-filter p (x ∷ xs) = elim (Bool-cases (p x)) [
    | inl e ↦ simp e
    | inr e ↦ simp (e, find-filter p xs)
  ]

  abbrev newest : (A → ℕ) → List A → Option A
  newest at [] = none
  newest at (x ∷ xs) = newer at x (newest at xs)

  find_latest-filter :
      (p : A → Bool) (at : A → ℕ) (xs : List A) → find_latest p at xs ≡ newest at (filter p xs)
  find_latest-filter p at [] = refl
  find_latest-filter p at (x ∷ xs) = elim (Bool-cases (p x)) [
    | inl e ↦ simp (e, find_latest-filter p at xs)
    | inr e ↦ simp (e, find_latest-filter p at xs)
  ]

  pub same_find :
      (p : A → Bool) (xs ys : List A) → filter p xs ≡ filter p ys → find p xs ≡ find p ys
  same_find p xs ys e = find-filter p xs ∙ ap first e ∙ sym (find-filter p ys)

  pub same_latest :
      (p : A → Bool) (at : A → ℕ) (xs ys : List A)
      → filter p xs ≡ filter p ys
      → find_latest p at xs ≡ find_latest p at ys
  same_latest p at xs ys e =
      find_latest-filter p at xs ∙ ap (newest at) e ∙ sym (find_latest-filter p at ys)

  -- An UPDATE of rows that the condition keeps neither before nor after.
  pub filter-update_where :
      (p q : A → Bool) (f : A → A) (xs : List A)
      → All (λ x. q x ≡ true → (p x ≡ false) × (p (f x) ≡ false)) xs
      → filter p (update_where q f xs) ≡ filter p xs
  filter-update_where p q f [] h = refl
  filter-update_where p q f (x ∷ xs) (h, hs) = elim (Bool-cases (q x)) [
    | inl e ↦ let (a, b) = h e in simp (e, a, b, filter-update_where p q f xs hs)
    | inr e ↦ simp (e, filter-update_where p q f xs hs)
  ]

  -- A DELETE of rows that the condition does not keep.
  pub filter-delete :
      (p q : A → Bool) (xs : List A)
      → All (λ x. q x ≡ true → p x ≡ false) xs
      → filter p (filter (λ x. not (q x)) xs) ≡ filter p xs
  filter-delete p q [] h = refl
  filter-delete p q (x ∷ xs) (h, hs) = elim (Bool-cases (q x)) [
    | inl e ↦ simp (e, h e, filter-delete p q xs hs)
    | inr e ↦ elim (Bool-cases (p x)) [
      | inl d ↦ simp (e, d, filter-delete p q xs hs)
      | inr d ↦ simp (e, d, filter-delete p q xs hs)
    ]
  ]

  found_here :
      (p : A → Bool) (xs : List A) {u : A} (x : A) → p x ≡ true → find p (x ∷ xs) ≡ some u → x ≡ u
  found_here p xs x d e = ground arith

  found_later :
      (p : A → Bool) (xs : List A) {u : A} (x : A)
      → p x ≡ false
      → find p (x ∷ xs) ≡ some u
      → find p xs ≡ some u
  found_later p xs x d e = ground arith

  pub any-find : (p : A → Bool) (xs : List A) {u : A} → find p xs ≡ some u → any p xs ≡ true
  any-find p [] e = cc
  any-find p (x ∷ xs) {u} e = elim (Bool-cases (p x)) [
    | inl d ↦ ground arith
    | inr d ↦ let ih = any-find p xs {u = u} (ground arith) in ground arith
  ]

  -- The row that an UPDATE has changed.
  pub find-update_where :
      (p : A → Bool) (f : A → A) (xs : List A) {u : A}
      → ((x : A) → p (f x) ≡ p x)
      → find p xs ≡ some u
      → find p (update_where p f xs) ≡ some (f u)
  find-update_where p f [] h e = cc
  find-update_where p f (x ∷ xs) {u} h e = elim (Bool-cases (p x)) [
    | inl d ↦
        let same : x ≡ u = found_here p xs x d e in
        let k = h x ∙ d in simp (d, k) (ap (λ y. some (f y)) same)
    | inr d ↦
        let ih = find-update_where p f xs h (found_later p xs x d e) in
        let k = h x ∙ d in simp (d, k, ih)
  ]

  pub All-update_where :
      (P : A → Type 0) (q : A → Bool) (f : A → A) (xs : List A)
      → ((x : A) → P x → P (f x))
      → All P xs
      → All P (update_where q f xs)
  All-update_where P q f [] k h = tt
  All-update_where P q f (x ∷ xs) k (h, hs) = elim (Bool-cases (q x)) [
    | inl e ↦ rw e (k x h, All-update_where P q f xs k hs)
    | inr e ↦ rw e (h, All-update_where P q f xs k hs)
  ]

  pub All-filter_weak :
      (P : A → Type 0) (q : A → Bool) (xs : List A) → All P xs → All P (filter q xs)
  All-filter_weak P q [] h = tt
  All-filter_weak P q (x ∷ xs) (h, hs) = elim (Bool-cases (q x)) [
    | inl e ↦ rw e (h, All-filter_weak P q xs hs)
    | inr e ↦ rw e (All-filter_weak P q xs hs)
  ]

  pub find-All :
      (P : A → Type 0) (p : A → Bool) (xs : List A) {u : A} → All P xs → find p xs ≡ some u → P u
  find-All P p [] h e = cc
  find-All P p (x ∷ xs) {u} (h, hs) e = elim (Bool-cases (p x)) [
    | inl d ↦ subst P (found_here p xs x d e) h
    | inr d ↦ find-All P p xs hs (found_later p xs x d e)
  ]

module _ {A : Type 0} where
  newer-some :
      (at : A → ℕ) (y : A) (o : Option A) {x : A} → newer at y o ≡ some x → (y ≡ x) ⊎ (o ≡ some x)
  newer-some at y none h = inl cc
  newer-some at y (some z) h = elim (Bool-cases (ltb (at y) (at z))) [
    | inl l ↦ inr (ground arith)
    | inr l ↦ inl (ground arith)
  ]

  pub find_latest-some :
      (p : A → Bool) (at : A → ℕ) (xs : List A) {x : A} → find_latest p at xs ≡ some x → p x ≡ true
  find_latest-some p at [] h = cc
  find_latest-some p at (y ∷ ys) {x} h = elim (Bool-cases (p y)) [
    | inl e ↦ elim (newer-some at y (find_latest p at ys) {x = x} (ground arith)) [
      | inl same ↦ subst (λ z. p z ≡ true) same e
      | inr later ↦ find_latest-some p at ys later
    ]
    | inr e ↦ find_latest-some p at ys (ground arith)
  ]

pub active_key-tenant_id :
    (tenant_id : Uuid) (keys : List TenantKey) {k : TenantKey}
    → active_key tenant_id keys ≡ some k
    → k.tenant_id ≡ tenant_id
active_key-tenant_id tenant_id keys h =
    let e = find_latest-some (active_of tenant_id) (λ k. k.created_at) keys h in ground arith

-- Two rows do not have one id, nor one kid in a tenant.
abbrev pub AreApart : TenantKey → TenantKey → Type 0
AreApart k x = (has_id k.id x ≡ false) × (has_kid k.tenant_id k.kid x ≡ false)

abbrev pub IsUnique : List TenantKey → Type 0
IsUnique [] = Unit {0}
IsUnique (k ∷ ks) = All (AreApart k) ks × IsUnique ks

pub IsUnique-update_where :
    (q : TenantKey → Bool) (s : KeyState) (ks : List TenantKey)
    → IsUnique ks
    → IsUnique (update_where q (set_state s) ks)
IsUnique-update_where q s [] h = tt
IsUnique-update_where q s (k ∷ ks) (h, hs) = elim (Bool-cases (q k)) [
  | inl e ↦ rw e (
    All-update_where (AreApart k) q (set_state s) ks (λ x a. a) h,
    IsUnique-update_where q s ks hs,
  )
  | inr e ↦ rw e (
    All-update_where (AreApart k) q (set_state s) ks (λ x a. a) h,
    IsUnique-update_where q s ks hs,
  )
]

pub IsUnique-filter :
    (q : TenantKey → Bool) (ks : List TenantKey) → IsUnique ks → IsUnique (filter q ks)
IsUnique-filter q [] h = tt
IsUnique-filter q (k ∷ ks) (h, hs) = elim (Bool-cases (q k)) [
  | inl e ↦ rw e (All-filter_weak (AreApart k) q ks h, IsUnique-filter q ks hs)
  | inr e ↦ rw e (IsUnique-filter q ks hs)
]

-- A row that was found by its id is the only one with it.
pub found_by_id-All :
    (i : Uuid) (ks : List TenantKey) {u : TenantKey}
    → IsUnique ks
    → find (has_id i) ks ≡ some u
    → All (λ x. has_id i x ≡ true → x ≡ u) ks
found_by_id-All i [] h e = tt
found_by_id-All i (k ∷ ks) {u} (h, hs) e = elim (Bool-cases (has_id i k)) [
  | inl d ↦ (λ _. found_here (has_id i) ks k d e, All-map (λ x a. λ b. absurd (ground arith)) ks h)
  | inr d ↦ (λ b. absurd (ground arith), found_by_id-All i ks hs (found_later (has_id i) ks k d e))
]

pub has_kid_self : (k : TenantKey) → has_kid k.tenant_id k.kid k ≡ true
has_kid_self k = ground (arith, string_eq.eqb_iff k.kid k.kid)

pub apart_sym :
    (k u : TenantKey) → has_kid k.tenant_id k.kid u ≡ false → has_kid u.tenant_id u.kid k ≡ false
apart_sym k u h = ground (arith, string_eq.eqb_iff k.kid u.kid, string_eq.eqb_iff u.kid k.kid)

-- And it is the row that its kid finds in its tenant.
pub found_by_id-has_kid :
    (i : Uuid) (ks : List TenantKey) {u : TenantKey}
    → IsUnique ks
    → find (has_id i) ks ≡ some u
    → find (has_kid u.tenant_id u.kid) ks ≡ some u
found_by_id-has_kid i [] h e = cc
found_by_id-has_kid i (k ∷ ks) {u} (h, hs) e = elim (Bool-cases (has_id i k)) [
  | inl d ↦
      let self = has_kid_self k in
      subst (λ v. find (has_kid v.tenant_id v.kid) (k ∷ ks) ≡ some v)
        (found_here (has_id i) ks k d e) (simp self)
  | inr d ↦
      let later = found_later (has_id i) ks k d e in
      let ih = found_by_id-has_kid i ks hs later in
      let apart = find-All (AreApart k) (has_id i) ks h later in
      let other = apart_sym k u apart.1 in simp other ih
]
