-- ===== src/Authorization/Membership.antt =====
-- crates/knox-storage/src/authorization/store.rs: which permissions the join of an identity's roles
-- has.
use knox_iam_public.Base.{
  ◌≡◌, refl, sym, ◌∙◌, subst, String, Bool, true, ◌&&◌, List, [], ◌∷◌, ◌++◌, ◌==◌, nat_eq,
  string_eq, filter, contains, All, ◌⊎◌, inl, inr, Bool-cases, arith,
}
use knox_iam_public.Common.Directory.{Uuid, Identity}
use knox_iam_public.Common.Authorization.{
  Role, IdentityRole, keys_of, role_keys, counts_for, joined_keys, distinct, permissions_of,
}

pub contains-append :
    (xs ys : List String) (s : String)
    → contains (xs ++ ys) s ≡ true
    → (contains xs s ≡ true) ⊎ (contains ys s ≡ true)
contains-append [] ys s h = inr h
contains-append (x ∷ xs) ys s h = elim (Bool-cases (x == s)) [
  | inl e ↦ inl (ground arith)
  | inr e ↦ elim (contains-append xs ys s (ground arith)) [
    | inl a ↦ inl (ground arith)
    | inr b ↦ inr b
  ]
]

append_right :
    (xs ys : List String) (s : String) → contains ys s ≡ true → contains (xs ++ ys) s ≡ true
append_right [] ys s h = h
append_right (x ∷ xs) ys s h = let ih = append_right xs ys s h in ground arith

append_left :
    (xs ys : List String) (s : String) → contains xs s ≡ true → contains (xs ++ ys) s ≡ true
append_left [] ys s h = cc
append_left (x ∷ xs) ys s h = elim (Bool-cases (x == s)) [
  | inl e ↦ ground arith
  | inr e ↦ let ih = append_left xs ys s (ground arith) in ground arith
]

contains-distinct : (xs : List String) (s : String) → contains (distinct xs) s ≡ contains xs s
contains-distinct [] s = refl
contains-distinct (x ∷ xs) s = elim (Bool-cases (contains (distinct xs) x)) [
  | inl e ↦ elim (Bool-cases (x == s)) [
    | inl d ↦
        let same = (string_eq.eqb_iff x s).0 d in
        let here : contains (distinct xs) s ≡ true =
          subst (λ y. contains (distinct xs) y ≡ true) same e in
        simp (e, d, here)
    | inr d ↦ let ih = contains-distinct xs s in simp (e, d, ih)
  ]
  | inr e ↦ let ih = contains-distinct xs s in simp (e, ih)
]

-- What the roles of one assignment bring, where all roles that match it lead to the same conclusion.
pub role_keys-All :
    (C : Type 0) (ir : IdentityRole) (s : String) (roles : List Role)
    → All (λ r. r.id ≡ ir.role_id → contains (keys_of r.permissions) s ≡ true → C) roles
    → contains (role_keys roles ir) s ≡ true
    → C
role_keys-All C ir s [] k h = absurd cc
role_keys-All C ir s (r ∷ rs) (k, ks) h =
    elim (Bool-cases (r.id == ir.role_id && r.tenant_id == ir.tenant_id)) [
      | inl e ↦ elim (contains-append (keys_of r.permissions) (role_keys rs ir) s (ground arith)) [
        | inl a ↦ k (ground arith) a
        | inr b ↦ role_keys-All C ir s rs ks b
      ]
      | inr e ↦ role_keys-All C ir s rs ks (ground arith)
    ]

module _ (identities : List Identity) (roles : List Role) (x : Uuid) (s : String) where
  -- A permission that the identity has by these assignments.
  abbrev pub Has : List IdentityRole → Type 0
  Has irs = contains (joined_keys identities roles x irs) s ≡ true

  pub Has-permissions_of :
      (irs : List IdentityRole)
      → contains (permissions_of identities roles irs x) s ≡ true
      → Has irs
  Has-permissions_of irs h = sym (contains-distinct (joined_keys identities roles x irs) s) ∙ h

  pub permissions_of-Has :
      (irs : List IdentityRole)
      → Has irs
      → contains (permissions_of identities roles irs x) s ≡ true
  permissions_of-Has irs h = contains-distinct (joined_keys identities roles x irs) s ∙ h

  -- One assignment more.
  pub Has-cons :
      (ir : IdentityRole) (irs : List IdentityRole)
      → Has (ir ∷ irs)
      → ((ir.identity_id ≡ x) × (contains (role_keys roles ir) s ≡ true)) ⊎ Has irs
  Has-cons ir irs h = elim (Bool-cases (counts_for identities x ir)) [
    | inl e ↦
        elim (contains-append (role_keys roles ir) (joined_keys identities roles x irs) s
          (ground arith)) [ inl a ↦ inl (ground arith, a) | inr b ↦ inr b ]
    | inr e ↦ inr (ground arith)
  ]

  -- Fewer assignments.
  pub Has-filter :
      (p : IdentityRole → Bool) (irs : List IdentityRole) → Has (filter p irs) → Has irs
  Has-filter p [] h = h
  Has-filter p (ir ∷ irs) h = elim (Bool-cases (counts_for identities x ir)) [
    | inl e ↦ elim (Bool-cases (p ir)) [
      | inl d ↦
          elim (contains-append (role_keys roles ir) (joined_keys identities roles x (filter p irs))
            s (ground arith)) [
              | inl a ↦
                  let l =
                    append_left (role_keys roles ir) (joined_keys identities roles x irs) s a in
                  ground arith
              | inr b ↦
                  let r =
                    append_right (role_keys roles ir) (joined_keys identities roles x irs) s
                      (Has-filter p irs b) in
                  ground arith
            ]
      | inr d ↦
          let r =
            append_right (role_keys roles ir) (joined_keys identities roles x irs) s
              (Has-filter p irs (ground arith)) in
          ground arith
    ]
    | inr e ↦ elim (Bool-cases (p ir)) [
      | inl d ↦ let ih = Has-filter p irs (ground arith) in ground arith
      | inr d ↦ let ih = Has-filter p irs (ground arith) in ground arith
    ]
  ]
