-- ===== src/Oidc/Scopes/Laws.antt =====
-- crates/knox-services/src/oidc/service.rs: what `permitted_scopes` grants.
use knox_iam_public.Base.{
  ◌≡◌, refl, sym, ◌∙◌, ap, Bool, true, false, ◌&&◌, ◌||◌, not, String, string_eq, List, [], ◌∷◌,
  any, filter, contains, All, arith, is_empty, Bool-cases, inl, inr, if◌then◌else◌,
}
use knox_iam_public.Base.Rows.{
  filter-filter, filter_all, filter_ext, All-filter, All-map, All-contains,
}
use knox_iam_public.Common.Directory.{Uuid, AuthorizationConfiguration}
use knox_iam_public.Externals.{Externals}
use knox_iam_public.World.{held_by, World, ok}
use knox_iam_public.World.Laws.{>>=-eq-ok, query-eq-ok, pure-eq-ok}
use knox_iam_public.Identity.{get_permissions}
use knox_iam_public.Mfa.Store.{of_identity, is_verified}
use knox_iam_public.Mfa.Options.{has_second_factor, get_available_options-eq-ok}
use knox_iam_public.Authentication.Session.{has_verified_mfa}
use knox_iam_public.Oidc.Scopes.{
  is_held, is_kept_without_mfa, refuse_empty, withhold, narrow_for_mfa, permitted_scopes,
}

and_true : (b : Bool) → b ≡ (b && true)
and_true b = ground arith

-- Looking the second factor up only where a scope depends on it makes no difference.
narrowing_lem :
    (ext : Externals) (required enrolled : Bool) (held : String → Bool) (requested : List String)
    → (if required && any (λ s. not (is_kept_without_mfa s)) (filter held requested)
        then withhold ext enrolled (filter held requested)
        else filter held requested)
      ≡ filter (λ s. held s && (not required || enrolled || is_kept_without_mfa s)) requested
narrowing_lem ext false enrolled held requested = filter_ext _ _ (λ s. and_true (held s)) requested
narrowing_lem ext true true held requested =
    if_same (any (λ s. not (is_kept_without_mfa s)) (filter held requested)) (filter held requested)
    ∙ filter_ext _ _ (λ s. and_true (held s)) requested
  where
    if_same : (b : Bool) (x : List String) → (if b then x else x) ≡ x
    if_same true x = refl
    if_same false x = refl
narrowing_lem ext true false held requested =
    elim (Bool-cases (any (λ s. not (is_kept_without_mfa s)) (filter held requested))) [
      | inl e ↦ rw e (filter-filter is_kept_without_mfa held requested)
      | inr e ↦ rw e (
          sym (filter_all is_kept_without_mfa (filter held requested) e)
          ∙ filter-filter is_kept_without_mfa held requested)
    ]

module _ {ext : Externals} where
  -- The test that a requested scope has to pass.
  abbrev pub may_grant : World ext → Uuid → Uuid → AuthorizationConfiguration → String → Bool
  may_grant w tenant_id identity_id config s =
      is_held (held_by w identity_id) s
      && (not config.require_admin_mfa
          || has_second_factor w tenant_id identity_id
          || is_kept_without_mfa s)

  get_permissions-eq-ok :
      (identity_id : Uuid) (w : World ext) {held : List String} {w' : World ext}
      → get_permissions ext identity_id w ≡ (ok held, w')
      → (held ≡ held_by w identity_id) × (w'.mfa_methods ≡ w.mfa_methods)
  unfolding get_permissions
  get_permissions-eq-ok identity_id w h =
      let (rest, e, e') = query-eq-ok _ w h in (e', ap (λ v. v.mfa_methods) e)

  refuse_empty-eq-ok :
      (ss : List String) (w : World ext) {granted : List String} {w' : World ext}
      → refuse_empty ext ss w ≡ (ok granted, w')
      → (granted ≡ ss) × (is_empty ss ≡ false)
  refuse_empty-eq-ok [] w h = cc
  refuse_empty-eq-ok (s ∷ ss) w h = (cc, refl)

  narrow_for_mfa-eq-ok :
      (needed : Bool) (tenant_id identity_id : Uuid) (granted : List String) (w : World ext)
      {left : List String} {w' : World ext}
      → narrow_for_mfa ext needed tenant_id identity_id granted w ≡ (ok left, w')
      → left ≡ (
          if needed
          then withhold ext (has_second_factor w tenant_id identity_id) granted
          else granted)
  unfolding narrow_for_mfa has_verified_mfa
  narrow_for_mfa-eq-ok false tenant_id identity_id granted w h = (pure-eq-ok _ _ h).0
  narrow_for_mfa-eq-ok true tenant_id identity_id granted w h =
      let (enrolled, w1, h1, h2) = >>=-eq-ok _ _ w h in
      let (options, w2, h3, h4) = >>=-eq-ok _ _ w h1 in
      let (e, _) = refuse_empty-eq-ok _ w1 h2 in
      let e' = (pure-eq-ok _ w2 h4).0 ∙ get_available_options-eq-ok tenant_id identity_id w h3 in
      e ∙ ap (λ b. withhold ext b granted) e'

  pub permitted_scopes-eq-ok :
      (tenant_id identity_id : Uuid) (requested : List String) (config : AuthorizationConfiguration)
      (w : World ext) {granted : List String} {w' : World ext}
      → permitted_scopes ext tenant_id identity_id requested config w ≡ (ok granted, w')
      → (granted ≡ filter (may_grant w tenant_id identity_id config) requested)
        × (is_empty granted ≡ false)
  unfolding permitted_scopes
  permitted_scopes-eq-ok tenant_id identity_id requested config w h =
      let (held, w1, h1, h2) = >>=-eq-ok _ _ w h in
      let (left, w2, h3, h4) = >>=-eq-ok _ _ w1 h2 in
      let (e1, e2) = get_permissions-eq-ok identity_id w h1 in
      let e3 = narrow_for_mfa-eq-ok _ tenant_id identity_id _ w1 h3 in
      let (e4, n) = refuse_empty-eq-ok left w2 h4 in
      (
        e4
            ∙ e3
            ∙ narrowing_lem ext config.require_admin_mfa
                (has_second_factor w1 tenant_id identity_id) (is_held held) requested
            ∙ (λ i.
                filter
                  (λ s.
                    is_held (e1 i) s
                    && (not config.require_admin_mfa
                        || any (λ m. of_identity tenant_id identity_id m && is_verified m) (e2 i)
                        || is_kept_without_mfa s))
                  requested),
        ap is_empty e4 ∙ n,
      )

  -- Whatever is granted was requested and is held, or is a scope of OpenID Connect; where the
  -- tenant asks for a second factor and none is enrolled, it is also one that needs none.
  pub permitted_scopes_sound :
      (tenant_id identity_id : Uuid) (requested : List String) (config : AuthorizationConfiguration)
      (w : World ext) {granted : List String} {w' : World ext}
      → permitted_scopes ext tenant_id identity_id requested config w ≡ (ok granted, w')
      → All
          (λ s.
            (contains requested s ≡ true)
            × (is_held (held_by w identity_id) s ≡ true)
            × ((config.require_admin_mfa ≡ true)
                → (has_second_factor w tenant_id identity_id ≡ false)
                → is_kept_without_mfa s ≡ true))
          granted
  permitted_scopes_sound tenant_id identity_id requested config w h =
      let (e, _) = permitted_scopes-eq-ok tenant_id identity_id requested config w h in
      rw e (
        All-map (λ s (c, t). (c, ground arith, λ a b. ground arith)) _
          (All-filter _ _ requested (All-contains requested)))

  pub may_grant_same :
      (v w : World ext) (tenant_id identity_id : Uuid) (config : AuthorizationConfiguration)
      → held_by v ≡ held_by w
      → v.mfa_methods ≡ w.mfa_methods
      → may_grant v tenant_id identity_id config ≡ may_grant w tenant_id identity_id config
  may_grant_same v w tenant_id identity_id config e m i s =
      is_held (e i identity_id) s
      && (not config.require_admin_mfa
          || any (λ m. of_identity tenant_id identity_id m && is_verified m) (m i)
          || is_kept_without_mfa s)
