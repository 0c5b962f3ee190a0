-- ===== src/Mfa/Options.antt =====
-- crates/knox-core/src/mfa.rs: what `get_available_options` tells of the table.
use knox_iam_public.Base.{
  ◌≡◌, refl, ◌∙◌, ap, Bool, true, false, ◌&&◌, not, List, [], ◌∷◌, any, map, is_empty,
  ◌++◌ as append, if◌then◌else◌,
}
use knox_iam_public.Base.Rows.{is_empty-filter}
use knox_iam_public.Common.Directory.{Uuid}
use knox_iam_public.Common.Mfa.{MfaMethod, MfaOption, option_of_kind}
use knox_iam_public.Externals.{Externals}
use knox_iam_public.World.{World, Action, ok, pure, ◌>>=◌}
use knox_iam_public.World.Laws.{>>=-eq-ok, query-eq-ok, pure-eq-ok}
use knox_iam_public.Mfa.Store.{of_identity, is_verified, list_verified_methods}
use knox_iam_public.Mfa.Service.{get_available_options, offers_backup_code}

module _ {ext : Externals} where
  -- Whether the identity has a verified method.
  abbrev pub has_second_factor : World ext → Uuid → Uuid → Bool
  has_second_factor w tenant_id identity_id =
      any (λ m. of_identity tenant_id identity_id m && is_verified m) w.mfa_methods

  -- The options that are listed, the backup code last.
  listed-eq-ok :
      (m : Action ext Bool) (o : MfaOption) (os : List MfaOption) (w : World ext)
      {options : List MfaOption} {w' : World ext}
      → (m >>= λ more. pure (if more then append (o ∷ os) (MfaOption.backup_code ∷ []) else o ∷ os))
          w
        ≡ (ok options, w')
      → is_empty options ≡ false
  listed-eq-ok m o os w h =
      let (more, w1, h1, h2) = >>=-eq-ok _ _ w h in ap is_empty (pure-eq-ok _ _ h2).0 ∙ shape more
    where
      shape :
          (b : Bool)
          → is_empty (if b then append (o ∷ os) (MfaOption.backup_code ∷ []) else o ∷ os) ≡ false
      shape true = refl
      shape false = refl

  offers-eq-ok :
      (tenant_id identity_id : Uuid) (methods : List MfaMethod) (w : World ext)
      {options : List MfaOption} {w' : World ext}
      → (offers_backup_code ext tenant_id identity_id
              (map (λ (m : MfaMethod). option_of_kind m.method) methods)
            >>= λ more. pure (
                if more
                then append
                    (map (λ (m : MfaMethod). option_of_kind m.method) methods)
                    (MfaOption.backup_code ∷ [])
                else map (λ (m : MfaMethod). option_of_kind m.method) methods))
          w
        ≡ (ok options, w')
      → is_empty options ≡ is_empty methods
  offers-eq-ok tenant_id identity_id [] w h =
      let (more, w1, h1, h2) = >>=-eq-ok _ _ w h in
      let (e, _) = pure-eq-ok false w h1 in
      ap is_empty ((pure-eq-ok _ _ h2).0 ∙ ap (λ b. if b then MfaOption.backup_code ∷ [] else []) e)
  offers-eq-ok tenant_id identity_id (m ∷ ms) w h = listed-eq-ok _ _ _ w h

  pub get_available_options-eq-ok :
      (tenant_id identity_id : Uuid) (w : World ext) {options : List MfaOption} {w' : World ext}
      → get_available_options ext tenant_id identity_id w ≡ (ok options, w')
      → not (is_empty options) ≡ has_second_factor w tenant_id identity_id
  unfolding get_available_options list_verified_methods
  get_available_options-eq-ok tenant_id identity_id w h =
      let (methods, w1, h1, h2) = >>=-eq-ok _ _ w h in
      let (rest, e, found) = query-eq-ok _ w h1 in
      ap not (offers-eq-ok tenant_id identity_id methods w1 h2)
      ∙ ap (λ ms. not (is_empty ms)) found
      ∙ is_empty-filter _ w.mfa_methods
