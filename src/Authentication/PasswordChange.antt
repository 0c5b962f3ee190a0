-- ===== src/Authentication/PasswordChange.antt =====
-- crates/knox-core/src/authentication.rs: a password change ends the refresh tokens.
use knox_iam_public.Base.{
  ◌≡◌, refl, sym, ◌∙◌, ap, ℕ, String, Option, some, List, count, update_where, arith, nat_eq,
}
use knox_iam_public.Base.Rows.{count-update_where_none}
use knox_iam_public.Common.Directory.{Uuid, Identity, AuthenticationConfiguration}
use knox_iam_public.Common.Mfa.{MfaOption}
use knox_iam_public.Common.Token.{RefreshToken}
use knox_iam_public.Externals.{Externals}
use knox_iam_public.World.{World, ok}
use knox_iam_public.World.Laws.{>>=-eq-ok, storage-eq-ok, pure-eq-ok}
use knox_iam_public.World.Frame.{Relation, Keeps-eq}
use knox_iam_public.Token.Counters.{bump_sso_epoch-Keeps}
use knox_iam_public.Token.Store
use knox_iam_public.Token.Store.{live_of_identity, set_revoked}
use knox_iam_public.Token.Repository
use knox_iam_public.Token.Service
use knox_iam_public.Identity
use knox_iam_public.Authentication.Session.{revoke_all_sessions}
use knox_iam_public.Authentication.Password.{check_second_factor}

abbrev same_refresh_tokens : (ext : Externals) → Relation ext
same_refresh_tokens ext = record {
  rel = λ u v. v.refresh_tokens ≡ u.refresh_tokens;
  rel_refl = λ w. refl;
  rel_trans = λ u v w h k. k ∙ h;
  rel_outages = λ w os. refl;
}

-- The live refresh tokens of an identity.
abbrev pub live_of : {ext : Externals} → World ext → Uuid → Uuid → ℕ
live_of w tenant_id identity_id = count (live_of_identity tenant_id identity_id) w.refresh_tokens

none_live :
    (tenant_id identity_id : Uuid) (now : ℕ) (rows : List RefreshToken)
    → count
        (live_of_identity tenant_id identity_id)
        (update_where (live_of_identity tenant_id identity_id) (set_revoked now) rows)
      ≡ 0
none_live tenant_id identity_id now rows =
    count-update_where_none (live_of_identity tenant_id identity_id) (set_revoked now)
      (λ r _. ground arith) rows

-- The second factor that was given passed its check in some state.
pub record IsFactor (ext : Externals) (tenant_id identity_id : Uuid)
    (mfa : Option (MfaOption × String)) (config : AuthenticationConfiguration) : Type 0 where
  pub method : MfaOption
  pub code : String
  pub given : mfa ≡ some (method, code)
  pub v : World ext
  pub v' : World ext
  pub verified : check_second_factor ext tenant_id identity_id method code config v ≡ (ok tt, v')

module _ {ext : Externals} where
  revoke_all_for_identity-eq-ok :
      (tenant_id identity_id : Uuid) (w : World ext) {u : Unit {0}} {w' : World ext}
      → Service.revoke_all_for_identity ext tenant_id identity_id w ≡ (ok u, w')
      → live_of w' tenant_id identity_id ≡ 0
  unfolding Service.revoke_all_for_identity Repository.revoke_all_for_identity
      Store.revoke_all_for_identity
  revoke_all_for_identity-eq-ok tenant_id identity_id w h =
      let (rest, e) = storage-eq-ok _ w h in
      ap (λ p. count (live_of_identity tenant_id identity_id) p.1.refresh_tokens) (sym e)
      ∙ none_live tenant_id identity_id w.now w.refresh_tokens

  pub revoke_all_sessions-live_of :
      (tenant_id identity_id : Uuid) (config : AuthenticationConfiguration) (w : World ext)
      {u : Unit {0}} {w' : World ext}
      → revoke_all_sessions ext tenant_id identity_id config w ≡ (ok u, w')
      → live_of w' tenant_id identity_id ≡ 0
  unfolding revoke_all_sessions
  revoke_all_sessions-live_of tenant_id identity_id config w h =
      let (_, w1, h1, k1) = >>=-eq-ok _ _ w h in
      let (_, w2, h2, k2) = >>=-eq-ok _ _ w1 k1 in
      let (_, e) = pure-eq-ok _ w2 k2 in
      let bumped =
        Keeps-eq (same_refresh_tokens ext) _ w1
          (bump_sso_epoch-Keeps (same_refresh_tokens ext) (λ _ _. refl) tenant_id identity_id _)
          h2 in
      ap (λ rows. count (live_of_identity tenant_id identity_id) rows)
        (ap (λ v. v.refresh_tokens) e ∙ bumped)
      ∙ revoke_all_for_identity-eq-ok tenant_id identity_id w h1
