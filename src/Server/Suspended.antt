-- ===== src/Server/Suspended.antt =====
-- server/src/handlers/identity.rs: an identity that an update leaves not active is signed out.
use knox_iam_public.Base.{
  ◌≡◌, refl, sym, ap, ◌∙◌, count, Bool, true, false, ◌&&◌, not, Option, is_some, inl, inr, arith,
}
use knox_iam_public.Common.Directory.{Uuid, PublicIdentity, is_active, public_identity}
use knox_iam_public.Common.Token.{JwtClaims}
use knox_iam_public.Common.Audit.{AuditEventType, AuditOutcome}
use knox_iam_public.Externals.{Externals}
use knox_iam_public.World.{World, ok}
use knox_iam_public.World.Laws.{>>=-eq-ok, map_err-eq-ok, pure-eq-ok, when-eq-ok-cases}
use knox_iam_public.Identity.Administration.{UpdateIdentityRequest}
use knox_iam_public.Token.Store.{live_of_identity}
use knox_iam_public.Authentication.PasswordChange.{live_of, revoke_all_sessions-live_of}
use package.knox_iam_public.Server.Access.{ResolvedTenant}
use package.knox_iam_public.Server.Granted.{audit-tables}
use package.knox_iam_public.Server.Requests.{Body, Response}
use package.knox_iam_public.Server.Identities.{update_identity}

shown_injective : {p q : PublicIdentity} → Body.identity p ≡ Body.identity q → p ≡ q
shown_injective e = cc

module _ (ext : Externals) (tenant : ResolvedTenant) where
  -- An update that names a status, and is answered with an identity that is not active, leaves no
  -- live refresh token of that identity in the tenant.
  pub update_identity-live_of :
      (claims : JwtClaims) (id : Uuid) (requested : Option Uuid) (update : UpdateIdentityRequest)
      (w w' : World ext) (r : Response) (shown : PublicIdentity)
      → update_identity ext tenant claims id requested update w ≡ (ok r, w')
      → r.body ≡ Body.identity shown
      → is_some update.status ≡ true
      → is_active shown.status ≡ false
      → live_of w' tenant.id id ≡ 0
  unfolding update_identity
  update_identity-live_of claims id requested update w w' r shown h body named inactive =
      let (_, w1, _, k1) = >>=-eq-ok _ _ w h in
      let (_, w2, _, k2) = >>=-eq-ok _ _ w1 k1 in
      let (p, w3, _, k3) = >>=-eq-ok _ _ w2 k2 in
      let (updated, w4, _, k4) = >>=-eq-ok _ _ w3 k3 in
      let (_, w5, h5, k5) = >>=-eq-ok _ _ w4 k4 in
      let (_, w6, h6, k6) = >>=-eq-ok _ _ w5 k5 in
      let (e, s) = pure-eq-ok _ w6 k6 in
      let same : shown ≡ public_identity updated =
        shown_injective (sym body ∙ ap (λ x. x.body) e) in
      let off : is_active updated.status ≡ false =
        ap (λ x. is_active x.status) (sym same) ∙ inactive in
      let logged =
        audit-tables (λ v. v.refresh_tokens) tenant.id AuditEventType.identity_updated claims
          AuditOutcome.success w5 (λ _. refl) h6 in
      let last : live_of w' tenant.id id ≡ live_of w5 tenant.id id =
        ap (λ v. live_of v tenant.id id) s
        ∙ ap (λ rows. count (live_of_identity tenant.id id) rows) logged in
      elim (when-eq-ok-cases _ _ w4 h5) [
        | inl (quiet, _) ↦ absurd (both _ _ named off quiet)
        | inr (_, run) ↦
            last
            ∙ revoke_all_sessions-live_of tenant.id id tenant.config w4 (map_err-eq-ok _ _ w4 run)
      ]
    where
      both : (a b : Bool) → a ≡ true → b ≡ false → ¬ ((a && not b) ≡ false)
      both a b p q r = ground arith
