-- ===== src/Oidc/Rotation/Reachable.antt =====
-- The refresh tokens over any run of the service.
use knox_iam_public.Base.{◌≡◌, sym, ap, subst, ◌≤◌, String, [], arith, Bool}
use knox_iam_public.Common.Directory.{Uuid, AuthorizationConfiguration}
use knox_iam_public.Externals.{Externals}
use knox_iam_public.World.{World}
use knox_iam_public.World.Frame.{storage-Keeps, Keeps}
use knox_iam_public.Token.Families.{live_count, live_count-revoke}
use knox_iam_public.Token.Store
use knox_iam_public.Token.Service
use knox_iam_public.Oidc.Models.{TokenGrantRequest}
use knox_iam_public.Oidc.Token.{handle_token_request}
use knox_iam_public.Oidc.Rotation.{none_revived}
use knox_iam_public.Oidc.Rotation.Invariant.{FamiliesOk, FamiliesOk-NoneRevived}
use knox_iam_public.Oidc.Rotation.Request.{handle_token_request-FamiliesOk}

module _ (ext : Externals) where
  -- A token request, the revocation of all tokens of an identity (on logout and password changes),
  -- or anything that leaves the refresh tokens alone: the other calls, a tick of the clock.
  pub data Step : World ext → World ext → Type 0 where
    request :
        (tenant_id : Uuid) (tenant_is_platform : Bool) (issuer : String) (req : TokenGrantRequest)
        (config : AuthorizationConfiguration) (w : World ext)
        → Step w (handle_token_request ext tenant_id tenant_is_platform issuer req config w).1
    revoke_all :
        (tenant_id identity_id : Uuid) (w : World ext)
        → Step w (Service.revoke_all_for_identity ext tenant_id identity_id w).1
    elsewhere :
        (v w : World ext) → w.refresh_tokens ≡ v.refresh_tokens → v.draws ≤ w.draws → Step v w

  pub data Run : World ext → World ext → Type 0 where
    start : (w : World ext) → Run w w
    next : (u v w : World ext) → Run u v → Step v w → Run u w

  revoke_all-Keeps :
      (tenant_id identity_id : Uuid)
      → Keeps (none_revived ext) (Service.revoke_all_for_identity ext tenant_id identity_id)
  unfolding Keeps Service.revoke_all_for_identity Store.revoke_all_for_identity
  revoke_all-Keeps tenant_id identity_id = storage-Keeps (none_revived ext) _ (λ w. record {
    draws = omega arith;
    live = λ f. live_count-revoke _ w.now f w.refresh_tokens;
  })

  Step-FamiliesOk : (v w : World ext) → Step v w → FamiliesOk v → FamiliesOk w
  unfolding Keeps
  Step-FamiliesOk _ _ (request tenant_id platform issuer req config w) h =
      handle_token_request-FamiliesOk ext tenant_id platform issuer req config w h
  Step-FamiliesOk _ _ (revoke_all tenant_id identity_id w) h =
      FamiliesOk-NoneRevived w _ (revoke_all-Keeps tenant_id identity_id w) h
  Step-FamiliesOk _ _ (elsewhere v w e d) h =
      FamiliesOk-NoneRevived v w
        (record {
          draws = d;
          live = λ f.
              subst (λ rows. live_count f rows ≤ live_count f v.refresh_tokens) (sym e)
                (omega arith);
        })
        h

  Run-FamiliesOk : (v w : World ext) → Run v w → FamiliesOk v → FamiliesOk w
  Run-FamiliesOk _ _ (start w) h = h
  Run-FamiliesOk _ _ (next u v w r s) h = Step-FamiliesOk v w s (Run-FamiliesOk u v r h)

  -- From a state without refresh tokens, no run of token requests, revocations and other calls,
  -- with any storage failures between them, ever leaves two live refresh tokens in one family.
  pub single_live_token :
      (v w : World ext) (f : Uuid)
      → v.refresh_tokens ≡ []
      → Run v w
      → live_count f w.refresh_tokens ≤ 1
  single_live_token v w f e r =
      let empty : FamiliesOk v = record {
        single = λ g. subst (λ rows. live_count g rows ≤ 1) (sym e) (omega arith);
        undrawn = λ n _. ap (live_count (ext.new_v4 n)) e;
      } in
      let h = Run-FamiliesOk v w r empty in h.single f
