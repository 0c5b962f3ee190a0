-- ===== src/Oidc/Rotation/Issue.antt =====
-- crates/knox-services/src/oidc/service.rs: the families of refresh tokens over `handle_token_request`.
use knox_iam_public.Base.{
  ◌≡◌, refl, subst, suc, Bool, true, false, ◌||◌, Option, none, some, String, List, ◌∷◌, arith, any,
  ◌==◌, nat_eq, string_eq, if◌then◌else◌,
}
use knox_iam_public.Common.Error.{ServiceError, RepositoryError}
use knox_iam_public.Common.Directory.{Uuid}
use knox_iam_public.Common.Token.{RefreshToken}
use knox_iam_public.Externals.{Externals}
use knox_iam_public.World.{World, Action, ok, err, pure, ◌>>=◌}
use knox_iam_public.World.Laws.{>>=-state, storage-state}
use knox_iam_public.Token.Store.{create}
use knox_iam_public.Token.Service
use knox_iam_public.Token.Service.{new_v4, generate_opaque_token}
use knox_iam_public.Oidc.Models.{MintingContext}
use knox_iam_public.Oidc.Token.{family_or_new, issue_refresh_token}
use knox_iam_public.Oidc.Rotation.{NoneRevived}
use knox_iam_public.Oidc.Rotation.Invariant.{
  FamiliesOk, IsVacant, FamiliesOk-NoneRevived, IsVacant-NoneRevived, add-FamiliesOk,
}

module _ {ext : Externals} where
  idle : (w : World ext) (os : List Bool) → NoneRevived w (record w { outages = os })
  idle w os = record { draws = omega arith; live = λ f. omega arith }

  -- The answer of the INSERT, where a key is taken or not.
  abbrev inserted : Bool → RefreshToken → Action ext RefreshToken
  inserted taken token w =
      if taken
      then (err (ServiceError.repository RepositoryError.database), w)
      else (ok token, record w { refresh_tokens = token ∷ w.refresh_tokens })

  insert-FamiliesOk :
      (b : Bool) (token : RefreshToken) (w : World ext)
      → FamiliesOk w
      → IsVacant w token.family_id
      → FamiliesOk (inserted b token w).1
  insert-FamiliesOk true token w h k = h
  insert-FamiliesOk false token w h k = add-FamiliesOk w token h k

  save-FamiliesOk :
      (token : RefreshToken) (w : World ext)
      → FamiliesOk w
      → IsVacant w token.family_id
      → FamiliesOk (Service.save_refresh_token ext token w).1
  unfolding Service.save_refresh_token create
  save-FamiliesOk token w h k =
      storage-state FamiliesOk _ w (λ os. FamiliesOk-NoneRevived w _ (idle w os) h)
        (λ os.
          insert-FamiliesOk
            (any (λ r. r.id == token.id || r.token_hash == token.token_hash) w.refresh_tokens) token
            (record w { outages = os }) (FamiliesOk-NoneRevived w _ (idle w os) h)
            (IsVacant-NoneRevived w _ token.family_id (idle w os) k))

  -- The family that a grant names, or the next draw, is vacant.
  join-FamiliesOk :
      (family : Option Uuid) (k : Uuid → Action ext (Option String)) (w : World ext)
      → FamiliesOk w
      → ((f : Uuid) → family ≡ some f → IsVacant w f)
      → ((f : Uuid) (v : World ext) → FamiliesOk v → IsVacant v f → FamiliesOk (k f v).1)
      → FamiliesOk ((family_or_new ext family >>= k) w).1
  unfolding ◌>>=◌ new_v4
  join-FamiliesOk none k w h vacant keep =
      let v = record w { draws = suc w.draws } in
      keep (ext.new_v4 w.draws) v
        (FamiliesOk-NoneRevived w v (record { draws = omega arith; live = λ f. omega arith }) h)
        (record {
          none_live = h.undrawn w.draws (omega arith);
          drawn = λ n le e. let same = ext.new_v4_injective n w.draws e in omega arith;
        })
  join-FamiliesOk (some f) k w h vacant keep = keep f w h (vacant f refl)

  saved-FamiliesOk :
      (token : RefreshToken) (raw : String) (w : World ext)
      → FamiliesOk w
      → IsVacant w token.family_id
      → FamiliesOk ((Service.save_refresh_token ext token >>= λ _. pure (some raw)) w).1
  saved-FamiliesOk token raw w h k =
      let saved = save-FamiliesOk token w h k in
      >>=-state FamiliesOk _ _ w saved (λ a t e. subst (λ p. FamiliesOk p.1) e saved)

  -- A refresh token is issued into its grant's family, where that is vacant, or into a new one.
  pub issue_refresh_token-FamiliesOk :
      (allow : Bool) (identity_id : Option Uuid) (tenant_id : Uuid) (context : MintingContext)
      (w : World ext)
      → FamiliesOk w
      → ((f : Uuid) → context.refresh_token_family_id ≡ some f → IsVacant w f)
      → FamiliesOk (issue_refresh_token ext allow identity_id tenant_id context w).1
  unfolding issue_refresh_token ◌>>=◌ generate_opaque_token new_v4
  issue_refresh_token-FamiliesOk true (some identity_id) tenant_id context w h vacant =
      let v = record w { draws = suc (suc w.draws) } in
      let d : NoneRevived w v = record { draws = omega arith; live = λ f. omega arith } in
      join-FamiliesOk context.refresh_token_family_id _ v (FamiliesOk-NoneRevived w v d h)
        (λ f e. IsVacant-NoneRevived w v f d (vacant f e))
        (λ f u hu ku. saved-FamiliesOk _ _ u hu ku)
  issue_refresh_token-FamiliesOk true none tenant_id context w h vacant = h
  issue_refresh_token-FamiliesOk false identity_id tenant_id context w h vacant = h
