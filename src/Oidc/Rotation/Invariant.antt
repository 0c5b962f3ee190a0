-- ===== src/Oidc/Rotation/Invariant.antt =====
-- crates/knox-services/src/oidc/service.rs: at most one refresh token of a family is live, over
-- `handle_token_request`.
use knox_iam_public.Base.{
  ◌≡◌, ◌≢◌, sym, ◌∙◌, subst, ℕ, ◌≤◌, ◌∷◌, arith, ◌==◌, nat_eq, Bool-cases, inl, inr, string_eq,
}
use knox_iam_public.Common.Directory.{Uuid}
use knox_iam_public.Common.Token.{RefreshToken}
use knox_iam_public.Externals.{Externals}
use knox_iam_public.World.{World}
use knox_iam_public.Token.Families.{live_count, live_count-other, live_count-add}
use knox_iam_public.Oidc.Rotation.{NoneRevived}

module _ {ext : Externals} where
  -- At most one token of a family is live, and none of a family whose id is yet to be drawn.
  pub record FamiliesOk (w : World ext) : Type 0 where
    pub single : (f : Uuid) → live_count f w.refresh_tokens ≤ 1
    pub undrawn : (n : ℕ) → w.draws ≤ n → live_count (ext.new_v4 n) w.refresh_tokens ≡ 0

  -- A family that a new token may join.
  pub record IsVacant (w : World ext) (f : Uuid) : Type 0 where
    pub none_live : live_count f w.refresh_tokens ≡ 0
    pub drawn : (n : ℕ) → w.draws ≤ n → ext.new_v4 n ≢ f

  pub FamiliesOk-NoneRevived : (v w : World ext) → NoneRevived v w → FamiliesOk v → FamiliesOk w
  FamiliesOk-NoneRevived v w h k =
      let d = h.draws in
      record {
        single = λ f. let a = h.live f in let b = k.single f in omega arith;
        undrawn = λ n le.
            let a = h.live (ext.new_v4 n) in let b = k.undrawn n (omega arith) in omega arith;
      }

  pub IsVacant-NoneRevived :
      (v w : World ext) (f : Uuid) → NoneRevived v w → IsVacant v f → IsVacant w f
  IsVacant-NoneRevived v w f h k =
      let d = h.draws in
      record {
        none_live = let a = h.live f in let b = k.none_live in omega arith;
        drawn = λ n le. k.drawn n (omega arith);
      }

  -- A token may be added to a vacant family.
  pub add-FamiliesOk :
      (w : World ext) (token : RefreshToken)
      → FamiliesOk w
      → IsVacant w token.family_id
      → FamiliesOk (record w { refresh_tokens = token ∷ w.refresh_tokens })
  add-FamiliesOk w token h k = record {
    single = λ g. elim (Bool-cases (token.family_id == g)) [
      | inl e ↦
          let same : token.family_id ≡ g = (nat_eq.eqb_iff token.family_id g).0 e in
          let a = live_count-add token w.refresh_tokens g in
          let b : live_count g w.refresh_tokens ≡ 0 =
            subst (λ x. live_count x w.refresh_tokens ≡ 0) same k.none_live in
          omega arith
      | inr e ↦
          let a =
            live_count-other token w.refresh_tokens g
              (λ s. ground (arith, (nat_eq.eqb_iff token.family_id g).1)) in
          let b = h.single g in omega arith
    ];
    undrawn = λ n le.
        live_count-other token w.refresh_tokens (ext.new_v4 n) (λ e. k.drawn n le (sym e))
        ∙ h.undrawn n le;
  }
