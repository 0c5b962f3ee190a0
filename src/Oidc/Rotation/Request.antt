-- ===== src/Oidc/Rotation/Request.antt =====
-- crates/knox-services/src/oidc/service.rs: the families of refresh tokens over `handle_token_request`.
use knox_iam_public.Base.{
  ◌≡◌, sym, ◌∙◌, ap, subst, ◌≤◌, Bool, false, Option, none, some, String, arith, is_some, find,
  update_where,
}
use knox_iam_public.Common.Error.{ServiceError}
use knox_iam_public.Common.Audit.{AuditEventType, AuditActor, AuditOutcome}
use knox_iam_public.Common.Directory.{Uuid, AuthorizationConfiguration}
use knox_iam_public.Common.Token.{RefreshToken}
use knox_iam_public.Externals.{Externals}
use knox_iam_public.World.{World, Action, ok, pure, ◌>>=◌, ◌>>◌}
use knox_iam_public.World.Frame.{Keeps, Keeps-eq, frame, on_error-Keeps}
use knox_iam_public.World.Laws.{>>=-state, on_error-eq-ok}
use knox_iam_public.Audit.{record_event}
use knox_iam_public.Token.Families.{live_count, live_count-revoke_found}
use knox_iam_public.Token.Store.{set_revoked, live_with_id}
use knox_iam_public.Oidc.Models.{MintingContext, TokenGrantRequest, TokenResponse}
use knox_iam_public.Oidc.Token.{
  issue_id_token, issue_tokens, handle_token_request, validate_grant, audit_rejection,
}
use knox_iam_public.Oidc.Tables
use knox_iam_public.Oidc.Machine.{validate_client_credentials-eq-ok}
use knox_iam_public.Oidc.Redemption.{validate_authorization_code-eq-ok}
use knox_iam_public.Oidc.Rotation
use knox_iam_public.Oidc.Rotation.{NoneRevived, none_revived, quiet, validate_grant-Keeps}
use knox_iam_public.Oidc.Rotation.Refresh.{validate_refresh_token-eq-ok}
use knox_iam_public.Oidc.Rotation.Invariant.{
  FamiliesOk, IsVacant, FamiliesOk-NoneRevived, IsVacant-NoneRevived,
}
use knox_iam_public.Oidc.Rotation.Issue.{issue_refresh_token-FamiliesOk}

some_injective : {A : Type 0} (a b : A) → some a ≡ some b → a ≡ b
some_injective a b e = cc

none_not_some : {A : Type 0} (o : Option A) (a : A) → o ≡ none → ¬ (o ≡ some a)
none_not_some o a e k = cc

module _ (ext : Externals) where
  Keeps-FamiliesOk :
      {A : Type 0} (m : Action ext A) (w : World ext)
      → Keeps (none_revived ext) m
      → FamiliesOk w
      → FamiliesOk (m w).1
  unfolding Keeps
  Keeps-FamiliesOk m w k h = FamiliesOk-NoneRevived w _ (k w) h

  tail-Keeps :
      (b : Bool) (tenant_id : Uuid) (actor : AuditActor) (issuer token : String)
      (context : MintingContext) (response : Option String → TokenResponse)
      → Keeps (none_revived ext) (
          record_event ext tenant_id AuditEventType.token_issued actor AuditOutcome.success
          >> (issue_id_token ext b tenant_id issuer context token >>= λ t. pure (response t)))
  tail-Keeps b tenant_id actor issuer token context response =
      search (frame, Rotation.record_event-Keeps, quiet, Tables.issue_id_token-Keeps) depth 12

  -- What is issued keeps the families in order, where the family of the grant is vacant.
  issue_tokens-FamiliesOk :
      (tenant_id : Uuid) (issuer : String) (context : MintingContext) (w : World ext)
      → FamiliesOk w
      → ((f : Uuid) → context.refresh_token_family_id ≡ some f → IsVacant w f)
      → FamiliesOk (issue_tokens ext tenant_id issuer context w).1
  unfolding issue_tokens
  issue_tokens-FamiliesOk tenant_id issuer context w h vacant =
      let k1 = quiet ext _ (Tables.pool_kind_for-Keeps ext tenant_id context.client.pool_id) in
      >>=-state FamiliesOk _ _ w (Keeps-FamiliesOk _ w k1 h) λ kind w1 e1.
        let n1 : NoneRevived w w1 = Keeps-eq (none_revived ext) _ w k1 e1 in
        let h1 = FamiliesOk-NoneRevived w w1 n1 h in
        let k2 = quiet ext _ (
          Tables.mint_access_token-Keeps ext tenant_id issuer context.subject context.scopes
            context.client kind context.auth) in
        >>=-state FamiliesOk _ _ w1 (Keeps-FamiliesOk _ w1 k2 h1) λ token w2 e2.
          let n2 : NoneRevived w1 w2 = Keeps-eq (none_revived ext) _ w1 k2 e2 in
          let h2 = FamiliesOk-NoneRevived w1 w2 n2 h1 in
          let h3 =
            issue_refresh_token-FamiliesOk context.client.allow_refresh_tokens context.identity_id
              tenant_id context w2 h2
              (λ f e.
                IsVacant-NoneRevived w1 w2 f n2 (IsVacant-NoneRevived w w1 f n1 (vacant f e))) in
          >>=-state FamiliesOk _ _ w2 h3 λ refresh w3 e3.
            Keeps-FamiliesOk _ w3 (tail-Keeps _ tenant_id _ issuer token context _)
              (subst (λ p. FamiliesOk p.1) e3 h3)

  -- After the revocation of the live token that was found, its family is vacant.
  revoked-IsVacant :
      (w v : World ext) (token : RefreshToken) (p : RefreshToken → Bool)
      → FamiliesOk w
      → w.draws ≤ v.draws
      → find p w.refresh_tokens ≡ some token
      → is_some token.revoked_at ≡ false
      → v.refresh_tokens ≡ update_where (live_with_id token.id) (set_revoked w.now) w.refresh_tokens
      → IsVacant v token.family_id
  revoked-IsVacant w v token p h d found live e =
      let less = live_count-revoke_found w.now p token w.refresh_tokens found live in
      let one = h.single token.family_id in
      record {
        none_live = ap (live_count token.family_id) e ∙ omega arith;
        drawn = λ n le same.
            let zero_live = h.undrawn n (omega arith) in
            let here : live_count token.family_id w.refresh_tokens ≡ 0 =
              subst (λ f. live_count f w.refresh_tokens ≡ 0) same zero_live in
            omega arith;
      }

  -- A grant that names a family has just revoked the only live token in it.
  validate_grant-IsVacant :
      (tenant_id : Uuid) (req : TokenGrantRequest) (config : AuthorizationConfiguration)
      (w : World ext) {context : MintingContext} {v : World ext} (f : Uuid)
      → FamiliesOk w
      → validate_grant ext tenant_id req config w ≡ (ok context, v)
      → context.refresh_token_family_id ≡ some f
      → IsVacant v f
  unfolding validate_grant
  validate_grant-IsVacant tenant_id (TokenGrantRequest.client_credentials id secret scope) config w
        f h e k =
      let (_, _, _, nobody, _, _) =
        validate_client_credentials-eq-ok tenant_id id secret scope w e in
      absurd (none_not_some _ f nobody k)
  validate_grant-IsVacant tenant_id
        (TokenGrantRequest.authorization_code id secret code uri verifier) config w f h e k =
      let (_, _, _, r) =
        validate_authorization_code-eq-ok tenant_id id secret code uri verifier config w e in
      absurd (none_not_some _ f r.family_id k)
  validate_grant-IsVacant tenant_id (TokenGrantRequest.refresh_token id secret raw) config w {v} f h
        e k =
      let (token, found, r) = validate_refresh_token-eq-ok tenant_id id secret raw config w e in
      let d : NoneRevived w v =
        Keeps-eq (none_revived ext) _ w
          (validate_grant-Keeps ext tenant_id (TokenGrantRequest.refresh_token id secret raw)
            config)
          e in
      let same : token.family_id ≡ f = some_injective _ _ (sym r.family_id ∙ k) in
      subst (IsVacant v) same (revoked-IsVacant w v token _ h d.draws found r.live r.revoked)

  audit_rejection-Keeps :
      (tenant_id : Uuid) (e : ServiceError)
      → Keeps (none_revived ext) (audit_rejection ext tenant_id e)
  audit_rejection-Keeps tenant_id e = search (frame, Rotation.record_event-Keeps)

  -- A token request, whatever comes of it, keeps at most one live token in each family.
  pub handle_token_request-FamiliesOk :
      (tenant_id : Uuid) (tenant_is_platform : Bool) (issuer : String) (req : TokenGrantRequest)
      (config : AuthorizationConfiguration) (w : World ext)
      → FamiliesOk w
      → FamiliesOk (handle_token_request ext tenant_id tenant_is_platform issuer req config w).1
  unfolding handle_token_request
  handle_token_request-FamiliesOk tenant_id tenant_is_platform issuer req config w h =
      let k =
        on_error-Keeps (none_revived ext) _ _ (validate_grant-Keeps ext tenant_id req config)
          (audit_rejection-Keeps tenant_id) in
      let h1 = Keeps-FamiliesOk _ w k h in
      >>=-state FamiliesOk _ _ w h1 λ context v e.
        issue_tokens-FamiliesOk tenant_id issuer _ v (subst (λ p. FamiliesOk p.1) e h1)
          (λ f. validate_grant-IsVacant tenant_id req config w f h (on_error-eq-ok _ _ w e))
