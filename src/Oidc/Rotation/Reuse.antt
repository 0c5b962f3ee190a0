-- ===== src/Oidc/Rotation/Reuse.antt =====
-- crates/knox-services/src/oidc/service.rs: the answer to a refresh token that is presented again.
use knox_iam_public.Base.{
  ◌≡◌, refl, ◌∙◌, ap, Bool, true, false, ◌||◌, not, Option, some, String, [], ◌∷◌, is_some, find,
  update_where, ◌==◌, nat_eq,
}
use knox_iam_public.Common.Error.{ServiceError}
use knox_iam_public.Common.Directory.{Uuid, Client, AuthorizationConfiguration}
use knox_iam_public.Common.Token.{RefreshToken}
use knox_iam_public.Common.Audit.{AuditEventType, AuditActor, AuditOutcome}
use knox_iam_public.Externals.{Externals}
use knox_iam_public.World.{World, ok, err, when, or_fail}
use knox_iam_public.World.Laws.{>>=-ok, >>=-err, storage_up}
use knox_iam_public.Audit.{record_event}
use knox_iam_public.Token.Families.{live_count, live_count-revoke_family}
use knox_iam_public.Token.Store.{has_hash, get_by_hash, revoke_family, live_in_family, set_revoked}
use knox_iam_public.Token.Service
use knox_iam_public.Token.Service.{hash_token}
use knox_iam_public.Oidc.Grants.{refuse_reuse, rotate, resolve_client, validate_refresh_token}

module _ {ext : Externals} where
  -- The state after a reuse has been detected: the family is revoked, and the event recorded.
  abbrev pub with_family_revoked : Uuid → RefreshToken → World ext → World ext
  with_family_revoked tenant_id token w = record w {
    refresh_tokens =
        update_where (live_in_family token.family_id) (set_revoked w.now) w.refresh_tokens;
    audit =
        record {
          tenant_id = tenant_id;
          event_type = AuditEventType.token_refresh_reuse_detected;
          actor = AuditActor.identity token.identity_id;
          outcome = AuditOutcome.denied;
        }
        ∷ w.audit;
  }

  refuse_reuse-true :
      (tenant_id : Uuid) (token : RefreshToken) (w : World ext)
      → w.outages ≡ []
      → refuse_reuse ext tenant_id true token w
        ≡ (err ServiceError.invalid_credentials, with_family_revoked tenant_id token w)
  unfolding refuse_reuse when record_event revoke_family Service.revoke_token_family
  refuse_reuse-true tenant_id token w up = >>=-ok _ _ w (storage_up _ w up) ∙ >>=-ok _ _ _ refl

  refuse_reuse-false :
      (tenant_id : Uuid) (token : RefreshToken) (w : World ext)
      → refuse_reuse ext tenant_id false token w ≡ (ok tt, w)
  unfolding refuse_reuse when
  refuse_reuse-false tenant_id token w = refl

  rotate_reused :
      (tenant_id : Uuid) (client : Client) (token : RefreshToken) (w : World ext) (c r : Bool)
      → not (token.client_id == client.id) ≡ c
      → is_some token.revoked_at ≡ r
      → (c || r) ≡ true
      → w.outages ≡ []
      → rotate ext tenant_id client token w
        ≡ (err ServiceError.invalid_credentials, with_family_revoked tenant_id token w)
  unfolding rotate
  rotate_reused tenant_id client token w true r ec er h up =
      >>=-err _ _ w
        (ap (λ b. refuse_reuse ext tenant_id b token w) ec ∙ refuse_reuse-true tenant_id token w up)
  rotate_reused tenant_id client token w false true ec er h up =
      >>=-ok _ _ w
        (ap (λ b. refuse_reuse ext tenant_id b token w) ec ∙ refuse_reuse-false tenant_id token w)
      ∙ >>=-err _ _ w (
          ap (λ b. refuse_reuse ext tenant_id b token w) er
          ∙ refuse_reuse-true tenant_id token w up)
  rotate_reused tenant_id client token w false false ec er h up = cc

  -- A refresh token that was revoked, or belongs to another client, is refused with invalid
  -- credentials and its whole family is revoked, where the storage is up and the client is known.
  pub reuse-revokes_family :
      (tenant_id : Uuid) (client_id : String) (secret : Option String) (raw : String)
      (config : AuthorizationConfiguration) (w : World ext) (token : RefreshToken) (client : Client)
      → w.outages ≡ []
      → find (has_hash tenant_id (hash_token ext raw)) w.refresh_tokens ≡ some token
      → resolve_client ext tenant_id client_id secret w ≡ (ok client, w)
      → (not (token.client_id == client.id) || is_some token.revoked_at) ≡ true
      → (w' : World ext) × (validate_refresh_token ext tenant_id client_id secret raw config w
          ≡ (err ServiceError.invalid_credentials, w'))
        × (live_count token.family_id w'.refresh_tokens ≡ 0)
  unfolding validate_refresh_token Service.get_refresh_token get_by_hash or_fail
  reuse-revokes_family tenant_id client_id secret raw config w token client up found known reused =
      (
        with_family_revoked tenant_id token w,
        >>=-ok _ _ w (storage_up _ w up)
            ∙ >>=-ok _ _ w (ap (λ o. or_fail o ServiceError.invalid_credentials w) found)
            ∙ >>=-ok _ _ w known
            ∙ >>=-err _ _ w (rotate_reused tenant_id client token w _ _ refl refl reused up),
        live_count-revoke_family w.now token.family_id w.refresh_tokens,
      )
