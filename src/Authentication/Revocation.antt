-- ===== src/Authentication/Revocation.antt =====
-- crates/knox-core/src/authentication.rs: a session that was revoked is refused.
use knox_iam_public.Base.{
  ◌≡◌, sym, ◌∙◌, ap, subst, ℕ, suc, ◌+◌, ◌≤◌, ◌<◌, Option, none, some, String, arith, string_eq,
  nat_eq, ltb, ◌⊎◌, inl, inr, Bool-cases, List,
}
use knox_iam_public.Common.Directory.{Uuid, AuthenticationConfiguration}
use knox_iam_public.Common.Token.{SsoSessionContext}
use knox_iam_public.Externals.{Externals}
use knox_iam_public.World.{World, ok}
use knox_iam_public.World.Laws.{>>=-eq-ok, storage-eq-ok, pure-eq-ok, fail_if-eq-ok}
use knox_iam_public.Token.Service
use knox_iam_public.Token.Store
use knox_iam_public.Token.Service.{TransientKind, full_key}
use knox_iam_public.Token.Transient.{
  stored_alive, stored_expired, stored_elsewhere, retrieve_transient_token-eq-ok, parse_token-eq-ok,
}
use knox_iam_public.Token.Epoch.{IsEpoch, epoch_key, current_sso_epoch-eq-ok, bump_sso_epoch-eq-ok}
use knox_iam_public.Authentication.Session.{
  SsoSession, sso_epoch_ttl, establish_sso_session, revoke_all_sessions, validate_sso_code,
  check_session, check_stored,
}
use knox_iam_public.Authentication.SignOn.{
  session_key-ne-epoch_key, sso_epoch_ttl-long, IsEpoch-expire, establish_sso_session-eq-ok,
  session_of,
}

module _ (ext : Externals) where
  revoke_tokens-redis :
      (tenant_id identity_id : Uuid) (w : World ext) {u : Unit {0}} {w' : World ext}
      → Service.revoke_all_for_identity ext tenant_id identity_id w ≡ (ok u, w')
      → (w'.redis ≡ w.redis) × (w'.now ≡ w.now)
  unfolding Service.revoke_all_for_identity Store.revoke_all_for_identity
  revoke_tokens-redis tenant_id identity_id w h =
      let (rest, e) = storage-eq-ok _ w h in
      (ap (λ p. p.1.redis) (sym e), ap (λ p. p.1.now) (sym e))

  -- A revocation leaves the next epoch.
  revoke_all_sessions-eq-ok :
      (tenant_id identity_id : Uuid) (config : AuthenticationConfiguration) (n t : ℕ)
      (w : World ext) {u : Unit {0}} {w' : World ext}
      → IsEpoch ext w.redis (epoch_key ext tenant_id identity_id) w.now n
      → revoke_all_sessions ext tenant_id identity_id config w ≡ (ok u, w')
      → w.now ≤ t
      → t < w.now + sso_epoch_ttl config
      → IsEpoch ext w'.redis (epoch_key ext tenant_id identity_id) t (suc n)
  unfolding revoke_all_sessions
  revoke_all_sessions-eq-ok tenant_id identity_id config n t w epoch h le lt =
      let k = epoch_key ext tenant_id identity_id in
      let (_, w1, h1, k1) = >>=-eq-ok _ _ w h in
      let (r1, t1) = revoke_tokens-redis tenant_id identity_id w h1 in
      let (m, w2, h2, k2) = >>=-eq-ok _ _ w1 k1 in
      let (_, s3) = pure-eq-ok tt w2 k2 in
      let epoch1 : IsEpoch ext w1.redis k w1.now n =
        subst (λ (p : ext.redis.State × ℕ). IsEpoch ext p.0 k p.1 n) (λ i. (sym r1 i, sym t1 i))
          epoch in
      inr (
        ap (λ v. ext.redis.get v.redis k t) s3
        ∙ bump_sso_epoch-eq-ok ext tenant_id identity_id (sso_epoch_ttl config) n t w1 epoch1 h2
            (rw t1 le) (rw t1 lt))

  -- A session of an earlier epoch is refused.
  check_session-old :
      (tenant_id pool_id : Uuid) (max_age : Option ℕ) (s : SsoSessionContext) (w : World ext)
      (session : SsoSession) (w' : World ext)
      → IsEpoch ext w.redis (epoch_key ext tenant_id s.identity_id) w.now (suc s.epoch)
      → ¬ (check_session ext tenant_id pool_id max_age s w ≡ (ok session, w'))
  unfolding check_session
  check_session-old tenant_id pool_id max_age s w session w' epoch h =
      let (_, w1, h1, k1) = >>=-eq-ok _ _ w h in
      let (_, s1) = fail_if-eq-ok _ _ w h1 in
      let (m, w2, h2, k2) = >>=-eq-ok _ _ w1 k1 in
      let epoch1 =
        subst
          (λ (v : World ext).
            IsEpoch ext v.redis (epoch_key ext tenant_id s.identity_id) v.now (suc s.epoch))
          (sym s1) epoch in
      let (e2, _, _) =
        current_sso_epoch-eq-ok ext tenant_id s.identity_id (suc s.epoch) w1 epoch1 h2 in
      let (_, w3, h3, k3) = >>=-eq-ok _ _ w2 k2 in
      let (e3, _) = fail_if-eq-ok _ _ w2 h3 in ground arith

  -- What a token that is not stored, or stands for an old session, is answered with.
  no_session :
      (tenant_id pool_id : Uuid) (token : String) (max_age : Option ℕ) (v : World ext)
      (session : SsoSession) (v' : World ext)
      → ext.redis.get v.redis (full_key TransientKind.sso_token token) v.now ≡ none
      → ¬ (validate_sso_code ext tenant_id pool_id token max_age v ≡ (ok session, v'))
  unfolding validate_sso_code
  no_session tenant_id pool_id token max_age v session v' gone h =
      let (stored, v1, h1, k1) = >>=-eq-ok _ _ v h in
      let (v2, h2, r2, t2) =
        retrieve_transient_token-eq-ok ext.sso_codec TransientKind.sso_token token v h1 in
      let (_, absent, _) = parse_token-eq-ok ext.sso_codec _ v2 h2 in
      let missing = absent gone in not_checked stored v1 missing k1
    where
      not_checked :
          (o : Option SsoSessionContext) (u : World ext)
          → o ≡ none
          → ¬ (check_stored ext tenant_id pool_id max_age o u ≡ (ok session, v'))
      not_checked none u e k = cc
      not_checked (some s) u e k = cc

  old_session :
      (tenant_id pool_id : Uuid) (token : String) (max_age : Option ℕ) (s : SsoSessionContext)
      (v : World ext) (session : SsoSession) (v' : World ext)
      → ext.redis.get v.redis (full_key TransientKind.sso_token token) v.now
        ≡ some (ext.sso_codec.write s)
      → IsEpoch ext v.redis (epoch_key ext tenant_id s.identity_id) v.now (suc s.epoch)
      → ¬ (validate_sso_code ext tenant_id pool_id token max_age v ≡ (ok session, v'))
  unfolding validate_sso_code
  old_session tenant_id pool_id token max_age s v session v' here epoch h =
      let (stored, v1, h1, k1) = >>=-eq-ok _ _ v h in
      let (v2, h2, r2, t2) =
        retrieve_transient_token-eq-ok ext.sso_codec TransientKind.sso_token token v h1 in
      let (s2, _, present) = parse_token-eq-ok ext.sso_codec _ v2 h2 in
      let found = present s here in
      let r : v1.redis ≡ v.redis = ap (λ u. u.redis) s2 ∙ r2 in
      let t : v1.now ≡ v.now = ap (λ u. u.now) s2 ∙ t2 in
      let epoch1 : IsEpoch ext v1.redis (epoch_key ext tenant_id s.identity_id) v1.now
          (suc s.epoch) =
        subst
          (λ (p : ext.redis.State × ℕ).
            IsEpoch ext p.0 (epoch_key ext tenant_id s.identity_id) p.1 (suc s.epoch))
          (λ i. (sym r i, sym t i)) epoch in
      check_session-old tenant_id pool_id max_age s v1 session v' epoch1
        (ap (λ o. check_stored ext tenant_id pool_id max_age o v1) (sym found) ∙ k1)

  -- A session that was established before a successful revocation of all the identity's sessions
  -- is refused ever after, in any pool and for any maximal age, where the configured lifetimes are
  -- the same, nothing else writes the identity's epoch or the token's key in between, and the
  -- epoch's key held nothing or a counter.
  pub revoked_session_refused :
      (tenant_id pool_id identity_id : Uuid) (amr : List String)
      (config : AuthenticationConfiguration) (token : String) (n : ℕ) (w0 w1 w2 w3 v : World ext)
      → IsEpoch ext w0.redis (epoch_key ext tenant_id identity_id) w0.now n
      → establish_sso_session ext tenant_id pool_id identity_id amr config w0 ≡ (ok token, w1)
      → w0.now ≤ w2.now
      → ext.redis.get w2.redis (epoch_key ext tenant_id identity_id) w2.now
        ≡ ext.redis.get w1.redis (epoch_key ext tenant_id identity_id) w2.now
      → revoke_all_sessions ext tenant_id identity_id config w2 ≡ (ok tt, w3)
      → w2.now ≤ v.now
      → ext.redis.get v.redis (epoch_key ext tenant_id identity_id) v.now
        ≡ ext.redis.get w3.redis (epoch_key ext tenant_id identity_id) v.now
      → ext.redis.get v.redis (full_key TransientKind.sso_token token) v.now
        ≡ ext.redis.get w1.redis (full_key TransientKind.sso_token token) v.now
      → (any_pool : Uuid) (max_age : Option ℕ) (session : SsoSession) (v' : World ext)
      → ¬ (validate_sso_code ext tenant_id any_pool token max_age v ≡ (ok session, v'))
  revoked_session_refused tenant_id pool_id identity_id amr config token n w0 w1 w2 w3 v epoch
        signed_on le same revoked le' same' kept any_pool max_age session v' h =
      let k = epoch_key ext tenant_id identity_id in
      let (s, stored, touched) =
        establish_sso_session-eq-ok ext tenant_id pool_id identity_id amr config n w0 epoch
          signed_on in
      let long = sso_epoch_ttl-long config in
      elim (Bool-cases (ltb v.now (w0.now + config.sso_cookie_lifetime_seconds))) [
        | inr late ↦
            no_session tenant_id any_pool token max_age v session v'
              (kept
                ∙ stored_expired ext.redis _ _ _ w0.now v.now s w1.redis stored (omega arith)
                    (ground arith))
              h
        | inl early ↦
            let lt : v.now < w0.now + config.sso_cookie_lifetime_seconds = ground arith in
            let before : IsEpoch ext w2.redis k w2.now n =
              subst (λ x. ((n ≡ 0) × (x ≡ none)) ⊎ (x ≡ some (ext.redis.decimal n)))
                (sym (
                  same
                  ∙ stored_elsewhere ext.redis _ _ _ w0.now w2.now s w1.redis k stored
                      (session_key-ne-epoch_key token _) le
                  ∙ ap (λ x. ext.redis.get x k w2.now) touched))
                (IsEpoch-expire ext k n (sso_epoch_ttl config) w0.now w2.now w0.redis epoch le
                  (omega arith)) in
            let after_it =
              revoke_all_sessions-eq-ok tenant_id identity_id config n v.now w2 before revoked le'
                (omega arith) in
            old_session tenant_id any_pool token max_age
              (session_of ext tenant_id pool_id identity_id amr n w0.now) v session v'
              (kept ∙ stored_alive ext.redis _ _ _ w0.now v.now s w1.redis stored (omega arith) lt)
              (subst (λ x. ((suc n ≡ 0) × (x ≡ none)) ⊎ (x ≡ some (ext.redis.decimal (suc n))))
                (sym same') after_it)
              h
      ]
