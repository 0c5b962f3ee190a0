-- ===== src/Authentication/Redeemed.antt =====
-- crates/knox-core/src/authentication.rs: a challenge is redeemed once, and so is a reset link.
use knox_iam_public.Base.{
  ◌≡◌, refl, sym, ◌∙◌, ap, ℕ, ◌+◌, ◌≤◌, ◌<◌, true, Option, none, some, String, arith,
}
use knox_iam_public.Common.Directory.{Uuid, AuthenticationConfiguration}
use knox_iam_public.Common.Audit.{AuditEventType, AuditActor, AuditOutcome}
use knox_iam_public.Common.Mfa.{MfaOption}
use knox_iam_public.Common.Token.{JwtClaims, PasswordResetContext}
use knox_iam_public.Externals.{Externals, Codec}
use knox_iam_public.World.{World, ok}
use knox_iam_public.World.Laws.{>>=-eq-ok, >>=-fail, when-eq-ok, or_fail-eq-ok, pure-eq-ok}
use knox_iam_public.World.Frame.{Keeps, Keeps-eq, frame}
use knox_iam_public.World.Cache.{same_redis}
use knox_iam_public.Audit.{record_event}
use knox_iam_public.Token.Service
use knox_iam_public.Token.Service.{TransientKind, full_key, hash_token}
use knox_iam_public.Token.Jwt.{verify_jwt, verify_with_key, get_key_by_kid}
use knox_iam_public.Token.Repository
use knox_iam_public.Token.Codes.{get_and_delete_value-eq-ok, get_and_delete_value-gone}
use knox_iam_public.Token.Transient.{
  stored_alive, store_transient_token-eq-ok, retrieve_transient_token-eq-ok, parse_token-eq-ok,
}
use knox_iam_public.Authentication.Password.{PasswordResetOutcome, reset_password_with_token}
use knox_iam_public.Authentication.Challenge.{open_challenge, refuse_used, consume_mfa_challenge}

module _ (ext : Externals) where
  verify_jwt-Keeps :
      (tenant_id : Uuid) (issuer token : String) (audience : Option String)
      → Keeps (same_redis ext) (verify_jwt ext tenant_id issuer token audience)
  unfolding verify_jwt verify_with_key get_key_by_kid
  verify_jwt-Keeps tenant_id issuer token audience = search (frame) depth 24

  record_event-Keeps :
      (tenant_id : Uuid) (event_type : AuditEventType) (actor : AuditActor) (outcome : AuditOutcome)
      → Keeps (same_redis ext) (record_event ext tenant_id event_type actor outcome)
  unfolding Keeps record_event
  record_event-Keeps tenant_id event_type actor outcome w = record { redis = refl; now = refl }

  open_challenge-Keeps :
      (tenant_id : Uuid) (pool : Option Uuid) (issuer token scope : String)
      → Keeps (same_redis ext) (open_challenge ext tenant_id pool issuer token scope)
  unfolding open_challenge
  open_challenge-Keeps tenant_id pool issuer token scope =
      search (frame, verify_jwt-Keeps, record_event-Keeps) depth 16

module _ {ext : Externals} where
  -- A challenge passes only where its marker is absent.
  refuse_used-eq-ok :
      (tenant_id : Uuid) (claims : JwtClaims) (identity_id : Uuid) (w : World ext) {u : Unit {0}}
      {w' : World ext}
      → refuse_used ext tenant_id claims identity_id w ≡ (ok u, w')
      → ¬ (
          ext.redis.get w.redis (full_key TransientKind.mfa_used claims.jti) w.now
          ≡ some (ext.bool_codec.write true))
  unfolding refuse_used
  refuse_used-eq-ok tenant_id claims identity_id w h marked =
      let (used, w1, h1, k1) = >>=-eq-ok _ _ w h in
      let (unused, _) = when-eq-ok _ _ w1 (λ s t. >>=-fail _ _ s) k1 in
      let (w2, read, _, _) =
        retrieve_transient_token-eq-ok ext.bool_codec TransientKind.mfa_used claims.jti w h1 in
      let (_, _, found) = parse_token-eq-ok ext.bool_codec _ w2 read in
      let e = found true marked in cc

  -- A redemption has opened the challenge, found no marker, and left one.
  consume_mfa_challenge-eq-ok :
      (tenant_id : Uuid) (pool : Option Uuid) (issuer token : String) (method : MfaOption)
      (code scope : String) (config : AuthenticationConfiguration) (w : World ext) {p : Uuid × Uuid}
      {w' : World ext}
      → consume_mfa_challenge ext tenant_id pool issuer token method code scope config w
        ≡ (ok p, w')
      → (claims : JwtClaims) × (identity_id : Uuid) × (w1 w2 : World ext) × (open_challenge ext
            tenant_id pool issuer token scope w
          ≡ (ok (claims, identity_id), w1))
        × (refuse_used ext tenant_id claims identity_id w1 ≡ (ok tt, w2))
        × ((t : ℕ)
            → w'.now ≤ t
            → t < w'.now + config.mfa_token_lifetime_seconds
            → ext.redis.get w'.redis (full_key TransientKind.mfa_used claims.jti) t
              ≡ some (ext.bool_codec.write true))
  unfolding consume_mfa_challenge
  consume_mfa_challenge-eq-ok tenant_id pool issuer token method code scope config w {p} {w'} h =
      let ((claims, identity_id), w1, h1, k1) = >>=-eq-ok _ _ w h in
      let (_, w2, h2, k2) = >>=-eq-ok _ _ w1 k1 in
      let (_, w3, _, k3) = >>=-eq-ok _ _ w2 k2 in
      let (_, w4, _, k4) = >>=-eq-ok _ _ w3 k3 in
      let (_, w5, _, k5) = >>=-eq-ok _ _ w4 k4 in
      let (_, w6, _, k6) = >>=-eq-ok _ _ w5 k5 in
      let (_, w7, h7, k7) = >>=-eq-ok _ _ w6 k6 in
      let (_, w8, h8, k8) = >>=-eq-ok _ _ w7 k7 in
      let (_, e9) = pure-eq-ok _ w8 k8 in
      let (stored, clock) =
        store_transient_token-eq-ok ext.bool_codec TransientKind.mfa_used claims.jti true
          config.mfa_token_lifetime_seconds w6 h7 in
      let kept = Keeps-eq (same_redis ext) _ w7 (record_event-Keeps ext tenant_id _ _ _) h8 in
      let now : w'.now ≡ w6.now = ap (λ v. v.now) e9 ∙ kept.now ∙ clock in
      let redis : w'.redis ≡ w7.redis = ap (λ v. v.redis) e9 ∙ kept.redis in
      (
        claims,
        identity_id,
        w1,
        w2,
        h1,
        h2,
        λ t le lt.
            ap (λ r. ext.redis.get r (full_key TransientKind.mfa_used claims.jti) t) redis
            ∙ stored_alive ext.redis _ _ _ w6.now t w6.redis w7.redis stored (omega arith)
                (omega arith),
      )

  -- If two challenges are redeemed one after the other, the second within the lifetime of the
  -- first's marker, and nothing else writes a marker's key in between, they have different token
  -- ids; so a challenge is redeemed once, whichever method, code, pool and scope it is presented
  -- with.
  pub challenge_redeemed_once :
      (tenant_id : Uuid) (pool pool2 : Option Uuid) (issuer token token2 : String)
      (method method2 : MfaOption) (code code2 scope scope2 : String)
      (config config2 : AuthenticationConfiguration) (w v : World ext) {p q : Uuid × Uuid}
      {w' v' : World ext}
      → consume_mfa_challenge ext tenant_id pool issuer token method code scope config w
        ≡ (ok p, w')
      → ((k : String)
          → ext.redis.get v.redis (full_key TransientKind.mfa_used k) v.now
            ≡ ext.redis.get w'.redis (full_key TransientKind.mfa_used k) v.now)
      → w'.now ≤ v.now
      → v.now < w'.now + config.mfa_token_lifetime_seconds
      → consume_mfa_challenge ext tenant_id pool2 issuer token2 method2 code2 scope2 config2 v
        ≡ (ok q, v')
      → (claims claims2 : JwtClaims) × (identity_id identity_id2 : Uuid) × (w1 v1 : World ext)
        × (open_challenge ext tenant_id pool issuer token scope w ≡ (ok (claims, identity_id), w1))
        × (open_challenge ext tenant_id pool2 issuer token2 scope2 v
            ≡ (ok (claims2, identity_id2), v1))
        × (¬ (claims.jti ≡ claims2.jti))
  challenge_redeemed_once tenant_id pool pool2 issuer token token2 method method2 code code2 scope
        scope2 config config2 w v h same le lt k =
      let (claims, id, w1, w2, opened, _, marked) =
        consume_mfa_challenge-eq-ok tenant_id pool issuer token method code scope config w h in
      let (claims2, id2, v1, v2, opened2, fresh, _) =
        consume_mfa_challenge-eq-ok tenant_id pool2 issuer token2 method2 code2 scope2 config2 v
          k in
      let kept =
        Keeps-eq (same_redis ext) _ v
          (open_challenge-Keeps ext tenant_id pool2 issuer token2 scope2) opened2 in
      (
        claims,
        claims2,
        id,
        id2,
        w1,
        v1,
        opened,
        opened2,
        λ jti. refuse_used-eq-ok tenant_id claims2 id2 v1 fresh (
            (λ i.
              ext.redis.get (kept.redis i) (full_key TransientKind.mfa_used (sym jti i))
                (kept.now i))
            ∙ same claims.jti
            ∙ marked v.now le lt),
      )

  -- A token that was taken is not there at any later time.
  take_transient_token_once :
      {T : Type 0} (codec : Codec ext.redis.Text T) (kind : TransientKind) (k : String)
      (w v : World ext) {o o2 : Option T} {w' v' : World ext}
      → Service.take_transient_token ext codec kind k w ≡ (ok o, w')
      → ext.redis.get v.redis (full_key kind k) v.now
        ≡ ext.redis.get w'.redis (full_key kind k) v.now
      → w.now ≤ v.now
      → Service.take_transient_token ext codec kind k v ≡ (ok o2, v')
      → o2 ≡ none
  unfolding Service.take_transient_token Repository.get_and_delete_transient_string
  take_transient_token_once codec kind k w v h same le h2 =
      let (x, w1, taken, k1) = >>=-eq-ok _ _ w h in
      let (y, v1, taken2, k2) = >>=-eq-ok _ _ v h2 in
      let (e, _, _) = get_and_delete_value-eq-ok (full_key kind k) v taken2 in
      let (kept, _, _) = parse_token-eq-ok codec x w1 k1 in
      let (_, absent, _) = parse_token-eq-ok codec y v1 k2 in
      absent (
        e
        ∙ same
        ∙ ap (λ u. ext.redis.get u.redis (full_key kind k) v.now) kept
        ∙ get_and_delete_value-gone (full_key kind k) w v.now taken le)

  -- Once the token of a reset link has been taken, no reset with it succeeds at any later time,
  -- for any tenant and password, unless the token's key is written again.
  pub reset_link_used_once :
      (token : String) (w v : World ext) {c : Option PasswordResetContext} {w' : World ext}
      (tenant_id : Uuid) (issuer new_password : String) (config : AuthenticationConfiguration)
      → Service.take_transient_token ext ext.reset_codec TransientKind.password_reset
          (hash_token ext token)
          w
        ≡ (ok c, w')
      → ext.redis.get v.redis (full_key TransientKind.password_reset (hash_token ext token)) v.now
        ≡ ext.redis.get w'.redis
            (full_key TransientKind.password_reset (hash_token ext token))
            v.now
      → w.now ≤ v.now
      → (outcome : PasswordResetOutcome) (v' : World ext)
      → ¬ (
          reset_password_with_token ext tenant_id issuer token new_password config v
          ≡ (ok outcome, v'))
  unfolding reset_password_with_token
  reset_link_used_once token w v tenant_id issuer new_password config h same le outcome v' k =
      let (found, v1, h1, k1) = >>=-eq-ok _ _ v k in
      let (context, v2, h2, k2) = >>=-eq-ok _ _ v1 k1 in
      let (e, _) = or_fail-eq-ok _ _ v1 h2 in
      let gone =
        take_transient_token_once ext.reset_codec TransientKind.password_reset
          (hash_token ext token) w v h same le h1 in
      cc
