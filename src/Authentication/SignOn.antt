-- ===== src/Authentication/SignOn.antt =====
-- crates/knox-core/src/authentication.rs: what a sign-on leaves in Redis.
use Prim.Native.Char.{code as char_code}
use Prim.Native.String.{◌++◌}
use text.Mathlib.TextLemmas.{append_assoc, append_cancel_left, cons-append}
use knox_iam_public.Base.{
  ◌≡◌, ◌≢◌, sym, ◌∙◌, ap, subst, ℕ, suc, ◌+◌, ◌≤◌, ◌<◌, Bool, true, false, String, List, arith,
  ◌==◌, string_eq, nat_eq, inl, inr,
}
use knox_iam_public.Common.Directory.{Uuid, AuthenticationConfiguration}
use knox_iam_public.Common.Token.{SsoSessionContext}
use knox_iam_public.Externals.{Externals}
use knox_iam_public.World.{World, Action, ok, gets, ◌>>=◌, ◌>>◌, pure}
use knox_iam_public.World.Laws.{>>=-eq-ok, pure-eq-ok}
use knox_iam_public.Token.Service
use knox_iam_public.Token.Service.{
  TransientKind, full_key, prefix, sso_epoch_key, generate_opaque_token,
}
use knox_iam_public.Token.Transient.{IsStored, store_transient_token-eq-ok}
use knox_iam_public.Token.Epoch.{
  IsEpoch, epoch_key, current_sso_epoch-eq-ok, touch_sso_epoch-eq-ok, get-expire_here,
}
use knox_iam_public.Authentication.Session.{sso_epoch_ttl, establish_sso_session}

starts_with_colon : String → Bool
starts_with_colon String.[] = false
starts_with_colon (String.◌∷◌ c s) = char_code c == b':'

colon_not_underscore : (s t : String) → ":" ++ s ≢ "_epoch" ++ t
unfolding starts_with_colon
colon_not_underscore s t e =
    let r = sym (cons-append ":" "" s) ∙ e ∙ cons-append "_" "epoch" t in
    true_not_false (ap starts_with_colon r)
  where
    true_not_false : true ≢ false
    true_not_false e = cc

-- A session's key is no epoch's key.
pub session_key-ne-epoch_key :
    (token k : String) → full_key TransientKind.sso_token token ≢ full_key TransientKind.sso_epoch k
unfolding full_key prefix
session_key-ne-epoch_key token k e =
    colon_not_underscore token (":" ++ k)
      (append_cancel_left "sso" _ _ (e ∙ append_assoc "sso" "_epoch" (":" ++ k)))

-- An epoch outlives every session that was minted before it.
pub sso_epoch_ttl-long :
    (config : AuthenticationConfiguration)
    → config.sso_cookie_lifetime_seconds ≤ sso_epoch_ttl config
unfolding sso_epoch_ttl
sso_epoch_ttl-long config = omega arith

module _ (ext : Externals) where
  pub IsEpoch-expire :
      (k : String) (n ttl now t : ℕ) (s : ext.redis.State)
      → IsEpoch ext s k now n
      → now ≤ t
      → t < now + ttl
      → IsEpoch ext (ext.redis.expire k ttl now s) k t n
  IsEpoch-expire k n ttl now t s (inl (z, e)) le lt =
      inl (z, get-expire_here ext k ttl now t s le lt ∙ e)
  IsEpoch-expire k n ttl now t s (inr e) le lt = inr (get-expire_here ext k ttl now t s le lt ∙ e)

  -- The session that a sign-on stores.
  abbrev pub session_of : Uuid → Uuid → Uuid → List String → ℕ → ℕ → SsoSessionContext
  session_of tenant_id pool_id identity_id amr epoch created_at = record {
    tenant_id = tenant_id;
    pool_id = pool_id;
    identity_id = identity_id;
    amr = amr;
    epoch = epoch;
    created_at = created_at;
  }

  -- The last steps of a sign-on.
  finish : Uuid → Uuid → Uuid → List String → AuthenticationConfiguration → ℕ → Action ext String
  finish tenant_id pool_id identity_id amr config epoch = do
    now ← gets (λ w. w.now)
    token ← generate_opaque_token ext 32
    Service.store_transient_token ext ext.sso_codec TransientKind.sso_token token
        (session_of tenant_id pool_id identity_id amr epoch now) config.sso_cookie_lifetime_seconds
    pure token

  IsStored-sign_on :
      (made : String) (session : SsoSessionContext) (ttl : ℕ) (u : World ext) {token : String}
      {w' : World ext}
      → (Service.store_transient_token ext ext.sso_codec TransientKind.sso_token made session ttl
            >> pure made)
          u
        ≡ (ok token, w')
      → IsStored ext.redis
          (full_key TransientKind.sso_token token)
          (ext.sso_codec.write session)
          ttl
          u.now
          u.redis
          w'.redis
  IsStored-sign_on made session ttl u h =
      let (_, w1, h1, k1) = >>=-eq-ok _ _ u h in
      let (stored, _) = store_transient_token-eq-ok ext.sso_codec _ made session ttl u h1 in
      let (e, s) = pure-eq-ok made w1 k1 in transport_to (sym e) (sym s) stored
    where
      transport_to :
          {a b : String} {v v' : World ext}
          → a ≡ b
          → v ≡ v'
          → IsStored ext.redis
              (full_key TransientKind.sso_token a)
              (ext.sso_codec.write session)
              ttl
              u.now
              u.redis
              v.redis
          → IsStored ext.redis
              (full_key TransientKind.sso_token b)
              (ext.sso_codec.write session)
              ttl
              u.now
              u.redis
              v'.redis
      transport_to p q x =
          subst
            (λ (r : String × World ext).
              IsStored ext.redis (full_key TransientKind.sso_token r.0)
                (ext.sso_codec.write session) ttl u.now u.redis r.1.redis)
            (λ i. (p i, q i)) x

  finish-eq-ok :
      (tenant_id pool_id identity_id : Uuid) (amr : List String)
      (config : AuthenticationConfiguration) (m : ℕ) (u : World ext) {token : String}
      {w' : World ext}
      → finish tenant_id pool_id identity_id amr config m u ≡ (ok token, w')
      → IsStored ext.redis
          (full_key TransientKind.sso_token token)
          (ext.sso_codec.write (session_of tenant_id pool_id identity_id amr m u.now))
          config.sso_cookie_lifetime_seconds
          u.now
          u.redis
          w'.redis
  unfolding finish generate_opaque_token ◌>>=◌
  finish-eq-ok tenant_id pool_id identity_id amr config m u h =
      IsStored-sign_on (ext.opaque_token 32 u.draws)
        (session_of tenant_id pool_id identity_id amr m u.now) config.sso_cookie_lifetime_seconds
        (record u { draws = suc u.draws }) h

  pub establish_sso_session-eq-ok :
      (tenant_id pool_id identity_id : Uuid) (amr : List String)
      (config : AuthenticationConfiguration) (n : ℕ) (w : World ext) {token : String}
      {w' : World ext}
      → IsEpoch ext w.redis (epoch_key ext tenant_id identity_id) w.now n
      → establish_sso_session ext tenant_id pool_id identity_id amr config w ≡ (ok token, w')
      → (s : ext.redis.State) × IsStored ext.redis
          (full_key TransientKind.sso_token token)
          (ext.sso_codec.write (session_of tenant_id pool_id identity_id amr n w.now))
          config.sso_cookie_lifetime_seconds
          w.now
          s
          w'.redis
        × (s
            ≡ ext.redis.expire
                (epoch_key ext tenant_id identity_id)
                (sso_epoch_ttl config)
                w.now
                w.redis)
  unfolding establish_sso_session finish
  establish_sso_session-eq-ok tenant_id pool_id identity_id amr config n w {token} {w'} epoch h =
      let (m, w1, h1, k1) = >>=-eq-ok _ _ w h in
      let (e1, r1, t1) = current_sso_epoch-eq-ok ext tenant_id identity_id n w epoch h1 in
      let (_, w2, h2, k2) = >>=-eq-ok _ _ w1 k1 in
      let (r2, t2) = touch_sso_epoch-eq-ok ext tenant_id identity_id (sso_epoch_ttl config) w1 h2 in
      let stored = finish-eq-ok tenant_id pool_id identity_id amr config m w2 k2 in
      let at : w2.now ≡ w.now = t2 ∙ t1 in
      (
        w2.redis,
        subst
            (λ (r : ℕ × ℕ).
              IsStored ext.redis (full_key TransientKind.sso_token token)
                (ext.sso_codec.write (session_of tenant_id pool_id identity_id amr r.0 r.1))
                config.sso_cookie_lifetime_seconds r.1 w2.redis w'.redis)
            (λ i. (e1 i, at i)) stored,
        r2 ∙ (λ i.
            ext.redis.expire (epoch_key ext tenant_id identity_id) (sso_epoch_ttl config) (t1 i)
              (r1 i)),
      )
