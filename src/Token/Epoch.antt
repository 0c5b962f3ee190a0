-- ===== src/Token/Epoch.antt =====
-- crates/knox-core/src/token.rs: the session epoch in Redis.
use knox_iam_public.Base.{
  ◌≡◌, refl, sym, ◌∙◌, ap, subst, ℕ, suc, ◌+◌, ◌≤◌, ◌<◌, Bool, true, false, Option, none, some,
  String, arith, string_eq, nat_eq, ltb, get_or, ◌⊎◌, inl, inr,
}
use knox_iam_public.Common.Directory.{Uuid}
use knox_iam_public.Externals.{Externals}
use knox_iam_public.World.{World, ok, when}
use knox_iam_public.World.Laws.{>>=-eq-ok, storage-eq-ok, pure-eq-ok}
use knox_iam_public.Token.Cache.{incr_answer, incr, touch_value, increment_value}
use knox_iam_public.Token.Repository
use knox_iam_public.Token.Service
use knox_iam_public.Token.Service.{
  TransientKind, full_key, sso_epoch_key, current_sso_epoch, bump_sso_epoch, touch_sso_epoch,
}
use knox_iam_public.Token.Transient.{retrieve_transient_token-eq-ok, parse_token-eq-ok}

module _ (ext : Externals) where
  -- The key of an identity's epoch, and whether it holds a counter's value.
  abbrev pub epoch_key : Uuid → Uuid → String
  epoch_key tenant_id identity_id =
      full_key TransientKind.sso_epoch (sso_epoch_key ext tenant_id identity_id)

  -- The counter behind a key at a time: none reads as 0.
  abbrev pub IsEpoch : ext.redis.State → String → ℕ → ℕ → Type 0
  IsEpoch s k t n =
      ((n ≡ 0) × (ext.redis.get s k t ≡ none)) ⊎ (ext.redis.get s k t ≡ some (ext.redis.decimal n))

  pub current_sso_epoch-eq-ok :
      (tenant_id identity_id : Uuid) (n : ℕ) (w : World ext) {m : ℕ} {w' : World ext}
      → IsEpoch w.redis (epoch_key tenant_id identity_id) w.now n
      → current_sso_epoch ext tenant_id identity_id w ≡ (ok m, w')
      → (m ≡ n) × (w'.redis ≡ w.redis) × (w'.now ≡ w.now)
  unfolding current_sso_epoch
  current_sso_epoch-eq-ok tenant_id identity_id n w epoch h =
      let (o, w1, h1, k1) = >>=-eq-ok _ _ w h in
      let (e1, s1) = pure-eq-ok _ w1 k1 in
      let (w2, h2, r2, n2) =
        retrieve_transient_token-eq-ok ext.u64_codec TransientKind.sso_epoch _ w h1 in
      let (s3, absent, present) = parse_token-eq-ok ext.u64_codec _ w2 h2 in
      let value : get_or o 0 ≡ n = elim epoch [
        | inl (z, e) ↦ ap (λ x. get_or x 0) (absent e) ∙ sym z
        | inr e ↦ ap (λ x. get_or x 0) (present n (e ∙ ap some (sym (ext.u64-decimal n))))
      ] in
      (e1 ∙ value, ap (λ v. v.redis) (s1 ∙ s3) ∙ r2, ap (λ v. v.now) (s1 ∙ s3) ∙ n2)

  pub touch_sso_epoch-eq-ok :
      (tenant_id identity_id : Uuid) (ttl : ℕ) (w : World ext) {u : Unit {0}} {w' : World ext}
      → touch_sso_epoch ext tenant_id identity_id ttl w ≡ (ok u, w')
      → (w'.redis ≡ ext.redis.expire (epoch_key tenant_id identity_id) ttl w.now w.redis)
        × (w'.now ≡ w.now)
  unfolding touch_sso_epoch Service.touch_transient Repository.touch_transient touch_value
  touch_sso_epoch-eq-ok tenant_id identity_id ttl w h =
      let (rest, e) = storage-eq-ok _ w h in
      (ap (λ p. p.1.redis) (sym e), ap (λ p. p.1.now) (sym e))

  -- EXPIRE, on the key itself and elsewhere.
  pub get-expire_here :
      (k : String) (ttl now t : ℕ) (s : ext.redis.State)
      → now ≤ t
      → t < now + ttl
      → ext.redis.get (ext.redis.expire k ttl now s) k t ≡ ext.redis.get s k now
  get-expire_here k ttl now t s le lt =
      let e = ext.redis.get-expire k ttl now s k t le in
      let same = (string_eq.eqb_iff k k).1 refl in
      let alive : ltb t (now + ttl) ≡ true = ground arith in rw (e, same, alive) refl

  incr_answer-eq-ok :
      (o : Option (ℕ × ext.redis.State)) (w : World ext) {n : ℕ} {w' : World ext}
      → incr_answer ext o w ≡ (ok n, w')
      → (s : ext.redis.State) × (o ≡ some (n, s)) × (w' ≡ record w { redis = s })
  incr_answer-eq-ok none w h = cc
  incr_answer-eq-ok (some (n, s)) w h = (s, cc, ap (λ p. p.1) (sym h))

  incr_from :
      (k : String) (n now : ℕ) (s s' : ext.redis.State) (m : ℕ)
      → IsEpoch s k now n
      → ext.redis.incr k now s ≡ some (m, s')
      → ext.redis.get s' k now ≡ some (ext.redis.decimal (suc n))
  incr_from k n now s s' m (inl (z, e)) h =
      let (s2, e2, get) = ext.redis.incr_new k now s e in
      let same = (string_eq.eqb_iff k k).1 refl in
      let g = get k now (omega arith) in
      let here : ext.redis.get s2 k now ≡ some (ext.redis.decimal 1) = rw (g, same) refl in
      let state : s' ≡ s2 = cc in
      ap (λ x. ext.redis.get x k now) state
      ∙ here
      ∙ ap (λ x. some (ext.redis.decimal (suc x))) (sym z)
  incr_from k n now s s' m (inr e) h =
      let (s2, e2, get) = ext.redis.incr_old k n now s e in
      let same = (string_eq.eqb_iff k k).1 refl in
      let g = get k now (omega arith) in
      let here : ext.redis.get s2 k now ≡ some (ext.redis.decimal (suc n)) = rw (g, same, e) refl in
      let state : s' ≡ s2 = cc in ap (λ x. ext.redis.get x k now) state ∙ here

  incr-eq-ok :
      (k : String) (n : ℕ) (w : World ext) {m : ℕ} {w' : World ext}
      → IsEpoch w.redis k w.now n
      → incr ext k w ≡ (ok m, w')
      → (ext.redis.get w'.redis k w.now ≡ some (ext.redis.decimal (suc n))) × (w'.now ≡ w.now)
  unfolding incr
  incr-eq-ok k n w {m} epoch h =
      let (rest, e) = storage-eq-ok _ w h in
      let (s, found, e') = incr_answer-eq-ok _ _ e in
      (
        ap (λ v. ext.redis.get v.redis k w.now) e' ∙ incr_from k n w.now w.redis s m epoch found,
        ap (λ v. v.now) e',
      )

  touch_value-eq-ok :
      (k : String) (ttl : ℕ) (w : World ext) {u : Unit {0}} {w' : World ext}
      → touch_value ext k ttl w ≡ (ok u, w')
      → (w'.redis ≡ ext.redis.expire k ttl w.now w.redis) × (w'.now ≡ w.now)
  unfolding touch_value
  touch_value-eq-ok k ttl w h =
      let (rest, e) = storage-eq-ok _ w h in
      (ap (λ p. p.1.redis) (sym e), ap (λ p. p.1.now) (sym e))

  touch_when :
      (c : Bool) (k : String) (ttl : ℕ) (w : World ext) {u : Unit {0}} {w' : World ext}
      → 0 < ttl
      → when c (touch_value ext k ttl) w ≡ (ok u, w')
      → (ext.redis.get w'.redis k w.now ≡ ext.redis.get w.redis k w.now) × (w'.now ≡ w.now)
  unfolding when
  touch_when true k ttl w pos h =
      let (r, t) = touch_value-eq-ok k ttl w h in
      (
        ap (λ s. ext.redis.get s k w.now) r
            ∙ get-expire_here k ttl w.now w.now w.redis (omega arith) (omega arith),
        t,
      )
  touch_when false k ttl w pos h =
      let (_, e) = pure-eq-ok tt w h in
      (ap (λ v. ext.redis.get v.redis k w.now) e, ap (λ v. v.now) e)

  increment_value-eq-ok :
      (k : String) (ttl n : ℕ) (w : World ext) {m : ℕ} {w' : World ext}
      → 0 < ttl
      → IsEpoch w.redis k w.now n
      → increment_value ext k ttl w ≡ (ok m, w')
      → (ext.redis.get w'.redis k w.now ≡ some (ext.redis.decimal (suc n))) × (w'.now ≡ w.now)
  unfolding increment_value
  increment_value-eq-ok k ttl n w pos epoch h =
      let (m, w1, h1, k1) = >>=-eq-ok _ _ w h in
      let (g1, t1) = incr-eq-ok k n w epoch h1 in
      let (_, w2, h2, k2) = >>=-eq-ok _ _ w1 k1 in
      let (g2, t2) = touch_when _ k ttl w1 pos h2 in
      let (_, e3) = pure-eq-ok m w2 k2 in
      (
        ap (λ v. ext.redis.get v.redis k w.now) e3
            ∙ subst (λ t. ext.redis.get w2.redis k t ≡ ext.redis.get w1.redis k t) t1 g2
            ∙ g1,
        ap (λ v. v.now) e3 ∙ t2 ∙ t1,
      )

  -- A bump that succeeds leaves the next number, for the whole of its lifetime.
  pub bump_sso_epoch-eq-ok :
      (tenant_id identity_id : Uuid) (ttl n t : ℕ) (w : World ext) {m : ℕ} {w' : World ext}
      → IsEpoch w.redis (epoch_key tenant_id identity_id) w.now n
      → bump_sso_epoch ext tenant_id identity_id ttl w ≡ (ok m, w')
      → w.now ≤ t
      → t < w.now + ttl
      → ext.redis.get w'.redis (epoch_key tenant_id identity_id) t
        ≡ some (ext.redis.decimal (suc n))
  unfolding bump_sso_epoch Service.increment_transient_counter Service.touch_transient
      Repository.touch_transient Repository.increment_transient_counter
  bump_sso_epoch-eq-ok tenant_id identity_id ttl n t w epoch h le lt =
      let k = epoch_key tenant_id identity_id in
      let (m, w1, h1, k1) = >>=-eq-ok _ _ w h in
      let (g1, t1) = increment_value-eq-ok k ttl n w (omega arith) epoch h1 in
      let (_, w2, h2, k2) = >>=-eq-ok _ _ w1 k1 in
      let (r2, t2) = touch_value-eq-ok k ttl w1 h2 in
      let (_, e3) = pure-eq-ok m w2 k2 in
      ap (λ v. ext.redis.get v.redis k t) e3
      ∙ ap (λ s. ext.redis.get s k t) r2
      ∙ get-expire_here k ttl w1.now t w1.redis (rw t1 le) (rw t1 lt)
      ∙ subst (λ x. ext.redis.get w1.redis k x ≡ some (ext.redis.decimal (suc n))) (sym t1) g1
