-- ===== src/Token/Transient.antt =====
-- crates/knox-core/src/token.rs: what the transient tokens of `TokenService` leave in Redis.
use knox_iam_public.Base.{
  ◌≡◌, ◌≢◌, refl, sym, ◌∙◌, ap, subst, ℕ, suc, zero, ◌+◌, ◌≤◌, ◌<◌, true, false, Option, none, some,
  String, arith, ◌==◌, string_eq, nat_eq, ltb, if◌then◌else◌,
}
use knox_iam_public.Externals.{Externals, Codec, Redis}
use knox_iam_public.World.{World, ok}
use knox_iam_public.World.Laws.{>>=-eq-ok, storage-eq-ok, query-eq-ok, pure-eq-ok, or_fail-eq-ok}
use knox_iam_public.Token.Cache.{set_value, get_value, set_answer}
use knox_iam_public.Token.Repository
use knox_iam_public.Token.Service.{
  TransientKind, full_key, parse_token, store_transient_token, retrieve_transient_token,
}

-- What Redis answers after a SETEX.
abbrev pub IsStored : (r : Redis) → String → r.Text → ℕ → ℕ → r.State → r.State → Type 0
IsStored r k v ttl now s s' =
    (j : String) (t : ℕ)
    → now ≤ t
    → r.get s' j t ≡ (if k == j then (if ltb t (now + ttl) then some v else none) else r.get s j t)

IsStored-set_ex :
    (r : Redis) (ttl : ℕ) (k : String) (v : r.Text) (now : ℕ) (s s' : r.State)
    → r.set_ex k v ttl now s ≡ some s'
    → IsStored r k v ttl now s s'
IsStored-set_ex r zero k v now s s' h = let e = r.set_ex_zero k v now s in cc
IsStored-set_ex r (suc ttl) k v now s s' h =
    let (s2, e, get) = r.set_ex_lem k v (suc ttl) now s (omega arith) in
    let same : s2 ≡ s' = cc in subst (IsStored r k v (suc ttl) now s) same get

-- The value until it expires, and nothing then; the other keys as they were.
pub stored_alive :
    (r : Redis) (k : String) (v : r.Text) (ttl now t : ℕ) (s s' : r.State)
    → IsStored r k v ttl now s s'
    → now ≤ t
    → t < now + ttl
    → r.get s' k t ≡ some v
stored_alive r k v ttl now t s s' h le lt =
    let e = h k t le in
    let same = (string_eq.eqb_iff k k).1 refl in
    let alive : ltb t (now + ttl) ≡ true = ground arith in rw (e, same, alive) refl

pub stored_expired :
    (r : Redis) (k : String) (v : r.Text) (ttl now t : ℕ) (s s' : r.State)
    → IsStored r k v ttl now s s'
    → now ≤ t
    → now + ttl ≤ t
    → r.get s' k t ≡ none
stored_expired r k v ttl now t s s' h le lt =
    let e = h k t le in
    let same = (string_eq.eqb_iff k k).1 refl in
    let late : ltb t (now + ttl) ≡ false = ground arith in rw (e, same, late) refl

pub stored_elsewhere :
    (r : Redis) (k : String) (v : r.Text) (ttl now t : ℕ) (s s' : r.State) (j : String)
    → IsStored r k v ttl now s s'
    → k ≢ j
    → now ≤ t
    → r.get s' j t ≡ r.get s j t
stored_elsewhere r k v ttl now t s s' j h ne le =
    let e = h j t le in
    let other : (k == j) ≡ false = ground (arith, (string_eq.eqb_iff k j).0) in rw (e, other) refl

module _ {ext : Externals} where
  set_answer-eq-ok :
      (o : Option ext.redis.State) (w : World ext) {u : Unit {0}} {w' : World ext}
      → set_answer ext o w ≡ (ok u, w')
      → (s : ext.redis.State) × (o ≡ some s) × (w' ≡ record w { redis = s })
  set_answer-eq-ok none w h = cc
  set_answer-eq-ok (some s) w h = (s, refl, ap (λ p. p.1) (sym h))

  -- A transient token that was stored is the key's value until it expires, and no other key changed.
  pub store_transient_token-eq-ok :
      {T : Type 0} (codec : Codec ext.redis.Text T) (kind : TransientKind) (k : String) (token : T)
      (ttl : ℕ) (w : World ext) {u : Unit {0}} {w' : World ext}
      → store_transient_token ext codec kind k token ttl w ≡ (ok u, w')
      → IsStored ext.redis (full_key kind k) (codec.write token) ttl w.now w.redis w'.redis
        × (w'.now ≡ w.now)
  unfolding store_transient_token Repository.store_transient_string set_value
  store_transient_token-eq-ok codec kind k token ttl w h =
      let (rest, e) = storage-eq-ok _ w h in
      let (s, set, w_eq) = set_answer-eq-ok _ _ e in
      (
        subst (IsStored ext.redis _ _ ttl w.now w.redis) (sym (ap (λ v. v.redis) w_eq))
            (IsStored-set_ex ext.redis ttl _ _ w.now w.redis s set),
        ap (λ v. v.now) w_eq,
      )

  -- A transient token that is read is what the key's text says.
  pub retrieve_transient_token-eq-ok :
      {T : Type 0} (codec : Codec ext.redis.Text T) (kind : TransientKind) (k : String)
      (w : World ext) {o : Option T} {w' : World ext}
      → retrieve_transient_token ext codec kind k w ≡ (ok o, w')
      → (w1 : World ext) × (parse_token ext codec (ext.redis.get w.redis (full_key kind k) w.now) w1
          ≡ (ok o, w'))
        × (w1.redis ≡ w.redis)
        × (w1.now ≡ w.now)
  unfolding retrieve_transient_token Repository.read_transient_string get_value
  retrieve_transient_token-eq-ok codec kind k w {o} {w'} h =
      let (found, w1, h1, k1) = >>=-eq-ok _ _ w h in
      let (rest, e, e') = query-eq-ok _ w h1 in
      (
        w1,
        subst (λ x. parse_token ext codec x w1 ≡ (ok o, w')) e' k1,
        ap (λ v. v.redis) e,
        ap (λ v. v.now) e,
      )

  pub parse_token-eq-ok :
      {T : Type 0} (codec : Codec ext.redis.Text T) (x : Option ext.redis.Text) (w : World ext)
      {o : Option T} {w' : World ext}
      → parse_token ext codec x w ≡ (ok o, w')
      → (w' ≡ w) × ((x ≡ none) → o ≡ none) × ((t : T) → x ≡ some (codec.write t) → o ≡ some t)
  parse_token-eq-ok codec none w h = let (e, s) = pure-eq-ok _ w h in (s, λ _. e, λ t k. cc)
  parse_token-eq-ok codec (some json) w h =
      let (token, w1, h1, k1) = >>=-eq-ok _ _ w h in
      let (e, s) = or_fail-eq-ok _ _ w h1 in
      let (e', s') = pure-eq-ok _ w1 k1 in
      (s' ∙ s, λ k. cc, λ t k. let q = codec.read-write t in cc)
