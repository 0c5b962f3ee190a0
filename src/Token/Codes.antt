-- ===== src/Token/Codes.antt =====
-- crates/knox-storage/src/token/cache.rs: authorization codes in Redis.
use knox_iam_public.Base.{
  ◌≡◌, refl, sym, ◌∙◌, ap, ℕ, ◌≤◌, Option, none, some, String, string_eq, nat_eq, if◌then◌else◌,
}
use knox_iam_public.Common.Token.{AuthCodeContext}
use knox_iam_public.Externals.{Externals}
use knox_iam_public.World.{World, ok}
use knox_iam_public.World.Laws.{>>=-eq-ok, storage-eq-ok, or_fail-eq-ok, pure-eq-ok}
use knox_iam_public.Token.Cache.{get_and_delete_value, exchange_code, key, parse_code}

module _ {ext : Externals} where
  pub get_and_delete_value-eq-ok :
      (k : String) (w : World ext) {o : Option ext.redis.Text} {w' : World ext}
      → get_and_delete_value ext k w ≡ (ok o, w')
      → (o ≡ ext.redis.get w.redis k w.now)
        × (w'.redis ≡ ext.redis.del k w.now w.redis)
        × (w'.now ≡ w.now)
  unfolding get_and_delete_value
  get_and_delete_value-eq-ok k w h =
      let (rest, e) = storage-eq-ok _ w h in
      (cc, ap (λ p. p.1.redis) (sym e), ap (λ p. p.1.now) (sym e))

  -- A key that GETDEL took is gone at every later time.
  pub get_and_delete_value-gone :
      (k : String) (w : World ext) {o : Option ext.redis.Text} {w' : World ext} (t : ℕ)
      → get_and_delete_value ext k w ≡ (ok o, w')
      → w.now ≤ t
      → ext.redis.get w'.redis k t ≡ none
  get_and_delete_value-gone k w t h le =
      let (_, e, _) = get_and_delete_value-eq-ok k w h in
      ap (λ s. ext.redis.get s k t) e
      ∙ ext.redis.get-del k w.now w.redis k t le
      ∙ ap (λ b. if b then none else ext.redis.get w.redis k t) ((string_eq.eqb_iff k k).1 refl)

  parse_code-none :
      (o : Option ext.redis.Text) (w : World ext) {c : Option AuthCodeContext} {w' : World ext}
      → o ≡ none
      → parse_code ext o w ≡ (ok c, w')
      → c ≡ none
  parse_code-none none w e h = (pure-eq-ok _ w h).0
  parse_code-none (some x) w e h = cc

  parse_code-now :
      (o : Option ext.redis.Text) (w : World ext) {c : Option AuthCodeContext} {w' : World ext}
      → parse_code ext o w ≡ (ok c, w')
      → w' ≡ w
  parse_code-now none w h = (pure-eq-ok _ w h).1
  parse_code-now (some x) w h =
      let (c, w1, h1, k1) = >>=-eq-ok _ _ w h in (pure-eq-ok _ w1 k1).1 ∙ (or_fail-eq-ok _ _ w h1).1

  -- A code that was exchanged is not found again at any later time, unless it is stored again.
  pub exchange_code_once :
      (code : String) (w v : World ext) {c d : Option AuthCodeContext} {w' v' : World ext}
      → exchange_code ext code w ≡ (ok c, w')
      → ext.redis.get v.redis (key code) v.now ≡ ext.redis.get w'.redis (key code) v.now
      → w.now ≤ v.now
      → exchange_code ext code v ≡ (ok d, v')
      → d ≡ none
  unfolding exchange_code
  exchange_code_once code w v h same le k =
      let (found, w1, h1, k1) = >>=-eq-ok _ _ w h in
      let (again, v1, h2, k2) = >>=-eq-ok _ _ v k in
      let (e, _, _) = get_and_delete_value-eq-ok (key code) v h2 in
      let kept = parse_code-now found w1 k1 in
      parse_code-none again v1
        (e
          ∙ same
          ∙ ap (λ u. ext.redis.get u.redis (key code) v.now) kept
          ∙ get_and_delete_value-gone (key code) w v.now h1 le)
        k2
