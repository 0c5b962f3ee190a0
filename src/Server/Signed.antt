-- ===== src/Server/Signed.antt =====
-- crates/knox-core/src/token.rs: the tokens that `verify_jwt` accepts.
use knox_iam_public.Base.{
  ◌≡◌, sym, ap, ◌∙◌, false, ◌&&◌, String, none, some, ◌==◌, nat_eq, string_eq, find,
}
use knox_iam_public.Common.Directory.{TenantKey, is_revoked}
use knox_iam_public.Common.Token.{JwtClaims}
use knox_iam_public.Externals.{Externals, JwtHeader}
use knox_iam_public.World.{World, ok}
use knox_iam_public.World.Laws.{>>=-eq-ok, query-eq-ok, fail_if-eq-ok, or_fail-eq-ok, pure-eq-ok}
use knox_iam_public.Token.Jwt.{verify_jwt, verify_with_key, get_key_by_kid}
use package.knox_iam_public.Server.Access.{ResolvedTenant}
use package.knox_iam_public.Server.Same.{Same, not-false}

-- The token is signed with a key of the tenant that is not revoked.
pub record IsSigned {ext : Externals} (tenant : ResolvedTenant) (w : World ext) (token : String)
    (claims : JwtClaims) : Type 0 where
  pub header : JwtHeader
  pub decoded : ext.jwt.decode_header token ≡ some header
  pub kid : String
  pub named : header.kid ≡ some kid
  pub key : TenantKey
  pub stored : find (λ k. k.kid == kid && k.tenant_id == tenant.id) w.keys ≡ some key
  pub unrevoked : is_revoked key.state ≡ false
  pub verified :
      ext.jwt.decode
        (record { issuer = tenant.issuer; audience = none })
        w.now
        token
        key.public_key_pem
      ≡ some claims

module _ {ext : Externals} where
  verify_with_key-eq-ok :
      (key : TenantKey) (tenant : ResolvedTenant) (token : String) (w : World ext)
      {claims : JwtClaims} {w' : World ext}
      → verify_with_key ext key tenant.id tenant.issuer token none w ≡ (ok claims, w')
      → (is_revoked key.state ≡ false)
        × (ext.jwt.decode
              (record { issuer = tenant.issuer; audience = none })
              w.now
              token
              key.public_key_pem
            ≡ some claims)
        × (claims.tenant_id ≡ tenant.id)
        × (w' ≡ w)
  unfolding verify_with_key
  verify_with_key-eq-ok key tenant token w {claims} {w'} h =
      let (_, w1, h1, k1) = >>=-eq-ok _ _ w h in
      let (unrevoked, s1) = fail_if-eq-ok _ _ w h1 in
      let (_, w2, h2, k2) = >>=-eq-ok _ _ w1 k1 in
      let (_, s2) = fail_if-eq-ok _ _ w1 h2 in
      let (now, w3, h3, k3) = >>=-eq-ok _ _ w2 k2 in
      let (e3, s3) = pure-eq-ok w2.now w2 h3 in
      let (c, w4, h4, k4) = >>=-eq-ok _ _ w3 k3 in
      let (verified, s4) = or_fail-eq-ok _ _ w3 h4 in
      let (_, w5, h5, k5) = >>=-eq-ok _ _ w4 k4 in
      let (tenant_id, s5) = fail_if-eq-ok _ _ w4 h5 in
      let (e6, s6) = pure-eq-ok c w5 k5 in
      let now_eq : now ≡ w.now = e3 ∙ ap (λ v. v.now) (s2 ∙ s1) in
      (
        unrevoked,
        ap
              (λ n.
                ext.jwt.decode (record { issuer = tenant.issuer; audience = none }) n token
                  key.public_key_pem)
              (sym now_eq)
            ∙ verified
            ∙ ap some (sym e6),
        ap (λ x. x.tenant_id) e6 ∙ (nat_eq.eqb_iff c.tenant_id tenant.id).0 (not-false _ tenant_id),
        s6 ∙ s5 ∙ s4 ∙ s3 ∙ s2 ∙ s1,
      )

  pub verify_jwt-eq-ok :
      (tenant : ResolvedTenant) (token : String) (w : World ext) {claims : JwtClaims}
      {w' : World ext}
      → verify_jwt ext tenant.id tenant.issuer token none w ≡ (ok claims, w')
      → IsSigned tenant w token claims × (claims.tenant_id ≡ tenant.id) × Same w w'
  unfolding verify_jwt get_key_by_kid
  verify_jwt-eq-ok tenant token w {claims} {w'} h =
      let (header, w1, h1, k1) = >>=-eq-ok _ _ w h in
      let (decoded, s1) = or_fail-eq-ok _ _ w h1 in
      let (_, w2, h2, k2) = >>=-eq-ok _ _ w1 k1 in
      let (_, s2) = fail_if-eq-ok _ _ w1 h2 in
      let (kid, w3, h3, k3) = >>=-eq-ok _ _ w2 k2 in
      let (named, s3) = or_fail-eq-ok _ _ w2 h3 in
      let (found, w4, h4, k4) = >>=-eq-ok _ _ w3 k3 in
      let (os, s4, e4) = query-eq-ok _ w3 h4 in
      let (key, w5, h5, k5) = >>=-eq-ok _ _ w4 k4 in
      let (there, s5) = or_fail-eq-ok _ _ w4 h5 in
      let (unrevoked, verified, same_tenant, s6) = verify_with_key-eq-ok key tenant token w5 k5 in
      let before : w3 ≡ w = s3 ∙ s2 ∙ s1 in
      let at : w5 ≡ record w { outages = os } =
        s5 ∙ s4 ∙ ap {A = World ext} (λ v. record v { outages = os }) before in
      (
        record {
          header = header;
          decoded = decoded;
          kid = kid;
          named = named;
          key = key;
          stored =
              ap (λ v. find (λ k. k.kid == kid && k.tenant_id == tenant.id) v.keys) (sym before)
              ∙ sym e4
              ∙ there;
          unrevoked = unrevoked;
          verified =
              ap
                (λ v.
                  ext.jwt.decode (record { issuer = tenant.issuer; audience = none }) v.now token
                    key.public_key_pem)
                (sym at)
              ∙ verified;
        },
        same_tenant,
        (os, s6 ∙ at),
      )
