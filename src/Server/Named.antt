-- ===== src/Server/Named.antt =====
-- server/src/middleware/auth.rs: the client and the subject that an accepted token names.
use knox_iam_public.Base.{
  ◌≡◌, sym, ap, ◌∙◌, true, false, ◌&&◌, not, some, ◌==◌, nat_eq, string_eq, find, ltb, is_some, ◌⊎◌,
  inl, inr,
}
use knox_iam_public.Common.Directory.{Uuid, Client, Identity, is_active}
use knox_iam_public.Common.Token.{JwtClaims}
use knox_iam_public.Externals.{Externals}
use knox_iam_public.World.{World, ok, fail_if}
use knox_iam_public.World.Laws.{
  >>=-eq-ok, query-eq-ok, fail_if-eq-ok, or_fail-eq-ok, pure-eq-ok, when-eq-ok-cases, map_err-eq-ok,
}
use knox_iam_public.Identity
use knox_iam_public.Identity.{in_pool}
use knox_iam_public.Client as Clients
use knox_iam_public.Token.Jwt.{validate_token_version}
use package.knox_iam_public.Server.Error.{AppError}
use package.knox_iam_public.Server.Access.{ResolvedTenant}
use package.knox_iam_public.Server.Bearer.{check_subject}
use package.knox_iam_public.Server.Same.{Same, Same-eq, Same-trans, not-false}

-- The client that the token names is active, of the token's pool, and has not revoked the token.
pub record HasClient {ext : Externals} (tenant : ResolvedTenant) (w : World ext)
    (claims : JwtClaims) : Type 0 where
  pub id : Uuid
  pub audience : ext.parse_uuid claims.aud ≡ some id
  pub client : Client
  pub stored : find (λ c. c.tenant_id == tenant.id && c.id == id) w.clients ≡ some client
  pub active : is_active client.status ≡ true
  pub pool : claims.pool_id ≡ client.pool_id
  pub current : ltb claims.token_version client.token_version ≡ false

abbrev pub HasActiveSubject : {ext : Externals} → World ext → JwtClaims → Type 0
HasActiveSubject {ext} w claims =
    (id : Uuid) × (i : Identity) × (ext.parse_uuid claims.sub ≡ some id)
    × (find (in_pool claims.pool_id id) w.identities ≡ some i)
    × (is_active i.status ≡ true)

module _ {ext : Externals} where
  get_active_client-eq-ok :
      (tenant_id id : Uuid) (w : World ext) {c : Client} {w' : World ext}
      → Clients.get_active_client ext tenant_id id w ≡ (ok c, w')
      → (find (λ x. x.tenant_id == tenant_id && x.id == id) w.clients ≡ some c)
        × (is_active c.status ≡ true)
        × Same w w'
  unfolding Clients.get_active_client Clients.get_client Clients.get Clients.require_active
  get_active_client-eq-ok tenant_id id w {c} {w'} h =
      let (x, w1, h1, k1) = >>=-eq-ok _ _ w h in
      let (found, w2, h2, k2) = >>=-eq-ok _ _ w h1 in
      let (os, s2, e2) = query-eq-ok _ w h2 in
      let (there, s3) = or_fail-eq-ok _ _ w2 k2 in
      let (_, w4, h4, k4) = >>=-eq-ok _ _ w1 k1 in
      let (active, s4) = fail_if-eq-ok _ _ w1 h4 in
      let (e5, s5) = pure-eq-ok x w4 k4 in
      (
        sym e2 ∙ there ∙ ap some (sym e5),
        ap (λ y. is_active y.status) e5 ∙ not-false _ active,
        (os, s5 ∙ s4 ∙ s3 ∙ s2),
      )

  get_identity-eq-ok :
      (pool_id id : Uuid) (w : World ext) {i : Identity} {w' : World ext}
      → Identity.get_identity ext pool_id id w ≡ (ok i, w')
      → (find (in_pool pool_id id) w.identities ≡ some i) × Same w w'
  unfolding Identity.get_identity Identity.get Identity.get_by_id
  get_identity-eq-ok pool_id id w h =
      let (found, w1, h1, k1) = >>=-eq-ok _ _ w h in
      let (os, s1, e1) = query-eq-ok _ w h1 in
      let (there, s2) = or_fail-eq-ok _ _ w1 k1 in (sym e1 ∙ there, (os, s2 ∙ s1))

  pub check_subject-eq-ok :
      (claims : JwtClaims) (w : World ext) {u : Unit {0}} {w' : World ext}
      → check_subject ext claims w ≡ (ok u, w')
      → ((is_some claims.auth_time ≡ false) ⊎ HasActiveSubject w claims) × Same w w'
  unfolding check_subject
  check_subject-eq-ok claims w h = elim (when-eq-ok-cases _ _ w h) [
    | inl (e, s) ↦ (inl e, Same-eq s)
    | inr (e, k) ↦
        let (id, w1, h1, k1) = >>=-eq-ok _ _ w k in
        let (sub, s1) = or_fail-eq-ok _ _ w h1 in
        let (i, w2, h2, k2) = >>=-eq-ok _ _ w1 k1 in
        let (there, s2) = get_identity-eq-ok claims.pool_id id w1 (map_err-eq-ok _ _ w1 h2) in
        let (active, s3) = fail_if-eq-ok _ _ w2 k2 in
        (
          inr (
            id,
            i,
            sub,
            ap (λ v. find (in_pool claims.pool_id id) v.identities) (sym s1) ∙ there,
            not-false _ active,
          ),
          Same-trans w w1 _ (Same-eq s1) (Same-trans w1 w2 _ s2 (Same-eq s3)),
        )
  ]

  -- A subject that is active, from a later state.
  pub earlier-HasActiveSubject :
      (claims : JwtClaims) (w w' : World ext)
      → Same w w'
      → (is_some claims.auth_time ≡ false) ⊎ HasActiveSubject w' claims
      → (is_some claims.auth_time ≡ false) ⊎ HasActiveSubject w claims
  earlier-HasActiveSubject claims w w' s (inl e) = inl e
  earlier-HasActiveSubject claims w w' (os, e) (inr (id, i, sub, there, active)) =
      inr (
        id,
        i,
        sub,
        ap (λ v. find (in_pool claims.pool_id id) v.identities) (sym e) ∙ there,
        active,
      )

  module _ (tenant : ResolvedTenant) (claims : JwtClaims) where
    -- The checks that follow the signature.
    pub client-HasClient :
        (id : Uuid) (client : Client) (w w4 w5 w6 w7 : World ext) {u v : Unit {0}}
        → Same w w4
        → ext.parse_uuid claims.aud ≡ some id
        → Clients.get_active_client ext tenant.id id w4 ≡ (ok client, w5)
        → validate_token_version ext claims client w5 ≡ (ok u, w6)
        → fail_if
            (not (claims.pool_id == client.pool_id))
            (AppError.unauthorized "Token is not valid for this client")
            w6
          ≡ (ok v, w7)
        → HasClient tenant w claims × Same w w7
    unfolding validate_token_version
    client-HasClient id client w w4 w5 w6 w7 (os, e) audience h5 h6 h7 =
        let (there, active, s5) = get_active_client-eq-ok tenant.id id w4 h5 in
        let (current, s6) = fail_if-eq-ok _ _ w5 h6 in
        let (pool, s7) = fail_if-eq-ok _ _ w6 h7 in
        (
          record {
            id = id;
            audience = audience;
            client = client;
            stored =
                ap (λ v. find (λ x. x.tenant_id == tenant.id && x.id == id) v.clients) (sym e)
                ∙ there;
            active = active;
            pool = (nat_eq.eqb_iff claims.pool_id client.pool_id).0 (not-false _ pool);
            current = current;
          },
          Same-trans w w4 w7 (os, e) (Same-trans w4 w5 w7 s5 (Same-eq (s7 ∙ s6))),
        )
