-- ===== src/Oidc/Rotation/Steps.antt =====
-- crates/knox-services/src/oidc/service.rs: what the steps of a successful refresh have checked.
use knox_iam_public.Base.{
  ◌≡◌, sym, ◌∙◌, ap, ◌≤◌, Bool, true, false, Option, some, String, List, arith, update_where,
  is_some, nat_eq, string_eq, contains, find,
}
use knox_iam_public.Base.Rows.{find-some}
use knox_iam_public.Common.Directory.{Uuid, Identity, Client, is_active}
use knox_iam_public.Common.Token.{RefreshToken}
use knox_iam_public.Externals.{Externals}
use knox_iam_public.World.{World, ok}
use knox_iam_public.World.Laws.{
  >>=-eq-ok, fail_if-eq-ok, when-eq-ok, or_fail-eq-ok, query-eq-ok, storage-eq-ok, pure-eq-ok,
  >>=-fail,
}
use knox_iam_public.Token.Store.{revoke, get_by_hash, set_revoked, live_with_id, has_hash}
use knox_iam_public.Token.Service
use knox_iam_public.Identity.{get_identity, in_pool, get_by_id}
use knox_iam_public.Oidc.Grants.{refuse_reuse, rotate, refuse_inactive}

module _ {ext : Externals} where
  -- The state after the UPDATE that revokes a token.
  abbrev pub with_revoked : Uuid → List Bool → World ext → World ext
  with_revoked id rest w = record w {
    outages = rest;
    refresh_tokens = update_where (live_with_id id) (set_revoked w.now) w.refresh_tokens;
  }

  pub refuse_reuse-eq-ok :
      (tenant_id : Uuid) (reused : Bool) (token : RefreshToken) (w : World ext) {u : Unit {0}}
      {w' : World ext}
      → refuse_reuse ext tenant_id reused token w ≡ (ok u, w')
      → (reused ≡ false) × (w' ≡ w)
  unfolding refuse_reuse
  refuse_reuse-eq-ok tenant_id reused token w h =
      when-eq-ok reused _ w (λ v v' k. let (_, v1, _, k1) = >>=-eq-ok _ _ v k in >>=-fail _ _ v1 k1)
        h

  pub refuse_inactive-eq-ok :
      (identity : Identity) (token : RefreshToken) (w : World ext) {u : Unit {0}} {w' : World ext}
      → refuse_inactive ext identity token w ≡ (ok u, w')
      → (is_active identity.status ≡ true) × (w' ≡ w)
  unfolding refuse_inactive
  refuse_inactive-eq-ok identity token w h =
      let (e, e') = when-eq-ok _ _ w (λ v v' k. >>=-fail _ _ v k) h in (ground arith, e')

  revoke_refresh_token-eq-ok :
      (id : Uuid) (w : World ext) {u : Unit {0}} {w' : World ext}
      → Service.revoke_refresh_token ext id w ≡ (ok u, w')
      → (rest : List Bool) × (w' ≡ with_revoked id rest w)
  unfolding Service.revoke_refresh_token revoke
  revoke_refresh_token-eq-ok id w h =
      let (rest, e) = storage-eq-ok _ w h in (rest, ap (λ p. p.1) (sym e))

  -- A rotation that succeeds has found the token to be the client's, live and unexpired, and
  -- revokes it.
  pub rotate-eq-ok :
      (tenant_id : Uuid) (client : Client) (token : RefreshToken) (w : World ext) {u : Unit {0}}
      {w' : World ext}
      → rotate ext tenant_id client token w ≡ (ok u, w')
      → (token.client_id ≡ client.id)
        × (is_some token.revoked_at ≡ false)
        × (w.now ≤ token.expires_at)
        × (contains client.grant_types "refresh_token" ≡ true)
        × (rest : List Bool) × (w' ≡ with_revoked token.id rest w)
  unfolding rotate
  rotate-eq-ok tenant_id client token w h =
      let (_, w1, h1, k1) = >>=-eq-ok _ _ w h in
      let (e1, s1) = refuse_reuse-eq-ok tenant_id _ token w h1 in
      let (_, w2, h2, k2) = >>=-eq-ok _ _ w1 k1 in
      let (e2, s2) = refuse_reuse-eq-ok tenant_id _ token w1 h2 in
      let (now, w3, h3, k3) = >>=-eq-ok _ _ w2 k2 in
      let (e3, s3) = pure-eq-ok w2.now w2 h3 in
      let (_, w4, h4, k4) = >>=-eq-ok _ _ w3 k3 in
      let (e4, s4) = fail_if-eq-ok _ _ w3 h4 in
      let (_, w5, h5, k5) = >>=-eq-ok _ _ w4 k4 in
      let (e5, s5) = fail_if-eq-ok _ _ w4 h5 in
      let (rest, e6) = revoke_refresh_token-eq-ok token.id w5 k5 in
      let same : w5 ≡ w = s5 ∙ s4 ∙ s3 ∙ s2 ∙ s1 in
      let now_w : now ≡ w.now = e3 ∙ ap (λ v. v.now) (s2 ∙ s1) in
      (
        ground (arith, (nat_eq.eqb_iff token.client_id client.id).0),
        e2,
        ground (arith),
        ground arith,
        rest,
        e6 ∙ ap (with_revoked token.id rest) same,
      )

  -- The row that a hash finds.
  pub get_refresh_token-eq-ok :
      (tenant_id : Uuid) (h : String) (w : World ext) {o : Option RefreshToken} {w' : World ext}
      → Service.get_refresh_token ext tenant_id h w ≡ (ok o, w')
      → o ≡ find (has_hash tenant_id h) w.refresh_tokens
  unfolding Service.get_refresh_token get_by_hash
  get_refresh_token-eq-ok tenant_id h w k = (query-eq-ok _ w k).2

  -- The identity found is the one looked for.
  pub get_identity-eq-ok :
      (pool_id id : Uuid) (w : World ext) {i : Identity} {w' : World ext}
      → get_identity ext pool_id id w ≡ (ok i, w')
      → (find (in_pool pool_id id) w.identities ≡ some i) × (i.id ≡ id)
  unfolding get_identity get_by_id
  get_identity-eq-ok pool_id id w {i} h =
      let (found, w1, h1, k1) = >>=-eq-ok _ _ w h in
      let (e, _) = or_fail-eq-ok found _ w1 k1 in
      let (_, _, e') = query-eq-ok _ w h1 in
      let here : find (in_pool pool_id id) w.identities ≡ some i = sym e' ∙ e in
      let t = find-some (in_pool pool_id id) w.identities here in
      (here, ground (arith, (nat_eq.eqb_iff i.id id).0))
