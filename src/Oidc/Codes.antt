-- ===== src/Oidc/Codes.antt =====
-- crates/knox-services/src/oidc/service.rs: an authorization code, from its issue to its redemption.
use text.Mathlib.TextLemmas.{append_assoc}
use knox_iam_public.Base.{
  ◌≡◌, refl, sym, ◌∙◌, ap, ℕ, suc, ◌+◌, ◌≤◌, ◌<◌, Option, some, String, [], string_eq, nat_eq,
}
use knox_iam_public.Common.Directory.{Uuid, Client, AuthorizationConfiguration}
use knox_iam_public.Common.Token.{AuthCodeContext}
use knox_iam_public.Externals.{Externals}
use knox_iam_public.World.{World, ok, pure, ◌>>=◌, ◌>>◌, storage, or_fail}
use knox_iam_public.World.Laws.{>>=-eq-ok, pure-eq-ok}
use knox_iam_public.Token.Cache.{key, exchange_code, get_and_delete_value}
use knox_iam_public.Token.Codes.{exchange_code_once}
use knox_iam_public.Token.Transient.{stored_alive, store_transient_token-eq-ok}
use knox_iam_public.Token.Repository
use knox_iam_public.Token.Service
use knox_iam_public.Token.Service.{
  TransientKind, full_key, prefix, exchange_auth_code, generate_opaque_token,
}
use knox_iam_public.Authentication.Session.{SsoSession}
use knox_iam_public.Oidc.Models.{AuthorizeRequest, AuthorizeResult, MintingContext, method_text}
use knox_iam_public.Oidc.Authorize.{issue_code}
use knox_iam_public.Oidc.Grants.{validate_authorization_code}
use knox_iam_public.Oidc.Redemption.{validate_authorization_code-eq-ok}

-- The key that the authorize endpoint stores a code under is the key that the token endpoint reads.
auth_code_key : (code : String) → full_key TransientKind.auth_code code ≡ key code
unfolding full_key prefix key
auth_code_key code = sym (append_assoc "auth_code" ":" code)

-- The context that a code stands for.
abbrev pub issued_context : Uuid → AuthorizeRequest → Client → SsoSession → ℕ → AuthCodeContext
issued_context tenant_id req client session now = record {
  tenant_id = tenant_id;
  client_id = client.id;
  identity_id = session.identity.id;
  scopes = req.scope;
  redirect_uri = req.redirect_uri;
  pkce_code_challenge = req.code_challenge;
  pkce_code_challenge_method = method_text req.code_challenge_method;
  nonce = req.nonce;
  amr = session.amr;
  auth_time = some session.authenticated_at;
  created_at = now;
}

module _ {ext : Externals} where
  -- After a successful exchange of a code no grant is validated for it again, by any client and at
  -- any later time, unless the code's key is written again.
  pub code_redeemed_once :
      (code : String) (w v : World ext) {c : Option AuthCodeContext} {w' : World ext}
      (tenant_id : Uuid) (client_id : String) (secret : Option String) (uri : Option String)
      (verifier : String) (config : AuthorizationConfiguration)
      → exchange_auth_code ext code w ≡ (ok c, w')
      → ext.redis.get v.redis (key code) v.now ≡ ext.redis.get w'.redis (key code) v.now
      → w.now ≤ v.now
      → (context : MintingContext) (v' : World ext)
      → ¬ (
          validate_authorization_code ext tenant_id client_id secret code uri verifier config v
          ≡ (ok context, v'))
  unfolding exchange_auth_code Repository.exchange_auth_code
  code_redeemed_once code w v tenant_id client_id secret uri verifier config h same le context v'
        k =
      let (ctx, v1, e, _) =
        validate_authorization_code-eq-ok tenant_id client_id secret code uri verifier config v k in
      let gone = exchange_code_once code w v h same le e in cc

  found_code :
      (code : String) (ctx : AuthCodeContext) (v : World ext)
      → v.outages ≡ []
      → ext.redis.get v.redis (key code) v.now ≡ some (ext.code_codec.write ctx)
      → (exchange_auth_code ext code v).0 ≡ ok (some ctx)
  unfolding exchange_auth_code Repository.exchange_auth_code exchange_code get_and_delete_value
      or_fail ◌>>=◌ storage
  found_code code ctx v up here = rw up (rw here (rw (ext.code_codec.read-write ctx) refl))

  issued_from :
      (code : String) (ctx : AuthCodeContext) (ttl : ℕ) (result : AuthorizeResult) (u : World ext)
      (t : ℕ) {r : AuthorizeResult} {w' : World ext}
      → (Service.store_transient_token ext ext.code_codec TransientKind.auth_code code ctx ttl
            >> pure result)
          u
        ≡ (ok r, w')
      → u.now ≤ t
      → t < u.now + ttl
      → (r ≡ result) × (ext.redis.get w'.redis (key code) t ≡ some (ext.code_codec.write ctx))
  issued_from code ctx ttl result u t h le lt =
      let (_, w1, h1, k1) = >>=-eq-ok _ _ u h in
      let (stored, _) = store_transient_token-eq-ok ext.code_codec _ code ctx ttl u h1 in
      let (e, s) = pure-eq-ok result w1 k1 in
      (
        e,
        ap (λ x. ext.redis.get x.redis (key code) t) s
            ∙ ap (λ k. ext.redis.get w1.redis k t) (sym (auth_code_key code))
            ∙ stored_alive ext.redis _ _ ttl u.now t u.redis w1.redis stored le lt,
      )

  -- A code that the authorize endpoint issues is exchanged for exactly the request and session
  -- that it was issued for, within the client's lifetime for codes, where the storage is up and
  -- nothing else touches the code's key.
  pub issue_code-exchange_auth_code :
      (tenant_id : Uuid) (req : AuthorizeRequest) (client : Client) (session : SsoSession)
      (w v : World ext) {r : AuthorizeResult} {w' : World ext}
      → issue_code ext tenant_id req client session w ≡ (ok r, w')
      → v.outages ≡ []
      → ext.redis.get v.redis (key (ext.opaque_token 32 w.draws)) v.now
        ≡ ext.redis.get w'.redis (key (ext.opaque_token 32 w.draws)) v.now
      → w.now ≤ v.now
      → v.now < w.now + client.auth_code_ttl
      → (r ≡ AuthorizeResult.success (ext.opaque_token 32 w.draws) req.redirect_uri req.state)
        × ((exchange_auth_code ext (ext.opaque_token 32 w.draws) v).0
            ≡ ok (some (issued_context tenant_id req client session w.now)))
  unfolding issue_code generate_opaque_token ◌>>=◌
  issue_code-exchange_auth_code tenant_id req client session w v h up same le lt =
      let ctx = issued_context tenant_id req client session w.now in
      let code = ext.opaque_token 32 w.draws in
      let (e, here) =
        issued_from code ctx client.auth_code_ttl
          (AuthorizeResult.success code req.redirect_uri req.state)
          (record w { draws = suc w.draws }) v.now h le lt in
      (e, found_code code ctx v up (same ∙ here))
