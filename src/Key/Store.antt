-- ===== src/Key/Store.antt =====
-- crates/knox-storage/src/key/store.rs: `PgKeyStore`, the tenant_keys table, whose primary key is
-- `id` and whose (tenant_id, kid) is UNIQUE (migrations/20260301163633).
use knox_iam_public.Base.{
  ℕ, suc, String, Bool, ◌&&◌, not, Option, none, some, List, ◌∷◌, ◌==◌, nat_eq, string_eq, find,
  find_latest, filter, any, length, sort_desc, update_where, if◌then◌else◌,
}
use knox_iam_public.Base.Pages.{page_rows}
use knox_iam_public.Common.Error.{RepositoryError, ServiceError}
use knox_iam_public.Common.Directory.{Uuid, TenantKey, KeyState, is_revoked, is_active_key}
use knox_iam_public.Common.Key.{CreateKeyParams}
use knox_iam_public.Externals.{Externals}
use knox_iam_public.World.{World, Action, Result, storage, ok, err, pure, ◌>>=◌}

-- The WHERE clauses.
abbrev pub has_id : Uuid → TenantKey → Bool
has_id id k = k.id == id

abbrev pub has_kid : Uuid → String → TenantKey → Bool
has_kid tenant_id kid k = k.kid == kid && k.tenant_id == tenant_id

abbrev pub active_of : Uuid → TenantKey → Bool
active_of tenant_id k = k.tenant_id == tenant_id && is_active_key k.state

abbrev pub published_of : Uuid → TenantKey → Bool
published_of tenant_id k = k.tenant_id == tenant_id && not (is_revoked k.state)

abbrev pub set_state : KeyState → TenantKey → TenantKey
set_state new_state k = record k { state = new_state }

-- The answers of the queries.
abbrev pub active_key : Uuid → List TenantKey → Option TenantKey
active_key tenant_id keys = find_latest (active_of tenant_id) (λ k. k.created_at) keys

abbrev pub published_keys : Uuid → List TenantKey → List TenantKey
published_keys tenant_id keys = sort_desc (λ k. k.created_at) (filter (published_of tenant_id) keys)

module _ (ext : Externals) where
  abbrev pub new_key : CreateKeyParams → World ext → TenantKey
  new_key params w = record {
    id = ext.new_v4 w.draws;
    tenant_id = params.tenant_id;
    kid = params.kid;
    use_type = params.use_type;
    kty = params.kty;
    alg = params.alg;
    public_key_pem = params.public_key_pem;
    x509_cert_pem = params.x509_cert_pem;
    encrypted_private_key = params.encrypted_private_key;
    state = KeyState.active;
    created_at = w.now;
    expires_at = params.expires_at;
  }

  abbrev pub insert : TenantKey → World ext → Result TenantKey × World ext
  insert key w =
      if any (has_kid key.tenant_id key.kid) w.keys
      then (err (ServiceError.repository RepositoryError.duplicate), w)
      else if any (has_id key.id) w.keys
      then (err (ServiceError.repository RepositoryError.database), w)
      else (ok key, record w { keys = key ∷ w.keys })

  unfoldable pub create : CreateKeyParams → Action ext TenantKey
  create params = storage λ w. insert (new_key params w) (record w { draws = suc w.draws })

  unfoldable pub get : Uuid → Action ext (Option TenantKey)
  get id = storage λ w. (ok (find (has_id id) w.keys), w)

  unfoldable pub get_by_kid : Uuid → String → Action ext (Option TenantKey)
  get_by_kid tenant_id kid = storage λ w. (ok (find (has_kid tenant_id kid) w.keys), w)

  unfoldable pub get_active_for_tenant : Uuid → Action ext (Option TenantKey)
  get_active_for_tenant tenant_id = storage λ w. (ok (active_key tenant_id w.keys), w)

  unfoldable pub list_for_jwks : Uuid → Action ext (List TenantKey)
  list_for_jwks tenant_id = storage λ w. (ok (published_keys tenant_id w.keys), w)

  -- The page, then the count: two queries.
  abbrev pub count_of : Uuid → Action ext ℕ
  count_of tenant_id = storage λ w. (ok (length (filter (λ k. k.tenant_id == tenant_id) w.keys)), w)

  abbrev pub list_page : Uuid → ℕ → ℕ → Action ext (List TenantKey)
  list_page tenant_id page page_size = storage λ w. (
    ok (
        page_rows page page_size
          (sort_desc (λ k. k.created_at) (filter (λ k. k.tenant_id == tenant_id) w.keys))),
    w,
  )

  unfoldable pub list : Uuid → ℕ → ℕ → Action ext (List TenantKey × ℕ)
  list tenant_id page page_size = do
    keys ← list_page tenant_id page page_size
    total ← count_of tenant_id
    pure (keys, total)

  abbrev pub updated_row :
      Uuid → KeyState → World ext → Option TenantKey → Result TenantKey × World ext
  updated_row id new_state w none = (err (ServiceError.repository RepositoryError.not_found), w)
  updated_row id new_state w (some k) = (
    ok (set_state new_state k),
    record w { keys = update_where (has_id id) (set_state new_state) w.keys },
  )

  unfoldable pub update_state : Uuid → KeyState → Action ext TenantKey
  update_state id new_state = storage λ w. updated_row id new_state w (find (has_id id) w.keys)

  abbrev pub deleted : Uuid → World ext → Result (Unit {0}) × World ext
  deleted id w =
      if any (has_id id) w.keys
      then (ok tt, record w { keys = filter (λ k. not (has_id id k)) w.keys })
      else (err (ServiceError.repository RepositoryError.not_found), w)

  unfoldable pub delete : Uuid → Action ext (Unit {0})
  delete id = storage (deleted id)

  unfoldable pub revoke_all_for_tenant : Uuid → Action ext (Unit {0})
  revoke_all_for_tenant tenant_id = storage λ w. (
    ok tt,
    record w { keys = update_where (published_of tenant_id) (set_state KeyState.revoked) w.keys },
  )
