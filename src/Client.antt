-- ===== src/Client.antt =====
-- Clients: the queries of crates/knox-storage/src/client/store.rs, and the credential checks of
-- crates/knox-core/src/client.rs. The Redis cache in front of the table is left out.
use knox_iam_public.Base.{String, ◌&&◌, not, Option, ◌==◌, nat_eq, string_eq, find}
use knox_iam_public.Common.Error.{ServiceError}
use knox_iam_public.Common.Directory.{Uuid, Client, is_active}
use knox_iam_public.Externals.{Externals}
use knox_iam_public.World.{Action, storage, ok, pure, or_fail, fail_if, ◌>>=◌, ◌>>◌}

abbrev pub client_not_found : ServiceError
client_not_found = ServiceError.validation "Client not found"

module _ (ext : Externals) where
  unfoldable pub get : Uuid → Uuid → Action ext (Option Client)
  get tenant_id id =
      storage λ w. (ok (find (λ c. c.tenant_id == tenant_id && c.id == id) w.clients), w)

  unfoldable pub get_by_name : Uuid → String → Action ext (Option Client)
  get_by_name tenant_id name =
      storage λ w. (ok (find (λ c. c.tenant_id == tenant_id && c.name == name) w.clients), w)

  unfoldable pub hash_secret : String → String
  hash_secret secret = ext.sha256_hex secret

  unfoldable pub require_active : Client → Action ext Client
  require_active client = do
    fail_if (not (is_active client.status)) ServiceError.invalid_credentials
    pure client

  unfoldable pub get_client : Uuid → Uuid → Action ext Client
  unfolding get
  get_client tenant_id id = do found ← get tenant_id id; or_fail found client_not_found

  unfoldable pub get_active_client : Uuid → Uuid → Action ext Client
  unfolding get_client require_active
  get_active_client tenant_id id = do client ← get_client tenant_id id; require_active client

  unfoldable pub get_client_by_name : Uuid → String → Action ext Client
  unfolding get_by_name
  get_client_by_name tenant_id name = do
    found ← get_by_name tenant_id name
    or_fail found client_not_found

  unfoldable pub get_active_client_by_name : Uuid → String → Action ext Client
  unfolding get_client_by_name require_active
  get_active_client_by_name tenant_id name = do
    client ← get_client_by_name tenant_id name
    require_active client

  -- The comparison of a candidate secret with the stored hash.
  unfoldable pub check_secret : Client → String → Action ext Client
  unfolding hash_secret
  check_secret client secret = do
    stored_hash ← or_fail client.client_secret_hash ServiceError.invalid_credentials
    fail_if (not (hash_secret secret == stored_hash)) ServiceError.invalid_credentials
    pure client

  unfoldable pub authenticate_client : Uuid → Uuid → String → Action ext Client
  unfolding get_active_client check_secret
  authenticate_client tenant_id client_id secret = do
    client ← get_active_client tenant_id client_id
    check_secret client secret

  unfoldable pub authenticate_client_by_name : Uuid → String → String → Action ext Client
  unfolding get_active_client_by_name check_secret
  authenticate_client_by_name tenant_id name secret = do
    client ← get_active_client_by_name tenant_id name
    check_secret client secret
