-- ===== src/Identity.antt =====
-- Identities: the queries of crates/knox-storage/src/identity/store.rs, the repository's choice of
-- query, and crates/knox-core/src/identity.rs. The Redis cache in front of the table is left out.
pub mod Credentials
pub mod Rows
pub mod Administration
pub mod Provisioning
use Prim.Native.String.{count}
use knox_iam_public.Base.{
  suc, String, Bool, false, ◌&&◌, ◌||◌, not, Option, none, some, List, ◌==◌, nat_eq, string_eq,
  find, update_where, any, is_some, get_or, ltb, if◌then◌else◌,
}
use knox_iam_public.Common.Error.{RepositoryError, ServiceError}
use knox_iam_public.Common.Directory.{Uuid, Identity, IdentityHandle, is_active}
use knox_iam_public.Externals.{Externals}
use knox_iam_public.World.{Action, held_by, storage, ok, err, pure, or_fail, fail_if, ◌>>=◌, ◌>>◌}

abbrev pub user_not_found : ServiceError
user_not_found = ServiceError.validation "User not found"

abbrev pub in_pool : Uuid → Uuid → Identity → Bool
in_pool pool_id id i = i.id == id && i.pool_id == pool_id

abbrev pub set_hash : String → Identity → Identity
set_hash hash i = record i { password_hash = some hash }

module _ (ext : Externals) where
  unfoldable pub get_by_id : Uuid → Uuid → Action ext (Option Identity)
  get_by_id pool_id id = storage λ w. (ok (find (in_pool pool_id id) w.identities), w)

  -- lower(email) = lower($2)
  abbrev pub same_text : Option String → String → Bool
  same_text none text = false
  same_text (some s) text = ext.sql_lower s == ext.sql_lower text

  unfoldable pub get_by_email : Uuid → String → Action ext (Option Identity)
  get_by_email pool_id email =
      storage
        λ w. (ok (find (λ i. i.pool_id == pool_id && same_text i.email email) w.identities), w)

  unfoldable pub get_by_username : Uuid → String → Action ext (Option Identity)
  get_by_username pool_id username = storage λ w. (
    ok (find (λ i. i.pool_id == pool_id && same_text (some i.username) username) w.identities),
    w,
  )

  -- `IdentityRepository::get`
  unfoldable pub get : Uuid → IdentityHandle → Action ext (Option Identity)
  unfolding get_by_id get_by_email get_by_username
  get pool_id (IdentityHandle.id id) = get_by_id pool_id id
  get pool_id (IdentityHandle.email email) = get_by_email pool_id email
  get pool_id (IdentityHandle.username username) = get_by_username pool_id username

  -- `update` with a password hash alone: UPDATE … RETURNING finds no row, or one.
  unfoldable pub update_password_hash : Uuid → Uuid → String → Action ext (Unit {0})
  update_password_hash pool_id id hash = storage λ w.
      if any (in_pool pool_id id) w.identities
      then (
        ok tt,
        record w { identities = update_where (in_pool pool_id id) (set_hash hash) w.identities },
      )
      else (err (ServiceError.repository RepositoryError.not_found), w)

  abbrev pub stored_hash : Option Identity → Option String
  stored_hash none = none
  stored_hash (some user) = user.password_hash

  -- An unknown user and one without a password are checked against a dummy hash.
  unfoldable pub authenticate : Uuid → IdentityHandle → String → Action ext Identity
  unfolding get
  authenticate pool_id handle password = do
    identity ← get pool_id handle
    let has_password = is_some (stored_hash identity)
    let hash_owned = get_or (stored_hash identity) ext.argon2_dummy
    fail_if (not (ext.argon2_parses hash_owned)) (ServiceError.repository RepositoryError.database)
    let password_matches = ext.argon2_verify password hash_owned
    user ← or_fail identity ServiceError.invalid_credentials
    fail_if (not has_password || not password_matches || not (is_active user.status))
        ServiceError.invalid_credentials
    pure user

  unfoldable pub get_identity : Uuid → Uuid → Action ext Identity
  unfolding get
  get_identity pool_id id = do
    found ← get pool_id (IdentityHandle.id id)
    or_fail found user_not_found

  unfoldable pub find_by_handle : Uuid → IdentityHandle → Action ext (Option Identity)
  unfolding get
  find_by_handle pool_id handle = get pool_id handle

  -- A fresh salt for each hash.
  unfoldable pub hash_password : String → Action ext String
  hash_password password w =
      (ok (ext.argon2_hash w.draws password), record w { draws = suc w.draws })

  unfoldable pub set_password : Uuid → Uuid → String → Action ext (Unit {0})
  unfolding hash_password update_password_hash
  set_password pool_id identity_id new_password = do
    fail_if (ltb (count new_password) 8)
        (ServiceError.validation "New password must be at least 8 characters")
    new_hash ← hash_password new_password
    update_password_hash pool_id identity_id new_hash

  unfoldable pub get_permissions : Uuid → Action ext (List String)
  get_permissions identity_id = storage λ w. (ok (held_by w identity_id), w)
