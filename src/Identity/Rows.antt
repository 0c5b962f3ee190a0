-- ===== src/Identity/Rows.antt =====
-- crates/knox-storage/src/identity/store.rs and repository.rs: the writes to the identities table
-- and its listing. The rows are kept newest first; user names and emails are UNIQUE within a pool,
-- up to case, and the pool is one of the tenant (migrations/20260721140000). A deleted identity takes
-- its roles, refresh tokens, second factors and backup codes along.
use Prim.Native.String.{◌++◌}
use knox_iam_public.Base.{
  ℕ, String, Bool, true, false, ◌&&◌, ◌||◌, not, Option, none, some, List, ◌∷◌, ◌==◌, nat_eq,
  string_eq, find, filter, any, length, get_or, is_some, update_where, if◌then◌else◌,
}
use knox_iam_public.Base.Pages.{page_rows}
use knox_iam_public.Common.Error.{RepositoryError, ServiceError}
use knox_iam_public.Common.Directory.{Uuid, Identity, IdentityHandle, Status, same_status}
use knox_iam_public.Externals.{Externals}
use knox_iam_public.World.{World, Action, Result, storage, ok, err, pure, ◌>>=◌}
use package.knox_iam_public.Identity.{in_pool, same_text, get}

pub record IdentityUpdates : Type 0 where
  pub username : Option String
  pub email : Option String
  pub password_hash : Option String
  pub email_verified : Option Bool
  pub first_name : Option String
  pub last_name : Option String
  pub status : Option Status

pub record IdentityFilter : Type 0 where
  pub tenant_id : Uuid
  pub pool_id : Option Uuid
  pub page : ℕ
  pub page_size : ℕ
  pub status : Option Status
  pub query : Option String

abbrev pub or_else : {A : Type 0} → Option A → Option A → Option A
or_else none b = b
or_else (some a) b = some a

-- SET … for the columns that the updates name.
unfoldable pub set_columns : IdentityUpdates → Identity → Identity
set_columns u i = record i {
  username = get_or u.username i.username;
  email = or_else u.email i.email;
  password_hash = or_else u.password_hash i.password_hash;
  email_verified = get_or u.email_verified i.email_verified;
  first_name = or_else u.first_name i.first_name;
  last_name = or_else u.last_name i.last_name;
  status = get_or u.status i.status;
}

module _ (ext : Externals) where
  -- The two unique indexes, between different rows.
  abbrev pub collides : Identity → Identity → Bool
  collides a b =
      a.pool_id == b.pool_id
      && (same_text ext (some a.username) b.username || shares_email a.email b)
    where
      shares_email : Option String → Identity → Bool
      shares_email none b = false
      shares_email (some email) b = same_text ext b.email email

  abbrev pub inserted_identity : Identity → World ext → Result Identity × World ext
  inserted_identity identity w =
      if any (λ i. i.id == identity.id || collides identity i) w.identities
        || not (any (λ p. p.id == identity.pool_id && p.tenant_id == identity.tenant_id) w.pools)
      then (err (ServiceError.repository RepositoryError.duplicate), w)
      else (ok identity, record w { identities = identity ∷ w.identities })

  unfoldable pub create : Identity → Action ext Identity
  create identity = storage (inserted_identity identity)

  abbrev pub updated_identity :
      Uuid → Uuid → IdentityUpdates → World ext → Option Identity → Result Identity × World ext
  updated_identity pool_id id updates w none =
      (err (ServiceError.repository RepositoryError.not_found), w)
  updated_identity pool_id id updates w (some i) =
      if any (λ j. not (j.id == id) && collides (set_columns updates i) j) w.identities
      then (err (ServiceError.repository RepositoryError.duplicate), w)
      else (
        ok (set_columns updates i),
        record w {
          identities = update_where (in_pool pool_id id) (set_columns updates) w.identities;
        },
      )

  -- UPDATE … RETURNING, for a handle that is an id.
  unfoldable pub update : Uuid → Uuid → IdentityUpdates → Action ext Identity
  update pool_id id updates =
      storage λ w. updated_identity pool_id id updates w (find (in_pool pool_id id) w.identities)

  abbrev pub without : Uuid → World ext → World ext
  without id w = record w {
    identities = filter (λ i. not (i.id == id)) w.identities;
    identity_roles = filter (λ ir. not (ir.identity_id == id)) w.identity_roles;
    refresh_tokens = filter (λ r. not (r.identity_id == id)) w.refresh_tokens;
    mfa_methods = filter (λ m. not (m.identity_id == id)) w.mfa_methods;
    backup_codes = filter (λ c. not (c.identity_id == id)) w.backup_codes;
  }

  unfoldable pub delete : Uuid → Uuid → Action ext (Unit {0})
  delete pool_id id = storage λ w.
      if any (in_pool pool_id id) w.identities
      then (ok tt, without id w)
      else (err (ServiceError.repository RepositoryError.not_found), w)

  -- `exists`
  unfoldable pub exists : Uuid → Uuid → Action ext Bool
  unfolding get
  exists pool_id id = do found ← get ext pool_id (IdentityHandle.id id); pure (is_some found)

  abbrev pub in_some_pool : Option Uuid → Identity → Bool
  in_some_pool none i = true
  in_some_pool (some pool_id) i = i.pool_id == pool_id

  abbrev pub has_some_status : Option Status → Identity → Bool
  has_some_status none i = true
  has_some_status (some s) i = same_status i.status s

  abbrev pub like : Option String → String → Bool
  like none pattern = false
  like (some s) pattern = ext.sql_like (ext.sql_lower s) pattern

  abbrev pub matches_query : Option String → Identity → Bool
  matches_query none i = true
  matches_query (some q) i =
      let pattern = "%" ++ (ext.to_lowercase q ++ "%") in
      like i.email pattern || like (some i.username) pattern

  abbrev pub passes : IdentityFilter → Identity → Bool
  passes f i =
      i.tenant_id == f.tenant_id
      && in_some_pool f.pool_id i
      && has_some_status f.status i
      && matches_query f.query i

  -- The page, then the count: two queries.
  unfoldable pub list : IdentityFilter → Action ext (List Identity × ℕ)
  list f = do
    identities ←
        storage (λ w. (ok (page_rows f.page f.page_size (filter (passes f) w.identities)), w))
    total ← storage (λ w. (ok (length (filter (passes f) w.identities)), w))
    pure (identities, total)
