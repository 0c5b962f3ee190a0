-- ===== src/Token/Store.antt =====
-- crates/knox-storage/src/token/store.rs: `PgRefreshTokenStore`, the refresh_tokens table.
use knox_iam_public.Base.{
  ℕ, String, Bool, ◌&&◌, Option, some, ◌∷◌, ◌==◌, nat_eq, string_eq, find, update_where, is_some,
  not, any, if◌then◌else◌, ◌||◌,
}
use knox_iam_public.Common.Error.{RepositoryError, ServiceError}
use knox_iam_public.Common.Directory.{Uuid}
use knox_iam_public.Common.Token.{RefreshToken}
use knox_iam_public.Externals.{Externals}
use knox_iam_public.World.{Action, storage, ok, err}

abbrev pub is_live : RefreshToken → Bool
is_live r = not (is_some r.revoked_at)

-- SET revoked_at = now(), updated_at = now()
abbrev pub set_revoked : ℕ → RefreshToken → RefreshToken
set_revoked now r = record r { revoked_at = some now; updated_at = now }

-- The WHERE clauses.
abbrev pub has_hash : Uuid → String → RefreshToken → Bool
has_hash tenant_id token_hash r = r.tenant_id == tenant_id && r.token_hash == token_hash

abbrev pub live_with_id : Uuid → RefreshToken → Bool
live_with_id id r = r.id == id && is_live r

abbrev pub live_in_family : Uuid → RefreshToken → Bool
live_in_family family_id r = r.family_id == family_id && is_live r

abbrev pub live_of_identity : Uuid → Uuid → RefreshToken → Bool
live_of_identity tenant_id identity_id r =
    r.tenant_id == tenant_id && r.identity_id == identity_id && is_live r

module _ (ext : Externals) where
  -- The primary key is `id`, and `token_hash` is UNIQUE (migrations/20260118162505).
  unfoldable pub create : RefreshToken → Action ext RefreshToken
  create token = storage λ w.
      if any (λ r. r.id == token.id || r.token_hash == token.token_hash) w.refresh_tokens
      then (err (ServiceError.repository RepositoryError.database), w)
      else (ok token, record w { refresh_tokens = token ∷ w.refresh_tokens })

  -- The rows that are revoked are found too.
  unfoldable pub get_by_hash : Uuid → String → Action ext (Option RefreshToken)
  get_by_hash tenant_id token_hash =
      storage λ w. (ok (find (has_hash tenant_id token_hash) w.refresh_tokens), w)

  unfoldable pub revoke : Uuid → Action ext (Unit {0})
  revoke id = storage λ w. (
    ok tt,
    record w {
      refresh_tokens = update_where (live_with_id id) (set_revoked w.now) w.refresh_tokens;
    },
  )

  unfoldable pub revoke_family : Uuid → Action ext (Unit {0})
  revoke_family family_id = storage λ w. (
    ok tt,
    record w {
      refresh_tokens = update_where (live_in_family family_id) (set_revoked w.now) w.refresh_tokens;
    },
  )

  unfoldable pub revoke_all_for_identity : Uuid → Uuid → Action ext (Unit {0})
  revoke_all_for_identity tenant_id identity_id = storage λ w. (
    ok tt,
    record w {
      refresh_tokens =
          update_where (live_of_identity tenant_id identity_id) (set_revoked w.now)
            w.refresh_tokens;
    },
  )
