-- ===== src/Identity/Credentials.antt =====
-- crates/knox-core/src/identity.rs: what `authenticate` answers.
use knox_iam_public.Base.{
  ◌≡◌, refl, ◌∙◌, String, Bool, true, false, ◌&&◌, ◌||◌, not, Option, none, some, get_or, is_some,
  if◌then◌else◌,
}
use knox_iam_public.Common.Error.{ServiceError, RepositoryError}
use knox_iam_public.Common.Directory.{Uuid, Identity, IdentityHandle, is_active}
use knox_iam_public.Externals.{Externals}
use knox_iam_public.World.{World, Action, Result, ok, err, pure, fail_if, or_fail, ◌>>=◌, ◌>>◌}
use knox_iam_public.World.Laws.{>>=-ok}
use knox_iam_public.Identity.{get, authenticate, stored_hash}

module _ (ext : Externals) where
  abbrev verifies : Option String → String → Bool
  verifies none password = false
  verifies (some hash) password = ext.argon2_verify password hash

  -- The identity that was found, if it is active and has a password, which is the one given.
  abbrev pub accepted : Option Identity → String → Result Identity
  accepted none password = err ServiceError.invalid_credentials
  accepted (some user) password =
      if is_active user.status && verifies user.password_hash password
      then ok user
      else err ServiceError.invalid_credentials

  -- What is left to do once the identity was looked up.
  abbrev check : String → Option Identity → Action ext Identity
  check password identity = do
    fail_if (not (ext.argon2_parses (get_or (stored_hash ext identity) ext.argon2_dummy)))
        (ServiceError.repository RepositoryError.database)
    user ← or_fail identity ServiceError.invalid_credentials
    fail_if
        (not (is_some (stored_hash ext identity))
          || not (ext.argon2_verify password (get_or (stored_hash ext identity) ext.argon2_dummy))
          || not (is_active user.status))
        ServiceError.invalid_credentials
    pure user

  -- The last guard, by whether there is a hash, whether the password matches, and the status.
  guarded :
      (user : Identity) (some_hash matches active : Bool) (w : World ext)
      → (fail_if (not some_hash || not matches || not active) ServiceError.invalid_credentials
            >> pure user)
          w
        ≡ (
          if active && (some_hash && matches)
              then ok user
              else err ServiceError.invalid_credentials,
          w,
        )
  unfolding ◌>>=◌ fail_if
  guarded user true true true w = refl
  guarded user true true false w = refl
  guarded user true false true w = refl
  guarded user true false false w = refl
  guarded user false true true w = refl
  guarded user false true false w = refl
  guarded user false false true w = refl
  guarded user false false false w = refl

  hash_matches :
      (o : Option String) (password : String)
      → verifies o password ≡ (is_some o && ext.argon2_verify password (get_or o ext.argon2_dummy))
  hash_matches none password = refl
  hash_matches (some hash) password = refl

  check-accepted :
      (password : String) (identity : Option Identity) (w : World ext)
      → ext.argon2_parses (get_or (stored_hash ext identity) ext.argon2_dummy) ≡ true
      → check password identity w ≡ (accepted identity password, w)
  unfolding ◌>>=◌ fail_if or_fail
  check-accepted password none w h = rw h refl
  check-accepted password (some user) w h =
      rw (h, hash_matches user.password_hash password)
        (guarded user (is_some user.password_hash)
          (ext.argon2_verify password (get_or user.password_hash ext.argon2_dummy))
          (is_active user.status) w)

  -- Once the identity has been looked up and the hash to compare with parses, a login answers the
  -- identity exactly if it was found, is active and has a password that the given one matches; an
  -- unknown identity, a missing or wrong password and an inactive identity all get the same error.
  pub authenticate-accepted :
      (pool_id : Uuid) (handle : IdentityHandle) (password : String) (w : World ext)
      {identity : Option Identity} {w' : World ext}
      → get ext pool_id handle w ≡ (ok identity, w')
      → ext.argon2_parses (get_or (stored_hash ext identity) ext.argon2_dummy) ≡ true
      → authenticate ext pool_id handle password w ≡ (accepted identity password, w')
  unfolding authenticate
  authenticate-accepted pool_id handle password w {identity} {w'} h k =
      >>=-ok _ _ w h ∙ check-accepted password identity w' k
