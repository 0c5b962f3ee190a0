-- ===== src/Token/Cache.antt =====
-- crates/knox-storage/src/token/cache.rs: `RedisAuthCodeCache`, one Redis command at a time.
use Prim.Native.String.{◌++◌}
use knox_iam_public.Base.{ℕ, String, Option, none, some, ◌==◌, nat_eq}
use knox_iam_public.Common.Error.{RepositoryError, ServiceError}
use knox_iam_public.Common.Token.{AuthCodeContext}
use knox_iam_public.Externals.{Externals}
use knox_iam_public.World.{Action, storage, ok, err, pure, or_fail, ◌>>=◌, ◌>>◌, when}

abbrev pub database_error : ServiceError
database_error = ServiceError.repository RepositoryError.database

-- `RedisAuthCodeCache::key`
unfoldable pub key : String → String
key hashed_code = "auth_code:" ++ hashed_code

module _ (ext : Externals) where
  -- The answers of the three commands that the server may refuse.
  abbrev pub set_answer : Option ext.redis.State → Action ext (Unit {0})
  set_answer none w = (err database_error, w)
  set_answer (some s) w = (ok tt, record w { redis = s })

  abbrev pub incr_answer : Option (ℕ × ext.redis.State) → Action ext ℕ
  incr_answer none w = (err database_error, w)
  incr_answer (some (n, s)) w = (ok n, record w { redis = s })

  unfoldable pub set_value : String → ext.redis.Text → ℕ → Action ext (Unit {0})
  set_value k value ttl_seconds =
      storage λ w. set_answer (ext.redis.set_ex k value ttl_seconds w.now w.redis) w

  unfoldable pub get_value : String → Action ext (Option ext.redis.Text)
  get_value k = storage λ w. (ok (ext.redis.get w.redis k w.now), w)

  unfoldable pub get_and_delete_value : String → Action ext (Option ext.redis.Text)
  get_and_delete_value k =
      storage λ w.
        (ok (ext.redis.get w.redis k w.now), record w { redis = ext.redis.del k w.now w.redis })

  unfoldable pub touch_value : String → ℕ → Action ext (Unit {0})
  touch_value k ttl_seconds =
      storage λ w. (ok tt, record w { redis = ext.redis.expire k ttl_seconds w.now w.redis })

  unfoldable pub incr : String → Action ext ℕ
  incr k = storage λ w. incr_answer (ext.redis.incr k w.now w.redis) w

  -- INCR, then EXPIRE if the counter is new: two commands.
  unfoldable pub increment_value : String → ℕ → Action ext ℕ
  unfolding incr touch_value
  increment_value k ttl_seconds = do n ← incr k; when (n == 1) (touch_value k ttl_seconds); pure n

  unfoldable pub set_code : String → AuthCodeContext → ℕ → Action ext (Unit {0})
  unfolding set_value key
  set_code hashed_code context ttl_seconds =
      set_value (key hashed_code) (ext.code_codec.write context) ttl_seconds

  abbrev pub parse_code : Option ext.redis.Text → Action ext (Option AuthCodeContext)
  parse_code none = pure none
  parse_code (some json) = do
    context ← or_fail (ext.code_codec.read json) database_error
    pure (some context)

  unfoldable pub exchange_code : String → Action ext (Option AuthCodeContext)
  unfolding get_and_delete_value key
  exchange_code hashed_code = do found ← get_and_delete_value (key hashed_code); parse_code found
