-- ===== src/Token/Counters.antt =====
-- crates/knox-core/src/token.rs: the counters in Redis write to Redis alone.
use knox_iam_public.Base.{ℕ, String, Option, none, some}
use knox_iam_public.Common.Directory.{Uuid}
use knox_iam_public.Externals.{Externals}
use knox_iam_public.World.{World}
use knox_iam_public.World.Frame.{Relation, Keeps, frame, storage-Keeps}
use package.knox_iam_public.Token.Cache.{incr, incr_answer, touch_value, increment_value}
use package.knox_iam_public.Token.Repository
use package.knox_iam_public.Token.Service

-- Any relation that does not look at Redis.
module _ {ext : Externals} (R : Relation ext)
    (blind : (w : World ext) (s : ext.redis.State) → R.rel w (record w { redis = s })) where
  incr_answer-rel :
      (o : Option (ℕ × ext.redis.State)) (w : World ext) → R.rel w (incr_answer ext o w).1
  incr_answer-rel none w = R.rel_refl w
  incr_answer-rel (some (n, s)) w = blind w s

  incr-Keeps : (k : String) → Keeps R (incr ext k)
  unfolding Keeps incr
  incr-Keeps k = storage-Keeps R _ (λ w. incr_answer-rel (ext.redis.incr k w.now w.redis) w)

  touch_value-Keeps : (k : String) (ttl : ℕ) → Keeps R (touch_value ext k ttl)
  unfolding Keeps touch_value
  touch_value-Keeps k ttl = storage-Keeps R _ (λ w. blind w _)

  pub bump_sso_epoch-Keeps :
      (tenant_id identity_id : Uuid) (ttl : ℕ)
      → Keeps R (Service.bump_sso_epoch ext tenant_id identity_id ttl)
  unfolding Service.bump_sso_epoch Service.increment_transient_counter Service.touch_transient
      Repository.increment_transient_counter Repository.touch_transient increment_value
  bump_sso_epoch-Keeps tenant_id identity_id ttl =
      search (frame, incr-Keeps, touch_value-Keeps) depth 16
