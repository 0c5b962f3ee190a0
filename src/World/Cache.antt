-- ===== src/World/Cache.antt =====
-- The calls that write nothing to Redis and take no time.
use knox_iam_public.Base.{◌≡◌, refl, ◌∙◌}
use knox_iam_public.Externals.{Externals}
use knox_iam_public.World.{World}
use knox_iam_public.World.Frame.{Relation}

module _ {ext : Externals} where
  -- The same keys in Redis at the same time.
  pub record SameRedis (w w' : World ext) : Type 0 where
    pub redis : w'.redis ≡ w.redis
    pub now : w'.now ≡ w.now

  pub SameRedis-refl : (w : World ext) → SameRedis w w
  SameRedis-refl w = record { redis = refl; now = refl }

  pub SameRedis-trans : (u v w : World ext) → SameRedis u v → SameRedis v w → SameRedis u w
  SameRedis-trans u v w h k = record { redis = k.redis ∙ h.redis; now = k.now ∙ h.now }

abbrev pub same_redis : (ext : Externals) → Relation ext
same_redis ext = record {
  rel = SameRedis;
  rel_refl = SameRedis-refl;
  rel_trans = SameRedis-trans;
  rel_outages = λ w os. record { redis = refl; now = refl };
}
