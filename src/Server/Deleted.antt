-- ===== src/Server/Deleted.antt =====
-- server/src/handlers/identity.rs: what a request to delete an identity takes away.
use knox_iam_public.Base.{◌≡◌, refl, ◌∙◌, some, List, string_eq, nat_eq, find, ◌⊎◌}
use knox_iam_public.Common.Directory.{Uuid, IdentityPool}
use knox_iam_public.Externals.{Externals}
use knox_iam_public.World.{World, ◌>>=◌}
use knox_iam_public.World.Frame.{Relation}
use knox_iam_public.Identity.Rows
use knox_iam_public.Identity.Administration
use knox_iam_public.Token.Store
use knox_iam_public.Token.Repository
use knox_iam_public.Token.Service
use package.knox_iam_public.Server.Pools.{pool_of}

-- The pools that a caller reaches: its own, and those of the tenant.
abbrev pub IsReachable : List IdentityPool → Uuid → Uuid → Uuid → Type 0
IsReachable pools tenant_id caller_pool p =
    (p ≡ caller_pool) ⊎ ((pool : IdentityPool) × (find (pool_of tenant_id p) pools ≡ some pool))

abbrev same_directory : (ext : Externals) → Relation ext
same_directory ext = record {
  rel = λ w w'. (w'.identities ≡ w.identities) × (w'.pools ≡ w.pools);
  rel_refl = λ w. (refl, refl);
  rel_trans = λ u v w (a, b) (c, d). (c ∙ a, d ∙ b);
  rel_outages = λ w os. (refl, refl);
}
