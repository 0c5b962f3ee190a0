-- ===== src/Oidc/Scopes/Reach.antt =====
-- crates/knox-services/src/oidc/service.rs: which cross-tenant scopes `permitted_scopes` grants.
use knox_iam_public.Base.{string_eq}
use knox_iam_public.Externals.{Externals}
use knox_iam_public.World.{World}
