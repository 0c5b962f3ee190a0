-- ===== src/Names/Uris.antt =====
-- crates/knox-core/src/client.rs: what `is_allowed_redirect_uri` takes for the host of a URI.
use Prim.Native.Char.{Char}
use knox_iam_public.Base.{ℕ, String, Bool, ◌&&◌, not, ◌==◌, nat_eq}
use knox_iam_public.Names.{is_separator}

-- A character that neither ends the authority nor separates the port.
abbrev pub is_plain : ℕ → Bool
is_plain c = not (is_separator c) && not (c == b':')
