-- ===== src/Names.antt =====
-- The texts that are checked when something is named: `is_valid_client_name` and
-- `is_allowed_redirect_uri` of crates/knox-core/src/client.rs, and `is_valid_slug` and
-- `is_reserved_slug` of crates/knox-core/src/tenant.rs.
pub mod Labels
pub mod Uris
use Prim.Native.Char.{Char, code}
use Prim.Native.String.{len, char_at}
use knox_iam_public.Base.{
  all_chars, ℕ, ◌-◌, String, Bool, true, false, ◌&&◌, ◌||◌, not, Option, none, some, List, [], ◌∷◌,
  ◌==◌, nat_eq, string_eq, ltb, leb, any, if◌then◌else◌,
}

abbrev pub is_dash : ℕ → Bool
is_dash c = c == b'-'

-- `char::is_ascii_digit`
abbrev pub is_ascii_digit : ℕ → Bool
is_ascii_digit c = leb b'0' c && leb c b'9'

-- `c.is_ascii_lowercase() || c.is_ascii_digit()`
abbrev pub is_lower_alphanumeric : ℕ → Bool
is_lower_alphanumeric c = (leb b'a' c && leb c b'z') || is_ascii_digit c

-- `str::starts_with` of a text, the prefix first.
unfoldable pub starts_with : String → String → Bool
starts_with String.[] s = true
starts_with (String.◌∷◌ c p) String.[] = false
starts_with (String.◌∷◌ c p) (String.◌∷◌ d s) = code c == code d && starts_with p s

abbrev pub starts_with_dash : String → Bool
starts_with_dash String.[] = false
starts_with_dash (String.◌∷◌ c s) = is_dash (code c)

unfoldable pub ends_with_dash : String → Bool
ends_with_dash String.[] = false
ends_with_dash (String.◌∷◌ c String.[]) = is_dash (code c)
ends_with_dash (String.◌∷◌ c (String.◌∷◌ d s)) = ends_with_dash (String.◌∷◌ d s)

-- `contains("--")`
unfoldable pub has_double_dash : String → Bool
has_double_dash String.[] = false
has_double_dash (String.◌∷◌ c String.[]) = false
has_double_dash (String.◌∷◌ c (String.◌∷◌ d s)) =
    (is_dash (code c) && is_dash (code d)) || has_double_dash (String.◌∷◌ d s)

abbrev pub is_label_char : ℕ → Bool
is_label_char c = is_lower_alphanumeric c || is_dash c

unfoldable pub is_valid_client_name : String → Bool
unfolding ends_with_dash has_double_dash all_chars
is_valid_client_name name =
    if ltb (len name) 3 || ltb 63 (len name)
    then false
    else if starts_with_dash name || ends_with_dash name
    then false
    else if has_double_dash name
    then false
    else all_chars is_label_char name

unfoldable pub is_valid_slug : String → Bool
unfolding ends_with_dash has_double_dash starts_with all_chars
is_valid_slug slug =
    if ltb (len slug) 3 || ltb 63 (len slug)
    then false
    else if starts_with_dash slug || ends_with_dash slug
    then false
    else if has_double_dash slug
    then false
    else if starts_with "xn-" slug
    then false
    else if all_chars is_ascii_digit slug
    then false
    else all_chars is_label_char slug

-- `RESERVED_SUBDOMAINS`
abbrev pub reserved_subdomains : List String
reserved_subdomains =
    "knox" ∷ "root" ∷ "system" ∷ "sys" ∷ "platform" ∷ "tenant" ∷ "tenants" ∷ "localhost" ∷ "www"
    ∷ "api" ∷ "app" ∷ "admin" ∷ "console" ∷ "dashboard" ∷ "portal" ∷ "login" ∷ "logout" ∷ "auth"
    ∷ "authn" ∷ "authz" ∷ "sso" ∷ "oauth" ∷ "oauth2" ∷ "idp" ∷ "id" ∷ "mail" ∷ "smtp" ∷ "imap"
    ∷ "pop" ∷ "mx" ∷ "ns" ∷ "ns1" ∷ "ns2" ∷ "dns" ∷ "autodiscover" ∷ "autoconfig" ∷ "dmarc" ∷ "dkim"
    ∷ "spf" ∷ "cdn" ∷ "static" ∷ "assets" ∷ "img" ∷ "media" ∷ "files" ∷ "download" ∷ "docs" ∷ "doc"
    ∷ "help" ∷ "support" ∷ "status" ∷ "health" ∷ "metrics" ∷ "grafana" ∷ "prometheus" ∷ "observe"
    ∷ "aspire" ∷ "dev" ∷ "develop" ∷ "staging" ∷ "stage" ∷ "test" ∷ "testing" ∷ "demo" ∷ "preview"
    ∷ "internal" ∷ "intranet" ∷ "vpn" ∷ "git" ∷ "ci" ∷ "build" ∷ "deploy" ∷ "registry" ∷ "blog"
    ∷ "news" ∷ "about" ∷ "legal" ∷ "privacy" ∷ "terms" ∷ []

-- What `split(['/', '?', '#'])` ends its first part at.
abbrev pub is_separator : ℕ → Bool
is_separator c = c == b'/' || c == b'?' || c == b'#'

unfoldable pub before_separator : String → String
before_separator String.[] = String.[]
before_separator (String.◌∷◌ c s) =
    let rest = before_separator s in if is_separator (code c) then String.[] else String.◌∷◌ c rest

abbrev pub before_colon : Char → Option String → Option String
before_colon c (some h) = some (String.◌∷◌ c h)
before_colon c none = if code c == b':' then some String.[] else none

-- `rsplit_once(':')`, its first part.
unfoldable pub before_last_colon : String → Option String
before_last_colon String.[] = none
before_last_colon (String.◌∷◌ c s) = before_colon c (before_last_colon s)

unfoldable pub strip_prefix : String → String → Option String
strip_prefix String.[] s = some s
strip_prefix (String.◌∷◌ c p) String.[] = none
strip_prefix (String.◌∷◌ c p) (String.◌∷◌ d s) =
    let rest = strip_prefix p s in if code c == code d then rest else none

-- The suffix first.
unfoldable pub ends_with : String → String → Bool
ends_with suffix String.[] = suffix == ""
ends_with suffix (String.◌∷◌ c s) = String.◌∷◌ c s == suffix || ends_with suffix s

abbrev pub lower_char : Char → Char
lower_char c =
    if leb b'A' (code c) && leb (code c) b'Z'
    then char_at "abcdefghijklmnopqrstuvwxyz" (code c - b'A')
    else c

unfoldable pub to_ascii_lowercase : String → String
to_ascii_lowercase String.[] = String.[]
to_ascii_lowercase (String.◌∷◌ c s) = String.◌∷◌ (lower_char c) (to_ascii_lowercase s)

abbrev pub or_all : Option String → String → String
or_all none all = all
or_all (some part) all = part

unfoldable pub is_loopback_host : String → Bool
unfolding ends_with
is_loopback_host host =
    host == "localhost"
    || host == "127.0.0.1"
    || host == "[::1]"
    || ends_with ".localhost" host
    || host == "lvh.me"
    || ends_with ".lvh.me" host

-- The host of what follows `http://`.
unfoldable pub host_of : String → String
unfolding before_separator before_last_colon to_ascii_lowercase
host_of rest =
    to_ascii_lowercase (or_all (before_last_colon (before_separator rest)) (before_separator rest))

abbrev pub is_loopback : Option String → Bool
is_loopback none = false
is_loopback (some rest) = is_loopback_host (host_of rest)

unfoldable pub is_allowed_redirect_uri : String → Bool
unfolding starts_with strip_prefix is_loopback_host host_of
is_allowed_redirect_uri uri =
    if starts_with "https://" uri then true else is_loopback (strip_prefix "http://" uri)

-- The additions of the deployment, `KNOX_EXTRA_RESERVED_SUBDOMAINS`, come first.
unfoldable pub is_reserved_slug : List String → String → Bool
unfolding to_ascii_lowercase
is_reserved_slug extra slug =
    let lower = to_ascii_lowercase slug in
    any (λ r. r == lower) reserved_subdomains || any (λ r. r == lower) extra
