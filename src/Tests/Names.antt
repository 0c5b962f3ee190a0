-- ===== src/Tests/Names.antt =====
-- The theorems of names, and runs of their checks.
use Prim.Native.String.{len}
use knox_iam_public.Base.{all_chars, ◌≡◌, refl, ◌≤◌, ◌↔◌, true, false}
use knox_iam_public.Names.{
  is_valid_client_name, is_valid_slug, starts_with, is_ascii_digit, is_allowed_redirect_uri,
}
use knox_iam_public.Names.Labels.{IsLabel, is_valid_client_name-IsLabel, is_valid_slug-IsLabel}

is_valid_client_name-IsLabel_example :
    (is_valid_client_name "web-app" ≡ true)
    ↔ (IsLabel "web-app" × (3 ≤ len "web-app") × (len "web-app" ≤ 63))
is_valid_client_name-IsLabel_example = is_valid_client_name-IsLabel "web-app"

is_valid_slug-IsLabel_example : (is_valid_slug "a1b" ≡ true) ↔ (
    IsLabel "a1b"
    × (3 ≤ len "a1b")
    × (len "a1b" ≤ 63)
    × (starts_with "xn-" "a1b" ≡ false)
    × (all_chars is_ascii_digit "a1b" ≡ false))
is_valid_slug-IsLabel_example = is_valid_slug-IsLabel "a1b"

user_information_allowed : is_allowed_redirect_uri "http://localhost:x@evil.com/cb" ≡ true
unfolding is_allowed_redirect_uri
user_information_allowed = refl

-- The IPv6 loopback is accepted with a port only.
ipv6_ported : is_allowed_redirect_uri "http://[::1]:3000/cb" ≡ true
unfolding is_allowed_redirect_uri
ipv6_ported = refl

ipv6_bare : is_allowed_redirect_uri "http://[::1]/cb" ≡ false
unfolding is_allowed_redirect_uri
ipv6_bare = refl

punycode : is_valid_slug "xn-a" ≡ false
unfolding is_valid_slug
punycode = refl

slug : is_valid_slug "user1-example-com" ≡ true
unfolding is_valid_slug
slug = refl
