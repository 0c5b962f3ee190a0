-- ===== src/Oidc/Models.antt =====
-- crates/knox-services/src/oidc/models.rs, and the text functions of the service.
use Prim.Native.Char.{code}
use Prim.Native.String.{◌++◌}
use knox_iam_public.Base.{
  ℕ, String, Bool, ◌&&◌, ◌||◌, Option, none, some, List, [], ◌∷◌, ◌==◌, nat_eq, leb, if◌then◌else◌,
}
use knox_iam_public.Common.Directory.{Uuid, Client, IdentityKind}
use knox_iam_public.Common.Token.{AuthenticationContext}

pub data CodeChallengeMethod : Type 0 where
  s256 plain : CodeChallengeMethod

abbrev pub method_text : CodeChallengeMethod → String
method_text CodeChallengeMethod.s256 = "S256"
method_text CodeChallengeMethod.plain = "plain"

pub record AuthorizeRequest : Type 0 where
  pub sso_token : String
  pub client_id : String
  pub redirect_uri : String
  pub state : String
  pub code_challenge : String
  pub code_challenge_method : CodeChallengeMethod
  pub scope : List String
  pub nonce : Option String
  pub max_age : Option ℕ
  pub prompt : Option String

pub data TokenGrantRequest : Type 0 where
  client_credentials :
      (client_id client_secret : String) (scope : Option String) → TokenGrantRequest
  authorization_code :
      (client_id : String) (client_secret : Option String) (code : String)
      (redirect_uri : Option String) (code_verifier : String)
      → TokenGrantRequest
  refresh_token :
      (client_id : String) (client_secret : Option String) (refresh_token : String)
      → TokenGrantRequest

pub record MintingContext : Type 0 where
  pub tenant_id : Uuid
  pub client : Client
  pub subject : String
  pub scopes : List String
  pub nonce : Option String
  pub identity_id : Option Uuid
  pub refresh_token_family_id : Option Uuid
  pub auth : Option AuthenticationContext
  pub email : Option String
  pub email_verified : Bool
  pub preferred_username : Option String
  pub name : Option String

pub data AuthorizeResult : Type 0 where
  success : (code redirect_uri state : String) → AuthorizeResult
  session_invalid re_auth_required unauthorized_scope redirect_uri_mismatch : AuthorizeResult
  invalid_principal_type : IdentityKind → AuthorizeResult
  invalid_request : AuthorizeResult

pub record TokenResponse : Type 0 where
  pub access_token : String
  pub token_type : String
  pub expires_in : ℕ
  pub refresh_token : Option String
  pub id_token : Option String
  pub scope : Option String

-- `oidc_display_name`
unfoldable pub oidc_display_name : Option String → Option String → Option String
oidc_display_name (some f) (some l) = some (f ++ " " ++ l)
oidc_display_name (some f) none = some f
oidc_display_name none (some l) = some l
oidc_display_name none none = none

-- `.chars().all(p)`
-- `char::is_ascii_alphanumeric`
abbrev pub is_ascii_alphanumeric : ℕ → Bool
is_ascii_alphanumeric c =
    (leb b'0' c && leb c b'9') || (leb b'A' c && leb c b'Z') || (leb b'a' c && leb c b'z')

-- `char::is_whitespace`: the code points with the property White_Space.
abbrev pub is_whitespace : ℕ → Bool
is_whitespace c =
    (leb 9 c && leb c 13)
    || c == 32
    || c == 0x85
    || c == 0xa0
    || c == 0x1680
    || (leb 0x2000 c && leb c 0x200a)
    || c == 0x2028
    || c == 0x2029
    || c == 0x202f
    || c == 0x205f
    || c == 0x3000

abbrev pub cons_word : String → List String → List String
cons_word String.[] ws = ws
cons_word (String.◌∷◌ c s) ws = String.◌∷◌ c s ∷ ws

-- The word that a text begins with, and the words after it.
unfoldable pub split_words : String → String × List String
split_words String.[] = (String.[], [])
split_words (String.◌∷◌ c s) =
    let (w, ws) = split_words s in
    if is_whitespace (code c) then (String.[], cons_word w ws) else (String.◌∷◌ c w, ws)

-- `split_whitespace`
unfoldable pub split_whitespace : String → List String
unfolding split_words
split_whitespace s = let (w, ws) = split_words s in cons_word w ws

-- `join(" ")`
unfoldable pub join_spaces : List String → String
join_spaces [] = ""
join_spaces (x ∷ []) = x
join_spaces (x ∷ y ∷ xs) = x ++ " " ++ join_spaces (y ∷ xs)
