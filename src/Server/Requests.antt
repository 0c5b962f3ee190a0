-- ===== src/Server/Requests.antt =====
-- server/src/handlers/identity.rs: the routes of identities and roles with what each request
-- carries, and the answers.
use knox_iam_public.Base.{ℕ, String, Option, List}
use knox_iam_public.Common.Directory.{Uuid, Status, PublicIdentity}
use knox_iam_public.Common.Authorization.{Role}
use knox_iam_public.Common.Mfa.{MfaOption}
use knox_iam_public.Identity.Administration.{UpdateIdentityRequest}
use knox_iam_public.Authentication.Password.{ChangePasswordOutcome}

pub record CreateIdentityDto : Type 0 where
  pub email : String
  pub password : String
  pub first_name : Option String
  pub last_name : Option String
  pub roles : Option (List String)
  pub pool_id : Option Uuid

pub record ListIdentitiesQuery : Type 0 where
  pub page : Option ℕ
  pub page_size : Option ℕ
  pub query : Option String
  pub status : Option Status
  pub pool_id : Option Uuid

pub record ChangePasswordDto : Type 0 where
  pub current_password : String
  pub new_password : String
  pub mfa : Option (MfaOption × String)

-- A path's identity comes first, and the pool of the query second.
pub data IdentityRoute : Type 0 where
  create_identity : CreateIdentityDto → IdentityRoute
  list_identities : ListIdentitiesQuery → IdentityRoute
  change_own_password : ChangePasswordDto → IdentityRoute
  get_identity : Uuid → Option Uuid → IdentityRoute
  update_identity : Uuid → Option Uuid → UpdateIdentityRequest → IdentityRoute
  delete_identity : Uuid → Option Uuid → IdentityRoute
  admin_create_reset_link : Uuid → Option Uuid → IdentityRoute
  admin_reset_mfa : Uuid → Option Uuid → IdentityRoute
  list_identity_roles : Uuid → IdentityRoute
  assign_identity_role : Uuid → String → IdentityRoute
  revoke_identity_role : Uuid → String → IdentityRoute
  list_roles : IdentityRoute

pub record ListIdentitiesResponse : Type 0 where
  pub items : List PublicIdentity
  pub total : ℕ
  pub page : ℕ
  pub page_size : ℕ

-- The issuer and the token stand for the link that is built of them.
pub record ResetLinkResponse : Type 0 where
  pub issuer : String
  pub token : String
  pub expires_at : ℕ

pub data Body : Type 0 where
  identity : PublicIdentity → Body
  identities : ListIdentitiesResponse → Body
  roles : List Role → Body
  held_roles : List String → Body
  password_change : ChangePasswordOutcome → Body
  reset_link : ResetLinkResponse → Body
  message : String → Body

pub record Response : Type 0 where
  pub status : ℕ
  pub body : Body

abbrev pub answer_ok : Body → Response
answer_ok body = record { status = 200; body = body }
