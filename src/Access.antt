-- ===== src/Access.antt =====
-- app/core/security.py and app/core/permissions.py: tokens, and who may call what. A time is a number
-- of microseconds; those of a token are whole seconds.
pub mod Guards
pub mod Opening
use d_transfert_backend.Base.{
  ℕ, ◌+◌, ◌*◌, ◌/◌, String, Bool, true, false, not, Option, none, some, List, ◌==◌, id_eq,
  string_eq, option_eq, ◌&&◌, ◌||◌, any, map, ltb, if◌then◌else◌,
}
use d_transfert_backend.Errors.{Error}
use d_transfert_backend.Models.{
  User, Company, PlatformSetting, is_suspended, user_keyed, company_keyed,
}
use d_transfert_backend.Table.{find}
use d_transfert_backend.Database.{Db}
use d_transfert_backend.Host.{Host, Claims}
use d_transfert_backend.Service.{Service, Done, pure, gets, or_raise, ◌>>=◌, ◌>>◌, raise_if}
use d_transfert_backend.Accounts.{
  PermissionCode, value, all_codes, contains, get_effective_permission_codes,
}
use d_transfert_backend.Administration.{get_setting}

pub data TokenType : Type 0 where
  access refresh : TokenType

abbrev pub type_value : TokenType → String
type_value TokenType.access = "access"
type_value TokenType.refresh = "refresh"

abbrev pub seconds : ℕ → ℕ
seconds microseconds = microseconds / 1000000

-- `_create_token`: `jwt.encode` writes `iat` and `exp` in whole seconds.
abbrev pub claims_of : Host → User → TokenType → ℕ → ℕ → ℕ → Claims
claims_of host user type lifetime now draw = record {
  sub = some user.id;
  type = type_value type;
  iat = seconds now;
  exp = seconds now + lifetime;
  jti = host.new_jti draw;
}

unfoldable pub create_access_token : Host → User → ℕ → String
create_access_token host user now =
    host.encode (claims_of host user TokenType.access host.access_token_seconds now 0)

unfoldable pub create_refresh_token : Host → User → ℕ → String
create_refresh_token host user now =
    host.encode (claims_of host user TokenType.refresh host.refresh_token_seconds now 1)

-- `decode_token`
unfoldable pub decode_token : Host → String → TokenType → Service Claims
decode_token host token expected_type = do
  decoded ← gets (λ s. host.decode token s.now)
  claims ← or_raise decoded Error.unauthorized
  raise_if (not (claims.type == type_value expected_type)) Error.unauthorized
  pure claims

-- `revoked_token_repository.is_revoked`
abbrev pub is_revoked : String → Db → Bool
is_revoked jti s = any (λ t. t.jti == jti) s.revoked_tokens

-- `payload["iat"] < user.password_changed_at.timestamp()`
abbrev pub is_outdated : Claims → Option ℕ → Bool
is_outdated claims none = false
is_outdated claims (some changed_at) = ltb (claims.iat * 1000000) changed_at

pub record CurrentUser : Type 0 where
  pub id : ℕ
  pub company_id : Option ℕ
  pub permissions : List String
  pub is_owner : Bool
  pub is_super_admin : Bool

abbrev pub is_closed : Option Company → Bool
is_closed none = true
is_closed (some company) = is_suspended company.status

unfoldable pub check_company : Option ℕ → Service Done
check_company none = pure tt
check_company (some company_id) = do
  company ← gets (λ s. find company_id s.companies)
  raise_if (is_closed company) Error.unauthorized

abbrev pub in_maintenance : Option PlatformSetting → Bool
in_maintenance none = false
in_maintenance (some setting) = setting.maintenance_mode

-- The loading of the user behind claims: not revoked, active, and with no change of the password
-- since.
unfoldable pub user_of_claims : Claims → Service User
user_of_claims claims = do
  user_id ← or_raise claims.sub Error.unauthorized
  revoked ← gets (is_revoked claims.jti)
  raise_if revoked Error.unauthorized
  found ← gets (λ s. find user_id s.users)
  user ← or_raise found Error.unauthorized
  raise_if (not user.is_active) Error.unauthorized
  raise_if (is_outdated claims user.password_changed_at) Error.unauthorized
  pure user

abbrev pub permissions_of : User → Db → List String
permissions_of user s =
    if user.is_owner || user.is_super_admin
    then map value all_codes
    else get_effective_permission_codes user s

-- `token` is what follows "Bearer " in the header, if the header has that form; `on_admin_path` tells
-- whether the path of the request starts with "/api/v1/admin/".
unfoldable pub get_current_user : Host → Option String → Bool → Service CurrentUser
get_current_user host token on_admin_path = do
  text ← or_raise token Error.unauthorized
  claims ← decode_token host text TokenType.access
  user ← user_of_claims claims
  check_company user.company_id
  setting ← gets get_setting
  raise_if (in_maintenance setting && not user.is_super_admin && not on_admin_path)
      Error.unauthorized
  permissions ← gets (permissions_of user)
  pure (record {
    id = user.id;
    company_id = user.company_id;
    permissions = permissions;
    is_owner = user.is_owner;
    is_super_admin = user.is_super_admin;
  })

abbrev pub has_any : List PermissionCode → CurrentUser → Bool
has_any codes user = any (λ code. contains (value code) user.permissions) codes

-- `require_any_permission`; `require_permission` is the case of one code, and so are the
-- `_require_view_access` of the routers.
unfoldable pub require_any_permission : List PermissionCode → CurrentUser → Service Done
require_any_permission codes user =
    raise_if (not (user.is_super_admin || user.is_owner || has_any codes user))
      Error.permission_denied

-- What a dependency on `require_any_permission(*codes)` runs before the body of an endpoint.
unfoldable pub authorize : Host → Option String → Bool → List PermissionCode → Service CurrentUser
authorize host token on_admin_path codes = do
  sender ← get_current_user host token on_admin_path
  require_any_permission codes sender
  pure sender

unfoldable pub require_super_admin : CurrentUser → Service Done
require_super_admin user = raise_if (not user.is_super_admin) Error.permission_denied

unfoldable pub require_owner : CurrentUser → Service Done
require_owner user = raise_if (not user.is_owner && not user.is_super_admin) Error.permission_denied

unfoldable pub get_company_scope : CurrentUser → Service ℕ
get_company_scope user = or_raise user.company_id Error.permission_denied
