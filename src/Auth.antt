-- ===== src/Auth.antt =====
-- app/services/auth_service.py with revoked_token_repository.py:
-- registration, login with a lock after failures, tokens, logout.
-- login commits before it raises on a wrong password: such a call returns `err e` as its answer, beside
-- the database that it leaves.
pub mod Passwords
pub mod Lockout
pub mod Renewal
pub mod Opening
pub mod Sessions
use d_transfert_backend.Base.{
  ℕ, ◌+◌, ◌*◌, String, Text, Bool, true, false, not, Option, none, some, is_some, List, [], ◌∷◌,
  ◌++◌, ◌==◌, id_eq, string_eq, option_eq, ◌&&◌, ◌||◌, keep, leb, ltb, if◌then◌else◌,
}
use d_transfert_backend.Errors.{Error, Result, ok, err}
use d_transfert_backend.Models.{
  User, Company, CompanyStatus, PasswordResetOtp, SystemLogLevel, PlatformSetting, is_awaiting,
  user_keyed, company_keyed, otp_keyed,
}
use d_transfert_backend.Table.{find, update_row, provided}
use d_transfert_backend.Database.{Db}
use d_transfert_backend.Host.{Host, Claims}
use d_transfert_backend.Service.{
  Service, Done, pure, gets, query, or_raise, ◌>>=◌, ◌>>◌, modify, raise_if, when, when_some,
  fresh_id,
}
use d_transfert_backend.Audit.{log_action_for}
use d_transfert_backend.Accounts.{get_by_matricule, change_user}
use d_transfert_backend.Companies.{RegisterResponse, create_company_with_owner}
use d_transfert_backend.Administration.{get_setting}
use d_transfert_backend.Access.{
  TokenType, type_value, create_access_token, create_refresh_token, decode_token, is_revoked,
  is_outdated, is_closed, in_maintenance,
}

abbrev pub max_failed_login_attempts : ℕ
max_failed_login_attempts = 5

-- Fifteen minutes, and ten.
abbrev pub lockout_duration : ℕ
lockout_duration = 900000000

abbrev pub otp_duration : ℕ
otp_duration = 600000000

abbrev pub otp_max_attempts : ℕ
otp_max_attempts = 5

-- app/schemas/auth.py
pub record RegisterRequest : Type 0 where
  pub company_name : Text
  pub company_phone : String
  pub address : String
  pub default_currency : String
  pub owner_full_name : String
  pub password : String

abbrev pub needs_approval : Option PlatformSetting → Bool
needs_approval none = false
needs_approval (some setting) = setting.require_company_approval

abbrev pub initial_status : Bool → CompanyStatus
initial_status true = CompanyStatus.pending
initial_status false = CompanyStatus.active

unfoldable pub register : Host → RegisterRequest → Service RegisterResponse
register host payload = do
  setting ← gets get_setting
  raise_if (in_maintenance setting) Error.unauthorized
  create_company_with_owner host (record {
    company_name = payload.company_name;
    company_phone = payload.company_phone;
    address = payload.address;
    default_currency = payload.default_currency;
    owner_full_name = payload.owner_full_name;
    password = payload.password;
    status = initial_status (needs_approval setting);
  })

-- `system_log_service.log`
unfoldable pub log_system : SystemLogLevel → String → Option ℕ → Option ℕ → Service Done
unfolding modify
log_system level source company_id user_id = modify λ s. record s {
  system_logs =
      s.system_logs
      ++ record { level = level; source = source; company_id = company_id; user_id = user_id } ∷ [];
}

unfoldable pub find_login_user : Host → Text → Service User
find_login_user host matricule = do
  found ← query (get_by_matricule host matricule)
  or_raise found Error.unauthorized

-- `_is_locked`
abbrev pub is_after : ℕ → Option ℕ → Bool
is_after now none = false
is_after now (some until) = ltb now until

abbrev pub is_locked : User → ℕ → Bool
is_locked user now = is_after now user.locked_until

abbrev pub is_waiting : Option Company → Bool
is_waiting none = false
is_waiting (some company) = is_awaiting company.status

-- `_ensure_company_active`
unfoldable pub ensure_company_active : User → Service Done
ensure_company_active user = when (not user.is_super_admin) do
  company_id ← or_raise user.company_id Error.unauthorized
  company ← gets (λ s. find company_id s.companies)
  raise_if (is_closed company) Error.unauthorized
  raise_if (is_waiting company) Error.unauthorized

-- The access token and the refresh token.
abbrev pub Tokens : Type 0
Tokens = String × String

abbrev pub tokens_for : Host → User → ℕ → Tokens
tokens_for host user now = (create_access_token host user now, create_refresh_token host user now)

abbrev pub failed : ℕ → User → User
failed now user =
    if leb max_failed_login_attempts (user.failed_login_attempts + 1)
    then record user {
      failed_login_attempts = user.failed_login_attempts + 1;
      locked_until = some (now + lockout_duration);
    }
    else record user { failed_login_attempts = user.failed_login_attempts + 1 }

abbrev pub logged_in : ℕ → User → User
logged_in now user = record user {
  failed_login_attempts = 0;
  locked_until = none;
  last_login_at = some now;
}

-- A wrong password: the failure is committed.
unfoldable pub refuse_login : User → ℕ → Service (Result Tokens)
refuse_login user now = do
  change_user user.id (failed now)
  log_system SystemLogLevel.warning "auth" user.company_id (some user.id)
  pure (err Error.unauthorized)

unfoldable pub accept_login : Host → User → ℕ → Service (Result Tokens)
accept_login host user now = do
  raise_if (not user.is_active) Error.unauthorized
  change_user user.id (logged_in now)
  log_action_for user.company_id user.id "login" "user" user.id
  pure (ok (tokens_for host user now))

-- A locked account: the attempt is logged, the password is not looked at.
unfoldable pub refuse_locked : User → Service (Result Tokens)
refuse_locked user = do
  log_system SystemLogLevel.warning "auth" user.company_id (some user.id)
  pure (err Error.unauthorized)

unfoldable pub login : Host → Text → String → Service (Result Tokens)
login host matricule password = do
  user ← find_login_user host matricule
  setting ← gets get_setting
  raise_if (in_maintenance setting && not user.is_super_admin) Error.unauthorized
  ensure_company_active user
  now ← gets (λ s. s.now)
  if is_locked user now
      then refuse_locked user
      else if host.verify_password password user.password_hash
      then accept_login host user now
      else refuse_login user now

unfoldable pub refresh_tokens : Host → String → Service Tokens
refresh_tokens host refresh_token = do
  claims ← decode_token host refresh_token TokenType.refresh
  user_id ← or_raise claims.sub Error.unauthorized
  revoked ← gets (is_revoked claims.jti)
  raise_if revoked Error.unauthorized
  found ← gets (λ s. find user_id s.users)
  user ← or_raise found Error.unauthorized
  now ← gets (λ s. s.now)
  raise_if (not user.is_active || is_locked user now) Error.unauthorized
  raise_if (is_outdated claims user.password_changed_at) Error.unauthorized
  ensure_company_active user
  pure (tokens_for host user now)

-- INSERT ... ON CONFLICT (jti) DO NOTHING
unfoldable pub revoke : Claims → Service Done
revoke claims = do
  known ← gets (is_revoked claims.jti)
  when (not known) (
      modify λ s. record s {
        revoked_tokens =
            s.revoked_tokens ++ record { jti = claims.jti; expires_at = claims.exp * 1000000 } ∷ [];
      })

-- A refresh token that cannot be decoded, or is of the other type, is passed over.
abbrev pub refresh_claims : Host → Option String → ℕ → Option Claims
refresh_claims host none now = none
refresh_claims host (some token) now =
    provided (λ c. c.type == type_value TokenType.refresh) (host.decode token now)

unfoldable pub logout : Host → String → Option String → Service Done
logout host access_token refresh_token = do
  access ← decode_token host access_token TokenType.access
  revoke access
  refresh ← gets (λ s. refresh_claims host refresh_token s.now)
  when_some refresh revoke
