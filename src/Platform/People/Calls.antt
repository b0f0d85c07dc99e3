-- ===== src/Platform/People/Calls.antt =====
-- The calls of the accounts services that write to the users, built from the allowed writes.
use d_transfert_backend.Base.{ℕ, refl, String, Text, Option, List}
use d_transfert_backend.Models.{User, Company, SystemLogLevel, PasswordResetOtp}
use d_transfert_backend.Database.{Db}
use d_transfert_backend.Host.{Host, Claims}
use d_transfert_backend.Service.Keeps.{Keeps, Keeps-modify, keeps_rules}
use d_transfert_backend.Accounts.{PermissionCode, add_user}
use d_transfert_backend.Companies.{
  CompanyWithOwner, add_company, owner_of, create_company_with_owner,
}
use d_transfert_backend.Employees.{
  EmployeeCreateRequest, AccountUpdate, find_employee, create_employee, update_permissions,
  set_user_phone, set_name_and_password, update_employee, new_employee,
}
use d_transfert_backend.Administration.{
  new_admin, PlatformAdminCreateRequest, create_company, update_company_user, create_platform_admin,
  get_platform_admin, set_admin_phone, update_platform_admin,
}
use d_transfert_backend.Access.{TokenType, decode_token}
use d_transfert_backend.Auth.{
  RegisterRequest, register, log_system, find_login_user, ensure_company_active, refuse_login,
  accept_login, refuse_locked, login, revoke, logout,
}
use d_transfert_backend.Auth.Passwords.{
  add_otp, request_password_reset, change_otp, refuse_code, accept_code, reset_password,
}
use d_transfert_backend.Platform.Frames.{
  Tables, table_rules, override_code-Keeps, flush_overrides-Keeps,
}
use d_transfert_backend.Platform.People.{
  Users, phone-Keeps, name-Keeps, hash-Keeps, failed-Keeps, logged_in-Keeps, new_password-Keeps,
}

ruleset user_rules = (
  table_rules, phone-Keeps, name-Keeps, hash-Keeps, failed-Keeps, logged_in-Keeps,
  new_password-Keeps,
)

module _ {P : Db → Type 0} (tables : Tables P) (users : Users P) where
  add_company-Keeps : (c : Company) → Keeps P (add_company c)
  unfolding add_company
  add_company-Keeps c = Keeps-modify _ (λ s h. tables.companies _ s h)

  added_owner :
      (host : Host) (r : CompanyWithOwner) (c : ℕ) (m : Text) (i : ℕ)
      → Keeps P (add_user (owner_of host r c m i))
  added_owner host r c m i = users.added _ refl

  added_employee :
      (host : Host) (p : EmployeeCreateRequest) (c r : ℕ) (m : Text) (i : ℕ)
      → Keeps P (add_user (new_employee host p c r m i))
  added_employee host p c r m i = users.added _ refl

  added_admin :
      (host : Host) (p : PlatformAdminCreateRequest) (m : Text) (i : ℕ)
      → Keeps P (add_user (new_admin host p m i))
  added_admin host p m i = users.added _ refl

  find_employee-Keeps : (c i : ℕ) → Keeps P (find_employee c i)
  unfolding find_employee
  find_employee-Keeps c i = search keeps_rules

  set_user_phone-Keeps : (c : ℕ) (u : User) (p : String) → Keeps P (set_user_phone c u p)
  unfolding set_user_phone
  set_user_phone-Keeps c u p = search user_rules

  set_name_and_password-Keeps :
      (host : Host) (u : User) (a : AccountUpdate) → Keeps P (set_name_and_password host u a)
  unfolding set_name_and_password
  set_name_and_password-Keeps host u a = search user_rules

  create_company_with_owner-Keeps :
      (host : Host) (r : CompanyWithOwner) → Keeps P (create_company_with_owner host r)
  unfolding create_company_with_owner
  create_company_with_owner-Keeps host r =
      search (table_rules, add_company-Keeps, added_owner) depth 14

  pub register-Keeps : (host : Host) (p : RegisterRequest) → Keeps P (register host p)
  unfolding register
  register-Keeps host p = search (keeps_rules, create_company_with_owner-Keeps)

  pub create_company-Keeps :
      (host : Host) (by : ℕ) (r : CompanyWithOwner) → Keeps P (create_company host by r)
  unfolding create_company
  create_company-Keeps host by r = search (table_rules, create_company_with_owner-Keeps)

  pub create_employee-Keeps :
      (host : Host) (c by : ℕ) (p : EmployeeCreateRequest) → Keeps P (create_employee host c by p)
  unfolding create_employee
  create_employee-Keeps host c by p =
      search (table_rules, override_code-Keeps, flush_overrides-Keeps, added_employee) depth 18

  pub update_permissions-Keeps :
      (c by i : ℕ) (g r : List PermissionCode) → Keeps P (update_permissions c by i g r)
  unfolding update_permissions
  update_permissions-Keeps c by i g r =
      search (table_rules, find_employee-Keeps, override_code-Keeps, flush_overrides-Keeps) depth 12

  pub update_employee-Keeps :
      (host : Host) (c by i : ℕ) (a : AccountUpdate) → Keeps P (update_employee host c by i a)
  unfolding update_employee
  update_employee-Keeps host c by i a =
      search (table_rules, find_employee-Keeps, set_user_phone-Keeps, set_name_and_password-Keeps)

  pub update_company_user-Keeps :
      (host : Host) (by c i : ℕ) (a : AccountUpdate) → Keeps P (update_company_user host by c i a)
  unfolding update_company_user
  update_company_user-Keeps host by c i a =
      search (table_rules, set_user_phone-Keeps, set_name_and_password-Keeps) depth 10

  pub create_platform_admin-Keeps :
      (host : Host) (by : ℕ) (p : PlatformAdminCreateRequest)
      → Keeps P (create_platform_admin host by p)
  unfolding create_platform_admin
  create_platform_admin-Keeps host by p = search (table_rules, added_admin) depth 12

  get_platform_admin-Keeps : (i : ℕ) → Keeps P (get_platform_admin i)
  unfolding get_platform_admin
  get_platform_admin-Keeps i = search keeps_rules

  set_admin_phone-Keeps : (u : User) (p : String) → Keeps P (set_admin_phone u p)
  unfolding set_admin_phone
  set_admin_phone-Keeps u p = search user_rules

  pub update_platform_admin-Keeps :
      (host : Host) (by i : ℕ) (a : AccountUpdate) → Keeps P (update_platform_admin host by i a)
  unfolding update_platform_admin
  update_platform_admin-Keeps host by i a =
      search
        (table_rules, get_platform_admin-Keeps, set_admin_phone-Keeps, set_name_and_password-Keeps)

  log_system-Keeps :
      (l : SystemLogLevel) (x : String) (c u : Option ℕ) → Keeps P (log_system l x c u)
  unfolding log_system
  log_system-Keeps l x c u = Keeps-modify _ (λ s h. tables.system_logs _ s h)

  find_login_user-Keeps : (host : Host) (m : Text) → Keeps P (find_login_user host m)
  unfolding find_login_user
  find_login_user-Keeps host m = search keeps_rules

  ensure_company_active-Keeps : (u : User) → Keeps P (ensure_company_active u)
  unfolding ensure_company_active
  ensure_company_active-Keeps u = search keeps_rules

  refuse_login-Keeps : (u : User) (now : ℕ) → Keeps P (refuse_login u now)
  unfolding refuse_login
  refuse_login-Keeps u now = search (user_rules, log_system-Keeps)

  accept_login-Keeps : (host : Host) (u : User) (now : ℕ) → Keeps P (accept_login host u now)
  unfolding accept_login
  accept_login-Keeps host u now = search user_rules

  refuse_locked-Keeps : (u : User) → Keeps P (refuse_locked u)
  unfolding refuse_locked
  refuse_locked-Keeps u = search (keeps_rules, log_system-Keeps)

  pub login-Keeps : (host : Host) (m : Text) (p : String) → Keeps P (login host m p)
  unfolding login
  login-Keeps host m p =
      search
        (
          keeps_rules, find_login_user-Keeps, ensure_company_active-Keeps, refuse_locked-Keeps,
          accept_login-Keeps, refuse_login-Keeps,
        )
        depth 12

  add_otp-Keeps : (host : Host) (i : ℕ) → Keeps P (add_otp host i)
  unfolding add_otp
  add_otp-Keeps host i = search (table_rules, Keeps-modify, tables.otps)

  pub request_password_reset-Keeps :
      (host : Host) (m : Text) → Keeps P (request_password_reset host m)
  unfolding request_password_reset
  request_password_reset-Keeps host m = search (keeps_rules, add_otp-Keeps)

  change_otp-Keeps : (i : ℕ) (f : PasswordResetOtp → PasswordResetOtp) → Keeps P (change_otp i f)
  unfolding change_otp
  change_otp-Keeps i f = Keeps-modify _ (λ s h. tables.otps _ s h)

  refuse_code-Keeps : (o : PasswordResetOtp) → Keeps P (refuse_code o)
  unfolding refuse_code
  refuse_code-Keeps o = search (keeps_rules, change_otp-Keeps)

  accept_code-Keeps :
      (host : Host) (u : User) (o : PasswordResetOtp) (p : String) (now : ℕ)
      → Keeps P (accept_code host u o p now)
  unfolding accept_code
  accept_code-Keeps host u o p now = search (user_rules, change_otp-Keeps)

  pub reset_password-Keeps :
      (host : Host) (m : Text) (c p : String) → Keeps P (reset_password host m c p)
  unfolding reset_password
  reset_password-Keeps host m c p =
      search (keeps_rules, find_login_user-Keeps, accept_code-Keeps, refuse_code-Keeps) depth 12

  decode_token-Keeps :
      (host : Host) (t : String) (ty : TokenType) → Keeps P (decode_token host t ty)
  unfolding decode_token
  decode_token-Keeps host t ty = search keeps_rules

  revoke-Keeps : (c : Claims) → Keeps P (revoke c)
  unfolding revoke
  revoke-Keeps c = search (keeps_rules, Keeps-modify, tables.revoked_tokens)

  pub logout-Keeps : (host : Host) (a : String) (r : Option String) → Keeps P (logout host a r)
  unfolding logout
  logout-Keeps host a r = search (keeps_rules, decode_token-Keeps, revoke-Keeps) depth 10
