-- ===== src/Platform.antt =====
-- The requests to the accounts services that change the database: registration, login, tokens,
-- passwords, employees, companies and administration, except the deletion of a company.
pub mod Frames
pub mod Services
pub mod People
pub mod Requests
pub mod Admins
pub mod Supervision
use d_transfert_backend.Base.{ℕ, Bool, String, Text, Option, List}
use d_transfert_backend.Errors.{Result}
use d_transfert_backend.Models.{CompanyStatus}
use d_transfert_backend.Database.{Db}
use d_transfert_backend.Host.{Host}
use d_transfert_backend.Handlers.{answered}
use d_transfert_backend.Service.{Service, Done, pure, ◌>>=◌, ◌>>◌}
use d_transfert_backend.Accounts.{PermissionCode}
use d_transfert_backend.Companies.{CompanyWithOwner, AdminCompanyUpdateRequest, update_my_company}
use d_transfert_backend.Employees.{
  EmployeeCreateRequest, AccountUpdate, create_employee, update_permissions, set_employee_status,
  update_employee, delete_employee,
}
use d_transfert_backend.Administration.{
  PlatformAdminCreateRequest, PlatformSettingsUpdateRequest, SubscriptionUpdateRequest,
  create_company, set_company_status, update_company, set_user_status, update_company_user,
  create_platform_admin, update_platform_admin, delete_platform_admin, get_settings,
  update_settings, get_subscription, update_subscription,
}
use d_transfert_backend.Auth.{RegisterRequest, register, login, logout}
use d_transfert_backend.Auth.Passwords.{request_password_reset, reset_password}

-- A service function and its arguments; `by` is the user of the token.
pub data PlatformRequest : Type 0 where
  register_request : (payload : RegisterRequest) → PlatformRequest
  login_request : (matricule : Text) (password : String) → PlatformRequest
  forgot_password_request : (matricule : Text) → PlatformRequest
  reset_password_request : (matricule : Text) (otp_code new_password : String) → PlatformRequest
  logout_request : (access_token : String) (refresh_token : Option String) → PlatformRequest
  update_my_company_request :
      (company_id by : ℕ) (payload : AdminCompanyUpdateRequest) → PlatformRequest
  create_employee_request : (company_id by : ℕ) (payload : EmployeeCreateRequest) → PlatformRequest
  permissions_request :
      (company_id by employee_id : ℕ) (granted revoked : List PermissionCode) → PlatformRequest
  employee_status_request : (company_id by employee_id : ℕ) (is_active : Bool) → PlatformRequest
  update_employee_request :
      (company_id by employee_id : ℕ) (update : AccountUpdate) → PlatformRequest
  delete_employee_request : (company_id by employee_id : ℕ) → PlatformRequest
  create_company_request : (by : ℕ) (payload : CompanyWithOwner) → PlatformRequest
  company_status_request : (by company_id : ℕ) (status : CompanyStatus) → PlatformRequest
  update_company_request :
      (by company_id : ℕ) (payload : AdminCompanyUpdateRequest) → PlatformRequest
  user_status_request : (by user_id : ℕ) (is_active : Bool) → PlatformRequest
  update_user_request : (by company_id user_id : ℕ) (update : AccountUpdate) → PlatformRequest
  create_admin_request : (by : ℕ) (payload : PlatformAdminCreateRequest) → PlatformRequest
  update_admin_request : (by admin_id : ℕ) (update : AccountUpdate) → PlatformRequest
  delete_admin_request : (by admin_id : ℕ) → PlatformRequest
  settings_request : PlatformRequest
  update_settings_request : (by : ℕ) (payload : PlatformSettingsUpdateRequest) → PlatformRequest
  subscription_request : (company_id : ℕ) → PlatformRequest
  update_subscription_request :
      (by company_id : ℕ) (payload : SubscriptionUpdateRequest) → PlatformRequest

abbrev pub drop : {A : Type 0} → Service A → Service Done
drop m = m >> pure tt

unfoldable pub perform_platform : Host → PlatformRequest → Service Done
perform_platform host (register_request p) = drop (register host p)
perform_platform host (login_request m p) = drop (login host m p)
perform_platform host (forgot_password_request m) = drop (request_password_reset host m)
perform_platform host (reset_password_request m c p) = drop (reset_password host m c p)
perform_platform host (logout_request a r) = drop (logout host a r)
perform_platform host (update_my_company_request c by p) = drop (update_my_company host c by p)
perform_platform host (create_employee_request c by p) = drop (create_employee host c by p)
perform_platform host (permissions_request c by i g r) = drop (update_permissions c by i g r)
perform_platform host (employee_status_request c by i a) = drop (set_employee_status c by i a)
perform_platform host (update_employee_request c by i u) = drop (update_employee host c by i u)
perform_platform host (delete_employee_request c by i) = drop (delete_employee c by i)
perform_platform host (create_company_request by p) = drop (create_company host by p)
perform_platform host (company_status_request by c st) = drop (set_company_status by c st)
perform_platform host (update_company_request by c p) = drop (update_company host by c p)
perform_platform host (user_status_request by i a) = drop (set_user_status by i a)
perform_platform host (update_user_request by c i u) = drop (update_company_user host by c i u)
perform_platform host (create_admin_request by p) = drop (create_platform_admin host by p)
perform_platform host (update_admin_request by i u) = drop (update_platform_admin host by i u)
perform_platform host (delete_admin_request by i) = drop (delete_platform_admin by i)
perform_platform host settings_request = drop get_settings
perform_platform host (update_settings_request by p) = drop (update_settings by p)
perform_platform host (subscription_request c) = drop (get_subscription c)
perform_platform host (update_subscription_request by c p) = drop (update_subscription by c p)

-- The database after a request to the endpoint `source`.
abbrev pub handle_platform : Host → String → PlatformRequest → Db → Db
handle_platform host source request s = answered (perform_platform host request) source s
