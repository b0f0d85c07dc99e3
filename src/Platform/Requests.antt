-- ===== src/Platform/Requests.antt =====
-- One rule for all platform requests: an invariant that allows the writes to the tables of the
-- accounts, the harmless writes to the users, and the four services that change or remove an account
-- is kept by every request.
use d_transfert_backend.Base.{ℕ, String, Bool, List}
use d_transfert_backend.Handlers.{Keeps-answered}
use d_transfert_backend.Models.{User}
use d_transfert_backend.Database.{Db}
use d_transfert_backend.Host.{Host}
use d_transfert_backend.Service.{Service}
use d_transfert_backend.Service.Keeps.{Keeps, Keeps-bind, Keeps-pure, Keeps-modify, keeps_rules}
use d_transfert_backend.Accounts.{add_user, change_user, remove_user}
use d_transfert_backend.Employees.{find_employee, set_employee_status, delete_employee}
use d_transfert_backend.Administration.{
  get_user, get_platform_admin, check_suspension, set_user_status, delete_platform_admin,
}
use d_transfert_backend.Platform.{PlatformRequest, perform_platform, handle_platform, drop}
use d_transfert_backend.Platform.Frames.{Tables, table_rules}
use d_transfert_backend.Platform.Services.{
  update_my_company-Keeps, update_company-Keeps, set_company_status-Keeps, get_settings-Keeps,
  update_settings-Keeps, get_subscription-Keeps, update_subscription-Keeps,
}
use d_transfert_backend.Platform.People.{Users}
use d_transfert_backend.Platform.People.Calls.{
  register-Keeps, create_company-Keeps, create_employee-Keeps, update_permissions-Keeps,
  update_employee-Keeps, update_company_user-Keeps, create_platform_admin-Keeps,
  update_platform_admin-Keeps, login-Keeps, request_password_reset-Keeps, reset_password-Keeps,
  logout-Keeps,
}

pub record AllowsPlatform (P : Db → Type 0) : Type 0 where
  pub tables : Tables P
  pub users : Users P
  pub employee_status : (c by i : ℕ) (a : Bool) → Keeps P (set_employee_status c by i a)
  pub employee_deletion : (c by i : ℕ) → Keeps P (delete_employee c by i)
  pub user_status : (by i : ℕ) (a : Bool) → Keeps P (set_user_status by i a)
  pub admin_deletion : (by i : ℕ) → Keeps P (delete_platform_admin by i)

drop-Keeps : {A : Type 0} {P : Db → Type 0} (m : Service A) → Keeps P m → Keeps P (drop m)
drop-Keeps m k = Keeps-bind m _ k (λ _. Keeps-pure tt)

module _ {P : Db → Type 0} (allows : AllowsPlatform P) (host : Host) where
  perform_platform-Keeps : (r : PlatformRequest) → Keeps P (perform_platform host r)
  unfolding perform_platform
  perform_platform-Keeps (PlatformRequest.register_request p) =
      drop-Keeps _ (register-Keeps allows.tables allows.users host p)
  perform_platform-Keeps (PlatformRequest.login_request m p) =
      drop-Keeps _ (login-Keeps allows.tables allows.users host m p)
  perform_platform-Keeps (PlatformRequest.forgot_password_request m) =
      drop-Keeps _ (request_password_reset-Keeps allows.tables allows.users host m)
  perform_platform-Keeps (PlatformRequest.reset_password_request m c p) =
      drop-Keeps _ (reset_password-Keeps allows.tables allows.users host m c p)
  perform_platform-Keeps (PlatformRequest.logout_request a r) =
      drop-Keeps _ (logout-Keeps allows.tables allows.users host a r)
  perform_platform-Keeps (PlatformRequest.update_my_company_request c by p) =
      drop-Keeps _ (update_my_company-Keeps allows.tables host c by p)
  perform_platform-Keeps (PlatformRequest.create_employee_request c by p) =
      drop-Keeps _ (create_employee-Keeps allows.tables allows.users host c by p)
  perform_platform-Keeps (PlatformRequest.permissions_request c by i g r) =
      drop-Keeps _ (update_permissions-Keeps allows.tables allows.users c by i g r)
  perform_platform-Keeps (PlatformRequest.employee_status_request c by i a) =
      drop-Keeps _ (allows.employee_status c by i a)
  perform_platform-Keeps (PlatformRequest.update_employee_request c by i u) =
      drop-Keeps _ (update_employee-Keeps allows.tables allows.users host c by i u)
  perform_platform-Keeps (PlatformRequest.delete_employee_request c by i) =
      drop-Keeps _ (allows.employee_deletion c by i)
  perform_platform-Keeps (PlatformRequest.create_company_request by p) =
      drop-Keeps _ (create_company-Keeps allows.tables allows.users host by p)
  perform_platform-Keeps (PlatformRequest.company_status_request by c st) =
      drop-Keeps _ (set_company_status-Keeps allows.tables by c st)
  perform_platform-Keeps (PlatformRequest.update_company_request by c p) =
      drop-Keeps _ (update_company-Keeps allows.tables host by c p)
  perform_platform-Keeps (PlatformRequest.user_status_request by i a) =
      drop-Keeps _ (allows.user_status by i a)
  perform_platform-Keeps (PlatformRequest.update_user_request by c i u) =
      drop-Keeps _ (update_company_user-Keeps allows.tables allows.users host by c i u)
  perform_platform-Keeps (PlatformRequest.create_admin_request by p) =
      drop-Keeps _ (create_platform_admin-Keeps allows.tables allows.users host by p)
  perform_platform-Keeps (PlatformRequest.update_admin_request by i u) =
      drop-Keeps _ (update_platform_admin-Keeps allows.tables allows.users host by i u)
  perform_platform-Keeps (PlatformRequest.delete_admin_request by i) =
      drop-Keeps _ (allows.admin_deletion by i)
  perform_platform-Keeps PlatformRequest.settings_request =
      drop-Keeps _ (get_settings-Keeps allows.tables)
  perform_platform-Keeps (PlatformRequest.update_settings_request by p) =
      drop-Keeps _ (update_settings-Keeps allows.tables by p)
  perform_platform-Keeps (PlatformRequest.subscription_request c) =
      drop-Keeps _ (get_subscription-Keeps allows.tables c)
  perform_platform-Keeps (PlatformRequest.update_subscription_request by c p) =
      drop-Keeps _ (update_subscription-Keeps allows.tables by c p)

  pub handle_platform-Keeps :
      (source : String) (r : PlatformRequest) (s : Db) → P s → P (handle_platform host source r s)
  handle_platform-Keeps source r s h =
      Keeps-answered (λ level at t k. allows.tables.system_logs _ t k) (perform_platform host r)
        (perform_platform-Keeps r) source s h

-- An invariant that does not read the users.
module _ {P : Db → Type 0} (tables : Tables P)
    (users : (x : List User) (s : Db) → P s → P (record s { users = x })) where
  any_change : (i : ℕ) (f : User → User) → Keeps P (change_user i f)
  unfolding change_user
  any_change i f = Keeps-modify _ (λ s h. users _ s h)

  removal : (i : ℕ) → Keeps P (remove_user i)
  unfolding remove_user
  removal i = Keeps-modify _ (λ s h. tables.audit_logs _ _ (users _ s h))

  any_user : Users P
  unfolding add_user
  any_user = record {
    added = λ u h. search (keeps_rules, Keeps-modify, users);
    changed = λ i f h. any_change i f;
  }

  find_employee-Keeps : (c i : ℕ) → Keeps P (find_employee c i)
  unfolding find_employee
  find_employee-Keeps c i = search keeps_rules

  any_employee_status : (c by i : ℕ) (a : Bool) → Keeps P (set_employee_status c by i a)
  unfolding set_employee_status
  any_employee_status c by i a = search (table_rules, find_employee-Keeps, any_change)

  any_employee_deletion : (c by i : ℕ) → Keeps P (delete_employee c by i)
  unfolding delete_employee
  any_employee_deletion c by i = search (table_rules, find_employee-Keeps, removal) depth 10

  any_user_status : (by i : ℕ) (a : Bool) → Keeps P (set_user_status by i a)
  unfolding set_user_status get_user check_suspension
  any_user_status by i a = search (table_rules, any_change) depth 14

  any_admin_deletion : (by i : ℕ) → Keeps P (delete_platform_admin by i)
  unfolding delete_platform_admin get_platform_admin
  any_admin_deletion by i = search (table_rules, removal) depth 14

  pub quiet_platform : AllowsPlatform P
  quiet_platform = record {
    tables = tables;
    users = any_user;
    employee_status = any_employee_status;
    employee_deletion = any_employee_deletion;
    user_status = any_user_status;
    admin_deletion = any_admin_deletion;
  }
