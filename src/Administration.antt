-- ===== src/Administration.antt =====
-- app/services/admin_service.py: what a super admin does to companies and accounts.
pub mod Deletion
pub mod Settings
unfoldable pub use Settings.*
use d_transfert_backend.Base.{
  ℕ, ◌≤◌, String, Text, Bool, true, false, not, Option, none, some, is_some, List, [], ◌∷◌, ◌++◌,
  ◌==◌, id_eq, string_eq, option_eq, ◌&&◌, leb, ltb,
}
use d_transfert_backend.Money.{Decimal}
use d_transfert_backend.Errors.{Error, Result}
use d_transfert_backend.Models.{
  User, Company, CompanyStatus, PlatformSetting, Subscription, SubscriptionPlan, SubscriptionStatus,
  user_keyed, company_keyed, setting_keyed, subscription_keyed,
}
use d_transfert_backend.Table.{find, update_row, provided, scalar_one_or_none}
use d_transfert_backend.Database.{Db}
use d_transfert_backend.Host.{Host}
use d_transfert_backend.TextOps.{codes}
use d_transfert_backend.Service.{
  Service, Done, pure, gets, query, or_raise, ◌>>=◌, ◌>>◌, modify, raise_if, when, when_some,
  fresh_id,
}
use d_transfert_backend.Audit.{log_action, log_action_for}
use d_transfert_backend.Accounts.{
  get_super_admin_by_phone, count_active_super_admins, free_matricule, add_user, change_user,
  has_user_dependencies, remove_user,
}
use d_transfert_backend.Companies.{
  CompanyWithOwner, RegisterResponse, create_company_with_owner, get_my_company, change_company,
  AdminCompanyUpdateRequest, update_fields,
}
use d_transfert_backend.Companies.Slugs.{generate_reference}
use d_transfert_backend.Employees.{
  AccountUpdate, with_phone, with_state, other_user, set_user_phone, set_name_and_password,
}

unfoldable pub create_company : Host → ℕ → CompanyWithOwner → Service RegisterResponse
create_company host acted_by_user_id payload = do
  created ← create_company_with_owner host payload
  log_action created.company_id acted_by_user_id "admin.company_create" "company" created.company_id
  pure created

unfoldable pub set_company_status : ℕ → ℕ → CompanyStatus → Service Done
set_company_status acted_by_user_id company_id status = do
  company ← get_my_company company_id
  change_company company.id (λ c. record c { status = status })
  log_action company.id acted_by_user_id "admin.company_status_change" "company" company.id

unfoldable pub update_company : Host → ℕ → ℕ → AdminCompanyUpdateRequest → Service Done
update_company host acted_by_user_id company_id payload = do
  company ← get_my_company company_id
  update_fields host company payload
  log_action company.id acted_by_user_id "admin.company_update" "company" company.id

unfoldable pub get_user : ℕ → Service User
get_user user_id = do found ← gets (λ s. find user_id s.users); or_raise found Error.not_found

-- The guard of set_user_status against the suspension of oneself and of the last super admin.
unfoldable pub check_suspension : User → ℕ → Service Done
check_suspension user acted_by_user_id = do
  raise_if (user.id == acted_by_user_id) Error.conflict
  count ← gets count_active_super_admins
  raise_if (leb count 1) Error.conflict

unfoldable pub set_user_status : ℕ → ℕ → Bool → Service Done
set_user_status acted_by_user_id user_id is_active = do
  user ← get_user user_id
  when (user.is_super_admin && not is_active) (check_suspension user acted_by_user_id)
  change_user user.id (with_state is_active)
  log_action_for user.company_id acted_by_user_id "admin.user_status_change" "user" user.id

unfoldable pub update_company_user : Host → ℕ → ℕ → ℕ → AccountUpdate → Service Done
update_company_user host acted_by_user_id company_id user_id payload = do
  found ← gets (λ s. provided (λ u. u.company_id == some company_id) (find user_id s.users))
  user ← or_raise found Error.not_found
  when_some payload.phone (set_user_phone company_id user)
  set_name_and_password host user payload
  log_action company_id acted_by_user_id "admin.company_user_update" "user" user.id

-- app/schemas/admin.py
pub record PlatformAdminCreateRequest : Type 0 where
  pub full_name : String
  pub phone : String
  pub password : String

abbrev pub platform_admin_matricule : Host → ℕ → Text
platform_admin_matricule host attempt = generate_reference (codes "SA") (host.drawn attempt)

abbrev pub new_admin : Host → PlatformAdminCreateRequest → Text → ℕ → User
new_admin host payload matricule user_id = record {
  id = user_id;
  company_id = none;
  role_id = none;
  matricule = matricule;
  full_name = payload.full_name;
  phone = payload.phone;
  password_hash = host.hash_password payload.password;
  is_owner = false;
  is_super_admin = true;
  is_active = true;
  failed_login_attempts = 0;
  locked_until = none;
  last_login_at = none;
  password_changed_at = none;
}

unfoldable pub create_platform_admin : Host → ℕ → PlatformAdminCreateRequest → Service ℕ
create_platform_admin host acted_by_user_id payload = do
  same_phone ← query (get_super_admin_by_phone payload.phone)
  raise_if (is_some same_phone) Error.conflict
  matricule ← query (free_matricule host (platform_admin_matricule host) 0)
  user_id ← fresh_id
  add_user (new_admin host payload matricule user_id)
  log_action_for none acted_by_user_id "admin.platform_admin_create" "user" user_id
  pure user_id

unfoldable pub get_platform_admin : ℕ → Service User
get_platform_admin admin_id = do
  found ← gets (λ s. provided (λ u. u.is_super_admin) (find admin_id s.users))
  or_raise found Error.not_found

unfoldable pub set_admin_phone : User → String → Service Done
set_admin_phone admin phone = when (not (phone == admin.phone)) do
  existing ← query (get_super_admin_by_phone phone)
  raise_if (other_user admin existing) Error.conflict
  change_user admin.id (with_phone phone)

unfoldable pub update_platform_admin : Host → ℕ → ℕ → AccountUpdate → Service Done
update_platform_admin host acted_by_user_id admin_id payload = do
  admin ← get_platform_admin admin_id
  when_some payload.phone (set_admin_phone admin)
  set_name_and_password host admin payload
  log_action_for none acted_by_user_id "admin.platform_admin_update" "user" admin.id

unfoldable pub delete_platform_admin : ℕ → ℕ → Service Done
delete_platform_admin acted_by_user_id admin_id = do
  admin ← get_platform_admin admin_id
  count ← gets count_active_super_admins
  raise_if (admin.is_active && leb count 1) Error.conflict
  used ← gets (has_user_dependencies admin.id)
  raise_if used Error.conflict
  log_action_for none acted_by_user_id "admin.platform_admin_delete" "user" admin.id
  remove_user admin.id
