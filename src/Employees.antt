-- ===== src/Employees.antt =====
-- app/services/employee_service.py: the accounts of a company besides its owner's, and their
-- permissions.
use d_transfert_backend.Base.{
  ℕ, ◌+◌, ◌-◌, String, Text, Bool, true, false, not, Option, none, some, is_some, List, ◌++◌, ◌==◌,
  id_eq, string_eq, length,
}
use d_transfert_backend.Errors.{Error}
use d_transfert_backend.Models.{User, OverrideEffect, user_keyed}
use d_transfert_backend.Host.{Host}
use d_transfert_backend.Reference.{decimal, zeros}
use d_transfert_backend.TextOps.{codes}
use d_transfert_backend.Service.{
  Service, Done, pure, gets, query, or_raise, ◌>>=◌, ◌>>◌, raise_if, when, when_some, fresh_id,
  for_each,
}
use d_transfert_backend.Audit.{log_action}
use d_transfert_backend.Accounts.{
  PermissionCode, get_employee, get_user_by_phone, get_role_by_code, get_owner_by_company,
  count_employees_by_company, free_matricule, add_user, change_user, override_code, flush_overrides,
  has_user_dependencies, remove_user,
}

-- `{n:03d}`
unfoldable pub pad3 : ℕ → Text
unfolding zeros decimal
pad3 n = zeros (3 - length (decimal n)) ++ decimal n

-- `f"{company_registration_code}-EMP{sequence:03d}"`
unfoldable pub generate_employee_matricule : Text → ℕ → Text
generate_employee_matricule registration_code sequence =
    registration_code ++ (codes "-EMP" ++ pad3 sequence)

-- app/schemas/employee.py
pub record EmployeeCreateRequest : Type 0 where
  pub full_name : String
  pub phone : String
  pub password : String
  pub permissions : List PermissionCode

pub record AccountUpdate : Type 0 where
  pub full_name : Option String
  pub phone : Option String
  pub password : Option String

unfoldable pub find_employee : ℕ → ℕ → Service User
find_employee company_id employee_id = do
  found ← gets (get_employee company_id employee_id)
  or_raise found Error.not_found

abbrev pub new_employee : Host → EmployeeCreateRequest → ℕ → ℕ → Text → ℕ → User
new_employee host payload company_id role_id matricule user_id = record {
  id = user_id;
  company_id = some company_id;
  role_id = some role_id;
  matricule = matricule;
  full_name = payload.full_name;
  phone = payload.phone;
  password_hash = host.hash_password payload.password;
  is_owner = false;
  is_super_admin = false;
  is_active = true;
  failed_login_attempts = 0;
  locked_until = none;
  last_login_at = none;
  password_changed_at = none;
}

unfoldable pub create_employee : Host → ℕ → ℕ → EmployeeCreateRequest → Service ℕ
create_employee host company_id acted_by_user_id payload = do
  same_phone ← query (get_user_by_phone company_id payload.phone)
  raise_if (is_some same_phone) Error.conflict
  role ← query (get_role_by_code "employee")
  employee_role ← or_raise role Error.conflict
  found ← query (get_owner_by_company company_id)
  owner ← or_raise found Error.conflict
  count ← gets (count_employees_by_company company_id)
  matricule ← query (free_matricule host (generate_employee_matricule owner.matricule) (count + 1))
  user_id ← fresh_id
  add_user (new_employee host payload company_id employee_role.id matricule user_id)
  flushed ← gets (λ s. s.overrides)
  for_each (override_code flushed user_id OverrideEffect.grant) payload.permissions
  log_action company_id acted_by_user_id "employee.create" "user" user_id
  flush_overrides
  pure user_id

unfoldable pub update_permissions :
    ℕ → ℕ → ℕ → List PermissionCode → List PermissionCode → Service Done
update_permissions company_id acted_by_user_id employee_id granted revoked = do
  user ← find_employee company_id employee_id
  flushed ← gets (λ s. s.overrides)
  for_each (override_code flushed user.id OverrideEffect.grant) granted
  for_each (override_code flushed user.id OverrideEffect.revoke) revoked
  log_action company_id acted_by_user_id "employee.permission_change" "user" user.id
  flush_overrides

-- `user.phone = phone`, and so on.
abbrev pub with_phone : String → User → User
with_phone phone user = record user { phone = phone }

abbrev pub with_name : String → User → User
with_name full_name user = record user { full_name = full_name }

abbrev pub with_hash : String → User → User
with_hash password_hash user = record user { password_hash = password_hash }

abbrev pub with_state : Bool → User → User
with_state is_active user = record user { is_active = is_active }

unfoldable pub set_employee_status : ℕ → ℕ → ℕ → Bool → Service Done
set_employee_status company_id acted_by_user_id employee_id is_active = do
  user ← find_employee company_id employee_id
  change_user user.id (with_state is_active)
  log_action company_id acted_by_user_id "employee.status_change" "user" user.id

abbrev pub other_user : User → Option User → Bool
other_user user none = false
other_user user (some u) = not (u.id == user.id)

-- The check and the write of a phone that is new, within a company.
unfoldable pub set_user_phone : ℕ → User → String → Service Done
set_user_phone company_id user phone = when (not (phone == user.phone)) do
  existing ← query (get_user_by_phone company_id phone)
  raise_if (other_user user existing) Error.conflict
  change_user user.id (with_phone phone)

-- The writes of the name and of the password, in update_employee and in the two functions of
-- admin_service.
unfoldable pub set_name_and_password : Host → User → AccountUpdate → Service Done
set_name_and_password host user update = do
  when_some update.full_name (λ n. change_user user.id (with_name n))
  when_some update.password (λ p. change_user user.id (with_hash (host.hash_password p)))

unfoldable pub update_employee : Host → ℕ → ℕ → ℕ → AccountUpdate → Service Done
update_employee host company_id acted_by_user_id employee_id update = do
  user ← find_employee company_id employee_id
  when_some update.phone (set_user_phone company_id user)
  set_name_and_password host user update
  log_action company_id acted_by_user_id "employee.update" "user" user.id

unfoldable pub delete_employee : ℕ → ℕ → ℕ → Service Done
delete_employee company_id acted_by_user_id employee_id = do
  user ← find_employee company_id employee_id
  used ← gets (has_user_dependencies user.id)
  raise_if used Error.conflict
  log_action company_id acted_by_user_id "employee.delete" "user" user.id
  remove_user user.id
