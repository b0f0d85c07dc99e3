-- ===== src/Platform/People.antt =====
-- The services of accounts, of login and of passwords keep an invariant that allows the writes to
-- the tables of the accounts and the harmless writes to the users.
pub mod Calls
use d_transfert_backend.Base.{
  ℕ, ◌≡◌, refl, false, ◌&&◌, String, Text, Option, is_some, List, arith, ap, Bool,
}
use d_transfert_backend.Models.{User, Company, SystemLogLevel, PasswordResetOtp}
use d_transfert_backend.Database.{Db}
use d_transfert_backend.Host.{Host, Claims}
use d_transfert_backend.Service.Keeps.{Keeps, Keeps-modify, keeps_rules}
use d_transfert_backend.Accounts.{PermissionCode, add_user, change_user}
use d_transfert_backend.Companies.{
  CompanyWithOwner, add_company, owner_of, create_company_with_owner,
}
use d_transfert_backend.Employees.{
  EmployeeCreateRequest, AccountUpdate, find_employee, create_employee, update_permissions,
  set_user_phone, set_name_and_password, update_employee, with_phone, with_name, with_hash,
  new_employee,
}
use d_transfert_backend.Administration.{
  new_admin, PlatformAdminCreateRequest, create_company, update_company_user, create_platform_admin,
  get_platform_admin, set_admin_phone, update_platform_admin,
}
use d_transfert_backend.Access.{TokenType, decode_token}
use d_transfert_backend.Auth.{
  RegisterRequest, register, log_system, find_login_user, ensure_company_active, failed, logged_in,
  refuse_login, accept_login, refuse_locked, login, revoke, logout,
}
use d_transfert_backend.Auth.Passwords.{
  add_otp, request_password_reset, change_otp, refuse_code, with_new_password, accept_code,
  reset_password,
}
use d_transfert_backend.Platform.Frames.{
  Tables, table_rules, override_code-Keeps, flush_overrides-Keeps,
}

-- A change of an account that leaves open whose it is, whether it is active and what it may do.
pub record IsHarmless (f : User → User) : Type 0 where
  pub same_id : (x : User) → (f x).id ≡ x.id
  pub same_company : (x : User) → (f x).company_id ≡ x.company_id
  pub same_rank : (x : User) → (f x).is_super_admin ≡ x.is_super_admin
  pub same_state : (x : User) → (f x).is_active ≡ x.is_active

-- A super admin belongs to no company.
abbrev pub IsUnbound : User → Type 0
IsUnbound u = (u.is_super_admin && is_some u.company_id) ≡ false

pub record Users (P : Db → Type 0) : Type 0 where
  pub added : (u : User) → IsUnbound u → Keeps P (add_user u)
  pub changed : (i : ℕ) (f : User → User) → IsHarmless f → Keeps P (change_user i f)

-- What an update of an account must leave as it is.
abbrev profile : User → ℕ × Option ℕ × Bool × Bool
profile u = (u.id, u.company_id, u.is_super_admin, u.is_active)

profile-IsHarmless : (f : User → User) → ((x : User) → profile (f x) ≡ profile x) → IsHarmless f
profile-IsHarmless f same = record {
  same_id = λ x. ap (λ p. p.0) (same x);
  same_company = λ x. ap (λ p. p.1) (same x);
  same_rank = λ x. ap (λ p. p.2) (same x);
  same_state = λ x. ap (λ p. p.3) (same x);
}

failed-IsHarmless : (now : ℕ) → IsHarmless (failed now)
failed-IsHarmless now = record {
  same_id = λ x. ground arith;
  same_company = λ x. ground arith;
  same_rank = λ x. ground arith;
  same_state = λ x. ground arith;
}

module _ {P : Db → Type 0} (users : Users P) where
  pub phone-Keeps : (i : ℕ) (p : String) → Keeps P (change_user i (with_phone p))
  phone-Keeps i p = users.changed i _ (profile-IsHarmless _ λ x. refl)

  pub name-Keeps : (i : ℕ) (n : String) → Keeps P (change_user i (with_name n))
  name-Keeps i n = users.changed i _ (profile-IsHarmless _ λ x. refl)

  pub hash-Keeps : (i : ℕ) (h : String) → Keeps P (change_user i (with_hash h))
  hash-Keeps i h = users.changed i _ (profile-IsHarmless _ λ x. refl)

  pub failed-Keeps : (i now : ℕ) → Keeps P (change_user i (failed now))
  failed-Keeps i now = users.changed i _ (failed-IsHarmless now)

  pub logged_in-Keeps : (i now : ℕ) → Keeps P (change_user i (logged_in now))
  logged_in-Keeps i now = users.changed i _ (profile-IsHarmless _ λ x. refl)

  pub new_password-Keeps :
      (i : ℕ) (h : String) (now : ℕ) → Keeps P (change_user i (with_new_password h now))
  new_password-Keeps i h now = users.changed i _ (profile-IsHarmless _ λ x. refl)
