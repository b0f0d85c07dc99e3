-- ===== src/Accounts.antt =====
-- app/repositories/user_repository.py and role_repository.py, app/core/permission_codes.py and
-- user_management_service.py: the accounts of the users and what each may do.
pub mod Codes
pub mod Effective
unfoldable pub use Codes.*
use d_transfert_backend.Base.{
  ℕ, zero, suc, ◌+◌, String, Text, Bool, true, not, Option, none, some, is_some, List, [], ◌∷◌,
  ◌++◌, ◌==◌, id_eq, string_eq, option_eq, list_eq, ◌&&◌, ◌||◌, any, keep, map, length,
  if◌then◌else◌,
}
use d_transfert_backend.Errors.{Error, Result, ok, err}
use d_transfert_backend.Models.{
  User, Permission, Role, RolePermission, UserPermissionOverride, OverrideEffect, user_keyed,
  override_keyed,
}
use d_transfert_backend.Table.{find, update_row, delete_row, provided, scalar_one_or_none}
use d_transfert_backend.Database.{Db}
use d_transfert_backend.Host.{Host}
use d_transfert_backend.Service.{
  Service, Done, gets, query, ◌>>=◌, ◌>>◌, modify, raise_if, when_some, fresh_id,
}

pub data PermissionCode : Type 0 where
  dashboard_view entry_manage transfer_create payment_create operation_validate : PermissionCode
  wallet_manage national_operation_manage collaboration_manage supplier_manage : PermissionCode
  client_manage report_view report_export rate_private_view : PermissionCode
  rate_private_manage employee_manage : PermissionCode

-- `code.value`
abbrev pub value : PermissionCode → String
value PermissionCode.dashboard_view = "dashboard.view"
value PermissionCode.entry_manage = "entry.manage"
value PermissionCode.transfer_create = "transfer.create"
value PermissionCode.payment_create = "payment.create"
value PermissionCode.operation_validate = "operation.validate"
value PermissionCode.wallet_manage = "wallet.manage"
value PermissionCode.national_operation_manage = "national_operation.manage"
value PermissionCode.collaboration_manage = "collaboration.manage"
value PermissionCode.supplier_manage = "supplier.manage"
value PermissionCode.client_manage = "client.manage"
value PermissionCode.report_view = "report.view"
value PermissionCode.report_export = "report.export"
value PermissionCode.rate_private_view = "rate.private.view"
value PermissionCode.rate_private_manage = "rate.private.manage"
value PermissionCode.employee_manage = "employee.manage"

abbrev pub all_codes : List PermissionCode
all_codes =
    PermissionCode.dashboard_view ∷ PermissionCode.entry_manage ∷ PermissionCode.transfer_create
    ∷ PermissionCode.payment_create ∷ PermissionCode.operation_validate
    ∷ PermissionCode.wallet_manage ∷ PermissionCode.national_operation_manage
    ∷ PermissionCode.collaboration_manage ∷ PermissionCode.supplier_manage
    ∷ PermissionCode.client_manage ∷ PermissionCode.report_view ∷ PermissionCode.report_export
    ∷ PermissionCode.rate_private_view ∷ PermissionCode.rate_private_manage
    ∷ PermissionCode.employee_manage ∷ []

-- get_by_company_and_id: an account of the company that is not its owner's.
abbrev pub get_employee : ℕ → ℕ → Db → Option User
get_employee company_id user_id s =
    provided (λ u. u.company_id == some company_id && not u.is_owner) (find user_id s.users)

abbrev pub get_by_matricule : Host → Text → Db → Result (Option User)
get_by_matricule host matricule s =
    scalar_one_or_none (λ u. host.lower u.matricule == host.lower matricule) s.users

abbrev pub get_user_by_phone : ℕ → String → Db → Result (Option User)
get_user_by_phone company_id phone s =
    scalar_one_or_none (λ u. u.company_id == some company_id && u.phone == phone) s.users

abbrev pub get_owner_by_company : ℕ → Db → Result (Option User)
get_owner_by_company company_id s =
    scalar_one_or_none (λ u. u.company_id == some company_id && u.is_owner) s.users

abbrev pub count_employees_by_company : ℕ → Db → ℕ
count_employees_by_company company_id s =
    length (keep (λ u. u.company_id == some company_id && not u.is_owner) s.users)

abbrev pub get_super_admin_by_phone : String → Db → Result (Option User)
get_super_admin_by_phone phone s =
    scalar_one_or_none (λ u. u.is_super_admin && u.phone == phone) s.users

abbrev pub is_active_admin : User → Bool
is_active_admin u = u.is_super_admin && u.is_active

abbrev pub count_active_super_admins : Db → ℕ
count_active_super_admins s = length (keep is_active_admin s.users)

abbrev pub get_role_by_code : String → Db → Result (Option Role)
get_role_by_code code s = scalar_one_or_none (λ r. r.code == code) s.roles

abbrev pub get_permission_by_code : String → Db → Result (Option Permission)
get_permission_by_code code s = scalar_one_or_none (λ p. p.code == code) s.permissions

-- The primary key, the constraint uq_user_company_phone, where a company that is null equals nothing,
-- and uq_user_matricule.
abbrev pub clashes_with : User → User → Bool
clashes_with new u =
    u.id == new.id
    || is_some new.company_id && u.company_id == new.company_id && u.phone == new.phone
    || u.matricule == new.matricule

-- `session.add(user)` and the flush.
unfoldable pub add_user : User → Service Done
add_user new = do
  clash ← gets (λ s. any (clashes_with new) s.users)
  raise_if clash Error.integrity_error
  modify (λ s. record s { users = s.users ++ new ∷ [] })

unfoldable pub change_user : ℕ → (User → User) → Service Done
unfolding modify
change_user user_id f = modify λ s. record s { users = update_row user_id f s.users }

-- The loops of create_employee and create_platform_admin: `left` attempts are left, the candidate of
-- `attempt` is tried next.
abbrev pub unless_taken : Result (Option User) → Text → Result Text → Result Text
unless_taken (err e) candidate later = err e
unless_taken (ok none) candidate later = ok candidate
unless_taken (ok (some u)) candidate later = later

pub try_matricules : Host → (ℕ → Text) → Db → ℕ → ℕ → Result Text
try_matricules host candidate s attempt zero = err Error.conflict
try_matricules host candidate s attempt (suc left) =
    unless_taken (get_by_matricule host (candidate attempt) s) (candidate attempt)
      (try_matricules host candidate s (attempt + 1) left)

unfoldable pub free_matricule : Host → (ℕ → Text) → ℕ → Db → Result Text
unfolding try_matricules
free_matricule host candidate first s = try_matricules host candidate s first 10

-- The row of the override as the last flush left it. The session has autoflush off: an override that
-- is added stays unseen until the flush, where a second one for the same permission fails.
abbrev pub get_override :
    ℕ → ℕ → List UserPermissionOverride → Result (Option UserPermissionOverride)
get_override user_id permission_id flushed =
    scalar_one_or_none (λ o. o.user_id == user_id && o.permission_id == permission_id) flushed

unfoldable pub write_override :
    Option UserPermissionOverride → ℕ → ℕ → OverrideEffect → Service Done
write_override (some o) user_id permission_id effect = modify λ s. record s {
  overrides = update_row o.id (λ row. record row { effect = effect }) s.overrides;
}
write_override none user_id permission_id effect = do
  override_id ← fresh_id
  modify (λ s. record s {
    overrides =
        s.overrides
        ++ record {
          id = override_id;
          user_id = user_id;
          permission_id = permission_id;
          effect = effect;
        }
          ∷ [];
  })

unfoldable pub set_permission_override :
    List UserPermissionOverride → ℕ → OverrideEffect → Permission → Service Done
set_permission_override flushed user_id effect permission = do
  existing ← query (λ s. get_override user_id permission.id flushed)
  write_override existing user_id permission.id effect

-- One round of the loops over the codes: a code with no row in `permissions` is passed over.
unfoldable pub override_code :
    List UserPermissionOverride → ℕ → OverrideEffect → PermissionCode → Service Done
override_code flushed user_id effect code = do
  permission ← query (get_permission_by_code (value code))
  when_some permission (set_permission_override flushed user_id effect)

-- The constraint uq_user_permission_override.
abbrev pub are_unique : List UserPermissionOverride → Bool
are_unique [] = true
are_unique (o ∷ os) =
    not (any (λ p. p.user_id == o.user_id && p.permission_id == o.permission_id) os)
    && are_unique os

unfoldable pub flush_overrides : Service Done
flush_overrides = do
  unique ← gets (λ s. are_unique s.overrides)
  raise_if (not unique) Error.integrity_error

-- count_user_dependency_usage and has_user_dependencies: some row refers to the user.
unfoldable pub has_user_dependencies : ℕ → Db → Bool
has_user_dependencies i s =
    any (λ x. x.created_by_id == i) s.entries
    || any (λ x. x.created_by_id == i) s.transfers
    || any (λ x. x.created_by_id == i) s.payments
    || any (λ x. x.created_by_id == i) s.wallet_movements
    || any (λ x. x.created_by_id == i) s.operations
    || any (λ x. x.created_by_id == i) s.supplier_movements
    || any (λ x. x.created_by_id == i) s.client_movements
    || any (λ x. x.uploaded_by_id == i) s.proofs
    || any (λ x. x.created_by_id == i) s.private_rates
    || any (λ x. x.user_id == i) s.overrides
    || any (λ x. x.user_id == i) s.otps
    || any (λ x. x.user_id == some i) s.system_logs

-- `session.delete(user)` and the ON DELETE SET NULL of the audit logs.
unfoldable pub remove_user : ℕ → Service Done
unfolding modify
remove_user user_id = modify λ s. record s {
  users = delete_row user_id s.users;
  audit_logs =
      map (λ l. if l.user_id == some user_id then record l { user_id = none } else l) s.audit_logs;
}
