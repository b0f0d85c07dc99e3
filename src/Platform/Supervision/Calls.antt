-- ===== src/Platform/Supervision/Calls.antt =====
-- app/services/admin_service.py and employee_service.py: the calls that suspend or delete an account leave
-- an active super admin.
use d_transfert_backend.Base.{
  ℕ, ◌≤◌, ◌≡◌, ◌∙◌, Bool, true, false, not, ◌&&◌, Option, none, some, is_some, ◌==◌, id_eq,
  option_eq, arith,
}
use d_transfert_backend.Errors.{Error}
use d_transfert_backend.Models.{User, user_keyed}
use d_transfert_backend.Table.{find}
use d_transfert_backend.Database.{Db}
use d_transfert_backend.Service.Keeps.{Keeps, Keeps-gets, keeps_rules}
use d_transfert_backend.Service.Triple.{
  Triple, Triple-bind, Triple-Keeps, Triple-after, Triple-given, Triple-post, Triple-gets,
  Triple-or_raise, Triple-raise_if, Triple-when, Keeps-Triple,
}
use d_transfert_backend.Accounts.{get_employee, is_active_admin}
use d_transfert_backend.Employees.{find_employee, set_employee_status, delete_employee}
use d_transfert_backend.Administration.{
  get_user, get_platform_admin, check_suspension, set_user_status, delete_platform_admin,
}
use d_transfert_backend.Platform.Frames.{log_for-Keeps, log-Keeps}
use d_transfert_backend.Platform.Requests.{AllowsPlatform}
use d_transfert_backend.Platform.Admins.{admins, find-IsUnbound}
use d_transfert_backend.Platform.Supervision.{
  provided-some, IsSupervised-tables, add_user-IsSupervised, change_user-IsSupervised, Read, read,
  read_logged, read_logged_in, set_state-IsSupervised, removed-IsSupervised, AreSupervised,
  IsSupervised,
}

get_user-Triple : (i : ℕ) → Triple IsSupervised (get_user i) Read
unfolding get_user
get_user-Triple i = Triple-gets _ _ λ o.
    Triple-post _ _ (λ u s ((k, seen), e). read i u s k (seen ∙ e))
      (Triple-or_raise o Error.not_found)

check-Triple :
    (by : ℕ) (u : User)
    → Triple (Read u) (check_suspension u by) (λ d s. Read u s × (2 ≤ admins s.users))
unfolding check_suspension
check-Triple by u = Triple-after _ _ (search keeps_rules) λ d. Triple-gets _ _ λ count.
    Triple-post _ _ (λ d s ((k, seen), few). (k, ground arith)) (Triple-raise_if _ Error.conflict)

set_user_status-IsSupervised : (by i : ℕ) (a : Bool) → Keeps IsSupervised (set_user_status by i a)
unfolding set_user_status
set_user_status-IsSupervised by i a = Keeps-Triple _ (
    Triple-bind Read _ _ (get_user-Triple i) λ u.
      Triple-bind (λ d s. Read u s × ((u.is_super_admin && not a) ≡ true → 2 ≤ admins s.users)) _ _
        (Triple-when _ _ (λ c. Triple-post _ _ (λ d s (f, n). (f, λ q. n)) (check-Triple by u))
          (λ c s f. (f, λ q. cc)))
        λ d.
          Triple-bind (λ x. IsSupervised) _ _ (set_state-IsSupervised u.id u a)
            λ x. Triple-Keeps _ (log_for-Keeps IsSupervised-tables _ _ _ _ _))

no_admin :
    (b : Bool) (o : Option ℕ) (c : ℕ) (x : Bool)
    → (o == some c && x) ≡ true
    → (b && is_some o) ≡ false
    → b ≡ false
no_admin b none c x h k = cc
no_admin b (some d) c x h k = ground arith

-- An employee is no super admin.
find_employee-Triple :
    (c i : ℕ)
    → Triple IsSupervised (find_employee c i) (λ u s. Read u s × (u.is_super_admin ≡ false))
unfolding find_employee
find_employee-Triple c i = Triple-gets _ _ λ o.
    Triple-post _ _ (λ u s ((k, seen), e). employee c i u s k (seen ∙ e))
      (Triple-or_raise o Error.not_found)
  where
    employee :
        (c i : ℕ) (u : User) (s : Db)
        → IsSupervised s
        → get_employee c i s ≡ some u
        → Read u s × (u.is_super_admin ≡ false)
    employee c i u s k e =
        let (found, mine) = provided-some _ (find i s.users) u e in
        (
          read i u s k found,
          no_admin _ u.company_id c _ mine (find-IsUnbound i s.users u k.unbound found),
        )

set_employee_status-IsSupervised :
    (c by i : ℕ) (a : Bool) → Keeps IsSupervised (set_employee_status c by i a)
unfolding set_employee_status
set_employee_status-IsSupervised c by i a = Keeps-Triple _ (
    Triple-bind (λ u s. Read u s × (u.is_super_admin ≡ false)) _ _ (find_employee-Triple c i)
      λ u. Triple-given _ λ employee.
        Triple-bind (λ x. IsSupervised) _ _
          (record { at = λ s f. (set_state-IsSupervised u.id u a).at s (f, λ q. ground arith) })
          λ x. Triple-Keeps _ (log-Keeps IsSupervised-tables _ _ _ _ _))

delete_employee-IsSupervised : (c by i : ℕ) → Keeps IsSupervised (delete_employee c by i)
unfolding delete_employee
delete_employee-IsSupervised c by i = Keeps-Triple _ (
    Triple-bind (λ u s. Read u s × (u.is_super_admin ≡ false)) _ _ (find_employee-Triple c i)
      λ u. Triple-given _ λ employee. Triple-after _ _ (Keeps-gets _) λ used.
        Triple-after _ _ (search keeps_rules) λ d.
          Triple-after _ _
            (read_logged_in (λ us. AreSupervised us × (find u.id us ≡ some u)) _ _ _ _ _)
            λ logged. record {
              at = λ s f. (removed-IsSupervised u.id u).at s (f, λ q. ground arith);
            })

get_platform_admin-Triple : (i : ℕ) → Triple IsSupervised (get_platform_admin i) Read
unfolding get_platform_admin
get_platform_admin-Triple i = Triple-gets _ _ λ o.
    Triple-post _ _
      (λ u s ((k, seen), e). read i u s k (provided-some _ (find i s.users) u (seen ∙ e)).0)
      (Triple-or_raise o Error.not_found)

delete_platform_admin-IsSupervised : (by i : ℕ) → Keeps IsSupervised (delete_platform_admin by i)
unfolding delete_platform_admin
delete_platform_admin-IsSupervised by i = Keeps-Triple _ (
    Triple-bind Read _ _ (get_platform_admin-Triple i) λ u. Triple-gets _ _ λ count.
      Triple-bind (λ d s. Read u s × (is_active_admin u ≡ true → 2 ≤ admins s.users)) _ _
        (Triple-post _ _ (λ d s ((k, seen), few). (k, λ q. ground arith))
          (Triple-raise_if _ Error.conflict))
        λ d. Triple-after _ _ (Keeps-gets _) λ used. Triple-after _ _ (search keeps_rules) λ free.
          Triple-after _ _
            (read_logged
              (λ us.
                (AreSupervised us × (find u.id us ≡ some u))
                × (is_active_admin u ≡ true → 2 ≤ admins us))
              _ _ _ _ _)
            λ logged. removed-IsSupervised u.id u)

pub IsSupervised-platform : AllowsPlatform IsSupervised
IsSupervised-platform = record {
  tables = IsSupervised-tables;
  users = record { added = add_user-IsSupervised; changed = change_user-IsSupervised };
  employee_status = set_employee_status-IsSupervised;
  employee_deletion = delete_employee-IsSupervised;
  user_status = set_user_status-IsSupervised;
  admin_deletion = delete_platform_admin-IsSupervised;
}
