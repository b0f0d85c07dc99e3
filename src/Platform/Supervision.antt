-- ===== src/Platform/Supervision.antt =====
-- There is always an active super admin: the services that change or remove an account leave one.
pub mod Calls
use d_transfert_backend.Base.{
  ℕ, String, ◌≤◌, ◌≡◌, refl, subst, sym, ◌∙◌, Bool, true, false, not, ◌&&◌, Option, none, some,
  is_some, List, [], ◌∷◌, ◌++◌, ◌==◌, id_eq, option_eq, any, arith,
}
use d_transfert_backend.Errors.{Error}
use d_transfert_backend.Models.{User, user_keyed}
use d_transfert_backend.Table.{find, provided}
use d_transfert_backend.Database.{Db}
use d_transfert_backend.Service.{modify}
use d_transfert_backend.Service.Keeps.{Keeps, Keeps-modify, Keeps-gets, keeps_rules}
use d_transfert_backend.Service.Triple.{
  Triple, Triple-bind, Triple-Keeps, Triple-after, Triple-given, Triple-post, Triple-gets,
  Triple-or_raise, Triple-raise_if, Triple-when, Keeps-Triple,
}
use d_transfert_backend.Audit.{log_action, log_action_for}
use d_transfert_backend.Accounts.{
  get_employee, add_user, change_user, remove_user, is_active_admin, clashes_with,
}
use d_transfert_backend.Employees.{find_employee, set_employee_status, delete_employee, with_state}
use d_transfert_backend.Administration.{
  get_user, get_platform_admin, check_suspension, set_user_status, delete_platform_admin,
}
use d_transfert_backend.Platform.Frames.{Tables, log_for-Keeps, log-Keeps}
use d_transfert_backend.Platform.People.{IsHarmless, IsUnbound}
use d_transfert_backend.Platform.Requests.{AllowsPlatform}
use d_transfert_backend.Platform.Admins.{
  admins, AreUnbound, HaveOwnIds, has_user, update-HaveOwnIds, update-AreUnbound, admins-update,
  append-AreUnbound, append-HaveOwnIds, admins-append, admins-with_state, admins-delete,
  delete-AreUnbound, delete-HaveOwnIds, find-IsUnbound, found_id,
}

-- Super admins belong to no company, no two users have one id, and a super admin is active.
pub record AreSupervised (us : List User) : Type 0 where
  pub unbound : AreUnbound us
  pub own_ids : HaveOwnIds us
  pub one : 1 ≤ admins us

abbrev pub IsSupervised : Db → Type 0
IsSupervised s = AreSupervised s.users

pub provided-some :
    {A : Type 0} (p : A → Bool) (o : Option A) (a : A)
    → provided p o ≡ some a
    → (o ≡ some a) × (p a ≡ true)
provided-some p none a h = cc
provided-some p (some x) a h = ground arith

pub IsSupervised-tables : Tables IsSupervised
IsSupervised-tables = record {
  fresh = λ s h. h;
  companies = λ x s h. h;
  overrides = λ x s h. h;
  otps = λ x s h. h;
  revoked_tokens = λ x s h. h;
  settings = λ x s h. h;
  subscriptions = λ x s h. h;
  system_logs = λ x s h. h;
  audit_logs = λ x s h. h;
}

no_clash :
    (new : User) (us : List User) → any (clashes_with new) us ≡ false → has_user new.id us ≡ false
no_clash new [] h = refl
no_clash new (u ∷ us) h = ground (arith, no_clash new us)

added :
    (u : User) (us : List User)
    → IsUnbound u
    → any (clashes_with u) us ≡ false
    → AreSupervised us
    → AreSupervised (us ++ u ∷ [])
added u us h free k = record {
  unbound = append-AreUnbound us u k.unbound h;
  own_ids = append-HaveOwnIds us u (no_clash u us free) k.own_ids;
  one = omega (arith, k.one, admins-append us u);
}

pub add_user-IsSupervised : (u : User) → IsUnbound u → Keeps IsSupervised (add_user u)
unfolding add_user modify
add_user-IsSupervised u h = Keeps-Triple _ (
    Triple-gets _ _ λ clash.
      Triple-bind
        (λ d s. (IsSupervised s × (any (clashes_with u) s.users ≡ clash)) × (clash ≡ false)) _ _
        (Triple-raise_if clash Error.integrity_error)
        λ d. record { at = λ s ((k, seen), free). added u s.users h (seen ∙ free) k })

pub change_user-IsSupervised :
    (i : ℕ) (f : User → User) → IsHarmless f → Keeps IsSupervised (change_user i f)
unfolding change_user
change_user-IsSupervised i f h = Keeps-modify _ (λ s k. record {
  unbound = update-AreUnbound i f s.users (λ x n. rw (h.same_rank x, h.same_company x) n) k.unbound;
  own_ids = update-HaveOwnIds i f s.users h.same_id k.own_ids;
  one = rw (admins-update i f s.users h) k.one;
})

-- A user who has been read, and whose loss the super admins can bear.
abbrev pub Found : ℕ → User → Db → Type 0
Found i u s = IsSupervised s × (find i s.users ≡ some u)

module _ (i : ℕ) (u : User) where
  pub set_state-IsSupervised :
      (a : Bool)
      → Triple
          (λ s. Found i u s × ((u.is_super_admin && not a) ≡ true → 2 ≤ admins s.users))
          (change_user i (with_state a))
          (λ d. IsSupervised)
  unfolding change_user modify
  set_state-IsSupervised a = record {
    at = λ s ((k, found), spare). record {
      unbound = update-AreUnbound i (with_state a) s.users (λ x n. n) k.unbound;
      own_ids = update-HaveOwnIds i (with_state a) s.users (λ x. refl) k.own_ids;
      one = ground (arith, admins-with_state i a s.users u k.own_ids found, k.one);
    };
  }

  pub removed-IsSupervised :
      Triple
        (λ s. Found i u s × (is_active_admin u ≡ true → 2 ≤ admins s.users))
        (remove_user i)
        (λ d. IsSupervised)
  unfolding remove_user modify
  removed-IsSupervised = record {
    at = λ s ((k, found), spare). record {
      unbound = delete-AreUnbound i s.users k.unbound;
      own_ids = delete-HaveOwnIds i s.users k.own_ids;
      one = ground (arith, admins-delete i s.users u k.own_ids found, k.one);
    };
  }

abbrev pub Read : User → Db → Type 0
Read u = Found u.id u

pub read : (i : ℕ) (u : User) (s : Db) → IsSupervised s → find i s.users ≡ some u → Read u s
read i u s k found =
    (k, subst (λ j. find j s.users ≡ some u) (sym (found_id i s.users u found)) found)

-- What is logged in between does not touch the users.
pub read_logged :
    (R : List User → Type 0) (c : Option ℕ) (u : ℕ) (a e : String) (i : ℕ)
    → Keeps (λ s. R s.users) (log_action_for c u a e i)
unfolding log_action_for
read_logged R c u a e i = Keeps-modify _ (λ s h. h)

pub read_logged_in :
    (R : List User → Type 0) (c u : ℕ) (a e : String) (i : ℕ)
    → Keeps (λ s. R s.users) (log_action c u a e i)
unfolding log_action
read_logged_in R c = read_logged R (some c)
