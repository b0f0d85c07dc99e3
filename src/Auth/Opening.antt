-- ===== src/Auth/Opening.antt =====
-- auth_service.login and the request that sends its token: a right password opens a session.
use d_transfert_backend.Base.{
  ℕ, ◌≡◌, refl, sym, String, Text, true, false, Option, none, some, [], ◌∷◌, string_eq, Bool-cases,
  inl, inr, ◌++◌,
}
use d_transfert_backend.Errors.{ok}
use d_transfert_backend.Models.{User, Company, is_suspended, is_awaiting, user_keyed, company_keyed}
use d_transfert_backend.Table.{find, update_row}
use d_transfert_backend.Database.{Db}
use d_transfert_backend.Host.{Host}
use d_transfert_backend.Service.{modify, when}
use d_transfert_backend.Service.Inversion.{
  gets_then, query_then, some_then, false_then, bind_then, pure_then, raise_if-false, some-ok,
  branch,
}
use d_transfert_backend.Accounts.{get_by_matricule, change_user}
use d_transfert_backend.Administration.{get_setting}
use d_transfert_backend.Audit.{log_action_for}
use d_transfert_backend.Access.{in_maintenance}
use d_transfert_backend.Access.Guards.{IsOpen}
use d_transfert_backend.Auth.{
  find_login_user, is_locked, ensure_company_active, tokens_for, logged_in, accept_login, login,
}

-- The company of a user who logs in; only a super admin needs none.
abbrev pub MayWork : User → Option ℕ → Db → Type 0
MayWork user none s = user.is_super_admin ≡ true
MayWork user (some i) s =
    (company : Company) × (find i s.companies ≡ some company)
    × (is_suspended company.status ≡ false)
    × (is_awaiting company.status ≡ false)

pub MayWork-IsOpen : (user : User) (c : Option ℕ) (s : Db) → MayWork user c s → IsOpen c s
MayWork-IsOpen user none s h = tt
MayWork-IsOpen user (some i) s (company, found, going, begun) = (company, found, going)

works :
    (user : User) (c : Option ℕ) (s : Db)
    → user.company_id ≡ c
    → MayWork user c s
    → ensure_company_active user s ≡ ok (tt, s)
unfolding ensure_company_active when
works user none s e admin = rw admin refl
works user (some i) s e (company, found, going, begun) = elim (Bool-cases user.is_super_admin) [
  | inl admin ↦ rw admin refl
  | inr plain ↦ rw plain (
      some_then _ _ _ s e (
        gets_then _ _ s
          (false_then _ _ _ s (rw found going) (raise_if-false _ _ s (rw found begun)))))
]

-- The database after an accepted login.
abbrev pub signed_in : User → Db → Db
signed_in user s = record s {
  users = update_row user.id (logged_in s.now) s.users;
  audit_logs =
      s.audit_logs
      ++ record {
        company_id = user.company_id;
        user_id = some user.id;
        action = "login";
        entity_type = "user";
        entity_id = user.id;
      }
        ∷ [];
}

accept_login_opens :
    (host : Host) (user : User) (s : Db)
    → user.is_active ≡ true
    → accept_login host user s.now s ≡ ok (ok (tokens_for host user s.now), signed_in user s)
unfolding accept_login change_user log_action_for modify
accept_login_opens host user s active =
    false_then _ _ _ s (rw active refl)
      (bind_then _ _ s refl (bind_then _ _ _ refl (pure_then _ _)))

-- What login asks of the account, its company and the password.
pub record MayLogin (host : Host) (matricule : Text) (password : String) (s : Db) (user : User)
    : Type 0 where
  pub named : get_by_matricule host matricule s ≡ ok (some user)
  pub open_ : in_maintenance (get_setting s) ≡ false
  pub company : MayWork user user.company_id s
  pub unlocked : is_locked user s.now ≡ false
  pub right : host.verify_password password user.password_hash ≡ true
  pub active : user.is_active ≡ true

pub login_opens :
    (host : Host) (matricule : Text) (password : String) (s : Db) (user : User)
    → MayLogin host matricule password s user
    → login host matricule password s ≡ ok (ok (tokens_for host user s.now), signed_in user s)
unfolding login find_login_user
login_opens host matricule password s user h =
    bind_then _ _ s (query_then _ _ s h.named (some-ok _ _ s refl)) (
      gets_then _ _ s (
        false_then _ _ _ s (rw h.open_ refl) (
          bind_then _ _ s (works user user.company_id s refl h.company) (
            gets_then _ _ s (
              branch false _ _ _ s (sym h.unlocked)
                (branch true _ _ _ s (sym h.right) (accept_login_opens host user s h.active)))))))
