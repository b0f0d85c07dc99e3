-- ===== src/Tests/Accounts.antt =====
-- Instances of the properties of accounts, sessions, companies and permissions.
use d_transfert_backend.Access.Opening.{authorize_iff}
use d_transfert_backend.Access.Guards.{IsIdentified, MayCall, described}
use d_transfert_backend.Access.{CurrentUser, get_current_user, authorize}
use d_transfert_backend.Auth.Renewal.{reset_password_ends_sessions}
use d_transfert_backend.Base.{
  ◌≤◌, ◌≡◌, refl, Bool, true, false, none, some, [], ◌∷◌, arith, ◌==◌, string_eq, id_eq, length,
  all, ◌≢◌, ◌↔◌,
}
use d_transfert_backend.Errors.{Error, Result, ok, err}
use d_transfert_backend.Models.{
  User, CompanyStatus, OverrideEffect, PasswordResetOtp, user_keyed, company_keyed, wallet_keyed,
  client_keyed,
}
use d_transfert_backend.TextOps.{codes}
use d_transfert_backend.Database.{Db}
use d_transfert_backend.Host.{Host, Claims}
use d_transfert_backend.Service.{committed, ◌>>=◌, raise_if, modify, when}
use d_transfert_backend.Accounts.{
  PermissionCode, contains, get_effective_permission_codes, change_user,
}
use d_transfert_backend.Accounts.Effective.{effective_permission_verdict}
use d_transfert_backend.Companies.Slugs.{slugify_company_name}
use d_transfert_backend.Companies.Slugs.Shape.{
  slugify_company_name_shape, is_slug_code, starts_with_dash, ends_with_dash,
}
use d_transfert_backend.Administration.Deletion.{delete_company}
use d_transfert_backend.Administration.Deletion.Cash.{delete_company-IsConsistent, IsConsistent}
use d_transfert_backend.Auth.{
  login, Tokens, log_system, find_login_user, ensure_company_active, refuse_login, refuse_locked,
  accept_login, refresh_tokens,
}
use d_transfert_backend.Auth.Passwords.{reset_password, accept_code, change_otp}
use d_transfert_backend.Auth.Lockout.{fifth_failure_locks}
use d_transfert_backend.Platform.{PlatformRequest, handle_platform}
use d_transfert_backend.Platform.Supervision.{IsSupervised}
use d_transfert_backend.System.{Step, Steps}
use d_transfert_backend.System.Supervisors.{history-IsSupervised}
use d_transfert_backend.Tests.Fixtures.{empty_db, client_db, client_db-IsBooked}

-- A session of the admin, in whole seconds.
abbrev claims : Claims
claims = record { sub = some 1; type = "access"; iat = 1; exp = 901; jti = "j0" }

-- One token, which stands for these claims; a password is its own hash.
abbrev host : Host
host = record {
  hash_password = λ p. p;
  verify_password = λ p hash. p == hash;
  encode = λ c. "token";
  decode = λ t now. some claims;
  lower = λ t. t;
  ascii = λ t. t;
  drawn = λ n. codes "ABCDEFGH";
  new_jti = λ n. "j0";
  otp_code = "123456";
  access_token_seconds = 900;
  refresh_token_seconds = 604800;
}

abbrev admin : User
admin = record {
  id = 1;
  company_id = none;
  role_id = none;
  matricule = codes "ADM";
  full_name = "Admin";
  phone = "70";
  password_hash = "secret";
  is_owner = false;
  is_super_admin = true;
  is_active = true;
  failed_login_attempts = 4;
  locked_until = none;
  last_login_at = none;
  password_changed_at = none;
}

abbrev otp : PasswordResetOtp
otp = record {
  id = 5;
  user_id = 1;
  code_hash = "123456";
  expires_at = 9000000;
  used_at = none;
  attempts = 0;
}

abbrev admin_db : Db
admin_db = record empty_db { next_id = 9; now = 2500000; users = admin ∷ []; otps = otp ∷ [] }

-- Before the failures, a second after the session began.
abbrev fresh_db : Db
fresh_db = record admin_db { now = 1000000 }

abbrev admin_sender : CurrentUser
admin_sender = described admin fresh_db

admin_db-IsSupervised : IsSupervised admin_db
admin_db-IsSupervised = record { unbound = (refl, tt); own_ids = (refl, tt); one = omega arith }

abbrev suspend_admin : PlatformRequest
suspend_admin = PlatformRequest.user_status_request 1 1 false

history-IsSupervised_example :
    IsSupervised (handle_platform host "http:PATCH /admin/users/1/status" suspend_admin admin_db)
history-IsSupervised_example =
    history-IsSupervised {s = admin_db} admin_db-IsSupervised
      (Steps.then Steps.start (Step.platform host "http:PATCH /admin/users/1/status" suspend_admin))

-- The fifth wrong password, and the right one a minute later.
abbrev failed_db : Db
failed_db = committed (login host (codes "ADM") "wrong") admin_db

abbrev locked_db : Db
locked_db = committed (login host (codes "ADM") "secret") (record failed_db { now = 62500000 })

abbrev refused : Result Tokens
refused = err Error.unauthorized

fifth_failure_locks_example :
    (refused ≡ err Error.unauthorized) × (failed_db.users ≡ locked_db.users)
unfolding login find_login_user ensure_company_active refuse_login refuse_locked accept_login
    change_user log_system modify when raise_if ◌>>=◌
fifth_failure_locks_example =
    fifth_failure_locks host (codes "ADM") "wrong" admin_db admin {t = failed_db} refl refl
      (omega arith) refl 62500000 (omega arith) "secret" {r = refused} {t' = locked_db} refl

-- A reset with the code that was sent, then the session of the admin.
abbrev reset_db : Db
reset_db = committed (reset_password host (codes "ADM") "123456" "new") admin_db

reset_password_ends_sessions_example :
    ((on_admin_path : Bool) (x : CurrentUser × Db)
      → get_current_user host (some "token") on_admin_path (record reset_db { now = 3000000 })
        ≢ ok x)
    × ((x : Tokens × Db) → refresh_tokens host "token" (record reset_db { now = 3000000 }) ≢ ok x)
unfolding reset_password find_login_user accept_code change_otp change_user modify raise_if ◌>>=◌
reset_password_ends_sessions_example =
    reset_password_ends_sessions host (codes "ADM") "123456" "new" admin_db admin {t = reset_db}
      refl refl 3000000 "token" claims refl refl (omega arith)

-- The token of the admin opens the endpoints that take the right to manage entries.
authorize_example :
    (authorize host (some "token") false (PermissionCode.entry_manage ∷ []) fresh_db
      ≡ ok (admin_sender, fresh_db))
    ↔ ((fresh_db ≡ fresh_db)
        × ((known : IsIdentified host (some "token") false fresh_db admin_sender) × MayCall
              known.user
              (PermissionCode.entry_manage ∷ [])
              fresh_db))
authorize_example =
    authorize_iff host (some "token") false (PermissionCode.entry_manage ∷ []) fresh_db fresh_db
      admin_sender

abbrev employee : User
employee = record admin { id = 2; company_id = some 1; role_id = some 3; is_super_admin = false }

-- The role gives nothing, an override grants the code.
abbrev employee_db : Db
employee_db = record empty_db {
  users = employee ∷ [];
  permissions = record { id = 7; code = "entry.manage" } ∷ [];
  overrides = record { id = 8; user_id = 2; permission_id = 7; effect = OverrideEffect.grant } ∷ [];
}

effective_example :
    contains "entry.manage" (get_effective_permission_codes employee employee_db) ≡ true
effective_example = effective_permission_verdict employee employee_db "entry.manage"

slug_example :
    let slug = slugify_company_name host (codes "GK & Co") in
    (length slug ≤ 20)
    × (all is_slug_code slug ≡ true)
    × (starts_with_dash slug ≡ false)
    × (ends_with_dash slug ≡ false)
slug_example = slugify_company_name_shape host (codes "GK & Co")

-- A company with the client Awa.
abbrev company_db : Db
company_db = record client_db {
  users = admin ∷ [];
  companies =
      record {
        id = 1;
        name = codes "GK";
        registration_code = codes "gk-emp";
        address = none;
        phone = "70";
        default_currency = "XOF";
        status = CompanyStatus.active;
      }
      ∷ [];
}

consistent : IsConsistent company_db
consistent = record {
  unique_wallets = tt;
  unique_clients = (refl, tt);
  held_movements = tt;
  held_client_movements = (refl, tt);
  cash = record { backing = λ i w h. cc; orphans = λ i h. refl; fresh = λ i h. refl };
  journal = client_db-IsBooked;
  admins = admin_db-IsSupervised;
}

delete_company_example : IsConsistent (committed (delete_company 1) company_db)
delete_company_example = delete_company-IsConsistent 1 company_db consistent
