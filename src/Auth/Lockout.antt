-- ===== src/Auth/Lockout.antt =====
-- auth_service.login with `_is_locked`: what a login has passed, and the lock after five failures.
use d_transfert_backend.Base.{
  ℕ, ◌+◌, ◌≤◌, ◌<◌, ◌≡◌, refl, sym, ap, subst, ◌∙◌, String, Text, Bool, true, false, not, Option,
  some, List, [], ◌∷◌, ◌==◌, inl, inr, list_eq, id_eq, keep, Bool-cases, if◌then◌else◌, arith,
}
use d_transfert_backend.Errors.{Error, Result, ok, err}
use d_transfert_backend.Models.{User, SystemLogLevel, user_keyed}
use d_transfert_backend.Table.{update_row, one_of}
use d_transfert_backend.Database.{Db}
use d_transfert_backend.Host.{Host}
use d_transfert_backend.Service.{Service, Done, modify, settle}
use d_transfert_backend.Service.Keeps.{>>=-eq-ok}
use d_transfert_backend.Service.Inversion.{
  pure-eq-ok, query_passed, some-eq-ok, or_raise_passed, gets_passed, raise_if_passed,
  raise_if-eq-ok, when_still, branch,
}
use d_transfert_backend.Accounts.{get_by_matricule, change_user}
use d_transfert_backend.Auth.{
  find_login_user, is_locked, ensure_company_active, Tokens, failed, refuse_login, accept_login,
  refuse_locked, login, lockout_duration, log_system, tokens_for,
}

-- What a login does once the user is found and the company may work.
abbrev pub answer_login : Host → String → User → ℕ → Service (Result Tokens)
answer_login host password user now =
    if is_locked user now
    then refuse_locked user
    else if host.verify_password password user.password_hash
    then accept_login host user now
    else refuse_login user now

pub find_login_user_ok :
    (host : Host) (matricule : Text) (s : Db) {user : User} {t : Db}
    → find_login_user host matricule s ≡ ok (user, t)
    → (get_by_matricule host matricule s ≡ ok (some user)) × (s ≡ t)
unfolding find_login_user
find_login_user_ok host matricule s h =
    let (found, e, h) = query_passed _ _ s h in
    let (named, still) = some-eq-ok found _ s h in (e ∙ ap ok named, still)

pub ensure_company_active_ok :
    (user : User) (s : Db) {u : Done} {t : Db} → ensure_company_active user s ≡ ok (u, t) → s ≡ t
unfolding ensure_company_active
ensure_company_active_ok user s = when_still (not user.is_super_admin) _ s λ h.
    let (i, named, h) = or_raise_passed user.company_id _ _ s h in
    let (opened, h) = raise_if_passed _ _ _ s (gets_passed _ _ s h) in (raise_if-eq-ok _ _ s h).1

-- A login that answered has found the user, and has answered from the database as it was.
pub login_answered :
    (host : Host) (matricule : Text) (password : String) (s : Db) {r : Result Tokens} {t : Db}
    → login host matricule password s ≡ ok (r, t)
    → (user : User) × (get_by_matricule host matricule s ≡ ok (some user))
      × (answer_login host password user s.now s ≡ ok (r, t))
unfolding login
login_answered host matricule password s {r} {t} h =
    let (user, s1, e1, h1) = >>=-eq-ok (find_login_user host matricule) _ s h in
    let (found, p1) = find_login_user_ok host matricule s e1 in
    let (working, h2) = raise_if_passed _ _ _ s1 (gets_passed _ _ s1 h1) in
    let (u, s2, e2, h3) = >>=-eq-ok (ensure_company_active user) _ s1 h2 in
    let back = p1 ∙ ensure_company_active_ok user s1 e2 in
    (
      user,
      found,
      subst (λ (x : Db). answer_login host password user x.now x ≡ ok (r, t)) (sym back)
          (gets_passed _ _ s2 h3),
    )

-- A lookup by matricule after an update of the account that keeps the matricule.
keep-update_row :
    (p : User → Bool) (i : ℕ) (f : User → User) (us : List User)
    → ((u : User) → p (f u) ≡ p u)
    → keep p (update_row i f us) ≡ update_row i f (keep p us)
keep-update_row p i f [] h = refl
keep-update_row p i f (u ∷ us) h = ground (arith, h u, keep-update_row p i f us h)

one_of-eq-some : (us : List User) (u : User) → one_of us ≡ ok (some u) → us ≡ u ∷ []
one_of-eq-some [] u h = cc
one_of-eq-some (x ∷ []) u h = cc
one_of-eq-some (x ∷ y ∷ us) u h = cc

pub get_by_matricule_updated :
    (host : Host) (matricule : Text) (f : User → User) (s t : Db) (user : User)
    → ((u : User) → (f u).matricule ≡ u.matricule)
    → get_by_matricule host matricule s ≡ ok (some user)
    → update_row user.id f s.users ≡ t.users
    → get_by_matricule host matricule t ≡ ok (some (f user))
get_by_matricule_updated host matricule f s t user same found updated =
    rw
      (
        ← updated,
        keep-update_row (λ u. host.lower u.matricule == host.lower matricule) user.id f s.users
            (λ u. rw (same u) refl),
        one_of-eq-some _ user found,
      )
      (ground arith)

unfoldable pub users_after : Result (Done × Db) → Db → List User
users_after r s = (settle r s).users

pub change_user_ok :
    (i : ℕ) (f : User → User) (s : Db) {u : Done} {t : Db}
    → change_user i f s ≡ ok (u, t)
    → update_row i f s.users ≡ t.users
unfolding change_user modify users_after
change_user_ok i f s h = ap (λ r. users_after r s) h

log_system_ok :
    (level : SystemLogLevel) (source : String) (c i : Option ℕ) (s : Db) {u : Done} {t : Db}
    → log_system level source c i s ≡ ok (u, t)
    → s.users ≡ t.users
unfolding log_system modify users_after
log_system_ok level source c i s h = ap (λ r. users_after r s) h

-- A wrong password leaves an answer without tokens, and the account with one failure more.
refuse_login_ok :
    (user : User) (now : ℕ) (s : Db) {r : Result Tokens} {t : Db}
    → refuse_login user now s ≡ ok (r, t)
    → update_row user.id (failed now) s.users ≡ t.users
unfolding refuse_login
refuse_login_ok user now s h =
    let (u, s1, e1, h) = >>=-eq-ok _ _ s h in
    let (v, s2, e2, h) = >>=-eq-ok _ _ s1 h in
    let (same, still) = pure-eq-ok _ s2 h in
    change_user_ok _ _ s e1 ∙ (log_system_ok _ _ _ _ s1 e2 ∙ ap (λ (x : Db). x.users) still)

refuse_locked_ok :
    (user : User) (s : Db) {r : Result Tokens} {t : Db}
    → refuse_locked user s ≡ ok (r, t)
    → (r ≡ err Error.unauthorized) × (s.users ≡ t.users)
unfolding refuse_locked
refuse_locked_ok user s h =
    let (u, s1, e1, h) = >>=-eq-ok _ _ s h in
    let (same, still) = pure-eq-ok _ s1 h in
    (sym same, log_system_ok _ _ _ _ s e1 ∙ ap (λ (x : Db). x.users) still)

accept_login_ok :
    (host : Host) (user : User) (now : ℕ) (s : Db) {r : Result Tokens} {t : Db}
    → accept_login host user now s ≡ ok (r, t)
    → r ≡ ok (tokens_for host user now)
unfolding accept_login
accept_login_ok host user now s h =
    let (active, h) = raise_if_passed _ _ _ s h in
    let (u, s1, e1, h) = >>=-eq-ok _ _ s h in
    let (v, s2, e2, h) = >>=-eq-ok _ _ s1 h in sym (pure-eq-ok _ s2 h).0

-- The account is not locked, and the login is refused: the failure is recorded.
failure_recorded :
    (host : Host) (password : String) (user : User) (s : Db) {e : Error} {t : Db}
    → is_locked user s.now ≡ false
    → answer_login host password user s.now s ≡ ok (err e, t)
    → update_row user.id (failed s.now) s.users ≡ t.users
failure_recorded host password user s {e} {t} open_ h =
    let checked = branch _ false _ _ s open_ h in
    elim (Bool-cases (host.verify_password password user.password_hash)) [
      | inl right ↦
          absurd_answer (accept_login_ok host user s.now s (branch _ true _ _ s right checked))
      | inr wrong ↦ refuse_login_ok user s.now s (branch _ false _ _ s wrong checked)
    ]
  where
    absurd_answer : {A B : Type 0} {e : Error} {a : A} → err e ≡ ok a → B
    absurd_answer h = cc

-- While the account is locked, no password is looked at.
locked_refused :
    (host : Host) (password : String) (user : User) (s : Db) {r : Result Tokens} {t : Db}
    → is_locked user s.now ≡ true
    → answer_login host password user s.now s ≡ ok (r, t)
    → (r ≡ err Error.unauthorized) × (s.users ≡ t.users)
locked_refused host password user s held h = refuse_locked_ok user s (branch _ true _ _ s held h)

-- The row of the account that logged in, if the table has one account of that matricule.
same_user :
    (host : Host) (matricule : Text) (s : Db) (u v : User)
    → get_by_matricule host matricule s ≡ ok (some u)
    → get_by_matricule host matricule s ≡ ok (some v)
    → u ≡ v
same_user host matricule s u v h k = cc

failed-matricule : (now : ℕ) (user : User) → (failed now user).matricule ≡ user.matricule
failed-matricule now user = ground arith

failed_locks :
    (user : User) (now later : ℕ)
    → 4 ≤ user.failed_login_attempts
    → later < now + lockout_duration
    → is_locked (failed now user) later ≡ true
failed_locks user now later many soon = ground arith

-- If an account that is not locked has had four failures or more since its last success, and one more
-- login with it ends in a wrong password, then within the fifteen minutes after that, if nothing but the
-- clock has changed since (no reset of the password, say), no login with it succeeds, whatever the
-- password: one that does not raise answers 401 and leaves the users as they are.
pub fifth_failure_locks :
    (host : Host) (matricule : Text) (password : String) (s : Db) (user : User) {e : Error} {t : Db}
    → get_by_matricule host matricule s ≡ ok (some user)
    → is_locked user s.now ≡ false
    → 4 ≤ user.failed_login_attempts
    → login host matricule password s ≡ ok (err e, t)
    → (later : ℕ) → later < s.now + lockout_duration
    → (again : String) {r : Result Tokens} {t' : Db}
    → login host matricule again (record t { now = later }) ≡ ok (r, t')
    → (r ≡ err Error.unauthorized) × (t.users ≡ t'.users)
fifth_failure_locks host matricule password s user {e} {t} found open_ many h later soon again {r}
      {t'} h' =
    let (u, found1, a1) = login_answered host matricule password s h in
    let (v, found2, a2) = login_answered host matricule again (record t { now = later }) h' in
    let first = same_user host matricule s u user found1 found in
    let updated =
      failure_recorded host password user s open_
        (subst (λ x. answer_login host password x s.now s ≡ ok (err e, t)) first a1) in
    let relocked =
      get_by_matricule_updated host matricule (failed s.now) s (record t { now = later }) user
        (λ x. failed-matricule s.now x) found updated in
    let second =
      same_user host matricule (record t { now = later }) v (failed s.now user) found2 relocked in
    locked_refused host again v (record t { now = later })
      (rw second (failed_locks user s.now later many soon)) a2
