-- ===== src/Auth/Renewal.antt =====
-- auth_service.reset_password, and the sessions that were open before it.
use d_transfert_backend.Base.{
  ℕ, ◌*◌, ◌<◌, ◌≡◌, refl, sym, ap, subst, ◌∙◌, String, Text, Bool, true, false, Option, none, some,
  Bool-cases, inl, inr, arith, ◌≢◌,
}
use d_transfert_backend.Errors.{Error, Result, ok, err}
use d_transfert_backend.Models.{User, PasswordResetOtp, user_keyed}
use d_transfert_backend.Table.{find, update_row}
use d_transfert_backend.Table.Laws.{find-update_row_self, map_option}
use d_transfert_backend.Database.{Db}
use d_transfert_backend.Host.{Host, Claims}
use d_transfert_backend.Service.{Done, modify}
use d_transfert_backend.Service.Keeps.{>>=-eq-ok}
use d_transfert_backend.Service.Inversion.{
  pure-eq-ok, or_raise_passed, gets_passed, raise_if_passed, branch,
}
use d_transfert_backend.Accounts.{get_by_matricule}
use d_transfert_backend.Access.{TokenType, decode_token, is_outdated, CurrentUser, get_current_user}
use d_transfert_backend.Access.Guards.{get_current_user_ok, decode_token_ok}
use d_transfert_backend.Auth.{find_login_user, Tokens, refresh_tokens}
use d_transfert_backend.Auth.Passwords.{
  with_new_password, change_otp, refuse_code, accept_code, reset_password,
}
use d_transfert_backend.Auth.Lockout.{users_after, find_login_user_ok, change_user_ok}

change_otp_ok :
    (i : ℕ) (f : PasswordResetOtp → PasswordResetOtp) (s : Db) {u : Done} {t : Db}
    → change_otp i f s ≡ ok (u, t)
    → s.users ≡ t.users
unfolding change_otp modify users_after
change_otp_ok i f s h = ap (λ r. users_after r s) h

accept_code_ok :
    (host : Host) (user : User) (otp : PasswordResetOtp) (new_password : String) (now : ℕ) (s : Db)
    {r : Result Done} {t : Db}
    → accept_code host user otp new_password now s ≡ ok (r, t)
    → update_row user.id (with_new_password (host.hash_password new_password) now) s.users ≡ t.users
unfolding accept_code
accept_code_ok host user otp new_password now s h =
    let (u, s1, e1, h) = >>=-eq-ok _ _ s h in
    let (v, s2, e2, h) = >>=-eq-ok _ _ s1 h in
    ap (update_row user.id (with_new_password (host.hash_password new_password) now))
      (change_otp_ok _ _ s e1)
    ∙ (change_user_ok _ _ s1 e2 ∙ ap (λ (x : Db). x.users) (pure-eq-ok _ s2 h).1)

refuse_code_ok :
    (otp : PasswordResetOtp) (s : Db) {r : Result Done} {t : Db}
    → refuse_code otp s ≡ ok (r, t)
    → r ≡ err Error.unauthorized
unfolding refuse_code
refuse_code_ok otp s h = let (u, s1, e1, h) = >>=-eq-ok _ _ s h in sym (pure-eq-ok _ s1 h).0

-- A reset that was accepted has changed the account of that matricule.
reset_password_ok :
    (host : Host) (matricule : Text) (otp_code new_password : String) (s : Db) (user : User)
    {t : Db}
    → get_by_matricule host matricule s ≡ ok (some user)
    → reset_password host matricule otp_code new_password s ≡ ok (ok tt, t)
    → update_row user.id (with_new_password (host.hash_password new_password) s.now) s.users
      ≡ t.users
unfolding reset_password
reset_password_ok host matricule otp_code new_password s user {t} found h =
    let (u, s1, e1, h) = >>=-eq-ok (find_login_user host matricule) _ s h in
    let (found1, still) = find_login_user_ok host matricule s e1 in
    let (otp, latest, h) = or_raise_passed _ _ _ s1 (gets_passed _ _ s1 h) in
    let (alive, h) = raise_if_passed _ _ _ s1 (gets_passed _ _ s1 h) in
    let same : user ≡ u = cc in
    elim (Bool-cases (host.verify_password otp_code otp.code_hash)) [
      | inl right ↦
          rw (still, same)
            (accept_code_ok host u otp new_password s1.now s1 (branch _ true _ _ s1 right h))
      | inr wrong ↦ absurd_answer (refuse_code_ok otp s1 (branch _ false _ _ s1 wrong h))
    ]
  where
    absurd_answer : {A B : Type 0} {e : Error} {a : A} → ok a ≡ err e → B
    absurd_answer h = cc

changed_at :
    (o : Option User) (user : User) (hash : String) (now : ℕ)
    → map_option (with_new_password hash now) o ≡ some user
    → user.password_changed_at ≡ some now
changed_at none user hash now h = cc
changed_at (some u) user hash now h = cc

-- Claims of a user whose password changed after they were signed are out of date.
outdated :
    (claims : Claims) (i j : ℕ) (user : User) (s t : Db) (hash : String) (now : ℕ)
    → update_row i (with_new_password hash now) s.users ≡ t.users
    → claims.sub ≡ some i
    → claims.iat * 1000000 < now
    → claims.sub ≡ some j
    → find j t.users ≡ some user
    → is_outdated claims user.password_changed_at ≡ true
outdated claims i j user s t hash now updated named old named' found =
    let same : j ≡ i = cc in
    let renewed = changed_at (find i s.users) user hash now (
      sym (find-update_row_self i (with_new_password hash now) s.users (λ x. refl))
      ∙ (ap (find i) updated ∙ subst (λ k. find k t.users ≡ some user) same found)) in
    rw renewed (ground arith)

contradicts : (b : Bool) → b ≡ true → b ≢ false
contradicts b h k = cc

same_claims :
    (host : Host) (token text : String) (later : ℕ) (c d : Claims)
    → some token ≡ some text
    → host.decode token later ≡ some c
    → host.decode text later ≡ some d
    → c ≡ d
same_claims host token text later c d h k l = cc

-- No token that carries a second that began before an accepted reset of the password opens the API to
-- the owner of the account, or gives new tokens, after the reset.
pub reset_password_ends_sessions :
    (host : Host) (matricule : Text) (otp_code new_password : String) (s : Db) (user : User)
    {t : Db}
    → get_by_matricule host matricule s ≡ ok (some user)
    → reset_password host matricule otp_code new_password s ≡ ok (ok tt, t)
    → (later : ℕ) (token : String) (claims : Claims) → host.decode token later ≡ some claims
    → claims.sub ≡ some user.id
    → claims.iat * 1000000 < s.now
    → ((on_admin_path : Bool) (x : CurrentUser × Db)
        → get_current_user host (some token) on_admin_path (record t { now = later }) ≢ ok x)
      × ((x : Tokens × Db) → refresh_tokens host token (record t { now = later }) ≢ ok x)
unfolding refresh_tokens
reset_password_ends_sessions host matricule otp_code new_password s user {t} found done later token
      claims decoded named old =
    let updated = reset_password_ok host matricule otp_code new_password s user found done in
    let late = record t { now = later } in
    (
      λ on_admin_path (sender, t') h.
          let (known, still) = get_current_user_ok host (some token) on_admin_path late h in
          let same : claims ≡ known.claims =
            same_claims host token known.text later claims known.claims known.sent decoded
              known.decoded in
          contradicts _
            (outdated known.claims user.id known.session.id known.user s late _ s.now updated
              (rw (← same) named) (rw (← same) old) known.session.named known.session.found)
            known.session.current,
      λ x h.
          let (c, s1, e1, h) = >>=-eq-ok (decode_token host token TokenType.refresh) _ late h in
          let (decoded', typed, still) = decode_token_ok host token TokenType.refresh late e1 in
          let (i, named', h) = or_raise_passed _ _ _ s1 h in
          let (fresh, h) = raise_if_passed _ _ _ s1 (gets_passed _ _ s1 h) in
          let (u, found', h) = or_raise_passed _ _ _ s1 (gets_passed _ _ s1 h) in
          let (active, h) = raise_if_passed _ _ _ s1 (gets_passed _ _ s1 h) in
          let (current, h) = raise_if_passed _ _ _ s1 h in
          let same : claims ≡ c = cc in
          contradicts _
            (outdated c user.id i u s s1 _ s.now (updated ∙ ap (λ (x : Db). x.users) still)
              (rw (← same) named) (rw (← same) old) named' found')
            current,
    )
