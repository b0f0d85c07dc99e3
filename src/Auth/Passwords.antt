-- ===== src/Auth/Passwords.antt =====
-- auth_service.request_password_reset and reset_password, with password_reset_otp_repository.py.
-- reset_password commits before it raises on a wrong code.
use d_transfert_backend.Base.{
  ℕ, ◌+◌, String, Text, Bool, not, Option, none, some, is_some, List, [], ◌∷◌, ◌++◌, ◌==◌, id_eq,
  string_eq, option_eq, ◌&&◌, ◌||◌, keep, leb, ltb, if◌then◌else◌,
}
use d_transfert_backend.Errors.{Error, Result, ok, err}
use d_transfert_backend.Models.{User, PasswordResetOtp, user_keyed, company_keyed, otp_keyed}
use d_transfert_backend.Table.{update_row}
use d_transfert_backend.Database.{Db}
use d_transfert_backend.Host.{Host}
use d_transfert_backend.Service.{
  Service, Done, pure, gets, query, or_raise, ◌>>=◌, ◌>>◌, modify, raise_if, when_some, fresh_id,
}
use d_transfert_backend.Accounts.{get_by_matricule, change_user}
use d_transfert_backend.Auth.{find_login_user, otp_duration, otp_max_attempts}

unfoldable pub add_otp : Host → ℕ → Service Done
add_otp host user_id = do
  otp_id ← fresh_id
  modify (λ s. record s {
    otps =
        s.otps
        ++ record {
          id = otp_id;
          user_id = user_id;
          code_hash = host.hash_password host.otp_code;
          expires_at = s.now + otp_duration;
          used_at = none;
          attempts = 0;
        }
          ∷ [];
  })

unfoldable pub request_password_reset : Host → Text → Service Done
request_password_reset host matricule = do
  found ← query (get_by_matricule host matricule)
  when_some found (λ u. add_otp host u.id)

-- The newest row is the last one of the table.
abbrev pub last_of : List PasswordResetOtp → Option PasswordResetOtp
last_of [] = none
last_of (x ∷ []) = some x
last_of (x ∷ y ∷ xs) = last_of (y ∷ xs)

abbrev pub get_latest_unused : ℕ → Db → Option PasswordResetOtp
get_latest_unused user_id s =
    last_of (keep (λ o. o.user_id == user_id && not (is_some o.used_at)) s.otps)

abbrev pub is_exhausted : PasswordResetOtp → ℕ → Bool
is_exhausted otp now = leb otp_max_attempts otp.attempts || ltb otp.expires_at now

unfoldable pub change_otp : ℕ → (PasswordResetOtp → PasswordResetOtp) → Service Done
unfolding modify
change_otp otp_id f = modify λ s. record s { otps = update_row otp_id f s.otps }

unfoldable pub refuse_code : PasswordResetOtp → Service (Result Done)
refuse_code otp = do
  change_otp otp.id (λ o. record o { attempts = o.attempts + 1 })
  pure (err Error.unauthorized)

abbrev pub with_new_password : String → ℕ → User → User
with_new_password password_hash now user = record user {
  password_hash = password_hash;
  failed_login_attempts = 0;
  locked_until = none;
  password_changed_at = some now;
}

unfoldable pub accept_code : Host → User → PasswordResetOtp → String → ℕ → Service (Result Done)
accept_code host user otp new_password now = do
  change_otp otp.id (λ o. record o { used_at = some now })
  change_user user.id (with_new_password (host.hash_password new_password) now)
  pure (ok tt)

unfoldable pub reset_password : Host → Text → String → String → Service (Result Done)
reset_password host matricule otp_code new_password = do
  user ← find_login_user host matricule
  latest ← gets (get_latest_unused user.id)
  otp ← or_raise latest Error.unauthorized
  now ← gets (λ s. s.now)
  raise_if (is_exhausted otp now) Error.unauthorized
  if host.verify_password otp_code otp.code_hash
      then accept_code host user otp new_password now
      else refuse_code otp
