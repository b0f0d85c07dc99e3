-- ===== src/Host.antt =====
-- What the accounts services take from libraries and from the machine: passlib, PyJWT, `secrets`,
-- `unicodedata`, and the lower case of Unicode text in Python and in PostgreSQL. Nothing is assumed
-- of it, except where a theorem says so.
use d_transfert_backend.Base.{ℕ, String, Text, Option, Bool}

-- The payload of a token that `_create_token` signs, as `jwt.decode` returns it. The times are in
-- seconds; `sub` is missing where it is no UUID.
pub record Claims : Type 0 where
  pub sub : Option ℕ
  pub type : String
  pub iat : ℕ
  pub exp : ℕ
  pub jti : String

pub record Host : Type 0 where
  -- `pwd_context.hash` and `pwd_context.verify`
  pub hash_password : String → String
  pub verify_password : String → String → Bool
  -- `jwt.encode`, and `jwt.decode` at a time: nothing for a bad signature or an expired token.
  pub encode : Claims → String
  pub decode : String → ℕ → Option Claims
  -- `str.lower` and `func.lower`
  pub lower : Text → Text
  -- `unicodedata.normalize("NFKD", ...)`, then `encode("ascii", "ignore")`: code points below 128.
  pub ascii : Text → Text
  -- The eight letters that `secrets.choice` draws at an attempt, the `jti` of a token, a code.
  pub drawn : ℕ → Text
  pub new_jti : ℕ → String
  pub otp_code : String
  -- `access_token_expire_minutes` and `refresh_token_expire_days` of the settings, in seconds.
  pub access_token_seconds : ℕ
  pub refresh_token_seconds : ℕ
