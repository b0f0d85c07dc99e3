-- ===== src/Auth/Sessions.antt =====
-- auth_service.login, then a request with the token that it returned.
use d_transfert_backend.Base.{ℕ, ◌≤◌, ◌<◌, ◌≡◌, some}
use d_transfert_backend.Models.{User, user_keyed, company_keyed}
use d_transfert_backend.Database.{Db}
use d_transfert_backend.Host.{Host, Claims}
use d_transfert_backend.Access.{TokenType, seconds, claims_of}
use d_transfert_backend.Auth.Opening.{signed_in}

-- What PyJWT documents: a token decodes to the claims that were signed, from their `iat` until their `exp`.
pub record SignsTokens (host : Host) (c : Claims) : Type 0 where
  pub decode_encode :
      (now : ℕ)
      → c.iat ≤ seconds now
      → seconds now < c.exp
      → host.decode (host.encode c) now ≡ some c

module _ (host : Host) (user : User) (s : Db) where
  -- The database at a time after the login.
  abbrev pub at_time : ℕ → Db
  at_time later = record (signed_in user s) { now = later }

  abbrev pub access_claims : Claims
  access_claims = claims_of host user TokenType.access host.access_token_seconds s.now 0
