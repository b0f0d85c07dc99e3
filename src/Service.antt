-- ===== src/Service.antt =====
-- A service call: it reads and writes the database and may raise. Each function of the app commits
-- once, as its last statement, and `get_db` closes the session of a request without a commit, so
-- an error drops all that the call has written: a call that raises has no new database.
pub mod Keeps
pub mod Returns
pub mod Guarded
pub mod Failure
pub mod Triple
pub mod Inversion
use d_transfert_backend.Base.{
  ℕ, ◌+◌, ◌≡◌, refl, Bool, true, false, Option, none, some, List, [], ◌∷◌, if◌then◌else◌,
}
use d_transfert_backend.Errors.{Error, Result, ok, err}
use d_transfert_backend.Database.{Db}

abbrev pub Service : Type 0 → Type 0
Service A = Db → Result (A × Db)

abbrev pub Done : Type 0
Done = Unit {0}

module _ {A : Type 0} where
  pub pure : A → Service A
  pure a s = ok (a, s)

  pub raise : Error → Service A
  raise e s = err e

  pub gets : (Db → A) → Service A
  gets f s = ok (f s, s)

  abbrev pub lift_result : Result A → Db → Result (A × Db)
  lift_result (ok a) s = ok (a, s)
  lift_result (err e) s = err e

  -- A query that may raise.
  pub query : (Db → Result A) → Service A
  query f s = lift_result (f s) s

  -- `if x is None: raise e`
  pub or_raise : Option A → Error → Service A
  or_raise none e s = err e
  or_raise (some a) e s = ok (a, s)

module _ {A B : Type 0} where
  abbrev pub continue : Result (A × Db) → (A → Service B) → Result (B × Db)
  continue (ok (a, s)) f = f a s
  continue (err e) f = err e

  infixl 10 ◌>>=◌ ◌>>◌
  unfoldable pub ◌>>=◌ : Service A → (A → Service B) → Service B
  unfolding pure raise gets query or_raise
  ◌>>=◌ m f s = continue (m s) f

  abbrev pub ◌>>◌ : Service A → Service B → Service B
  m >> n = m >>= λ _. n

-- Writes of attributes and new rows.
unfoldable pub modify : (Db → Db) → Service Done
modify f s = ok (tt, f s)

-- `if c: raise e`
unfoldable pub raise_if : Bool → Error → Service Done
raise_if c e s = if c then err e else ok (tt, s)

unfoldable pub when : Bool → Service Done → Service Done
when c m s = if c then m s else ok (tt, s)

-- `if x is not None: ...`
unfoldable pub when_some : {A : Type 0} → Option A → (A → Service Done) → Service Done
when_some none f s = ok (tt, s)
when_some (some a) f s = f a s

unfoldable pub fresh_id : Service ℕ
fresh_id s = ok (s.next_id, record s { next_id = s.next_id + 1 })

-- `for x in xs: ...`, with the list of what the rounds append.
unfoldable pub for_each : {A B : Type 0} → (A → Service B) → List A → Service (List B)
unfolding ◌>>=◌
for_each f [] = pure []
for_each f (x ∷ xs) = do y ← f x; ys ← for_each f xs; pure (y ∷ ys)

abbrev pub settle : {A : Type 0} → Result (A × Db) → Db → Db
settle (ok (a, s')) s = s'
settle (err e) s = s

-- The database after a call: that of the call if it returns, the old one if it raises.
abbrev pub committed : {A : Type 0} → Service A → Db → Db
committed m s = settle (m s) s
