-- ===== src/Service/Inversion.antt =====
-- Calls that only read before they go on: what a call that returned has passed, and what a call
-- does whose guards let it through.
use d_transfert_backend.Base.{
  ◌≡◌, refl, Bool, true, false, Option, none, some, if◌then◌else◌, subst,
}
use d_transfert_backend.Errors.{Error, Result, ok, err}
use d_transfert_backend.Database.{Db}
use d_transfert_backend.Service.{
  Service, Done, pure, gets, query, or_raise, ◌>>=◌, raise_if, when, modify, continue, lift_result,
}

module _ {A B : Type 0} where
  pub gets_then :
      (g : Db → A) (f : A → Service B) (s : Db) {r : Result (B × Db)}
      → f (g s) s ≡ r
      → (gets g >>= f) s ≡ r
  unfolding ◌>>=◌ gets
  gets_then g f s h = h

  pub query_then :
      (g : Db → Result A) (f : A → Service B) (s : Db) {a : A} {r : Result (B × Db)}
      → g s ≡ ok a
      → f a s ≡ r
      → (query g >>= f) s ≡ r
  unfolding ◌>>=◌ query
  query_then g f s e h = rw e h

  pub some_then :
      (o : Option A) (e : Error) (f : A → Service B) (s : Db) {a : A} {r : Result (B × Db)}
      → o ≡ some a
      → f a s ≡ r
      → (or_raise o e >>= f) s ≡ r
  unfolding ◌>>=◌ or_raise
  some_then o e f s k h = rw k h

  pub bind_then :
      (m : Service A) (f : A → Service B) (s : Db) {a : A} {t : Db} {r : Result (B × Db)}
      → m s ≡ ok (a, t)
      → f a t ≡ r
      → (m >>= f) s ≡ r
  unfolding ◌>>=◌
  bind_then m f s e h = rw e h

  pub or_raise_passed :
      (o : Option A) (e : Error) (f : A → Service B) (s : Db) {x : B × Db}
      → (or_raise o e >>= f) s ≡ ok x
      → (a : A) × (o ≡ some a) × (f a s ≡ ok x)
  unfolding ◌>>=◌ or_raise
  or_raise_passed none e f s h = cc
  or_raise_passed (some a) e f s h = (a, refl, h)

  pub gets_passed :
      (g : Db → A) (f : A → Service B) (s : Db) {x : B × Db}
      → (gets g >>= f) s ≡ ok x
      → f (g s) s ≡ ok x
  unfolding ◌>>=◌ gets
  gets_passed g f s h = h

module _ {B : Type 0} where
  pub false_then :
      (c : Bool) (e : Error) (f : Done → Service B) (s : Db) {r : Result (B × Db)}
      → c ≡ false
      → f tt s ≡ r
      → (raise_if c e >>= f) s ≡ r
  unfolding ◌>>=◌ raise_if
  false_then c e f s k h = rw k h

  pub pure_then : (b : B) (s : Db) → pure b s ≡ ok (b, s)
  unfolding pure
  pure_then b s = refl

  pub raise_if_passed :
      (c : Bool) (e : Error) (f : Done → Service B) (s : Db) {x : B × Db}
      → (raise_if c e >>= f) s ≡ ok x
      → (c ≡ false) × (f tt s ≡ ok x)
  unfolding ◌>>=◌ raise_if
  raise_if_passed true e f s h = cc
  raise_if_passed false e f s h = (refl, h)

  pub pure-eq-ok : (b : B) (s : Db) {c : B} {t : Db} → pure b s ≡ ok (c, t) → (b ≡ c) × (s ≡ t)
  unfolding pure
  pure-eq-ok b s h = (cc, cc)

pub raise_if-eq-ok :
    (c : Bool) (e : Error) (s : Db) {u : Done} {t : Db}
    → raise_if c e s ≡ ok (u, t)
    → (c ≡ false) × (s ≡ t)
unfolding raise_if
raise_if-eq-ok true e s h = cc
raise_if-eq-ok false e s h = (refl, cc)

module _ {A B : Type 0} where
  lift_passed :
      (r : Result A) (f : A → Service B) (s : Db) {x : B × Db}
      → continue (lift_result r s) f ≡ ok x
      → (a : A) × (r ≡ ok a) × (f a s ≡ ok x)
  lift_passed (ok a) f s h = (a, refl, h)
  lift_passed (err e) f s h = cc

  pub query_passed :
      (g : Db → Result A) (f : A → Service B) (s : Db) {x : B × Db}
      → (query g >>= f) s ≡ ok x
      → (a : A) × (g s ≡ ok a) × (f a s ≡ ok x)
  unfolding ◌>>=◌ query
  query_passed g f s h = lift_passed (g s) f s h

module _ {A : Type 0} where
  pub some-eq-ok :
      (o : Option A) (e : Error) (s : Db) {a : A} {t : Db}
      → or_raise o e s ≡ ok (a, t)
      → (o ≡ some a) × (s ≡ t)
  unfolding or_raise
  some-eq-ok none e s h = cc
  some-eq-ok (some b) e s h = (cc, cc)

pub modify-eq-ok : (f : Db → Db) (s : Db) {u : Done} {t : Db} → modify f s ≡ ok (u, t) → f s ≡ t
unfolding modify
modify-eq-ok f s h = cc

-- A part that only reads, under an `if`.
pub when_still :
    (c : Bool) (m : Service Done) (s : Db) {u : Done} {t : Db}
    → (m s ≡ ok (u, t) → s ≡ t)
    → when c m s ≡ ok (u, t)
    → s ≡ t
unfolding when
when_still true m s k h = k h
when_still false m s k h = cc

-- A test whose outcome is known.
pub branch :
    {A : Type 0} (b c : Bool) (f g : Service A) (s : Db) {r : Result (A × Db)}
    → b ≡ c
    → (if b then f else g) s ≡ r
    → (if c then f else g) s ≡ r
branch b c f g s {r} same = subst (λ d. (if d then f else g) s ≡ r) same

pub raise_if-false : (c : Bool) (e : Error) (s : Db) → c ≡ false → raise_if c e s ≡ ok (tt, s)
unfolding raise_if
raise_if-false c e s h = rw h refl

pub some-ok :
    {A : Type 0} (o : Option A) (e : Error) (s : Db) {a : A}
    → o ≡ some a
    → or_raise o e s ≡ ok (a, s)
unfolding or_raise
some-ok o e s h = rw h refl
