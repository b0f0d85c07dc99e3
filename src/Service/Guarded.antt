-- ===== src/Service/Guarded.antt =====
-- Service calls whose rest depends on what an earlier part has read: what a part returns, from a
-- database with the invariant, and guards that stop a call.
use d_transfert_backend.Base.{◌≡◌, refl, Bool, true, false, Option, none, some}
use d_transfert_backend.Errors.{Error, Result, ok, err}
use d_transfert_backend.Database.{Db}
use d_transfert_backend.Service.{Service, Done, pure, gets, or_raise, ◌>>=◌, raise_if, continue}
use d_transfert_backend.Service.Keeps.{Keeps, Kept}

abbrev pub Yielded : {A : Type 0} → (Db → Type 0) → (A → Type 0) → Result (A × Db) → Type 0
Yielded P Q (ok (a, s)) = P s × Q a
Yielded P Q (err e) = Unit

-- `m` keeps `P`, and what it returns satisfies `Q`.
pub record Yields {A : Type 0} (P : Db → Type 0) (Q : A → Type 0) (m : Service A) : Type 0 where
  pub at : (s : Db) → P s → Yielded P Q (m s)

module _ {A : Type 0} {P : Db → Type 0} {Q : A → Type 0} where
  pub Yields-pure : (a : A) → Q a → Yields P Q (pure a)
  unfolding pure
  Yields-pure a q = record { at = λ s h. (h, q) }

  pub Yields-gets : (f : Db → A) → ((s : Db) → P s → Q (f s)) → Yields P Q (gets f)
  unfolding gets
  Yields-gets f q = record { at = λ s h. (h, q s h) }

  pub Yields-or_raise :
      (o : Option A) (e : Error) → ((a : A) → o ≡ some a → Q a) → Yields P Q (or_raise o e)
  unfolding or_raise
  Yields-or_raise none e q = record { at = λ s h. tt }
  Yields-or_raise (some a) e q = record { at = λ s h. (h, q a refl) }

module _ {A B : Type 0} {P : Db → Type 0} (R : A → Type 0) where
  Kept-rest :
      (r : Result (A × Db)) (f : A → Service B)
      → Yielded P R r
      → ((a : A) → R a → Keeps P (f a))
      → Kept P (continue r f)
  Kept-rest (ok (a, s)) f (h, q) kf = (kf a q).at s h
  Kept-rest (err e) f h kf = tt

  pub Keeps-bind-Yields :
      (m : Service A) (f : A → Service B)
      → Yields P R m
      → ((a : A) → R a → Keeps P (f a))
      → Keeps P (m >>= f)
  unfolding ◌>>=◌
  Keeps-bind-Yields m f ym kf = record { at = λ s h. Kept-rest (m s) f (ym.at s h) kf }

  Yielded-rest :
      {Q : B → Type 0} (r : Result (A × Db)) (f : A → Service B)
      → Yielded P R r
      → ((a : A) → R a → Yields P Q (f a))
      → Yielded P Q (continue r f)
  Yielded-rest (ok (a, s)) f (h, q) kf = (kf a q).at s h
  Yielded-rest (err e) f h kf = tt

  pub Yields-bind :
      {Q : B → Type 0} (m : Service A) (f : A → Service B)
      → Yields P R m
      → ((a : A) → R a → Yields P Q (f a))
      → Yields P Q (m >>= f)
  unfolding ◌>>=◌
  Yields-bind m f ym kf = record { at = λ s h. Yielded-rest (m s) f (ym.at s h) kf }

module _ {A B : Type 0} {P : Db → Type 0} {Q : B → Type 0} where
  Yielded-after :
      (r : Result (A × Db)) (f : A → Service B)
      → Kept P r
      → ((a : A) → Yields P Q (f a))
      → Yielded P Q (continue r f)
  Yielded-after (ok (a, s)) f h kf = (kf a).at s h
  Yielded-after (err e) f h kf = tt

  pub Yields-after :
      (m : Service A) (f : A → Service B)
      → Keeps P m
      → ((a : A) → Yields P Q (f a))
      → Yields P Q (m >>= f)
  unfolding ◌>>=◌
  Yields-after m f km kf = record { at = λ s h. Yielded-after (m s) f (km.at s h) kf }

module _ {A : Type 0} {P : Db → Type 0} where
  -- A guard that fails stops the call, whatever comes after it.
  pub Keeps-stopped :
      (c : Bool) (e : Error) (rest : Done → Service A) → c ≡ true → Keeps P (raise_if c e >>= rest)
  unfolding ◌>>=◌ raise_if
  Keeps-stopped true e rest h = record { at = λ s k. tt }
  Keeps-stopped false e rest h = cc
