-- ===== src/Service/Keeps.antt =====
-- Invariants of service calls, one rule for each way to build a call, and the inversion of a
-- successful call.
use d_transfert_backend.Base.{
  ◌+◌, ◌≡◌, refl, Bool, true, false, Option, none, some, List, [], ◌∷◌, if◌then◌else◌,
}
use d_transfert_backend.Errors.{Error, Result, ok, err}
use d_transfert_backend.Database.{Db}
use d_transfert_backend.Service.{
  Service, Done, pure, raise, gets, query, or_raise, ◌>>=◌, modify, raise_if, when, when_some,
  fresh_id, for_each, continue, lift_result, settle, committed,
}

-- The database of a call that returned has `P`; of one that raised nothing is asked.
abbrev pub Kept : {A : Type 0} → (Db → Type 0) → Result (A × Db) → Type 0
Kept P (ok (a, s)) = P s
Kept P (err e) = Unit

-- `m` keeps `P`.
pub record Keeps {A : Type 0} (P : Db → Type 0) (m : Service A) : Type 0 where
  pub at : (s : Db) → P s → Kept P (m s)

Kept-lift : {A : Type 0} (P : Db → Type 0) (r : Result A) (s : Db) → P s → Kept P (lift_result r s)
Kept-lift P (ok a) s h = h
Kept-lift P (err e) s h = tt

kept_settle :
    {A : Type 0} (P : Db → Type 0) (r : Result (A × Db)) (s : Db) → Kept P r → P s → P (settle r s)
kept_settle P (ok (a, s')) s k h = k
kept_settle P (err e) s k h = h

continue-eq-ok :
    {A B : Type 0} (r : Result (A × Db)) (f : A → Service B) {b : B} {s' : Db}
    → continue r f ≡ ok (b, s')
    → (a : A) × (t : Db) × (r ≡ ok (a, t)) × (f a t ≡ ok (b, s'))
continue-eq-ok (ok (a, t)) f h = (a, t, refl, h)
continue-eq-ok (err e) f h = cc

module _ {A : Type 0} {P : Db → Type 0} where
  pub Keeps-pure : (a : A) → Keeps P (pure a)
  unfolding pure
  Keeps-pure a = record { at = λ s h. h }

  pub Keeps-raise : (e : Error) → Keeps P (raise {A = A} e)
  unfolding raise
  Keeps-raise e = record { at = λ s h. tt }

  pub Keeps-gets : (f : Db → A) → Keeps P (gets f)
  unfolding gets
  Keeps-gets f = record { at = λ s h. h }

  pub Keeps-query : (f : Db → Result A) → Keeps P (query f)
  unfolding query
  Keeps-query f = record { at = λ s h. Kept-lift P (f s) s h }

  pub Keeps-or_raise : (o : Option A) (e : Error) → Keeps P (or_raise o e)
  unfolding or_raise
  Keeps-or_raise none e = record { at = λ s h. tt }
  Keeps-or_raise (some a) e = record { at = λ s h. h }

  pub Keeps-if : (b : Bool) (m n : Service A) → Keeps P m → Keeps P n → Keeps P (if b then m else n)
  Keeps-if true m n km kn = km
  Keeps-if false m n km kn = kn

module _ {A B : Type 0} {P : Db → Type 0} where
  Kept-continue :
      (r : Result (A × Db)) (f : A → Service B)
      → Kept P r
      → ((a : A) → Keeps P (f a))
      → Kept P (continue r f)
  Kept-continue (ok (a, s)) f h kf = (kf a).at s h
  Kept-continue (err e) f h kf = tt

  pub Keeps-bind :
      (m : Service A) (f : A → Service B)
      → Keeps P m
      → ((a : A) → Keeps P (f a))
      → Keeps P (m >>= f)
  unfolding ◌>>=◌
  Keeps-bind m f km kf = record { at = λ s h. Kept-continue (m s) f (km.at s h) kf }

module _ {P : Db → Type 0} where
  pub Keeps-modify : (f : Db → Db) → ((s : Db) → P s → P (f s)) → Keeps P (modify f)
  unfolding modify
  Keeps-modify f k = record { at = k }

  pub Keeps-raise_if : (c : Bool) (e : Error) → Keeps P (raise_if c e)
  unfolding raise_if
  Keeps-raise_if true e = record { at = λ s h. tt }
  Keeps-raise_if false e = record { at = λ s h. h }

  pub Keeps-when : (c : Bool) (m : Service Done) → Keeps P m → Keeps P (when c m)
  unfolding when
  Keeps-when true m km = record { at = km.at }
  Keeps-when false m km = record { at = λ s h. h }

  pub Keeps-when_some :
      {A : Type 0} (o : Option A) (f : A → Service Done)
      → ((a : A) → Keeps P (f a))
      → Keeps P (when_some o f)
  unfolding when_some
  Keeps-when_some none f kf = record { at = λ s h. h }
  Keeps-when_some (some a) f kf = record { at = (kf a).at }

  pub Keeps-fresh_id :
      ((s : Db) → P s → P (record s { next_id = s.next_id + 1 })) → Keeps P fresh_id
  unfolding fresh_id
  Keeps-fresh_id k = record { at = k }

  pub Keeps-for_each :
      {A B : Type 0} (f : A → Service B) (xs : List A)
      → ((a : A) → Keeps P (f a))
      → Keeps P (for_each f xs)
  unfolding for_each
  Keeps-for_each f [] kf = Keeps-pure []
  Keeps-for_each f (x ∷ xs) kf =
      Keeps-bind (f x) _ (kf x)
        λ y. Keeps-bind (for_each f xs) _ (Keeps-for_each f xs kf) λ ys. Keeps-pure (y ∷ ys)

  pub Keeps-committed :
      {A : Type 0} (m : Service A) → Keeps P m → (s : Db) → P s → P (committed m s)
  Keeps-committed m km s h = kept_settle P (m s) s (km.at s h) h

pub ruleset keeps_rules = (
  Keeps-pure, Keeps-raise, Keeps-gets, Keeps-query, Keeps-or_raise, Keeps-if, Keeps-bind,
  Keeps-raise_if, Keeps-when, Keeps-when_some, Keeps-for_each,
)

-- A bind that returned did so through its first part.
pub >>=-eq-ok :
    {A B : Type 0} (m : Service A) (f : A → Service B) (s : Db) {b : B} {s' : Db}
    → (m >>= f) s ≡ ok (b, s')
    → (a : A) × (t : Db) × (m s ≡ ok (a, t)) × (f a t ≡ ok (b, s'))
unfolding ◌>>=◌
>>=-eq-ok m f s h = continue-eq-ok (m s) f h

-- What a call returns satisfies `Q`.
pub record Returns {A : Type 0} (Q : A → Type 0) (m : Service A) : Type 0 where
  pub at : (s : Db) (a : A) (t : Db) → m s ≡ ok (a, t) → Q a

module _ {A B : Type 0} {P : Db → Type 0} where
  Kept-continue_where :
      (Q : A → Type 0) (r : Result (A × Db)) (f : A → Service B)
      → ((a : A) (t : Db) → r ≡ ok (a, t) → Q a)
      → Kept P r
      → ((a : A) → Q a → Keeps P (f a))
      → Kept P (continue r f)
  Kept-continue_where Q (ok (a, s)) f q h kf = (kf a (q a s refl)).at s h
  Kept-continue_where Q (err e) f q h kf = tt

  -- The rest of a call may use what the first part returns.
  pub Keeps-bind_where :
      (Q : A → Type 0) (m : Service A) (f : A → Service B)
      → Returns Q m
      → Keeps P m
      → ((a : A) → Q a → Keeps P (f a))
      → Keeps P (m >>= f)
  unfolding ◌>>=◌
  Keeps-bind_where Q m f q km kf = record {
    at = λ s h. Kept-continue_where Q (m s) f (q.at s) (km.at s h) kf;
  }
