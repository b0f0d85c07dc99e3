-- ===== src/Service/Triple.antt =====
-- Service calls between two assertions: if the first holds before a call that returns, the second
-- holds of what it returns and of the database after it.
use d_transfert_backend.Base.{◌≡◌, refl, subst, Bool, true, false, Option, none, some}
use d_transfert_backend.Errors.{Error, Result, ok, err}
use d_transfert_backend.Database.{Db}
use d_transfert_backend.Service.{
  Service, ◌>>=◌, Done, continue, gets, or_raise, raise_if, when, pure,
}
use d_transfert_backend.Service.Keeps.{Keeps, Kept}
use d_transfert_backend.Service.Guarded.{Yielded, Yields}

abbrev pub Post : {A : Type 0} → (A → Db → Type 0) → Result (A × Db) → Type 0
Post Q (ok (a, s)) = Q a s
Post Q (err e) = Unit

pub record Triple {A : Type 0} (P : Db → Type 0) (m : Service A) (Q : A → Db → Type 0)
    : Type 0 where
  pub at : (s : Db) → P s → Post Q (m s)

Post-continue :
    {A B : Type 0} {R : A → Db → Type 0} {Q : B → Db → Type 0} (r : Result (A × Db))
    (f : A → Service B)
    → Post R r
    → ((a : A) → Triple (R a) (f a) Q)
    → Post Q (continue r f)
Post-continue (ok (a, s)) f h kf = (kf a).at s h
Post-continue (err e) f h kf = tt

Post-Kept : {A : Type 0} (P : Db → Type 0) (r : Result (A × Db)) → Kept P r → Post (λ a s. P s) r
Post-Kept P (ok (a, s)) h = h
Post-Kept P (err e) h = tt

module _ {A B : Type 0} {P : Db → Type 0} (R : A → Db → Type 0) {Q : B → Db → Type 0} where
  pub Triple-bind :
      (m : Service A) (f : A → Service B)
      → Triple P m R
      → ((a : A) → Triple (R a) (f a) Q)
      → Triple P (m >>= f) Q
  unfolding ◌>>=◌
  Triple-bind m f tm tf = record {
    at = λ s h. Post-continue {R = R} {Q = Q} (m s) f (tm.at s h) tf;
  }

module _ {A : Type 0} {P : Db → Type 0} where
  pub Triple-Keeps : (m : Service A) → Keeps P m → Triple P m (λ a s. P s)
  Triple-Keeps m k = record { at = λ s h. Post-Kept P (m s) (k.at s h) }

module _ {A : Type 0} {P : Db → Type 0} {Q : A → Db → Type 0} where
  pub Triple-ok :
      (m : Service A) → Triple P m Q → (s : Db) {a : A} {s' : Db} → P s → m s ≡ ok (a, s') → Q a s'
  Triple-ok m t s h e = subst (Post Q) e (t.at s h)

  pub Triple-after :
      {B : Type 0} (m : Service B) (f : B → Service A)
      → Keeps P m
      → ((b : B) → Triple P (f b) Q)
      → Triple P (m >>= f) Q
  Triple-after m f k t = Triple-bind (λ b s. P s) m f (Triple-Keeps m k) t

  -- A fact that does not depend on the database.
  pub Triple-given : {C : Type 0} (m : Service A) → (C → Triple P m Q) → Triple (λ s. P s × C) m Q
  Triple-given m t = record { at = λ s (h, c). (t c).at s h }

Post-Yielded :
    {A : Type 0} (P : Db → Type 0) (R : A → Type 0) (P' : Db → Type 0) (r : Result (A × Db))
    → ((s : Db) → P s → P' s)
    → Yielded P R r
    → Post (λ a s. P' s × R a) r
Post-Yielded P R P' (ok (a, s)) w (h, q) = (w s h, q)
Post-Yielded P R P' (err e) w h = tt

pub Triple-Yields :
    {A : Type 0} {P : Db → Type 0} {R : A → Type 0} (P' : Db → Type 0) (m : Service A)
    → ((s : Db) → P s → P' s)
    → Yields P R m
    → Triple P m (λ a s. P' s × R a)
Triple-Yields {P = P} {R = R} P' m w y = record {
  at = λ s h. Post-Yielded P R P' (m s) w (y.at s h);
}

Post-mono :
    {A : Type 0} (Q Q' : A → Db → Type 0) (r : Result (A × Db))
    → ((a : A) (s : Db) → Q a s → Q' a s)
    → Post Q r
    → Post Q' r
Post-mono Q Q' (ok (a, s)) w h = w a s h
Post-mono Q Q' (err e) w h = tt

pub Triple-post :
    {A : Type 0} {P : Db → Type 0} (Q : A → Db → Type 0) {Q' : A → Db → Type 0} (m : Service A)
    → ((a : A) (s : Db) → Q a s → Q' a s)
    → Triple P m Q
    → Triple P m Q'
Triple-post Q {Q'} m w t = record { at = λ s h. Post-mono Q Q' (m s) w (t.at s h) }

Kept-Post : {A : Type 0} (P : Db → Type 0) (r : Result (A × Db)) → Post (λ a s. P s) r → Kept P r
Kept-Post P (ok (a, s)) h = h
Kept-Post P (err e) h = tt

pub Triple-pure :
    {A : Type 0} {P : Db → Type 0} {Q : A → Db → Type 0} (a : A)
    → ((s : Db) → P s → Q a s)
    → Triple P (pure a) Q
unfolding pure
Triple-pure a q = record { at = λ s h. q s h }

pub Keeps-Triple :
    {A : Type 0} {P : Db → Type 0} (m : Service A) → Triple P m (λ a s. P s) → Keeps P m
Keeps-Triple {P = P} m t = record { at = λ s h. Kept-Post P (m s) (t.at s h) }

-- What a query has read, an option that raises where it is empty, and a guard: each leaves the database
-- as it is.
module _ {P : Db → Type 0} where
  pub Triple-gets :
      {A B : Type 0} {Q : B → Db → Type 0} (g : Db → A) (f : A → Service B)
      → ((a : A) → Triple (λ s. P s × (g s ≡ a)) (f a) Q)
      → Triple P (gets g >>= f) Q
  unfolding ◌>>=◌ gets
  Triple-gets g f t = record { at = λ s h. (t (g s)).at s (h, refl) }

  pub Triple-or_raise :
      {A : Type 0} (o : Option A) (e : Error) → Triple P (or_raise o e) (λ a s. P s × (o ≡ some a))
  unfolding or_raise
  Triple-or_raise none e = record { at = λ s h. tt }
  Triple-or_raise (some a) e = record { at = λ s h. (h, refl) }

  pub Triple-raise_if : (c : Bool) (e : Error) → Triple P (raise_if c e) (λ u s. P s × (c ≡ false))
  unfolding raise_if
  Triple-raise_if true e = record { at = λ s h. tt }
  Triple-raise_if false e = record { at = λ s h. (h, refl) }

  pub Triple-when :
      {Q : Done → Db → Type 0} (c : Bool) (m : Service Done)
      → (c ≡ true → Triple P m Q)
      → (c ≡ false → (s : Db) → P s → Q tt s)
      → Triple P (when c m) Q
  unfolding when
  Triple-when true m t k = record { at = (t refl).at }
  Triple-when false m t k = record { at = λ s h. k refl s h }
