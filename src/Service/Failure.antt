-- ===== src/Service/Failure.antt =====
-- Calls that always raise.
use d_transfert_backend.Base.{◌≡◌, refl}
use d_transfert_backend.Errors.{Error, Result, ok, err}
use d_transfert_backend.Database.{Db}
use d_transfert_backend.Service.{Service, raise, ◌>>=◌, continue}
use d_transfert_backend.Service.Keeps.{Keeps}

pub record Fails {A : Type 0} (m : Service A) : Type 0 where
  pub at : (s : Db) → (e : Error) × (m s ≡ err e)

pub Fails-raise : {A : Type 0} (e : Error) → Fails (raise {A = A} e)
unfolding raise
Fails-raise e = record { at = λ s. (e, refl) }

continue-Fails :
    {A B : Type 0} (r : Result (A × Db)) (f : A → Service B)
    → ((a : A) → Fails (f a))
    → (e : Error) × (continue r f ≡ err e)
continue-Fails (ok (a, s)) f kf = (kf a).at s
continue-Fails (err e) f kf = (e, refl)

-- A call whose last part always raises does so whatever the parts before it do.
pub Fails-bind :
    {A B : Type 0} (m : Service A) (f : A → Service B) → ((a : A) → Fails (f a)) → Fails (m >>= f)
unfolding ◌>>=◌
Fails-bind m f kf = record { at = λ s. continue-Fails (m s) f kf }

pub Fails-Keeps : {A : Type 0} {P : Db → Type 0} (m : Service A) → Fails m → Keeps P m
Fails-Keeps {P = P} m fails = record { at = λ s h. let (e, raised) = fails.at s in rw raised tt }
