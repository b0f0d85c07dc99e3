-- ===== src/Service/Returns.antt =====
-- What a service call returns, one rule for each way to build a call.
use d_transfert_backend.Base.{◌≡◌, subst}
use d_transfert_backend.Errors.{Result, ok, err}
use d_transfert_backend.Database.{Db}
use d_transfert_backend.Service.{Service, pure, query, ◌>>=◌, lift_result}
use d_transfert_backend.Service.Keeps.{Returns, >>=-eq-ok}

lift_result-eq-ok :
    {A : Type 0} (r : Result A) (s : Db) {a : A} {t : Db} → lift_result r s ≡ ok (a, t) → r ≡ ok a
lift_result-eq-ok (ok a) s h = cc
lift_result-eq-ok (err e) s h = cc

module _ {A : Type 0} {Q : A → Type 0} where
  pub Returns-pure : (a : A) → Q a → Returns Q (pure a)
  unfolding pure
  Returns-pure a q = record { at = λ s b t h. let e : a ≡ b = cc in subst Q e q }

  pub Returns-query :
      (f : Db → Result A) → ((s : Db) (a : A) → f s ≡ ok a → Q a) → Returns Q (query f)
  unfolding query
  Returns-query f q = record { at = λ s a t h. q s a (lift_result-eq-ok (f s) s h) }

module _ {A B : Type 0} {Q : B → Type 0} where
  pub Returns-bind_where :
      (R : A → Type 0) (m : Service A) (f : A → Service B)
      → Returns R m
      → ((a : A) → R a → Returns Q (f a))
      → Returns Q (m >>= f)
  Returns-bind_where R m f rm rf = record {
    at = λ s b t h. let (a, u, e, k) = >>=-eq-ok m f s h in (rf a (rm.at s a u e)).at u b t k;
  }

  pub Returns-bind :
      (m : Service A) (f : A → Service B) → ((a : A) → Returns Q (f a)) → Returns Q (m >>= f)
  Returns-bind m f rf = record {
    at = λ s b t h. let (a, u, e, k) = >>=-eq-ok m f s h in (rf a).at u b t k;
  }
