-- ===== src/PrivateRates/Keeps.antt =====
-- The operations of private_rate_service keep every invariant that allows a fresh id and the writes
-- to the private rates.
use d_transfert_backend.Base.{ℕ, ◌+◌, Bool, String, Option, none, some, List}
use d_transfert_backend.Models.{PrivateSendingRate}
use d_transfert_backend.Database.{Db}
use d_transfert_backend.Service.{Service, fresh_id}
use d_transfert_backend.Service.Keeps.{Keeps, Keeps-modify, keeps_rules, Keeps-pure, Keeps-fresh_id}
use d_transfert_backend.PrivateRates.{
  PrivateRateCreateRequest, collaboration_currency, given_or, resolve_target_currency, change_rate,
  add_rate, set_rate, activate, set_active_status,
}

module _ {P : Db → Type 0} (fresh : (s : Db) → P s → P (record s { next_id = s.next_id + 1 }))
    (private_rates : (x : List PrivateSendingRate) (s : Db)
      → P s
      → P (record s { private_rates = x })) where
  fresh_id-Keeps : Keeps P fresh_id
  fresh_id-Keeps = Keeps-fresh_id fresh

  change_rate-Keeps :
      (i : ℕ) (f : PrivateSendingRate → PrivateSendingRate) → Keeps P (change_rate i f)
  unfolding change_rate
  change_rate-Keeps i f = Keeps-modify _ (λ s h. private_rates _ s h)

  add_rate-Keeps : (r : PrivateSendingRate) → Keeps P (add_rate r)
  unfolding add_rate
  add_rate-Keeps r = Keeps-modify _ (λ s h. private_rates _ s h)

  collaboration_currency-Keeps : (o : Option ℕ) → Keeps P (collaboration_currency o)
  unfolding collaboration_currency
  collaboration_currency-Keeps none = search keeps_rules
  collaboration_currency-Keeps (some i) = search keeps_rules

  given_or-Keeps :
      (o : Option String) (m : Service (Option String)) → Keeps P m → Keeps P (given_or o m)
  given_or-Keeps none m k = k
  given_or-Keeps (some c) m k = Keeps-pure (some c)

  target-Keeps : (payload : PrivateRateCreateRequest) → Keeps P (resolve_target_currency payload)
  unfolding resolve_target_currency
  target-Keeps payload = search (given_or-Keeps, collaboration_currency-Keeps)

  pub set_rate-Keeps :
      (company_id by : ℕ) (payload : PrivateRateCreateRequest)
      → Keeps P (set_rate company_id by payload)
  unfolding set_rate
  set_rate-Keeps company_id by payload =
      search (keeps_rules, fresh_id-Keeps, target-Keeps, change_rate-Keeps, add_rate-Keeps) depth 10

  activate-Keeps : (r : PrivateSendingRate) (now : ℕ) → Keeps P (activate r now)
  unfolding activate
  activate-Keeps r now = search (keeps_rules, change_rate-Keeps) depth 8

  pub set_active_status-Keeps :
      (company_id i : ℕ) (active : Bool) → Keeps P (set_active_status company_id i active)
  unfolding set_active_status
  set_active_status-Keeps company_id i active =
      search (keeps_rules, change_rate-Keeps, activate-Keeps) depth 10
