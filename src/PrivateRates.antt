-- ===== src/PrivateRates.antt =====
-- app/services/private_rate_service.py with private_rate_repository.py: the rates at which a company
-- converts; of each slot (collaboration, currencies, type of operation) one rate is active.
pub mod Keeps
pub mod Slots
use d_transfert_backend.Base.{
  ℕ, String, Bool, true, false, not, Option, none, some, List, [], ◌∷◌, ◌++◌, ◌==◌, id_eq,
  string_eq, option_eq, ◌&&◌, if◌then◌else◌,
}
use d_transfert_backend.Money.{Decimal}
use d_transfert_backend.Errors.{Error, Result}
use d_transfert_backend.Models.{
  PrivateSendingRate, private_rate_keyed, Collaboration, collaboration_keyed,
}
use d_transfert_backend.Table.{find, update_row, provided, scalar_one_or_none}
use d_transfert_backend.Database.{Db}
use d_transfert_backend.Service.{
  Service, Done, pure, gets, query, or_raise, ◌>>=◌, ◌>>◌, modify, when, when_some, fresh_id,
}

-- What identifies a rate of a company: the country is only a label.
pub record Slot : Type 0 where
  pub company_id : ℕ
  pub collaboration_id : Option ℕ
  pub currency : String
  pub target_currency : Option String
  pub operation_type : Option String

-- The WHERE clause of get_active_by_scope.
abbrev pub is_active_in : Slot → PrivateSendingRate → Bool
is_active_in slot r =
    r.company_id == slot.company_id
    && (r.collaboration_id == slot.collaboration_id
        && (r.currency == slot.currency
            && (r.target_currency == slot.target_currency
                && (r.operation_type == slot.operation_type && r.is_active))))

abbrev pub get_active_by_scope : Slot → Db → Result (Option PrivateSendingRate)
get_active_by_scope slot s = scalar_one_or_none (is_active_in slot) s.private_rates

unfoldable pub change_rate : ℕ → (PrivateSendingRate → PrivateSendingRate) → Service Done
unfolding modify
change_rate i f = modify λ s. record s { private_rates = update_row i f s.private_rates }

unfoldable pub add_rate : PrivateSendingRate → Service Done
unfolding modify
add_rate r = modify λ s. record s { private_rates = s.private_rates ++ r ∷ [] }

abbrev pub deactivated : ℕ → PrivateSendingRate → PrivateSendingRate
deactivated now r = record r { is_active = false; deactivated_at = some now }

abbrev pub activated : PrivateSendingRate → PrivateSendingRate
activated r = record r { is_active = true; deactivated_at = none }

-- app/schemas/private_rate.py
pub record PrivateRateCreateRequest : Type 0 where
  pub collaboration_id : Option ℕ
  pub country : Option String
  pub operation_type : Option String
  pub currency : String
  pub target_currency : Option String
  pub rate : Decimal

-- The currency of the collaboration, if the request names one.
unfoldable pub collaboration_currency : Option ℕ → Service (Option String)
collaboration_currency none = pure none
collaboration_currency (some collaboration_id) = do
  found ← gets (λ s. find collaboration_id s.collaborations)
  collaboration ← or_raise found Error.not_found
  pure (some collaboration.currency)

abbrev pub given_or : Option String → Service (Option String) → Service (Option String)
given_or none otherwise = otherwise
given_or (some currency) otherwise = pure (some currency)

-- `_resolve_target_currency`
unfoldable pub resolve_target_currency : PrivateRateCreateRequest → Service (Option String)
resolve_target_currency payload =
    given_or payload.target_currency (collaboration_currency payload.collaboration_id)

abbrev pub slot_of : PrivateSendingRate → Slot
slot_of r = record {
  company_id = r.company_id;
  collaboration_id = r.collaboration_id;
  currency = r.currency;
  target_currency = r.target_currency;
  operation_type = r.operation_type;
}

abbrev pub requested_slot : ℕ → PrivateRateCreateRequest → Option String → Slot
requested_slot company_id payload target_currency = record {
  company_id = company_id;
  collaboration_id = payload.collaboration_id;
  currency = payload.currency;
  target_currency = target_currency;
  operation_type = payload.operation_type;
}

unfoldable pub set_rate : ℕ → ℕ → PrivateRateCreateRequest → Service ℕ
set_rate company_id created_by_id payload = do
  target_currency ← resolve_target_currency payload
  existing ← query (get_active_by_scope (requested_slot company_id payload target_currency))
  now ← gets (λ s. s.now)
  when_some existing (λ r. change_rate r.id (deactivated now))
  rate_id ← fresh_id
  add_rate (record {
    id = rate_id;
    company_id = company_id;
    collaboration_id = payload.collaboration_id;
    country = payload.country;
    operation_type = payload.operation_type;
    currency = payload.currency;
    target_currency = target_currency;
    rate = payload.rate;
    is_active = true;
    created_by_id = created_by_id;
    deactivated_at = none;
  })
  pure rate_id

-- The active rate of the slot, if it is another one, gives way.
unfoldable pub activate : PrivateSendingRate → ℕ → Service Done
activate rate now = do
  current ← query (get_active_by_scope (slot_of rate))
  when_some current (λ r. when (not (r.id == rate.id)) (change_rate r.id (deactivated now)))
  change_rate rate.id activated

unfoldable pub set_active_status : ℕ → ℕ → Bool → Service Done
set_active_status company_id rate_id is_active = do
  found ← gets (λ s. provided (λ r. r.company_id == company_id) (find rate_id s.private_rates))
  rate ← or_raise found Error.not_found
  now ← gets (λ s. s.now)
  if is_active then activate rate now else change_rate rate_id (deactivated now)
