-- ===== src/Exchange.antt =====
-- What transfer_service and payment_service share, written out in both: the parties of a
-- collaboration, conversion, how much of an entry is allocated and what becomes a debt or a credit
-- of the client, the release of an allocation, and the history, proof and client bookings.
mod Planning
mod Release
unfoldable pub use Planning.*
unfoldable pub use Release.*
pub mod Conversion
pub mod Split
pub mod Keeps
use d_transfert_backend.Base.{
  ℕ, String, Bool, true, false, not, Option, none, some, List, [], ◌∷◌, ◌++◌, ◌==◌, id_eq,
  string_eq, ◌&&◌, ◌||◌, if◌then◌else◌, or_else,
}
use d_transfert_backend.Money.{Decimal, quantize, quantize_product, negated, is_positive}
use d_transfert_backend.Errors.{Error}
use d_transfert_backend.Models.{
  Collaboration, CollaborationRateHistory, collaboration_keyed, rate_keyed,
  is_accepted_collaboration, EntryAllocation, EntryAllocationTargetType,
}
use d_transfert_backend.Table.{find, provided}
use d_transfert_backend.Service.{
  Service, Done, pure, gets, or_raise, ◌>>=◌, ◌>>◌, modify, raise_if, when, when_some, fresh_id,
}
use d_transfert_backend.Entries.{Loaded, change_entry, set_status, recompute_status}
use d_transfert_backend.Clients.{get_or_create_client, apply_balance_delta}

-- `company_id not in (initiator, target)`
abbrev pub is_party : ℕ → Collaboration → Bool
is_party company_id c = company_id == c.initiator_company_id || company_id == c.target_company_id

-- `_other_party`
unfoldable pub other_party : Collaboration → ℕ → ℕ
other_party c company_id =
    if c.initiator_company_id == company_id then c.target_company_id else c.initiator_company_id

-- `_get_collaboration_for_party`
unfoldable pub get_collaboration_for_party : ℕ → ℕ → Service Collaboration
get_collaboration_for_party company_id collaboration_id = do
  found ← gets (λ s. provided (is_party company_id) (find collaboration_id s.collaborations))
  collaboration ← or_raise found Error.not_found
  raise_if (not (is_accepted_collaboration collaboration.status)) Error.conflict
  pure collaboration

-- The current rate of a collaboration; reading `new_rate` of a missing row is an AttributeError.
unfoldable pub current_rate : Collaboration → Service CollaborationRateHistory
current_rate collaboration = do
  rate_id ← or_raise collaboration.current_rate_id Error.conflict
  found ← gets (λ s. find rate_id s.rates)
  or_raise found Error.attribute_error

-- `_convert_amount` and `_convert_to_collaboration_currency`
unfoldable pub convert_amount : Decimal → String → String → Decimal → Decimal
convert_amount amount from_currency to_currency rate =
    if from_currency == to_currency then quantize amount else quantize_product amount rate

unfoldable pub add_allocation : EntryAllocation → Service Done
unfolding modify
add_allocation allocation = modify λ s. record s { allocations = s.allocations ++ allocation ∷ [] }

-- `if entry is not None and allocation_amount > 0`
unfoldable pub allocate :
    Option Loaded → EntryAllocationTargetType → ℕ → String → Decimal → Service Done
allocate entry target_type target_id currency amount = when_some entry λ loaded.
    when (is_positive amount) (do
      allocation_id ← fresh_id
      let allocation : EntryAllocation = record {
        id = allocation_id;
        entry_id = loaded.entry.id;
        target_type = target_type;
        target_id = target_id;
        currency = currency;
        amount_allocated = amount;
      }
      add_allocation allocation
      change_entry loaded.entry.id
          (set_status (recompute_status loaded.lines (loaded.allocations ++ allocation ∷ []))))

abbrev pub entry_name : Option Loaded → Option String
entry_name none = none
entry_name (some loaded) = loaded.entry.client_name

abbrev pub entry_phone : Option Loaded → Option String
entry_phone none = none
entry_phone (some loaded) = loaded.entry.client_phone

-- The client that a debt or a credit is booked on, if there is one to book.
unfoldable pub client_for : ℕ → ExchangeRequest → Option Loaded → Plan → Service (Option ℕ)
client_for company_id payload entry plan =
    if needs_client payload plan
    then (do
      client_id ←
          get_or_create_client company_id (or_else payload.client_name (entry_name entry))
            (or_else payload.client_phone (entry_phone entry))
      pure (some client_id))
    else pure none

-- The debt of the shortfall, then the credit of the remainder.
unfoldable pub book_client : Option ℕ → ExchangeRequest → Plan → String → ℕ → ℕ → Service Done
book_client client payload plan source_type source_id created_by_id = when_some client λ client_id.
    do
      when (is_positive plan.client_debt_amount) (
          apply_balance_delta client_id plan.client_debt_amount source_type source_id
            payload.currency created_by_id
          >> pure tt)
      when (is_positive plan.reliquat_amount && is_client_credit payload.reliquat_action) (
          apply_balance_delta client_id (negated plan.reliquat_amount) source_type source_id
            payload.currency created_by_id
          >> pure tt)

abbrev pub positive_or_none : Decimal → Option Decimal
positive_or_none amount = if is_positive amount then some amount else none
