-- ===== src/Exchange/Planning.antt =====
-- How a request is split: what is allocated from the entry, what the client owes, and what is left
-- over (the reliquat).
use d_transfert_backend.Base.{
  ℕ, String, Bool, true, false, not, Option, ◌&&◌, ◌||◌, is_some, truthy, if◌then◌else◌,
}
use d_transfert_backend.Int.{◌-ℤ◌, ltb_ℤ}
use d_transfert_backend.Money.{Decimal, quantize, zero_amount, is_positive}
use d_transfert_backend.Errors.{Error, Result, ok, err}
use d_transfert_backend.Entries.{Loaded, is_mergeable, total_of, available_by_currency}

pub data ReliquatAction : Type 0 where
  unallocated fee client_credit : ReliquatAction

-- The fields that TransferCreateRequest and PaymentCreateRequest share.
pub record ExchangeRequest : Type 0 where
  pub collaboration_id : ℕ
  pub entry_id : Option ℕ
  pub amount : Decimal
  pub currency : String
  pub client_name : Option String
  pub client_phone : Option String
  pub reliquat_action : ReliquatAction

pub record Plan : Type 0 where
  pub allocation_amount : Decimal
  pub client_debt_amount : Decimal
  pub reliquat_amount : Decimal

abbrev pub is_client_credit : ReliquatAction → Bool
is_client_credit ReliquatAction.client_credit = true
is_client_credit _ = false

abbrev pub is_unallocated : ReliquatAction → Bool
is_unallocated ReliquatAction.unallocated = true
is_unallocated _ = false

-- A client is named by the request, or else by the entry.
abbrev pub names_client : ExchangeRequest → Loaded → Bool
names_client payload loaded =
    truthy payload.client_name && truthy payload.client_phone
    || truthy loaded.entry.client_name && truthy loaded.entry.client_phone

abbrev pub plain_plan : Decimal → Plan
plain_plan amount = record {
  allocation_amount = quantize amount;
  client_debt_amount = zero_amount;
  reliquat_amount = zero_amount;
}

-- The comparison of the amount with what the entry has left in the currency.
unfoldable pub split_amount : ExchangeRequest → Bool → Decimal → Result Plan
split_amount payload client_named available =
    if ltb_ℤ available payload.amount
    then (if not client_named
        then err Error.conflict
        else ok (record {
          allocation_amount = quantize available;
          client_debt_amount = quantize (payload.amount -ℤ available);
          reliquat_amount = zero_amount;
        }))
    else if ltb_ℤ payload.amount available && not (is_unallocated payload.reliquat_action)
    then (if is_client_credit payload.reliquat_action && not client_named
        then err Error.conflict
        else ok (record {
          allocation_amount = quantize available;
          client_debt_amount = zero_amount;
          reliquat_amount = quantize (available -ℤ payload.amount);
        }))
    else ok (plain_plan payload.amount)

unfoldable pub plan_with_entry : ExchangeRequest → Loaded → Result Plan
plan_with_entry payload loaded =
    if is_some loaded.entry.merged_into_id
    then err Error.conflict
    else if not (is_mergeable loaded.entry.status)
    then err Error.conflict
    else split_amount payload (names_client payload loaded)
        (total_of payload.currency (available_by_currency loaded.lines loaded.allocations))

-- With no entry the whole amount is a debt of the client, if one is named.
unfoldable pub plan_direct : ExchangeRequest → Plan
plan_direct payload =
    if truthy payload.client_name && truthy payload.client_phone
    then record (plain_plan payload.amount) { client_debt_amount = quantize payload.amount }
    else plain_plan payload.amount

abbrev pub needs_client : ExchangeRequest → Plan → Bool
needs_client payload plan =
    is_positive plan.client_debt_amount
    || is_positive plan.reliquat_amount && is_client_credit payload.reliquat_action
