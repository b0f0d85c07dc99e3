-- ===== src/Transfers.antt =====
-- app/services/transfer_service.py with transfer_repository.py, proof_repository.py,
-- private_rate_repository.list_active_for_pair and collaborator_balance_repository.create.
mod Rates
unfoldable pub use Rates.*
pub mod Final
pub mod Approval
pub mod Keeps
pub mod Decisions
use d_transfert_backend.Base.{
  ℕ, String, Text, Bool, true, false, not, Option, none, some, List, [], ◌∷◌, ◌++◌, ◌==◌, id_eq,
  string_eq, option_eq, ◌&&◌, map, if◌then◌else◌,
}
use d_transfert_backend.Money.{Decimal, quantize}
use d_transfert_backend.Errors.{Error}
use d_transfert_backend.Models.{
  Transfer, SendMode, ExchangeStatus, StatusHistory, Collaboration, CollaboratorBalanceMovement,
  EntryAllocationTargetType, MovementDirection, Proof, ProofStatus, NotificationType,
  transfer_keyed, collaboration_keyed, proof_keyed, is_pending, send_mode_text,
}
use d_transfert_backend.Table.{find, update_row, provided}
use d_transfert_backend.Database.{Db}
use d_transfert_backend.Reference.{Issued, generate_unique_reference}
use d_transfert_backend.TextOps.{codes}
use d_transfert_backend.Service.{
  Service, Done, pure, gets, query, or_raise, ◌>>=◌, ◌>>◌, modify, raise_if, when, when_some,
  fresh_id,
}
use d_transfert_backend.Audit.{log_action, notify}
use d_transfert_backend.Wallets.{apply_movement}
use d_transfert_backend.Locking.{lock_owned}
use d_transfert_backend.Entries.{Loaded, load_full}
use d_transfert_backend.Exchange.{
  is_party, other_party, get_collaboration_for_party, current_rate, convert_amount, allocate,
  client_for, book_client, positive_or_none, ExchangeRequest, Plan, plan_direct, plan_with_entry,
  release_allocation, release_client,
}
use d_transfert_backend.Money.{is_positive}

abbrev pub issued_transfers : Db → List Issued
issued_transfers s =
    map (λ t. record { company_id = t.company_id; reference = t.reference }) s.transfers

unfoldable pub generate_reference : ℕ → Service Text
generate_reference company_id =
    query (λ s. generate_unique_reference (codes "TR") (issued_transfers s) company_id s.today)

-- A transfer and its collaboration.
pub record TransferFor : Type 0 where
  pub transfer : Transfer
  pub collaboration : Collaboration

-- `_get_transfer_for_party`
unfoldable pub get_transfer_for_party : ℕ → ℕ → Service TransferFor
get_transfer_for_party company_id transfer_id = do
  locked ← gets (λ s. find transfer_id s.transfers)
  transfer ← or_raise locked Error.not_found
  found ←
      gets (λ s. provided (is_party company_id) (find transfer.collaboration_id s.collaborations))
  collaboration ← or_raise found Error.not_found
  pure (record { transfer = transfer; collaboration = collaboration })

unfoldable pub add_transfer : Transfer → Service Done
unfolding modify
add_transfer transfer = modify λ s. record s { transfers = s.transfers ++ transfer ∷ [] }

unfoldable pub change_transfer : ℕ → (Transfer → Transfer) → Service Done
unfolding modify
change_transfer transfer_id f =
    modify λ s. record s { transfers = update_row transfer_id f s.transfers }

unfoldable pub add_history : StatusHistory → Service Done
unfolding modify
add_history row = modify λ s. record s { transfer_history = s.transfer_history ++ row ∷ [] }

unfoldable pub add_collaborator_movement : CollaboratorBalanceMovement → Service Done
unfolding modify
add_collaborator_movement row =
    modify λ s. record s { collaborator_movements = s.collaborator_movements ++ row ∷ [] }

-- `update(Proof).where(Proof.transfer_id == transfer_id).values(status=status)`
unfoldable pub set_proof_status : ℕ → ProofStatus → Service Done
unfolding modify
set_proof_status transfer_id status = modify λ s. record s {
  proofs =
      map (λ p. if p.transfer_id == some transfer_id then record p { status = status } else p)
        s.proofs;
}

-- The split of the amount, with the entry that it is taken from.
unfoldable pub plan_for : ℕ → ExchangeRequest → Option ℕ → Service (Option Loaded × Plan)
plan_for company_id payload none = pure (none, plan_direct payload)
plan_for company_id payload (some entry_id) = do
  loaded ← load_full company_id entry_id
  plan ← query (λ _. plan_with_entry payload loaded)
  pure (some loaded, plan)

-- app/schemas/transfer.py
pub record TransferCreateRequest : Type 0 where
  pub exchange : ExchangeRequest
  pub open exchange use *
  pub target_currency : Option String
  pub beneficiary_phone : String
  pub send_mode : SendMode

-- `payload.target_currency or collaboration.currency`
abbrev pub or_currency : Option String → String → String
or_currency none c = c
or_currency (some t) c = if t == "" then c else t

unfoldable pub create_transfer : ℕ → ℕ → TransferCreateRequest → Service ℕ
create_transfer company_id created_by_id payload = do
  collaboration ← get_collaboration_for_party company_id payload.exchange.collaboration_id
  collaborative_rate ← current_rate collaboration
  let target_currency : String = or_currency payload.target_currency collaboration.currency
  candidates ← gets (list_active_for_pair company_id payload.exchange.currency target_currency)
  private_rate ←
      or_raise
        (choose_rate candidates collaboration.id (send_mode_text payload.send_mode) target_currency)
        Error.conflict
  (entry, plan) ← plan_for company_id payload.exchange payload.exchange.entry_id
  client ← client_for company_id payload.exchange entry plan
  reference ← generate_reference company_id
  transfer_id ← fresh_id
  add_transfer (record {
    id = transfer_id;
    company_id = company_id;
    collaboration_id = collaboration.id;
    entry_id = payload.exchange.entry_id;
    client_id = client;
    client_debt_amount = positive_or_none plan.client_debt_amount;
    reference = reference;
    amount = quantize payload.exchange.amount;
    currency = payload.exchange.currency;
    target_currency = target_currency;
    beneficiary_phone = payload.beneficiary_phone;
    send_mode = payload.send_mode;
    private_rate_used = some private_rate.rate;
    collaborative_rate_used = collaborative_rate.new_rate;
    converted_amount =
        convert_amount payload.exchange.amount payload.exchange.currency target_currency
          private_rate.rate;
    status = ExchangeStatus.pending;
    proof_id = none;
    wallet_id = none;
    created_by_id = created_by_id;
    approved_at = none;
    rejected_at = none;
    rejection_reason = none;
  })
  allocate entry EntryAllocationTargetType.transfer transfer_id payload.exchange.currency
      plan.allocation_amount
  book_client client payload.exchange plan "transfer" transfer_id created_by_id
  when (is_positive plan.reliquat_amount)
      (log_action company_id created_by_id "transfer.reliquat" "transfer" transfer_id)
  add_history (record {
    subject_id = transfer_id;
    old_status = none;
    new_status = ExchangeStatus.pending;
    company_id = company_id;
    reason = none;
  })
  log_action company_id created_by_id "transfer.create" "transfer" transfer_id
  notify (other_party collaboration company_id) NotificationType.transfer_pending "transfer"
      transfer_id
  pure transfer_id
