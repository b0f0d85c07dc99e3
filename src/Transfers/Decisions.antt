-- ===== src/Transfers/Decisions.antt =====
-- transfer_service: approve_transfer, reject_transfer and cancel_transfer.
use d_transfert_backend.Base.{
  ℕ, String, not, Option, none, some, ◌==◌, id_eq, string_eq, option_eq, ◌&&◌,
}
use d_transfert_backend.Errors.{Error}
use d_transfert_backend.Models.{
  ExchangeStatus, StatusHistory, EntryAllocationTargetType, MovementDirection, ProofStatus,
  NotificationType, transfer_keyed, collaboration_keyed, proof_keyed, is_pending,
}
use d_transfert_backend.Table.{find, provided}
use d_transfert_backend.Service.{Service, Done, gets, or_raise, ◌>>=◌, ◌>>◌, raise_if, when_some}
use d_transfert_backend.Audit.{log_action, notify}
use d_transfert_backend.Wallets.{apply_movement}
use d_transfert_backend.Locking.{lock_owned}
use d_transfert_backend.Exchange.{other_party, release_allocation, release_client}
use d_transfert_backend.Transfers.{
  get_transfer_for_party, change_transfer, add_history, add_collaborator_movement, set_proof_status,
}

-- The optional proof of the payment: uploaded by the approving company, for this transfer.
unfoldable pub attach_proof : ℕ → ℕ → Option ℕ → Service Done
attach_proof company_id transfer_id proof = when_some proof λ proof_id. do
  found ← gets (λ s.
      provided (λ p. p.transfer_id == some transfer_id && p.company_id == company_id)
        (find proof_id s.proofs))
  or_raise found Error.not_found
  change_transfer transfer_id (λ t. record t { proof_id = some proof_id })

abbrev pub transition : ℕ → ExchangeStatus → ExchangeStatus → ℕ → Option String → StatusHistory
transition transfer_id old_status status company_id reason = record {
  subject_id = transfer_id;
  old_status = some old_status;
  new_status = status;
  company_id = company_id;
  reason = reason;
}

unfoldable pub approve_transfer : ℕ → ℕ → ℕ → ℕ → Option ℕ → Service Done
approve_transfer company_id acted_by_user_id transfer_id wallet_id proof_id = do
  held ← get_transfer_for_party company_id transfer_id
  raise_if (not (company_id == other_party held.collaboration held.transfer.company_id))
      Error.permission_denied
  raise_if (not (is_pending held.transfer.status)) Error.conflict
  wallet ← lock_owned company_id wallet_id
  raise_if (not (wallet.currency == held.transfer.target_currency)) Error.conflict
  apply_movement wallet_id MovementDirection.out held.transfer.converted_amount "transfer"
      transfer_id acted_by_user_id
  change_transfer transfer_id (λ t. record t { wallet_id = some wallet_id })
  attach_proof company_id transfer_id proof_id
  add_collaborator_movement (record {
    collaboration_id = held.collaboration.id;
    source_type = "transfer";
    source_id = transfer_id;
    currency = held.transfer.target_currency;
    amount = held.transfer.converted_amount;
    debtor_company_id = held.transfer.company_id;
    creditor_company_id = company_id;
  })
  now ← gets (λ s. s.now)
  change_transfer transfer_id
      (λ t. record t { status = ExchangeStatus.approved; approved_at = some now })
  set_proof_status transfer_id ProofStatus.validated
  add_history (transition transfer_id held.transfer.status ExchangeStatus.approved company_id none)
  log_action company_id acted_by_user_id "transfer.approve" "transfer" transfer_id
  notify held.transfer.company_id NotificationType.transfer_approved "transfer" transfer_id

unfoldable pub reject_transfer : ℕ → ℕ → ℕ → String → Service Done
reject_transfer company_id acted_by_user_id transfer_id reason = do
  held ← get_transfer_for_party company_id transfer_id
  raise_if (not (company_id == other_party held.collaboration held.transfer.company_id))
      Error.permission_denied
  raise_if (not (is_pending held.transfer.status)) Error.conflict
  now ← gets (λ s. s.now)
  change_transfer transfer_id (λ t. record t {
    status = ExchangeStatus.rejected;
    rejected_at = some now;
    rejection_reason = some reason;
  })
  release_allocation held.transfer.entry_id EntryAllocationTargetType.transfer transfer_id
      held.transfer.company_id
  release_client held.transfer.client_id held.transfer.company_id "transfer" transfer_id
      acted_by_user_id
  set_proof_status transfer_id ProofStatus.rejected
  add_history
      (transition transfer_id held.transfer.status ExchangeStatus.rejected company_id (some reason))
  log_action company_id acted_by_user_id "transfer.reject" "transfer" transfer_id
  notify held.transfer.company_id NotificationType.transfer_rejected "transfer" transfer_id

unfoldable pub cancel_transfer : ℕ → ℕ → ℕ → Service Done
cancel_transfer company_id acted_by_user_id transfer_id = do
  held ← get_transfer_for_party company_id transfer_id
  raise_if (not (held.transfer.company_id == company_id)) Error.permission_denied
  raise_if (not (is_pending held.transfer.status)) Error.conflict
  change_transfer transfer_id (λ t. record t { status = ExchangeStatus.cancelled })
  release_allocation held.transfer.entry_id EntryAllocationTargetType.transfer transfer_id
      held.transfer.company_id
  release_client held.transfer.client_id held.transfer.company_id "transfer" transfer_id
      acted_by_user_id
  set_proof_status transfer_id ProofStatus.rejected
  add_history (transition transfer_id held.transfer.status ExchangeStatus.cancelled company_id none)
  log_action company_id acted_by_user_id "transfer.cancel" "transfer" transfer_id
  notify (other_party held.collaboration company_id) NotificationType.transfer_cancelled "transfer"
      transfer_id
