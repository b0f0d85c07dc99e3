-- ===== src/Payments.antt =====
-- app/services/payment_service.py with payment_repository.py,
-- proof_repository.set_status_for_payment and collaborator_balance_repository.get_balance_for_company.
pub mod Keeps
pub mod Final
pub mod Approval
use d_transfert_backend.Base.{
  ℕ, String, Text, Bool, not, Option, none, some, List, [], ◌∷◌, ◌++◌, ◌==◌, id_eq, string_eq,
  option_eq, map, if◌then◌else◌,
}
use d_transfert_backend.Money.{Decimal, quantize, zero_amount, is_positive}
use d_transfert_backend.Int.{ltb_ℤ}
use d_transfert_backend.Errors.{Error}
use d_transfert_backend.Models.{
  Payment, ExchangeStatus, StatusHistory, EntryAllocationTargetType, MovementDirection, Proof,
  ProofStatus, NotificationType, Collaboration, payment_keyed, collaboration_keyed, is_pending,
}
use d_transfert_backend.Table.{find, update_row, provided}
use d_transfert_backend.Database.{Db}
use d_transfert_backend.Reference.{Issued, generate_unique_reference}
use d_transfert_backend.TextOps.{codes}
use d_transfert_backend.Service.{
  Service, Done, pure, gets, query, or_raise, ◌>>=◌, ◌>>◌, modify, raise_if, when, when_some,
  fresh_id,
}
use d_transfert_backend.Audit.{log_action, notify}
use d_transfert_backend.Wallets.{apply_movement}
use d_transfert_backend.Locking.{lock_owned, lock_existing}
use d_transfert_backend.Exchange.{
  is_party, other_party, get_collaboration_for_party, current_rate, convert_amount, allocate,
  client_for, book_client, positive_or_none, ExchangeRequest, release_allocation, release_client,
}
use d_transfert_backend.Transfers.{plan_for, add_collaborator_movement}
use d_transfert_backend.Transfers.Decisions.{transition}
use d_transfert_backend.Collaborations.{balance_for_company}

abbrev pub issued_payments : Db → List Issued
issued_payments s =
    map (λ p. record { company_id = p.company_id; reference = p.reference }) s.payments

unfoldable pub generate_reference : ℕ → Service Text
generate_reference company_id =
    query (λ s. generate_unique_reference (codes "PA") (issued_payments s) company_id s.today)

-- A payment and its collaboration.
pub record PaymentFor : Type 0 where
  pub payment : Payment
  pub collaboration : Collaboration

-- `_get_payment_for_party`
unfoldable pub get_payment_for_party : ℕ → ℕ → Service PaymentFor
get_payment_for_party company_id payment_id = do
  locked ← gets (λ s. find payment_id s.payments)
  payment ← or_raise locked Error.not_found
  found ←
      gets (λ s. provided (is_party company_id) (find payment.collaboration_id s.collaborations))
  collaboration ← or_raise found Error.not_found
  pure (record { payment = payment; collaboration = collaboration })

unfoldable pub add_payment : Payment → Service Done
unfolding modify
add_payment payment = modify λ s. record s { payments = s.payments ++ payment ∷ [] }

unfoldable pub change_payment : ℕ → (Payment → Payment) → Service Done
unfolding modify
change_payment payment_id f = modify λ s. record s { payments = update_row payment_id f s.payments }

unfoldable pub add_history : StatusHistory → Service Done
unfolding modify
add_history row = modify λ s. record s { payment_history = s.payment_history ++ row ∷ [] }

-- `update(Proof).where(Proof.payment_id == payment_id).values(status=status)`
unfoldable pub set_proof_status : ℕ → ProofStatus → Service Done
unfolding modify
set_proof_status payment_id status = modify λ s. record s {
  proofs =
      map (λ p. if p.payment_id == some payment_id then record p { status = status } else p)
        s.proofs;
}

-- app/schemas/payment.py
pub record PaymentCreateRequest : Type 0 where
  pub exchange : ExchangeRequest
  pub wallet_id : Option ℕ

-- The wallet of the payment: of the paying company, and in the payment's currency.
unfoldable pub check_wallet : ℕ → String → ℕ → Service Done
check_wallet company_id currency wallet_id = do
  wallet ← lock_owned company_id wallet_id
  raise_if (not (wallet.currency == currency)) Error.conflict

unfoldable pub create_payment : ℕ → ℕ → PaymentCreateRequest → Service ℕ
create_payment company_id created_by_id payload = do
  collaboration ← get_collaboration_for_party company_id payload.exchange.collaboration_id
  collaborative_rate ← current_rate collaboration
  current_balance ←
      gets (λ s. balance_for_company collaboration.id company_id s.collaborator_movements)
  (entry, plan) ← plan_for company_id payload.exchange payload.exchange.entry_id
  when_some payload.wallet_id (check_wallet company_id payload.exchange.currency)
  client ← client_for company_id payload.exchange entry plan
  reference ← generate_reference company_id
  payment_id ← fresh_id
  add_payment (record {
    id = payment_id;
    company_id = company_id;
    collaboration_id = collaboration.id;
    entry_id = payload.exchange.entry_id;
    wallet_id = payload.wallet_id;
    client_id = client;
    client_debt_amount = positive_or_none plan.client_debt_amount;
    reference = reference;
    amount = quantize payload.exchange.amount;
    currency = payload.exchange.currency;
    client_name = payload.exchange.client_name;
    client_phone = payload.exchange.client_phone;
    collaborative_rate_used = collaborative_rate.new_rate;
    converted_amount =
        convert_amount payload.exchange.amount payload.exchange.currency collaboration.currency
          collaborative_rate.new_rate;
    settles_debt = ltb_ℤ current_balance zero_amount;
    status = ExchangeStatus.pending;
    proof_id = none;
    created_by_id = created_by_id;
    approved_at = none;
    rejected_at = none;
    rejection_reason = none;
  })
  allocate entry EntryAllocationTargetType.payment payment_id payload.exchange.currency
      plan.allocation_amount
  book_client client payload.exchange plan "payment" payment_id created_by_id
  when (is_positive plan.reliquat_amount)
      (log_action company_id created_by_id "payment.reliquat" "payment" payment_id)
  add_history (record {
    subject_id = payment_id;
    old_status = none;
    new_status = ExchangeStatus.pending;
    company_id = company_id;
    reason = none;
  })
  log_action company_id created_by_id "payment.create" "payment" payment_id
  notify (other_party collaboration company_id) NotificationType.payment_pending "payment"
      payment_id
  pure payment_id

-- The money leaves the payer's wallet, if the payment names one.
unfoldable pub pay_out : ℕ → Payment → ℕ → Service Done
pay_out payment_id payment by = when_some payment.wallet_id λ wallet_id. do
  lock_existing wallet_id
  apply_movement wallet_id MovementDirection.out payment.amount "payment" payment_id by
  pure tt

-- The debtor and the creditor of an approved payment.
abbrev pub debtor_of : Payment → ℕ → ℕ
debtor_of payment approver = if payment.settles_debt then approver else payment.company_id

abbrev pub creditor_of : Payment → ℕ → ℕ
creditor_of payment approver = if payment.settles_debt then payment.company_id else approver

unfoldable pub approve_payment : ℕ → ℕ → ℕ → Option ℕ → Service Done
approve_payment company_id approved_by_user_id payment_id proof_id = do
  held ← get_payment_for_party company_id payment_id
  raise_if (not (company_id == other_party held.collaboration held.payment.company_id))
      Error.permission_denied
  raise_if (not (is_pending held.payment.status)) Error.conflict
  add_collaborator_movement (record {
    collaboration_id = held.collaboration.id;
    source_type = "payment";
    source_id = payment_id;
    currency = held.collaboration.currency;
    amount = held.payment.converted_amount;
    debtor_company_id = debtor_of held.payment company_id;
    creditor_company_id = creditor_of held.payment company_id;
  })
  pay_out payment_id held.payment approved_by_user_id
  when_some proof_id (λ proof. change_payment payment_id (λ p. record p { proof_id = some proof }))
  now ← gets (λ s. s.now)
  change_payment payment_id
      (λ p. record p { status = ExchangeStatus.approved; approved_at = some now })
  set_proof_status payment_id ProofStatus.validated
  add_history (transition payment_id held.payment.status ExchangeStatus.approved company_id none)
  log_action company_id approved_by_user_id "payment.approve" "payment" payment_id
  notify held.payment.company_id NotificationType.payment_approved "payment" payment_id

unfoldable pub reject_payment : ℕ → ℕ → ℕ → String → Service Done
reject_payment company_id acted_by_user_id payment_id reason = do
  held ← get_payment_for_party company_id payment_id
  raise_if (not (company_id == other_party held.collaboration held.payment.company_id))
      Error.permission_denied
  raise_if (not (is_pending held.payment.status)) Error.conflict
  now ← gets (λ s. s.now)
  change_payment payment_id (λ p. record p {
    status = ExchangeStatus.rejected;
    rejected_at = some now;
    rejection_reason = some reason;
  })
  release_allocation held.payment.entry_id EntryAllocationTargetType.payment payment_id
      held.payment.company_id
  release_client held.payment.client_id held.payment.company_id "payment" payment_id
      acted_by_user_id
  set_proof_status payment_id ProofStatus.rejected
  add_history
      (transition payment_id held.payment.status ExchangeStatus.rejected company_id (some reason))
  log_action company_id acted_by_user_id "payment.reject" "payment" payment_id
  notify held.payment.company_id NotificationType.payment_rejected "payment" payment_id

unfoldable pub cancel_payment : ℕ → ℕ → ℕ → Service Done
cancel_payment company_id acted_by_user_id payment_id = do
  held ← get_payment_for_party company_id payment_id
  raise_if (not (held.payment.company_id == company_id)) Error.permission_denied
  raise_if (not (is_pending held.payment.status)) Error.conflict
  change_payment payment_id (λ p. record p { status = ExchangeStatus.cancelled })
  release_allocation held.payment.entry_id EntryAllocationTargetType.payment payment_id
      held.payment.company_id
  release_client held.payment.client_id held.payment.company_id "payment" payment_id
      acted_by_user_id
  set_proof_status payment_id ProofStatus.rejected
  add_history (transition payment_id held.payment.status ExchangeStatus.cancelled company_id none)
  log_action company_id acted_by_user_id "payment.cancel" "payment" payment_id
  notify (other_party held.collaboration company_id) NotificationType.payment_cancelled "payment"
      payment_id
