-- ===== src/Tests/Approvals.antt =====
-- A transfer and a payment that are approved, and a rate that is set.
use d_transfert_backend.Base.{String, ◌≡◌, refl, arith, none, some, true, Option, [], ◌∷◌, keep}
use d_transfert_backend.Int.{pos, ◌+ℤ◌, ◌-ℤ◌}
use d_transfert_backend.Money.{quantize}
use d_transfert_backend.Errors.{ok}
use d_transfert_backend.Models.{
  Transfer, Payment, ExchangeStatus, PrivateSendingRate, transfer_keyed, collaboration_keyed,
  payment_keyed,
}
use d_transfert_backend.Database.{Db}
use d_transfert_backend.Service.{committed, ◌>>=◌, raise_if, when_some, fresh_id}
use d_transfert_backend.Audit.{log_action, notify}
use d_transfert_backend.Locking.{lock_owned}
use d_transfert_backend.Wallets.{apply_movement}
use d_transfert_backend.Wallets.Ledger.{net}
use d_transfert_backend.Exchange.{other_party}
use d_transfert_backend.Transfers.{
  get_transfer_for_party, change_transfer, add_collaborator_movement, set_proof_status, add_history,
}
use d_transfert_backend.Transfers.Decisions.{attach_proof, approve_transfer}
use d_transfert_backend.Transfers.Approval.{approve_transfer_settles, owed_row}
use d_transfert_backend.Payments.{
  get_payment_for_party, change_payment, pay_out, set_proof_status as set_payment_proofs,
  add_history as add_payment_history, approve_payment,
}
use d_transfert_backend.Payments.Approval.{approve_payment_settles}
use d_transfert_backend.Collaborations.{balance_for_company}
use d_transfert_backend.PrivateRates.{
  PrivateRateCreateRequest, set_rate, resolve_target_currency, requested_slot, is_active_in,
  change_rate, add_rate,
}
use d_transfert_backend.PrivateRates.Slots.{set_rate_exclusive, new_rate}
use d_transfert_backend.Tests.Fixtures.{
  empty_db, partner_db, partners, cash_box, ten, five, approved_transfer, rejected_payment,
}

abbrev pending_transfer : Transfer
pending_transfer = record approved_transfer {
  status = ExchangeStatus.pending;
  converted_amount = five;
  wallet_id = none;
  approved_at = none;
}

abbrev debt_payment : Payment
debt_payment = record rejected_payment {
  status = ExchangeStatus.pending;
  settles_debt = true;
  rejected_at = none;
  rejection_reason = none;
}

abbrev pending_db : Db
pending_db = record partner_db {
  wallets = record cash_box { company_id = 2 } ∷ [];
  transfers = pending_transfer ∷ [];
  payments = debt_payment ∷ [];
}

abbrev paid_db : Db
paid_db = committed (approve_transfer 2 7 5 3 none) pending_db

approve_transfer_settles_example :
    (paid_db.collaborator_movements ≡ owed_row pending_transfer partners 5 2 ∷ [])
    × (net 3 paid_db.wallet_movements ≡ net 3 pending_db.wallet_movements -ℤ quantize five)
unfolding approve_transfer get_transfer_for_party other_party lock_owned apply_movement
    change_transfer attach_proof add_collaborator_movement set_proof_status add_history log_action
    notify when_some ◌>>=◌ raise_if quantize ◌+ℤ◌ ◌-ℤ◌
approve_transfer_settles_example =
    approve_transfer_settles 2 7 5 3 none pending_db pending_transfer partners {s' = paid_db} refl
      refl refl

abbrev settled_db : Db
settled_db = committed (approve_payment 2 7 6 none) pending_db

approve_payment_settles_example :
    balance_for_company 4 1 settled_db.collaborator_movements
    ≡ balance_for_company 4 1 pending_db.collaborator_movements +ℤ ten
unfolding approve_payment get_payment_for_party other_party change_payment pay_out
    add_collaborator_movement set_payment_proofs add_payment_history log_action notify when_some
    ◌>>=◌ raise_if
approve_payment_settles_example =
    approve_payment_settles 2 7 6 none pending_db debt_payment partners {s' = settled_db} refl refl
      (omega arith) refl

abbrev rate_request : PrivateRateCreateRequest
rate_request = record {
  collaboration_id = none;
  country = none;
  operation_type = none;
  currency = "XOF";
  target_currency = some "GNF";
  rate = pos 1320000000;
}

abbrev old_rate : PrivateSendingRate
old_rate = new_rate 1 7 rate_request (some "GNF") 9

abbrev rate_db : Db
rate_db = record empty_db { next_id = 10; private_rates = old_rate ∷ [] }

abbrev new_rate_db : Db
new_rate_db = committed (set_rate 1 7 rate_request) rate_db

set_rate_exclusive_example :
    (target : Option String) × (t : Db) × (resolve_target_currency rate_request rate_db
      ≡ ok (target, t))
    × (keep (is_active_in (requested_slot 1 rate_request target)) new_rate_db.private_rates
        ≡ new_rate 1 7 rate_request target 10 ∷ [])
unfolding set_rate resolve_target_currency change_rate add_rate fresh_id when_some ◌>>=◌
set_rate_exclusive_example =
    set_rate_exclusive 1 7 rate_request rate_db {rate_id = 10} {s' = new_rate_db} refl
