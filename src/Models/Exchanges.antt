-- ===== src/Models/Exchanges.antt =====
-- app/models/transfer.py and payment.py
use d_transfert_backend.Base.{ℕ, Text, String, Bool, true, false, Option}
use d_transfert_backend.Money.{Decimal}
use d_transfert_backend.Table.{Keyed}

-- TransferStatus and PaymentStatus have the same members.
pub data ExchangeStatus : Type 0 where
  pending approved rejected cancelled : ExchangeStatus

pub data SendMode : Type 0 where
  cash wave orange_money bank other : SendMode

pub record Transfer : Type 0 where
  pub id : ℕ
  pub company_id : ℕ
  pub collaboration_id : ℕ
  pub entry_id : Option ℕ
  pub client_id : Option ℕ
  pub client_debt_amount : Option Decimal
  pub reference : Text
  pub amount : Decimal
  pub currency : String
  pub target_currency : String
  pub beneficiary_phone : String
  pub send_mode : SendMode
  pub private_rate_used : Option Decimal
  pub collaborative_rate_used : Decimal
  pub converted_amount : Decimal
  pub status : ExchangeStatus
  pub proof_id : Option ℕ
  pub wallet_id : Option ℕ
  pub created_by_id : ℕ
  pub approved_at : Option ℕ
  pub rejected_at : Option ℕ
  pub rejection_reason : Option String

-- TransferStatusHistory; `subject_id` is `transfer_id` there and `payment_id` in
-- PaymentStatusHistory.
pub record StatusHistory : Type 0 where
  pub subject_id : ℕ
  pub old_status : Option ExchangeStatus
  pub new_status : ExchangeStatus
  pub company_id : ℕ
  pub reason : Option String

pub record Payment : Type 0 where
  pub id : ℕ
  pub company_id : ℕ
  pub collaboration_id : ℕ
  pub entry_id : Option ℕ
  pub wallet_id : Option ℕ
  pub client_id : Option ℕ
  pub client_debt_amount : Option Decimal
  pub reference : Text
  pub amount : Decimal
  pub currency : String
  pub client_name : Option String
  pub client_phone : Option String
  pub collaborative_rate_used : Decimal
  pub converted_amount : Decimal
  pub settles_debt : Bool
  pub status : ExchangeStatus
  pub proof_id : Option ℕ
  pub created_by_id : ℕ
  pub approved_at : Option ℕ
  pub rejected_at : Option ℕ
  pub rejection_reason : Option String

instance abbrev pub transfer_keyed : Keyed Transfer
transfer_keyed = record { key = λ t. t.id }

instance abbrev pub payment_keyed : Keyed Payment
payment_keyed = record { key = λ p. p.id }

abbrev pub is_pending : ExchangeStatus → Bool
is_pending ExchangeStatus.pending = true
is_pending _ = false

-- The text of a send mode, which private rates are matched against.
abbrev pub send_mode_text : SendMode → String
send_mode_text SendMode.cash = "cash"
send_mode_text SendMode.wave = "wave"
send_mode_text SendMode.orange_money = "orange_money"
send_mode_text SendMode.bank = "bank"
send_mode_text SendMode.other = "other"
