-- ===== src/Models/Operations.antt =====
-- app/models/national_operation.py and national_operation_line.py
use d_transfert_backend.Base.{ℕ, Text, String, Bool, true, false, Option}
use d_transfert_backend.Money.{Decimal}
use d_transfert_backend.Table.{Keyed}

pub data NationalOperationType : Type 0 where
  deposit withdrawal exchange rebalance adjustment : NationalOperationType

pub data NationalOperationStatus : Type 0 where
  draft validated cancelled corrected : NationalOperationStatus

pub record NationalOperation : Type 0 where
  pub id : ℕ
  pub company_id : ℕ
  pub reference : Text
  pub type : NationalOperationType
  pub status : NationalOperationStatus
  pub client_name : Option String
  pub client_phone : Option String
  pub exchange_rate : Option Decimal
  pub proof_id : Option ℕ
  pub created_by_id : ℕ
  pub validated_at : Option ℕ
  pub cancelled_at : Option ℕ
  pub reversal_of_id : Option ℕ

pub record NationalOperationLine : Type 0 where
  pub national_operation_id : ℕ
  pub wallet_id : ℕ
  pub amount_in : Decimal
  pub amount_out : Decimal
  pub currency : String
  pub balance_before : Decimal
  pub balance_after : Decimal

instance abbrev pub operation_keyed : Keyed NationalOperation
operation_keyed = record { key = λ o. o.id }

abbrev pub is_validated : NationalOperationStatus → Bool
is_validated NationalOperationStatus.validated = true
is_validated _ = false
