-- ===== src/Models/Collaborations.antt =====
-- app/models/collaboration.py, collaborator_balance_movement.py and private_sending_rate.py
use d_transfert_backend.Base.{ℕ, String, Bool, true, false, Option}
use d_transfert_backend.Money.{Decimal}
use d_transfert_backend.Table.{Keyed}

pub data CollaborationStatus : Type 0 where
  pending accepted rejected suspended archived cancelled : CollaborationStatus

pub data RateProposalStatus : Type 0 where
  proposed accepted rejected : RateProposalStatus

pub record Collaboration : Type 0 where
  pub id : ℕ
  pub initiator_company_id : ℕ
  pub target_company_id : ℕ
  pub currency : String
  pub status : CollaborationStatus
  pub current_rate_id : Option ℕ

pub record CollaborationRateHistory : Type 0 where
  pub id : ℕ
  pub collaboration_id : ℕ
  pub old_rate : Option Decimal
  pub new_rate : Decimal
  pub status : RateProposalStatus
  pub proposed_by_company_id : ℕ
  pub decided_by_company_id : Option ℕ
  pub decided_at : Option ℕ

pub record CollaboratorBalanceMovement : Type 0 where
  pub collaboration_id : ℕ
  pub source_type : String
  pub source_id : ℕ
  pub currency : String
  pub amount : Decimal
  pub debtor_company_id : ℕ
  pub creditor_company_id : ℕ

pub record PrivateSendingRate : Type 0 where
  pub id : ℕ
  pub company_id : ℕ
  pub collaboration_id : Option ℕ
  pub country : Option String
  pub operation_type : Option String
  pub currency : String
  pub target_currency : Option String
  pub rate : Decimal
  pub is_active : Bool
  pub created_by_id : ℕ
  pub deactivated_at : Option ℕ

instance abbrev pub collaboration_keyed : Keyed Collaboration
collaboration_keyed = record { key = λ c. c.id }

instance abbrev pub rate_keyed : Keyed CollaborationRateHistory
rate_keyed = record { key = λ r. r.id }

instance abbrev pub private_rate_keyed : Keyed PrivateSendingRate
private_rate_keyed = record { key = λ r. r.id }

abbrev pub is_pending_collaboration : CollaborationStatus → Bool
is_pending_collaboration CollaborationStatus.pending = true
is_pending_collaboration _ = false

abbrev pub is_accepted_collaboration : CollaborationStatus → Bool
is_accepted_collaboration CollaborationStatus.accepted = true
is_accepted_collaboration _ = false

abbrev pub is_suspended_collaboration : CollaborationStatus → Bool
is_suspended_collaboration CollaborationStatus.suspended = true
is_suspended_collaboration _ = false

abbrev pub is_proposed : RateProposalStatus → Bool
is_proposed RateProposalStatus.proposed = true
is_proposed _ = false
