-- ===== src/Models/Platform.antt =====
-- app/models/audit_log.py, notification.py, proof.py and company.py
use d_transfert_backend.Base.{ℕ, String, Text, Option, Bool, true, false}
use d_transfert_backend.Table.{Keyed}

pub record AuditLog : Type 0 where
  pub company_id : Option ℕ
  pub user_id : Option ℕ
  pub action : String
  pub entity_type : String
  pub entity_id : ℕ

pub data NotificationType : Type 0 where
  collaboration_request collaboration_accepted collaboration_rejected : NotificationType
  collaboration_suspended collaboration_archived rate_proposed : NotificationType
  transfer_pending transfer_approved transfer_rejected transfer_cancelled : NotificationType
  payment_pending payment_approved payment_rejected payment_cancelled : NotificationType
  proof_uploaded : NotificationType

pub record Notification : Type 0 where
  pub company_id : ℕ
  pub type : NotificationType
  pub link_type : String
  pub link_id : ℕ

pub data ProofStatus : Type 0 where
  pending validated rejected : ProofStatus

pub record Proof : Type 0 where
  pub id : ℕ
  pub company_id : ℕ
  pub transfer_id : Option ℕ
  pub payment_id : Option ℕ
  pub uploaded_by_id : ℕ
  pub status : ProofStatus

pub data CompanyStatus : Type 0 where
  active pending suspended : CompanyStatus

abbrev pub is_suspended : CompanyStatus → Bool
is_suspended CompanyStatus.suspended = true
is_suspended _ = false

abbrev pub is_awaiting : CompanyStatus → Bool
is_awaiting CompanyStatus.pending = true
is_awaiting _ = false

pub record Company : Type 0 where
  pub id : ℕ
  pub name : Text
  pub registration_code : Text
  pub address : Option String
  pub phone : String
  pub default_currency : String
  pub status : CompanyStatus

instance abbrev pub proof_keyed : Keyed Proof
proof_keyed = record { key = λ p. p.id }

instance abbrev pub company_keyed : Keyed Company
company_keyed = record { key = λ c. c.id }
