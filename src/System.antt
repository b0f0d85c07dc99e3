-- ===== src/System.antt =====
-- The program as its clients see it: the requests that change the database, each run to its commit
-- or to the handler of its error, in any order. What the routers do before a service call (the token,
-- the permission, the schema) only keeps requests out, so every history of these services is one of
-- these. The deletion of a company is none of the requests: it begins a new history.
pub mod Frames
pub mod Quiet
pub mod Histories
pub mod Finality
pub mod Suspension
pub mod Supervisors
use d_transfert_backend.Base.{ℕ, Bool, String, Option, List, [], ◌≡◌, refl}
use d_transfert_backend.Money.{Decimal}
use d_transfert_backend.Reference.{Date}
use d_transfert_backend.Models.{
  WalletStatus, NationalOperationType, Proof, AuditLog, Notification, SystemLog,
}
use d_transfert_backend.Database.{Db}
use d_transfert_backend.Host.{Host}
use d_transfert_backend.Handlers.{answered}
use d_transfert_backend.Platform.{PlatformRequest, handle_platform}
use d_transfert_backend.Service.{Service, Done, pure, ◌>>=◌, ◌>>◌}
use d_transfert_backend.Wallets.{
  WalletCreateRequest, WalletUpdateRequest, create_wallet, update_wallet, set_wallet_status,
}
use d_transfert_backend.Clients.{create_client}
use d_transfert_backend.Entries.{EntryCreateRequest, create_entry, merge_entries, cancel_entry}
use d_transfert_backend.Transfers.{TransferCreateRequest, create_transfer}
use d_transfert_backend.Transfers.Decisions.{approve_transfer, reject_transfer, cancel_transfer}
use d_transfert_backend.Payments.{
  PaymentCreateRequest, create_payment, approve_payment, reject_payment, cancel_payment,
}
use d_transfert_backend.Collaborations.{
  CollaborationRequestCreate, CollaborationUpdateRequest, request_collaboration,
  accept_collaboration, reject_collaboration, cancel_collaboration, update_collaboration,
  suspend_collaboration, archive_collaboration,
}
use d_transfert_backend.Collaborations.Proposals.{
  propose_rate_change, accept_rate_proposal, reject_rate_proposal,
}
use d_transfert_backend.Operations.{
  NationalOperationCreateRequest, create_operation, cancel_operation,
}
use d_transfert_backend.Suppliers.{
  SupplierCreateRequest, SupplierRebalanceRequest, create_supplier, rebalance_supplier,
}
use d_transfert_backend.PrivateRates.{PrivateRateCreateRequest, set_rate, set_active_status}

-- A service function and its arguments; `company_id` and `by` are those of the token.
pub data Request : Type 0 where
  create_wallet_request : (company_id by : ℕ) (payload : WalletCreateRequest) → Request
  update_wallet_request : (company_id by wallet_id : ℕ) (payload : WalletUpdateRequest) → Request
  wallet_status_request : (company_id by wallet_id : ℕ) (status : WalletStatus) → Request
  create_client_request : (company_id : ℕ) (name phone : String) → Request
  create_entry_request : (company_id by : ℕ) (payload : EntryCreateRequest) → Request
  merge_entries_request : (company_id by : ℕ) (entry_ids : List ℕ) → Request
  cancel_entry_request : (company_id by entry_id : ℕ) → Request
  create_transfer_request : (company_id by : ℕ) (payload : TransferCreateRequest) → Request
  approve_transfer_request :
      (company_id by transfer_id wallet_id : ℕ) (proof_id : Option ℕ) → Request
  reject_transfer_request : (company_id by transfer_id : ℕ) (reason : String) → Request
  cancel_transfer_request : (company_id by transfer_id : ℕ) → Request
  create_payment_request : (company_id by : ℕ) (payload : PaymentCreateRequest) → Request
  approve_payment_request : (company_id by payment_id : ℕ) (proof_id : Option ℕ) → Request
  reject_payment_request : (company_id by payment_id : ℕ) (reason : String) → Request
  cancel_payment_request : (company_id by payment_id : ℕ) → Request
  collaboration_request : (company_id : ℕ) (payload : CollaborationRequestCreate) → Request
  accept_collaboration_request : (company_id by collaboration_id : ℕ) → Request
  reject_collaboration_request : (company_id by collaboration_id : ℕ) → Request
  cancel_collaboration_request : (company_id by collaboration_id : ℕ) → Request
  update_collaboration_request :
      (company_id by collaboration_id : ℕ) (payload : CollaborationUpdateRequest) → Request
  propose_rate_request : (company_id by collaboration_id : ℕ) (rate : Decimal) → Request
  accept_rate_request : (company_id by collaboration_id proposal_id : ℕ) → Request
  reject_rate_request : (company_id by collaboration_id proposal_id : ℕ) → Request
  suspend_collaboration_request : (company_id by collaboration_id : ℕ) → Request
  archive_collaboration_request : (company_id by collaboration_id : ℕ) → Request
  create_operation_request :
      (company_id : ℕ) (type : NationalOperationType) (by : ℕ)
      (payload : NationalOperationCreateRequest)
      → Request
  cancel_operation_request : (company_id operation_id by : ℕ) → Request
  set_rate_request : (company_id by : ℕ) (payload : PrivateRateCreateRequest) → Request
  create_supplier_request : (company_id : ℕ) (payload : SupplierCreateRequest) → Request
  rebalance_supplier_request :
      (company_id by supplier_id : ℕ) (payload : SupplierRebalanceRequest) → Request
  rate_status_request : (company_id rate_id : ℕ) (active : Bool) → Request

abbrev pub forget : {A : Type 0} → Service A → Service Done
forget m = m >> pure tt

unfoldable pub perform : Request → Service Done
perform (create_wallet_request company_id by payload) = forget (create_wallet company_id by payload)
perform (update_wallet_request company_id by i payload) =
    forget (update_wallet company_id by i payload)
perform (wallet_status_request company_id by i status) =
    forget (set_wallet_status company_id by i status)
perform (create_client_request company_id name phone) = forget (create_client company_id name phone)
perform (create_entry_request company_id by payload) = forget (create_entry company_id by payload)
perform (merge_entries_request company_id by ids) = forget (merge_entries company_id by ids)
perform (cancel_entry_request company_id by i) = forget (cancel_entry company_id by i)
perform (create_transfer_request company_id by payload) =
    forget (create_transfer company_id by payload)
perform (approve_transfer_request company_id by i w p) =
    forget (approve_transfer company_id by i w p)
perform (reject_transfer_request company_id by i r) = forget (reject_transfer company_id by i r)
perform (cancel_transfer_request company_id by i) = forget (cancel_transfer company_id by i)
perform (create_payment_request company_id by payload) =
    forget (create_payment company_id by payload)
perform (approve_payment_request company_id by i p) = forget (approve_payment company_id by i p)
perform (reject_payment_request company_id by i r) = forget (reject_payment company_id by i r)
perform (cancel_payment_request company_id by i) = forget (cancel_payment company_id by i)
perform (collaboration_request company_id payload) =
    forget (request_collaboration company_id payload)
perform (accept_collaboration_request company_id by i) =
    forget (accept_collaboration company_id by i)
perform (reject_collaboration_request company_id by i) =
    forget (reject_collaboration company_id by i)
perform (cancel_collaboration_request company_id by i) =
    forget (cancel_collaboration company_id by i)
perform (update_collaboration_request company_id by i p) =
    forget (update_collaboration company_id by i p)
perform (propose_rate_request company_id by i rate) =
    forget (propose_rate_change company_id by i rate)
perform (accept_rate_request company_id by i j) = forget (accept_rate_proposal company_id by i j)
perform (reject_rate_request company_id by i j) = forget (reject_rate_proposal company_id by i j)
perform (suspend_collaboration_request company_id by i) =
    forget (suspend_collaboration company_id by i)
perform (archive_collaboration_request company_id by i) =
    forget (archive_collaboration company_id by i)
perform (create_operation_request company_id type by payload) =
    forget (create_operation company_id type by payload)
perform (cancel_operation_request company_id i by) = forget (cancel_operation company_id i by)
perform (set_rate_request company_id by payload) = forget (set_rate company_id by payload)
perform (rate_status_request company_id i active) = forget (set_active_status company_id i active)
perform (create_supplier_request company_id payload) = forget (create_supplier company_id payload)
perform (rebalance_supplier_request company_id by i p) =
    forget (rebalance_supplier company_id by i p)

-- The database after a request to the endpoint `source`.
abbrev pub handle : String → Request → Db → Db
handle source request s = answered (perform request) source s

-- One step: a request to a service that moves money, a request to the accounts services with any
-- host, the clock, or a write of a service that is not modelled, which touches only proofs, audit
-- logs, notifications and the system log. The deletion of a company by an administrator
-- (`Administration.Deletion`) and the restoration of a backup are not steps.
pub data Step (s : Db) : Db → Type 0 where
  request : (source : String) (r : Request) → Step s (handle source r s)
  clock : (now : ℕ) (today : Date) → Step s (record s { now = now; today = today })
  platform :
      (host : Host) (source : String) (r : PlatformRequest)
      → Step s (handle_platform host source r s)
  others :
      (proofs : List Proof) (audit_logs : List AuditLog) (notifications : List Notification)
      (system_logs : List SystemLog)
      → Step s (record s {
        proofs = proofs;
        audit_logs = audit_logs;
        notifications = notifications;
        system_logs = system_logs;
      })

-- Any number of steps.
pub data Steps (s : Db) : Db → Type 0 where
  start : Steps s s
  then : {t u : Db} → Steps s t → Step t u → Steps s u
