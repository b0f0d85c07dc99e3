-- ===== src/System/Frames.antt =====
-- One rule for all requests: an invariant that has a frame and allows each service's own writes is
-- kept by every request.
use d_transfert_backend.Base.{ℕ, ◌≡◌, true, String, Option, some, List}
use d_transfert_backend.Models.{
  Transfer, Payment, Collaboration, CollaborationRateHistory, NationalOperation,
  NationalOperationLine, PrivateSendingRate, WalletStatus, SystemLog, Supplier,
  SupplierBalanceMovement,
}
use d_transfert_backend.Database.{Db}
use d_transfert_backend.Service.{Service}
use d_transfert_backend.Service.Keeps.{Keeps, Keeps-bind, Keeps-pure}
use d_transfert_backend.Frame.{Frame}
use d_transfert_backend.Wallets.{
  WalletCreateRequest, WalletUpdateRequest, create_wallet, update_wallet, set_wallet_status,
}
use d_transfert_backend.Clients.{create_client}
use d_transfert_backend.Exchange.Keeps.{get_or_create_client-Keeps}
use d_transfert_backend.Entries.Keeps.{create_entry-Keeps, merge_entries-Keeps, cancel_entry-Keeps}
use d_transfert_backend.Transfers.{add_transfer}
use d_transfert_backend.Transfers.Decisions.{approve_transfer, reject_transfer, cancel_transfer}
use d_transfert_backend.Transfers.Keeps.{create_transfer-Keeps}
use d_transfert_backend.Payments.{add_payment, approve_payment, reject_payment, cancel_payment}
use d_transfert_backend.Payments.Keeps.{create_payment-Keeps}
use d_transfert_backend.Operations.{add_operation, cancel_operation}
use d_transfert_backend.Operations.Keeps.{create_operation-Keeps}
use d_transfert_backend.Suppliers.Keeps.{create_supplier-Keeps, rebalance_supplier-Keeps}
use d_transfert_backend.Collaborations.{add_collaboration}
use d_transfert_backend.Collaborations.Keeps.{
  is_live, request_collaboration-Keeps, propose_rate_change-Keeps, reject_rate_proposal-Keeps,
}
use d_transfert_backend.PrivateRates.Keeps.{set_rate-Keeps, set_active_status-Keeps}
use d_transfert_backend.Collaborations.{
  CollaborationUpdateRequest, accept_collaboration, reject_collaboration, cancel_collaboration,
  update_collaboration, suspend_collaboration, archive_collaboration,
}
use d_transfert_backend.Collaborations.Proposals.{accept_rate_proposal}
use d_transfert_backend.System.{Request, perform, forget}

-- What an invariant has to allow besides its frame, service by service.
pub record AllowsWallets (P : Db → Type 0) : Type 0 where
  pub new_wallet : (c by : ℕ) (payload : WalletCreateRequest) → Keeps P (create_wallet c by payload)
  pub wallet_update :
      (c by i : ℕ) (payload : WalletUpdateRequest) → Keeps P (update_wallet c by i payload)
  pub wallet_status :
      (c by i : ℕ) (status : WalletStatus) → Keeps P (set_wallet_status c by i status)

pub record AllowsTransfers (P : Db → Type 0) : Type 0 where
  pub new_transfer : (t : Transfer) → Keeps P (add_transfer t)
  pub approval : (c by i w : ℕ) (p : Option ℕ) → Keeps P (approve_transfer c by i w p)
  pub rejection : (c by i : ℕ) (r : String) → Keeps P (reject_transfer c by i r)
  pub cancellation : (c by i : ℕ) → Keeps P (cancel_transfer c by i)

pub record AllowsPayments (P : Db → Type 0) : Type 0 where
  pub new_payment : (p : Payment) → Keeps P (add_payment p)
  pub approval : (c by i : ℕ) (p : Option ℕ) → Keeps P (approve_payment c by i p)
  pub rejection : (c by i : ℕ) (r : String) → Keeps P (reject_payment c by i r)
  pub cancellation : (c by i : ℕ) → Keeps P (cancel_payment c by i)

pub record AllowsOperations (P : Db → Type 0) : Type 0 where
  pub new_operation : (o : NationalOperation) → Keeps P (add_operation o)
  pub operation_cancellation : (c i by : ℕ) → Keeps P (cancel_operation c i by)

pub record AllowsCollaborations (P : Db → Type 0) : Type 0 where
  pub new_collaboration :
      (c : Collaboration) → is_live c.status ≡ true → Keeps P (add_collaboration c)
  pub accepted : (c by i : ℕ) → Keeps P (accept_collaboration c by i)
  pub rejected : (c by i : ℕ) → Keeps P (reject_collaboration c by i)
  pub cancelled : (c by i : ℕ) → Keeps P (cancel_collaboration c by i)
  pub updated :
      (c by i : ℕ) (p : CollaborationUpdateRequest) → Keeps P (update_collaboration c by i p)
  pub new_rate : (c by i j : ℕ) → Keeps P (accept_rate_proposal c by i j)
  pub suspended : (c by i : ℕ) → Keeps P (suspend_collaboration c by i)
  pub archived : (c by i : ℕ) → Keeps P (archive_collaboration c by i)

pub record Allows (P : Db → Type 0) : Type 0 where
  pub frame : Frame P
  pub rates : (x : List CollaborationRateHistory) (s : Db) → P s → P (record s { rates = x })
  pub private_rates :
      (x : List PrivateSendingRate) (s : Db) → P s → P (record s { private_rates = x })
  pub operation_lines :
      (x : List NationalOperationLine) (s : Db) → P s → P (record s { operation_lines = x })
  pub suppliers : (x : List Supplier) (s : Db) → P s → P (record s { suppliers = x })
  pub supplier_movements :
      (x : List SupplierBalanceMovement) (s : Db) → P s → P (record s { supplier_movements = x })
  pub system_logs : (x : List SystemLog) (s : Db) → P s → P (record s { system_logs = x })
  pub for_wallets : AllowsWallets P
  pub for_transfers : AllowsTransfers P
  pub for_payments : AllowsPayments P
  pub for_operations : AllowsOperations P
  pub for_collaborations : AllowsCollaborations P

forget-Keeps : {A : Type 0} {P : Db → Type 0} (m : Service A) → Keeps P m → Keeps P (forget m)
forget-Keeps m k = Keeps-bind m _ k (λ _. Keeps-pure tt)

module _ {P : Db → Type 0} (allows : Allows P) where
  create_client-Keeps : (c : ℕ) (name phone : String) → Keeps P (create_client c name phone)
  unfolding create_client
  create_client-Keeps c name phone =
      get_or_create_client-Keeps allows.frame c (some name) (some phone)

  pub perform-Keeps : (r : Request) → Keeps P (perform r)
  unfolding perform
  perform-Keeps (Request.create_wallet_request c by p) =
      forget-Keeps _ (allows.for_wallets.new_wallet c by p)
  perform-Keeps (Request.update_wallet_request c by i p) =
      forget-Keeps _ (allows.for_wallets.wallet_update c by i p)
  perform-Keeps (Request.wallet_status_request c by i st) =
      forget-Keeps _ (allows.for_wallets.wallet_status c by i st)
  perform-Keeps (Request.create_client_request c n p) = forget-Keeps _ (create_client-Keeps c n p)
  perform-Keeps (Request.create_entry_request c by p) =
      forget-Keeps _ (create_entry-Keeps allows.frame c by p)
  perform-Keeps (Request.merge_entries_request c by ids) =
      forget-Keeps _ (merge_entries-Keeps allows.frame c by ids)
  perform-Keeps (Request.cancel_entry_request c by i) =
      forget-Keeps _ (cancel_entry-Keeps allows.frame c by i)
  perform-Keeps (Request.create_transfer_request c by p) =
      forget-Keeps _ (create_transfer-Keeps allows.frame allows.for_transfers.new_transfer c by p)
  perform-Keeps (Request.approve_transfer_request c by i w p) =
      forget-Keeps _ (allows.for_transfers.approval c by i w p)
  perform-Keeps (Request.reject_transfer_request c by i r) =
      forget-Keeps _ (allows.for_transfers.rejection c by i r)
  perform-Keeps (Request.cancel_transfer_request c by i) =
      forget-Keeps _ (allows.for_transfers.cancellation c by i)
  perform-Keeps (Request.create_payment_request c by p) =
      forget-Keeps _ (create_payment-Keeps allows.frame allows.for_payments.new_payment c by p)
  perform-Keeps (Request.approve_payment_request c by i p) =
      forget-Keeps _ (allows.for_payments.approval c by i p)
  perform-Keeps (Request.reject_payment_request c by i r) =
      forget-Keeps _ (allows.for_payments.rejection c by i r)
  perform-Keeps (Request.cancel_payment_request c by i) =
      forget-Keeps _ (allows.for_payments.cancellation c by i)
  perform-Keeps (Request.collaboration_request c p) = forget-Keeps _ (
      request_collaboration-Keeps allows.frame allows.rates c p
        allows.for_collaborations.new_collaboration)
  perform-Keeps (Request.accept_collaboration_request c by i) =
      forget-Keeps _ (allows.for_collaborations.accepted c by i)
  perform-Keeps (Request.reject_collaboration_request c by i) =
      forget-Keeps _ (allows.for_collaborations.rejected c by i)
  perform-Keeps (Request.cancel_collaboration_request c by i) =
      forget-Keeps _ (allows.for_collaborations.cancelled c by i)
  perform-Keeps (Request.update_collaboration_request c by i p) =
      forget-Keeps _ (allows.for_collaborations.updated c by i p)
  perform-Keeps (Request.propose_rate_request c by i r) =
      forget-Keeps _ (propose_rate_change-Keeps allows.frame allows.rates c by i r)
  perform-Keeps (Request.accept_rate_request c by i j) =
      forget-Keeps _ (allows.for_collaborations.new_rate c by i j)
  perform-Keeps (Request.reject_rate_request c by i j) =
      forget-Keeps _ (reject_rate_proposal-Keeps allows.frame allows.rates c by i j)
  perform-Keeps (Request.suspend_collaboration_request c by i) =
      forget-Keeps _ (allows.for_collaborations.suspended c by i)
  perform-Keeps (Request.archive_collaboration_request c by i) =
      forget-Keeps _ (allows.for_collaborations.archived c by i)
  perform-Keeps (Request.create_operation_request c ty by p) = forget-Keeps _ (
      create_operation-Keeps allows.frame allows.operation_lines allows.for_operations.new_operation
        c ty by p)
  perform-Keeps (Request.cancel_operation_request c i by) =
      forget-Keeps _ (allows.for_operations.operation_cancellation c i by)
  perform-Keeps (Request.set_rate_request c by p) =
      forget-Keeps _ (set_rate-Keeps allows.frame.fresh allows.private_rates c by p)
  perform-Keeps (Request.rate_status_request c i a) =
      forget-Keeps _ (set_active_status-Keeps allows.frame.fresh allows.private_rates c i a)
  perform-Keeps (Request.create_supplier_request c p) =
      forget-Keeps _ (create_supplier-Keeps allows.frame allows.suppliers c p)
  perform-Keeps (Request.rebalance_supplier_request c by i p) =
      forget-Keeps _
        (rebalance_supplier-Keeps allows.frame allows.suppliers allows.supplier_movements c by i p)
