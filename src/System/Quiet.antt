-- ===== src/System/Quiet.antt =====
-- An invariant that does not read the table of a service allows every write of that service.
use d_transfert_backend.Base.{ℕ, List}
use d_transfert_backend.Models.{
  Wallet, Transfer, Payment, Collaboration, CollaborationRateHistory, NationalOperation,
  NationalOperationLine, WalletStatus,
}
use d_transfert_backend.Database.{Db}
use d_transfert_backend.Service.Keeps.{Keeps, Keeps-modify}
use d_transfert_backend.Frame.{Frame, frame_rules}
use d_transfert_backend.Wallets.{
  WalletCreateRequest, WalletUpdateRequest, create_wallet, update_wallet, set_wallet_status,
  add_wallet, change_wallet, get_wallet,
}
use d_transfert_backend.Transfers.{add_transfer, change_transfer}
use d_transfert_backend.Transfers.Keeps.{
  approve_transfer-Keeps, reject_transfer-Keeps, cancel_transfer-Keeps,
}
use d_transfert_backend.Payments.{add_payment, change_payment}
use d_transfert_backend.Payments.Keeps.{
  approve_payment-Keeps, reject_payment-Keeps, cancel_payment-Keeps,
}
use d_transfert_backend.Operations.{add_operation, change_operation}
use d_transfert_backend.Operations.Keeps.{cancel_operation-Keeps}
use d_transfert_backend.Collaborations.{add_collaboration, change_collaboration}
use d_transfert_backend.Collaborations.Keeps.{
  accept_collaboration-Keeps, reject_collaboration-Keeps, cancel_collaboration-Keeps,
  update_collaboration-Keeps, accept_rate_proposal-Keeps, suspend_collaboration-Keeps,
  archive_collaboration-Keeps,
}
use d_transfert_backend.System.Frames.{
  AllowsWallets, AllowsTransfers, AllowsPayments, AllowsOperations, AllowsCollaborations,
}

module _ {P : Db → Type 0} (frame : Frame P)
    (wallets : (x : List Wallet) (s : Db) → P s → P (record s { wallets = x })) where
  add_wallet-Keeps : (w : Wallet) → Keeps P (add_wallet w)
  unfolding add_wallet
  add_wallet-Keeps w = Keeps-modify _ (λ s h. wallets _ s h)

  change_wallet-Keeps : (i : ℕ) (f : Wallet → Wallet) → Keeps P (change_wallet i f)
  unfolding change_wallet
  change_wallet-Keeps i f = Keeps-modify _ (λ s h. wallets _ s h)

  get_wallet-Keeps : (c i : ℕ) → Keeps P (get_wallet c i)
  unfolding get_wallet
  get_wallet-Keeps c i = search frame_rules

  create_wallet-Keeps :
      (c by : ℕ) (payload : WalletCreateRequest) → Keeps P (create_wallet c by payload)
  unfolding create_wallet
  create_wallet-Keeps c by payload = search (frame_rules, add_wallet-Keeps) depth 10

  update_wallet-Keeps :
      (c by i : ℕ) (payload : WalletUpdateRequest) → Keeps P (update_wallet c by i payload)
  unfolding update_wallet
  update_wallet-Keeps c by i payload =
      search (frame_rules, get_wallet-Keeps, change_wallet-Keeps) depth 10

  set_wallet_status-Keeps :
      (c by i : ℕ) (status : WalletStatus) → Keeps P (set_wallet_status c by i status)
  unfolding set_wallet_status
  set_wallet_status-Keeps c by i status =
      search (frame_rules, get_wallet-Keeps, change_wallet-Keeps) depth 10

  pub quiet_wallets : AllowsWallets P
  quiet_wallets = record {
    new_wallet = create_wallet-Keeps;
    wallet_update = update_wallet-Keeps;
    wallet_status = set_wallet_status-Keeps;
  }

module _ {P : Db → Type 0} (frame : Frame P)
    (transfers : (x : List Transfer) (s : Db) → P s → P (record s { transfers = x })) where
  add_transfer-Keeps : (t : Transfer) → Keeps P (add_transfer t)
  unfolding add_transfer
  add_transfer-Keeps t = Keeps-modify _ (λ s h. transfers _ s h)

  change_transfer-Keeps : (i : ℕ) (f : Transfer → Transfer) → Keeps P (change_transfer i f)
  unfolding change_transfer
  change_transfer-Keeps i f = Keeps-modify _ (λ s h. transfers _ s h)

  pub quiet_transfers : AllowsTransfers P
  quiet_transfers = record {
    new_transfer = add_transfer-Keeps;
    approval =
        λ c by i w p. approve_transfer-Keeps frame i (λ f h. change_transfer-Keeps i f) c by w p;
    rejection = λ c by i r. reject_transfer-Keeps frame i (λ f h. change_transfer-Keeps i f) c by r;
    cancellation = λ c by i. cancel_transfer-Keeps frame i (λ f h. change_transfer-Keeps i f) c by;
  }

module _ {P : Db → Type 0} (frame : Frame P)
    (payments : (x : List Payment) (s : Db) → P s → P (record s { payments = x })) where
  add_payment-Keeps : (p : Payment) → Keeps P (add_payment p)
  unfolding add_payment
  add_payment-Keeps p = Keeps-modify _ (λ s h. payments _ s h)

  change_payment-Keeps : (i : ℕ) (f : Payment → Payment) → Keeps P (change_payment i f)
  unfolding change_payment
  change_payment-Keeps i f = Keeps-modify _ (λ s h. payments _ s h)

  pub quiet_payments : AllowsPayments P
  quiet_payments = record {
    new_payment = add_payment-Keeps;
    approval = λ c by i p. approve_payment-Keeps frame i (λ f h. change_payment-Keeps i f) c by p;
    rejection = λ c by i r. reject_payment-Keeps frame i (λ f h. change_payment-Keeps i f) c by r;
    cancellation = λ c by i. cancel_payment-Keeps frame i (λ f h. change_payment-Keeps i f) c by;
  }

module _ {P : Db → Type 0} (frame : Frame P)
    (lines : (x : List NationalOperationLine) (s : Db) → P s → P (record s { operation_lines = x }))
    (operations : (x : List NationalOperation) (s : Db)
      → P s
      → P (record s { operations = x })) where
  add_operation-Keeps : (o : NationalOperation) → Keeps P (add_operation o)
  unfolding add_operation
  add_operation-Keeps o = Keeps-modify _ (λ s h. operations _ s h)

  change_operation-Keeps :
      (i : ℕ) (f : NationalOperation → NationalOperation) → Keeps P (change_operation i f)
  unfolding change_operation
  change_operation-Keeps i f = Keeps-modify _ (λ s h. operations _ s h)

  pub quiet_operations : AllowsOperations P
  quiet_operations = record {
    new_operation = add_operation-Keeps;
    operation_cancellation = λ c i by.
        cancel_operation-Keeps frame lines add_operation-Keeps c i by
          (λ f h. change_operation-Keeps i f);
  }

module _ {P : Db → Type 0} (frame : Frame P)
    (rates : (x : List CollaborationRateHistory) (s : Db) → P s → P (record s { rates = x }))
    (collaborations : (x : List Collaboration) (s : Db)
      → P s
      → P (record s { collaborations = x })) where
  add_collaboration-Keeps : (c : Collaboration) → Keeps P (add_collaboration c)
  unfolding add_collaboration
  add_collaboration-Keeps c = Keeps-modify _ (λ s h. collaborations _ s h)

  change_collaboration-Keeps :
      (i : ℕ) (f : Collaboration → Collaboration) → Keeps P (change_collaboration i f)
  unfolding change_collaboration
  change_collaboration-Keeps i f = Keeps-modify _ (λ s h. collaborations _ s h)

  pub quiet_collaborations : AllowsCollaborations P
  quiet_collaborations = record {
    new_collaboration = λ c l. add_collaboration-Keeps c;
    accepted = λ c by i.
        accept_collaboration-Keeps frame rates i (λ f h l. change_collaboration-Keeps i f) c by;
    rejected = λ c by i.
        reject_collaboration-Keeps frame rates i (λ f h l. change_collaboration-Keeps i f) c by;
    cancelled = λ c by i.
        cancel_collaboration-Keeps frame rates i (λ f h l. change_collaboration-Keeps i f) c by;
    updated = λ c by i p.
        update_collaboration-Keeps frame rates i (λ f h l. change_collaboration-Keeps i f) c by p;
    new_rate = λ c by i j.
        accept_rate_proposal-Keeps frame rates i (λ f h l. change_collaboration-Keeps i f) c by j;
    suspended = λ c by i. suspend_collaboration-Keeps c by i;
    archived = λ c by i. archive_collaboration-Keeps c by i;
  }
