-- ===== src/System/Finality.antt =====
-- What is decided stays decided, in every history of the program.
use d_transfert_backend.Base.{ℕ, ◌≡◌, some, false}
use d_transfert_backend.Models.{Transfer, Payment, transfer_keyed, payment_keyed, is_pending}
use d_transfert_backend.Table.{find}
use d_transfert_backend.Database.{Db}
use d_transfert_backend.Transfers.Final.{
  Holds, transfer_frame, add_transfer-Holds, approve_transfer-Holds, reject_transfer-Holds,
  cancel_transfer-Holds,
}
use d_transfert_backend.Payments.Final.{
  Holds as PaymentHolds, payment_frame, add_payment-Holds, approve_payment-Holds,
  reject_payment-Holds, cancel_payment-Holds,
}
use d_transfert_backend.Platform.Requests.{AllowsPlatform, quiet_platform, handle_platform-Keeps}
use d_transfert_backend.System.{Step, Steps}
use d_transfert_backend.System.Frames.{Allows}
use d_transfert_backend.System.Quiet.{
  quiet_wallets, quiet_transfers, quiet_payments, quiet_operations, quiet_collaborations,
}
use d_transfert_backend.System.Histories.{handle-Keeps}

module _ (i : ℕ) (t : Transfer) (decided : is_pending t.status ≡ false) where
  transfer_platform : AllowsPlatform (Holds i t)
  transfer_platform =
      quiet_platform
        (record {
          fresh = λ s h. h;
          companies = λ x s h. h;
          overrides = λ x s h. h;
          otps = λ x s h. h;
          revoked_tokens = λ x s h. h;
          settings = λ x s h. h;
          subscriptions = λ x s h. h;
          system_logs = λ x s h. h;
          audit_logs = λ x s h. h;
        })
        (λ x s h. h)

  transfer_allows : Allows (Holds i t)
  transfer_allows = record {
    frame = transfer_frame i t;
    rates = λ x s h. h;
    private_rates = λ x s h. h;
    suppliers = λ x s h. h;
    supplier_movements = λ x s h. h;
    operation_lines = λ x s h. h;
    system_logs = λ x s h. h;
    for_wallets = quiet_wallets (transfer_frame i t) (λ x s h. h);
    for_transfers = record {
      new_transfer = add_transfer-Holds i t;
      approval = approve_transfer-Holds i t decided;
      rejection = reject_transfer-Holds i t decided;
      cancellation = cancel_transfer-Holds i t decided;
    };
    for_payments = quiet_payments (transfer_frame i t) (λ x s h. h);
    for_operations = quiet_operations (transfer_frame i t) (λ x s h. h) (λ x s h. h);
    for_collaborations = quiet_collaborations (transfer_frame i t) (λ x s h. h) (λ x s h. h);
  }

  -- A transfer that is no longer pending is the same row after every history, in which no company is
  -- deleted: no request approves, rejects, cancels or otherwise changes it again.
  pub decided_transfer_final :
      {s u : Db} → find i s.transfers ≡ some t → Steps s u → find i u.transfers ≡ some t
  decided_transfer_final h Steps.start = h
  decided_transfer_final h (Steps.then {t = s} before (Step.request at r)) =
      handle-Keeps transfer_allows at r s (decided_transfer_final h before)
  decided_transfer_final h (Steps.then before (Step.clock now today)) =
      decided_transfer_final h before
  decided_transfer_final h (Steps.then {t = s} before (Step.platform host at r)) =
      handle_platform-Keeps transfer_platform host at r s (decided_transfer_final h before)
  decided_transfer_final h (Steps.then before (Step.others p a n l)) =
      decided_transfer_final h before

module _ (i : ℕ) (p : Payment) (decided : is_pending p.status ≡ false) where
  payment_platform : AllowsPlatform (PaymentHolds i p)
  payment_platform =
      quiet_platform
        (record {
          fresh = λ s h. h;
          companies = λ x s h. h;
          overrides = λ x s h. h;
          otps = λ x s h. h;
          revoked_tokens = λ x s h. h;
          settings = λ x s h. h;
          subscriptions = λ x s h. h;
          system_logs = λ x s h. h;
          audit_logs = λ x s h. h;
        })
        (λ x s h. h)

  payment_allows : Allows (PaymentHolds i p)
  payment_allows = record {
    frame = payment_frame i p;
    rates = λ x s h. h;
    private_rates = λ x s h. h;
    suppliers = λ x s h. h;
    supplier_movements = λ x s h. h;
    operation_lines = λ x s h. h;
    system_logs = λ x s h. h;
    for_wallets = quiet_wallets (payment_frame i p) (λ x s h. h);
    for_transfers = quiet_transfers (payment_frame i p) (λ x s h. h);
    for_payments = record {
      new_payment = add_payment-Holds i p;
      approval = approve_payment-Holds i p decided;
      rejection = reject_payment-Holds i p decided;
      cancellation = cancel_payment-Holds i p decided;
    };
    for_operations = quiet_operations (payment_frame i p) (λ x s h. h) (λ x s h. h);
    for_collaborations = quiet_collaborations (payment_frame i p) (λ x s h. h) (λ x s h. h);
  }

  -- A payment that is no longer pending is the same row after every history, in which no
  -- company is deleted.
  pub decided_payment_final :
      {s u : Db} → find i s.payments ≡ some p → Steps s u → find i u.payments ≡ some p
  decided_payment_final h Steps.start = h
  decided_payment_final h (Steps.then {t = s} before (Step.request at r)) =
      handle-Keeps payment_allows at r s (decided_payment_final h before)
  decided_payment_final h (Steps.then before (Step.clock now today)) =
      decided_payment_final h before
  decided_payment_final h (Steps.then {t = s} before (Step.platform host at r)) =
      handle_platform-Keeps payment_platform host at r s (decided_payment_final h before)
  decided_payment_final h (Steps.then before (Step.others q a n l)) = decided_payment_final h before
