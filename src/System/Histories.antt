-- ===== src/System/Histories.antt =====
-- Every history of the program keeps the cash ledger and the client journal in order.
use d_transfert_backend.Database.{Db}
use d_transfert_backend.Base.{String}
use d_transfert_backend.Handlers.{Keeps-answered}
use d_transfert_backend.Wallets.Ledger.{IsSound}
use d_transfert_backend.Wallets.Sound.{
  create_wallet-IsSound, update_wallet-IsSound, set_wallet_status-IsSound,
}
use d_transfert_backend.Clients.Ledger.{IsBooked}
use d_transfert_backend.Consistency.{IsSound-frame, IsBooked-frame}
use d_transfert_backend.Platform.Requests.{AllowsPlatform, quiet_platform, handle_platform-Keeps}
use d_transfert_backend.System.{Request, perform, handle, Step, Steps}
use d_transfert_backend.System.Frames.{Allows, perform-Keeps}
use d_transfert_backend.System.Quiet.{
  quiet_wallets, quiet_transfers, quiet_payments, quiet_operations, quiet_collaborations,
}

module _ {P : Db → Type 0} (allows : Allows P) where
  pub handle-Keeps : (source : String) (r : Request) (s : Db) → P s → P (handle source r s)
  handle-Keeps source r s h =
      Keeps-answered (λ level at t k. allows.system_logs _ t k) (perform r) (perform-Keeps allows r)
        source s h

IsSound-allows : Allows IsSound
IsSound-allows = record {
  frame = IsSound-frame;
  rates = λ x s h. h;
  private_rates = λ x s h. h;
  suppliers = λ x s h. h;
  supplier_movements = λ x s h. h;
  operation_lines = λ x s h. h;
  system_logs = λ x s h. h;
  for_wallets = record {
    new_wallet = create_wallet-IsSound;
    wallet_update = update_wallet-IsSound;
    wallet_status = set_wallet_status-IsSound;
  };
  for_transfers = quiet_transfers IsSound-frame (λ x s h. h);
  for_payments = quiet_payments IsSound-frame (λ x s h. h);
  for_operations = quiet_operations IsSound-frame (λ x s h. h) (λ x s h. h);
  for_collaborations = quiet_collaborations IsSound-frame (λ x s h. h) (λ x s h. h);
}

IsBooked-allows : Allows IsBooked
IsBooked-allows = record {
  frame = IsBooked-frame;
  rates = λ x s h. h;
  private_rates = λ x s h. h;
  suppliers = λ x s h. h;
  supplier_movements = λ x s h. h;
  operation_lines = λ x s h. h;
  system_logs = λ x s h. h;
  for_wallets = quiet_wallets IsBooked-frame (λ x s h. h);
  for_transfers = quiet_transfers IsBooked-frame (λ x s h. h);
  for_payments = quiet_payments IsBooked-frame (λ x s h. h);
  for_operations = quiet_operations IsBooked-frame (λ x s h. h) (λ x s h. h);
  for_collaborations = quiet_collaborations IsBooked-frame (λ x s h. h) (λ x s h. h);
}

IsSound-platform : AllowsPlatform IsSound
IsSound-platform =
    quiet_platform
      (record {
        fresh = IsSound-frame.fresh;
        companies = λ x s h. h;
        overrides = λ x s h. h;
        otps = λ x s h. h;
        revoked_tokens = λ x s h. h;
        settings = λ x s h. h;
        subscriptions = λ x s h. h;
        system_logs = λ x s h. h;
        audit_logs = λ x s h. h;
      })
      (λ x s h. h)

-- Whatever the requests and their order, the deletion of a company aside, from a database whose
-- cash ledger is sound every later one has a sound cash ledger: no wallet is negative or holds a
-- fraction of a cent, and each balance is what the movements of the wallet add up to.
pub history-IsSound : {s t : Db} → IsSound s → Steps s t → IsSound t
history-IsSound sound Steps.start = sound
history-IsSound sound (Steps.then before (Step.request at r)) =
    handle-Keeps IsSound-allows at r _ (history-IsSound sound before)
history-IsSound sound (Steps.then before (Step.clock now today)) = history-IsSound sound before
history-IsSound sound (Steps.then {t = s} before (Step.platform host at r)) =
    handle_platform-Keeps IsSound-platform host at r s (history-IsSound sound before)
history-IsSound sound (Steps.then before (Step.others p a n l)) = history-IsSound sound before

IsBooked-platform : AllowsPlatform IsBooked
IsBooked-platform =
    quiet_platform
      (record {
        fresh = IsBooked-frame.fresh;
        companies = λ x s h. h;
        overrides = λ x s h. h;
        otps = λ x s h. h;
        revoked_tokens = λ x s h. h;
        settings = λ x s h. h;
        subscriptions = λ x s h. h;
        system_logs = λ x s h. h;
        audit_logs = λ x s h. h;
      })
      (λ x s h. h)

-- Whatever the requests and their order, the deletion of a company aside, the balance of every
-- client stays the sum of the client's movements, in whole cents.
pub history-IsBooked : {s t : Db} → IsBooked s → Steps s t → IsBooked t
history-IsBooked journal Steps.start = journal
history-IsBooked journal (Steps.then before (Step.request at r)) =
    handle-Keeps IsBooked-allows at r _ (history-IsBooked journal before)
history-IsBooked journal (Steps.then before (Step.clock now today)) =
    history-IsBooked journal before
history-IsBooked journal (Steps.then {t = s} before (Step.platform host at r)) =
    handle_platform-Keeps IsBooked-platform host at r s (history-IsBooked journal before)
history-IsBooked journal (Steps.then before (Step.others p a n l)) = history-IsBooked journal before
