-- ===== src/System/Supervisors.antt =====
-- There is always an active super admin, in every history of the program.
use d_transfert_backend.Database.{Db}
use d_transfert_backend.Frame.{Frame}
use d_transfert_backend.Frame.Plain.{
  apply_movement-Keeps, create_new_client-Keeps, apply_balance_delta-Keeps, reverse_movements-Keeps,
}
use d_transfert_backend.Platform.Supervision.{IsSupervised}
use d_transfert_backend.Platform.Supervision.Calls.{IsSupervised-platform}
use d_transfert_backend.Platform.Requests.{handle_platform-Keeps}
use d_transfert_backend.System.{Step, Steps}
use d_transfert_backend.System.Frames.{Allows}
use d_transfert_backend.System.Quiet.{
  quiet_wallets, quiet_transfers, quiet_payments, quiet_operations, quiet_collaborations,
}
use d_transfert_backend.System.Histories.{handle-Keeps}

-- No request that moves money writes to the users.
IsSupervised-frame : Frame IsSupervised
IsSupervised-frame = record {
  fresh = λ s h. h;
  audit_logs = λ x s h. h;
  notifications = λ x s h. h;
  entries = λ x s h. h;
  entry_lines = λ x s h. h;
  allocations = λ x s h. h;
  proofs = λ x s h. h;
  transfer_history = λ x s h. h;
  payment_history = λ x s h. h;
  collaborator_movements = λ x s h. h;
  movement = apply_movement-Keeps (λ x s h. h) (λ x s h. h);
  new_client = create_new_client-Keeps (λ s h. h) (λ x s h. h) (λ x s h. h);
  delta = λ i amount source source_id currency by c.
      apply_balance_delta-Keeps (λ s h. h) (λ x s h. h) (λ x s h. h) i amount source source_id
        currency by;
  reversal = reverse_movements-Keeps (λ s h. h) (λ x s h. h) (λ x s h. h);
}

IsSupervised-allows : Allows IsSupervised
IsSupervised-allows = record {
  frame = IsSupervised-frame;
  rates = λ x s h. h;
  private_rates = λ x s h. h;
  suppliers = λ x s h. h;
  supplier_movements = λ x s h. h;
  operation_lines = λ x s h. h;
  system_logs = λ x s h. h;
  for_wallets = quiet_wallets IsSupervised-frame (λ x s h. h);
  for_transfers = quiet_transfers IsSupervised-frame (λ x s h. h);
  for_payments = quiet_payments IsSupervised-frame (λ x s h. h);
  for_operations = quiet_operations IsSupervised-frame (λ x s h. h) (λ x s h. h);
  for_collaborations = quiet_collaborations IsSupervised-frame (λ x s h. h) (λ x s h. h);
}

-- Whatever the requests and their order, the deletion of a company aside, from users of whom at least one is an active super admin, no
-- super admin belongs to a company and no two share an id, every later database has users of that
-- kind: the last active super admin is never suspended or deleted.
pub history-IsSupervised : {s t : Db} → IsSupervised s → Steps s t → IsSupervised t
history-IsSupervised h Steps.start = h
history-IsSupervised h (Steps.then {t = s} before (Step.request at r)) =
    handle-Keeps IsSupervised-allows at r s (history-IsSupervised h before)
history-IsSupervised h (Steps.then {t = s} before (Step.platform host at r)) =
    handle_platform-Keeps IsSupervised-platform host at r s (history-IsSupervised h before)
history-IsSupervised h (Steps.then before (Step.clock now today)) = history-IsSupervised h before
history-IsSupervised h (Steps.then before (Step.others p a n l)) = history-IsSupervised h before
