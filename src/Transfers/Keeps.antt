-- ===== src/Transfers/Keeps.antt =====
-- The operations of transfer_service keep every invariant that has a `Frame` and allows the writes
-- to the transfer at hand.
use d_transfert_backend.Base.{ℕ, String, Option, none, some, ◌≡◌}
use d_transfert_backend.Models.{Transfer, StatusHistory, CollaboratorBalanceMovement, ProofStatus}
use d_transfert_backend.Database.{Db}
use d_transfert_backend.Service.Keeps.{Keeps, Returns, Keeps-modify, Keeps-bind, Keeps-bind_where}
use d_transfert_backend.Service.Returns.{
  Returns-pure, Returns-query, Returns-bind, Returns-bind_where,
}
use d_transfert_backend.Frame.{Frame, frame_rules}
use d_transfert_backend.Entries.Keeps.{load_full-Keeps, lock_owned-Keeps}
use d_transfert_backend.Exchange.{ExchangeRequest}
use d_transfert_backend.Exchange.Split.{
  PlanInCents, plan_with_entry-PlanInCents, plan_direct-PlanInCents,
}
use d_transfert_backend.Exchange.Keeps.{exchange_rules}
use d_transfert_backend.Transfers.{
  generate_reference, get_transfer_for_party, add_transfer, change_transfer, add_history,
  add_collaborator_movement, set_proof_status, plan_for, TransferCreateRequest, create_transfer,
}
use d_transfert_backend.Transfers.Decisions.{
  attach_proof, approve_transfer, reject_transfer, cancel_transfer,
}

-- The amounts of the plan are whole numbers of cents.
pub plan_for-Returns :
    (company_id : ℕ) (payload : ExchangeRequest) (entry_id : Option ℕ)
    → Returns (λ r. PlanInCents r.1) (plan_for company_id payload entry_id)
unfolding plan_for
plan_for-Returns company_id payload none = Returns-pure _ (plan_direct-PlanInCents payload)
plan_for-Returns company_id payload (some entry_id) = Returns-bind _ _ λ loaded.
    Returns-bind_where (λ p. PlanInCents p) _ _
      (Returns-query _ (λ s p h. plan_with_entry-PlanInCents payload loaded h))
      λ plan c. Returns-pure _ c

module _ {P : Db → Type 0} (frame : Frame P) where
  pub generate_reference-Keeps : (company_id : ℕ) → Keeps P (generate_reference company_id)
  unfolding generate_reference
  generate_reference-Keeps company_id = search frame_rules

  pub get_transfer_for_party-Keeps :
      (company_id i : ℕ) → Keeps P (get_transfer_for_party company_id i)
  unfolding get_transfer_for_party
  get_transfer_for_party-Keeps company_id i = search frame_rules depth 8

  pub add_history-Keeps : (row : StatusHistory) → Keeps P (add_history row)
  unfolding add_history
  add_history-Keeps row = Keeps-modify _ (λ s h. frame.transfer_history _ s h)

  pub add_collaborator_movement-Keeps :
      (row : CollaboratorBalanceMovement) → Keeps P (add_collaborator_movement row)
  unfolding add_collaborator_movement
  add_collaborator_movement-Keeps row = Keeps-modify _ (λ s h. frame.collaborator_movements _ s h)

  pub set_proof_status-Keeps : (i : ℕ) (status : ProofStatus) → Keeps P (set_proof_status i status)
  unfolding set_proof_status
  set_proof_status-Keeps i status = Keeps-modify _ (λ s h. frame.proofs _ s h)

  pub plan_for-Keeps :
      (company_id : ℕ) (payload : ExchangeRequest) (entry_id : Option ℕ)
      → Keeps P (plan_for company_id payload entry_id)
  unfolding plan_for
  plan_for-Keeps company_id payload none = search frame_rules
  plan_for-Keeps company_id payload (some entry_id) = search (frame_rules, load_full-Keeps frame)

ruleset transfer_rules = (
  exchange_rules, generate_reference-Keeps, get_transfer_for_party-Keeps, add_history-Keeps,
  add_collaborator_movement-Keeps, set_proof_status-Keeps, lock_owned-Keeps,
)

module _ {P : Db → Type 0} (frame : Frame P) (add : (t : Transfer) → Keeps P (add_transfer t)) where
  pub create_transfer-Keeps :
      (company_id by : ℕ) (payload : TransferCreateRequest)
      → Keeps P (create_transfer company_id by payload)
  unfolding create_transfer
  create_transfer-Keeps company_id by payload =
      Keeps-bind _ _ (search transfer_rules) λ collaboration.
        Keeps-bind _ _ (search transfer_rules) λ rate.
          Keeps-bind _ _ (search transfer_rules) λ candidates.
            Keeps-bind _ _ (search transfer_rules) λ private_rate.
              Keeps-bind_where _ _ _ (plan_for-Returns _ _ _) (plan_for-Keeps frame _ _ _)
                λ planned cents. search (transfer_rules, add, cents) depth 14

module _ {P : Db → Type 0} (frame : Frame P) (transfer_id : ℕ)
    (change : (f : Transfer → Transfer)
      → ((t : Transfer) → (f t).id ≡ t.id)
      → Keeps P (change_transfer transfer_id f)) where
  attach_proof-Keeps :
      (company_id : ℕ) (proof : Option ℕ) → Keeps P (attach_proof company_id transfer_id proof)
  unfolding attach_proof
  attach_proof-Keeps company_id proof = search (frame_rules, change) depth 8

  pub approve_transfer-Keeps :
      (company_id by wallet_id : ℕ) (proof : Option ℕ)
      → Keeps P (approve_transfer company_id by transfer_id wallet_id proof)
  unfolding approve_transfer
  approve_transfer-Keeps company_id by wallet_id proof =
      search (transfer_rules, change, attach_proof-Keeps) depth 18

  pub reject_transfer-Keeps :
      (company_id by : ℕ) (reason : String)
      → Keeps P (reject_transfer company_id by transfer_id reason)
  unfolding reject_transfer
  reject_transfer-Keeps company_id by reason = search (transfer_rules, change) depth 18

  pub cancel_transfer-Keeps :
      (company_id by : ℕ) → Keeps P (cancel_transfer company_id by transfer_id)
  unfolding cancel_transfer
  cancel_transfer-Keeps company_id by = search (transfer_rules, change) depth 18
