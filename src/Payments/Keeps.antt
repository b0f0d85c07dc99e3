-- ===== src/Payments/Keeps.antt =====
-- The operations of payment_service keep every invariant that has a `Frame` and allows the writes
-- to the payment at hand.
use d_transfert_backend.Base.{ℕ, String, Option, ◌≡◌}
use d_transfert_backend.Models.{Payment, StatusHistory, ProofStatus}
use d_transfert_backend.Database.{Db}
use d_transfert_backend.Service.Keeps.{Keeps, Keeps-modify, Keeps-bind, Keeps-bind_where}
use d_transfert_backend.Frame.{Frame, frame_rules}
use d_transfert_backend.Entries.Keeps.{lock_owned-Keeps, lock_existing-Keeps}
use d_transfert_backend.Exchange.Keeps.{exchange_rules}
use d_transfert_backend.Transfers.Keeps.{
  plan_for-Returns, plan_for-Keeps, add_collaborator_movement-Keeps,
}
use d_transfert_backend.Payments.{
  generate_reference, get_payment_for_party, add_payment, change_payment, add_history,
  set_proof_status, check_wallet, pay_out, PaymentCreateRequest, create_payment, approve_payment,
  reject_payment, cancel_payment,
}

module _ {P : Db → Type 0} (frame : Frame P) where
  generate_reference-Keeps : (company_id : ℕ) → Keeps P (generate_reference company_id)
  unfolding generate_reference
  generate_reference-Keeps company_id = search frame_rules

  get_payment_for_party-Keeps : (company_id i : ℕ) → Keeps P (get_payment_for_party company_id i)
  unfolding get_payment_for_party
  get_payment_for_party-Keeps company_id i = search frame_rules depth 8

  add_history-Keeps : (row : StatusHistory) → Keeps P (add_history row)
  unfolding add_history
  add_history-Keeps row = Keeps-modify _ (λ s h. frame.payment_history _ s h)

  set_proof_status-Keeps : (i : ℕ) (status : ProofStatus) → Keeps P (set_proof_status i status)
  unfolding set_proof_status
  set_proof_status-Keeps i status = Keeps-modify _ (λ s h. frame.proofs _ s h)

  check_wallet-Keeps :
      (company_id : ℕ) (currency : String) (i : ℕ) → Keeps P (check_wallet company_id currency i)
  unfolding check_wallet
  check_wallet-Keeps company_id currency i = search (frame_rules, lock_owned-Keeps)

  pay_out-Keeps : (i : ℕ) (p : Payment) (by : ℕ) → Keeps P (pay_out i p by)
  unfolding pay_out
  pay_out-Keeps i p by = search (frame_rules, lock_existing-Keeps)

ruleset payment_rules = (
  exchange_rules, generate_reference-Keeps, get_payment_for_party-Keeps, add_history-Keeps,
  add_collaborator_movement-Keeps, set_proof_status-Keeps, check_wallet-Keeps, pay_out-Keeps,
)

module _ {P : Db → Type 0} (frame : Frame P) (add : (p : Payment) → Keeps P (add_payment p)) where
  pub create_payment-Keeps :
      (company_id by : ℕ) (payload : PaymentCreateRequest)
      → Keeps P (create_payment company_id by payload)
  unfolding create_payment
  create_payment-Keeps company_id by payload =
      Keeps-bind _ _ (search payment_rules) λ collaboration.
        Keeps-bind _ _ (search payment_rules) λ rate.
          Keeps-bind _ _ (search payment_rules) λ balance.
            Keeps-bind_where _ _ _ (plan_for-Returns _ _ _) (plan_for-Keeps frame _ _ _)
              λ planned cents. search (payment_rules, add, cents) depth 16

module _ {P : Db → Type 0} (frame : Frame P) (payment_id : ℕ)
    (change : (f : Payment → Payment)
      → ((p : Payment) → (f p).id ≡ p.id)
      → Keeps P (change_payment payment_id f)) where
  pub approve_payment-Keeps :
      (company_id by : ℕ) (proof : Option ℕ)
      → Keeps P (approve_payment company_id by payment_id proof)
  unfolding approve_payment
  approve_payment-Keeps company_id by proof = search (payment_rules, change) depth 18

  pub reject_payment-Keeps :
      (company_id by : ℕ) (reason : String)
      → Keeps P (reject_payment company_id by payment_id reason)
  unfolding reject_payment
  reject_payment-Keeps company_id by reason = search (payment_rules, change) depth 18

  pub cancel_payment-Keeps : (company_id by : ℕ) → Keeps P (cancel_payment company_id by payment_id)
  unfolding cancel_payment
  cancel_payment-Keeps company_id by = search (payment_rules, change) depth 18
