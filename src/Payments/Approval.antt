-- ===== src/Payments/Approval.antt =====
-- What the approval of a payment does to the balance between the companies.
use d_transfert_backend.Base.{
  ℕ, ◌≡◌, ◌≢◌, refl, sym, ap, ◌∙◌, String, Option, some, List, [], ◌∷◌, ◌++◌, true, false, nat_eq,
  if◌then◌else◌, arith, Bool-cases, inl, inr,
}
use d_transfert_backend.Int.{◌+ℤ◌, ◌-ℤ◌, int_laws}
use d_transfert_backend.Money.{Decimal, zero_amount}
use d_transfert_backend.Errors.{ok}
use d_transfert_backend.Table.{find, provided}
use d_transfert_backend.Models.{
  Payment, Collaboration, CollaboratorBalanceMovement, StatusHistory, ProofStatus, NotificationType,
  payment_keyed, collaboration_keyed, MovementDirection,
}
use d_transfert_backend.Database.{Db}
use d_transfert_backend.Service.{modify}
use d_transfert_backend.Service.Keeps.{Keeps, Keeps-modify, keeps_rules}
use d_transfert_backend.Service.Guarded.{
  Yields, Yields-pure, Yields-gets, Yields-or_raise, Yields-bind,
}
use d_transfert_backend.Service.Triple.{
  Triple, Triple-bind, Triple-Keeps, Triple-after, Triple-ok, Triple-post, Triple-given,
  Triple-Yields,
}
use d_transfert_backend.Audit.{log_action, notify}
use d_transfert_backend.Wallets.{apply_movement}
use d_transfert_backend.Frame.Plain.{apply_movement-Keeps}
use d_transfert_backend.Locking.{lock_existing}
use d_transfert_backend.Exchange.{is_party}
use d_transfert_backend.Transfers.{add_collaborator_movement}
use d_transfert_backend.Collaborations.{balance_for_company}
use d_transfert_backend.Collaborations.Balance.{balance-append, part}
use d_transfert_backend.Payments.{
  PaymentFor, get_payment_for_party, change_payment, add_history, set_proof_status, pay_out,
  debtor_of, creditor_of, approve_payment,
}

abbrev At : List CollaboratorBalanceMovement → Db → Type 0
At rows s = s.collaborator_movements ≡ rows

module _ (rows : List CollaboratorBalanceMovement) where
  change_payment-At : (j : ℕ) (f : Payment → Payment) → Keeps (At rows) (change_payment j f)
  unfolding change_payment
  change_payment-At j f = Keeps-modify _ (λ s h. h)

  add_history-At : (row : StatusHistory) → Keeps (At rows) (add_history row)
  unfolding add_history
  add_history-At row = Keeps-modify _ (λ s h. h)

  set_proof_status-At : (j : ℕ) (status : ProofStatus) → Keeps (At rows) (set_proof_status j status)
  unfolding set_proof_status
  set_proof_status-At j status = Keeps-modify _ (λ s h. h)

  log_action-At : (c u : ℕ) (a e : String) (j : ℕ) → Keeps (At rows) (log_action c u a e j)
  unfolding log_action
  log_action-At c u a e j = Keeps-modify _ (λ s h. h)

  notify-At :
      (c : ℕ) (type : NotificationType) (link : String) (j : ℕ)
      → Keeps (At rows) (notify c type link j)
  unfolding notify
  notify-At c type link j = Keeps-modify _ (λ s h. h)

  movement-At :
      (i : ℕ) (d : MovementDirection) (amount : Decimal) (source : String) (source_id by : ℕ)
      → Keeps (At rows) (apply_movement i d amount source source_id by)
  movement-At = apply_movement-Keeps (λ x s h. h) (λ x s h. h)

  lock_existing-At : (w : ℕ) → Keeps (At rows) (lock_existing w)
  unfolding lock_existing
  lock_existing-At w = search keeps_rules

  pay_out-At : (j : ℕ) (p : Payment) (by : ℕ) → Keeps (At rows) (pay_out j p by)
  unfolding pay_out
  pay_out-At j p by = search (keeps_rules, lock_existing-At, movement-At)

  add_movement-At :
      (row : CollaboratorBalanceMovement)
      → Triple (At rows) (add_collaborator_movement row) (λ u. At (rows ++ row ∷ []))
  unfolding add_collaborator_movement modify
  add_movement-At row = record { at = λ s same. ap (λ x. x ++ row ∷ []) same }

ruleset at_rules = (
  keeps_rules, change_payment-At, add_history-At, set_proof_status-At, log_action-At, notify-At,
  pay_out-At,
)

-- The movement that an approval writes.
abbrev pub settled_row : Payment → Collaboration → ℕ → ℕ → CollaboratorBalanceMovement
settled_row p c payment_id company_id = record {
  collaboration_id = c.id;
  source_type = "payment";
  source_id = payment_id;
  currency = c.currency;
  amount = p.converted_amount;
  debtor_company_id = debtor_of p company_id;
  creditor_company_id = creditor_of p company_id;
}

module _ (rows : List CollaboratorBalanceMovement) (p : Payment) (c : Collaboration)
    (payment_id company_id : ℕ) where
  abbrev Before : Db → Type 0
  Before s =
      At rows s
      × (find payment_id s.payments ≡ some p)
      × (find p.collaboration_id s.collaborations ≡ some c)

  party_only : (x : Collaboration) → provided (is_party company_id) (some c) ≡ some x → x ≡ c
  party_only x h = ground arith

  held_is :
      Yields Before
        (λ (held : PaymentFor). held ≡ record { payment = p; collaboration = c })
        (get_payment_for_party company_id payment_id)
  unfolding get_payment_for_party
  held_is =
      Yields-bind (λ o. o ≡ some p) _ _ (Yields-gets _ (λ s h. h.1))
        λ o e.
          Yields-bind (λ x. x ≡ p) _ _ (Yields-or_raise o _ (λ a q. cc))
            λ x same.
              Yields-bind (λ o'. o' ≡ provided (is_party company_id) (some c)) _ _
                (Yields-gets _ (λ s h. rw (same, h.2) refl))
                λ o' e'.
                  Yields-bind (λ y. y ≡ c) _ _
                    (Yields-or_raise o' _ (λ a q. party_only a (sym e' ∙ q)))
                    λ y same'. Yields-pure _ cc

  approve_payment-At :
      (by : ℕ) (proof_id : Option ℕ)
      → Triple Before
          (approve_payment company_id by payment_id proof_id)
          (λ u. At (rows ++ settled_row p c payment_id company_id ∷ []))
  unfolding approve_payment
  approve_payment-At by proof_id =
      Triple-bind (λ held s. At rows s × (held ≡ record { payment = p; collaboration = c })) _ _
        (Triple-Yields (At rows) _ (λ s h. h.0) held_is)
        λ held. Triple-given _ λ same.
          let row = settled_row held.payment held.collaboration payment_id company_id in
          let row_eq =
            ap (λ (x : PaymentFor). settled_row x.payment x.collaboration payment_id company_id)
              same in
          Triple-after _ _ (search at_rules) λ u1. Triple-after _ _ (search at_rules) λ u2.
            Triple-bind (λ u. At (rows ++ row ∷ [])) _ _ (add_movement-At rows row)
              λ u3.
                Triple-post (λ u. At (rows ++ row ∷ [])) _
                  (λ u s h. h ∙ ap (λ x. rows ++ x ∷ []) row_eq)
                  (Triple-Keeps _ (search at_rules depth 14))

settled_part :
    (p : Payment) (c : Collaboration) (payment_id company_id : ℕ)
    → p.company_id ≢ company_id
    → part c.id p.company_id (settled_row p c payment_id company_id)
      ≡ (if p.settles_debt then p.converted_amount else zero_amount -ℤ p.converted_amount)
settled_part p c payment_id company_id ne =
    let here : nat_eq c.id c.id ≡ true = ground arith in
    let own : nat_eq p.company_id p.company_id ≡ true = ground arith in
    let foreign : nat_eq company_id p.company_id ≡ false = ground arith in
    elim (Bool-cases p.settles_debt) [
      | inl settles ↦ rw (settles, here, own, foreign) (omega int_laws)
      | inr advances ↦ rw (advances, here, own, foreign) (omega int_laws)
    ]

-- An approved payment settles what its company owes, or adds to it: the balance of the paying company
-- goes up by the converted amount if the payment was created to settle a debt, and down by it if not.
pub approve_payment_settles :
    (company_id by payment_id : ℕ) (proof_id : Option ℕ) (s : Db) (p : Payment) (c : Collaboration)
    {s' : Db}
    → find payment_id s.payments ≡ some p
    → find p.collaboration_id s.collaborations ≡ some c
    → p.company_id ≢ company_id
    → approve_payment company_id by payment_id proof_id s ≡ ok (tt, s')
    → balance_for_company c.id p.company_id s'.collaborator_movements
      ≡ balance_for_company c.id p.company_id s.collaborator_movements
        +ℤ (if p.settles_debt then p.converted_amount else zero_amount -ℤ p.converted_amount)
approve_payment_settles company_id by payment_id proof_id s p c found between ne h =
    let rows = s.collaborator_movements in
    let added =
      Triple-ok (approve_payment company_id by payment_id proof_id)
        (approve_payment-At rows p c payment_id company_id by proof_id) s (refl, found, between)
        h in
    ap (balance_for_company c.id p.company_id) added
    ∙ balance-append c.id p.company_id rows (settled_row p c payment_id company_id)
    ∙ ap (λ x. balance_for_company c.id p.company_id rows +ℤ x)
        (settled_part p c payment_id company_id ne)
