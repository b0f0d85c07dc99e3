-- ===== src/Transfers/Approval.antt =====
-- What an approval does: the approving company pays, and the other company owes it the amount.
use d_transfert_backend.Base.{
  ℕ, ◌≡◌, refl, sym, ap, ◌∙◌, String, Option, some, List, [], ◌∷◌, ◌++◌, true, nat_eq, arith,
}
use d_transfert_backend.Int.{◌+ℤ◌, ◌-ℤ◌, int_laws}
use d_transfert_backend.Money.{Decimal, quantize}
use d_transfert_backend.Errors.{Result, ok, err}
use d_transfert_backend.Table.{find, provided}
use d_transfert_backend.Models.{
  Transfer, Collaboration, CollaboratorBalanceMovement, MovementDirection, WalletMovement,
  StatusHistory, ProofStatus, NotificationType, transfer_keyed, collaboration_keyed,
}
use d_transfert_backend.Database.{Db}
use d_transfert_backend.Service.{modify}
use d_transfert_backend.Service.Keeps.{Keeps, Keeps-modify, keeps_rules}
use d_transfert_backend.Service.Guarded.{
  Yields, Yields-pure, Yields-gets, Yields-or_raise, Yields-bind,
}
use d_transfert_backend.Service.Triple.{
  Triple, Post, Triple-bind, Triple-Keeps, Triple-after, Triple-ok, Triple-post, Triple-given,
  Triple-Yields,
}
use d_transfert_backend.Audit.{log_action, notify}
use d_transfert_backend.Wallets.{apply_movement}
use d_transfert_backend.Wallets.Effects.{apply_movement_ok}
use d_transfert_backend.Wallets.Ledger.{net, net-append}
use d_transfert_backend.Locking.{lock_owned}
use d_transfert_backend.Exchange.{is_party}
use d_transfert_backend.Transfers.{
  TransferFor, get_transfer_for_party, change_transfer, add_history, add_collaborator_movement,
  set_proof_status,
}
use d_transfert_backend.Transfers.Decisions.{attach_proof, approve_transfer}

-- The collaborator movements, and what the movements of a wallet add up to.
abbrev pub At : List CollaboratorBalanceMovement → ℕ → Decimal → Db → Type 0
At rows i n s = (s.collaborator_movements ≡ rows) × (net i s.wallet_movements ≡ n)

paid-At :
    (rows : List CollaboratorBalanceMovement) (i : ℕ) (n amount : Decimal) (source : String)
    (source_id by : ℕ)
    → Triple
        (At rows i n)
        (apply_movement i MovementDirection.out amount source source_id by)
        (λ m. At rows i (n -ℤ quantize amount))
paid-At rows i n amount source source_id by = record {
  at = λ s h. post s h (apply_movement i MovementDirection.out amount source source_id by s) refl;
}
  where
    post :
        (s : Db)
        → At rows i n s
        → (r : Result (WalletMovement × Db))
        → apply_movement i MovementDirection.out amount source source_id by s ≡ r
        → Post (λ m. At rows i (n -ℤ quantize amount)) r
    post s h (err e) q = tt
    post s (same, h) (ok (m, s')) q =
        let (wallet, balance, found, positive, b, row, new) =
          apply_movement_ok i MovementDirection.out amount source source_id by s q in
        let here : nat_eq i i ≡ true = ground arith in
        (
          ap (λ (x : Db). x.collaborator_movements) new ∙ same,
          ap (λ (x : Db). net i x.wallet_movements) new
              ∙ net-append i s.wallet_movements m
              ∙ ap (λ x. net i s.wallet_movements +ℤ net i (x ∷ [])) row
              ∙ (rw (h, here) (omega int_laws)),
        )

module _ (rows : List CollaboratorBalanceMovement) (i : ℕ) (n : Decimal) where
  change_transfer-At : (j : ℕ) (f : Transfer → Transfer) → Keeps (At rows i n) (change_transfer j f)
  unfolding change_transfer
  change_transfer-At j f = Keeps-modify _ (λ s h. h)

  add_history-At : (row : StatusHistory) → Keeps (At rows i n) (add_history row)
  unfolding add_history
  add_history-At row = Keeps-modify _ (λ s h. h)

  set_proof_status-At :
      (j : ℕ) (status : ProofStatus) → Keeps (At rows i n) (set_proof_status j status)
  unfolding set_proof_status
  set_proof_status-At j status = Keeps-modify _ (λ s h. h)

  log_action-At : (c u : ℕ) (a e : String) (j : ℕ) → Keeps (At rows i n) (log_action c u a e j)
  unfolding log_action
  log_action-At c u a e j = Keeps-modify _ (λ s h. h)

  notify-At :
      (c : ℕ) (type : NotificationType) (link : String) (j : ℕ)
      → Keeps (At rows i n) (notify c type link j)
  unfolding notify
  notify-At c type link j = Keeps-modify _ (λ s h. h)

  lock_owned-At : (c w : ℕ) → Keeps (At rows i n) (lock_owned c w)
  unfolding lock_owned
  lock_owned-At c w = search keeps_rules

  attach_proof-At : (c j : ℕ) (p : Option ℕ) → Keeps (At rows i n) (attach_proof c j p)
  unfolding attach_proof
  attach_proof-At c j p = search (keeps_rules, change_transfer-At) depth 8

  add_movement-At :
      (row : CollaboratorBalanceMovement)
      → Triple (At rows i n) (add_collaborator_movement row) (λ u. At (rows ++ row ∷ []) i n)
  unfolding add_collaborator_movement modify
  add_movement-At row = record { at = λ s (same, h). (ap (λ x. x ++ row ∷ []) same, h) }

ruleset at_rules = (
  keeps_rules, change_transfer-At, add_history-At, set_proof_status-At, log_action-At, notify-At,
  lock_owned-At, attach_proof-At,
)

-- The transfer and the collaboration that the approval is about.
abbrev Found : ℕ → Transfer → Collaboration → Db → Type 0
Found i t c s = (find i s.transfers ≡ some t) × (find t.collaboration_id s.collaborations ≡ some c)

module _ (rows : List CollaboratorBalanceMovement) (wallet_id : ℕ) (n : Decimal) (t : Transfer)
    (c : Collaboration) where
  party_only :
      (company_id : ℕ) (x : Collaboration)
      → provided (is_party company_id) (some c) ≡ some x
      → x ≡ c
  party_only company_id x h = ground arith

  held_is :
      (i company_id : ℕ)
      → Yields
          (λ s. At rows wallet_id n s × Found i t c s)
          (λ (held : TransferFor). held ≡ record { transfer = t; collaboration = c })
          (get_transfer_for_party company_id i)
  unfolding get_transfer_for_party
  held_is i company_id =
      Yields-bind (λ o. o ≡ some t) _ _ (Yields-gets _ (λ s h. h.1.0))
        λ o e.
          Yields-bind (λ x. x ≡ t) _ _ (Yields-or_raise o _ (λ a q. cc))
            λ x same.
              Yields-bind (λ o'. o' ≡ provided (is_party company_id) (some c)) _ _
                (Yields-gets _ (λ s h. rw (same, h.1.1) refl))
                λ o' e'.
                  Yields-bind (λ y. y ≡ c) _ _
                    (Yields-or_raise o' _ (λ a q. party_only company_id a (sym e' ∙ q)))
                    λ y same'. Yields-pure _ cc

-- What the company that a transfer comes from owes the one that has paid it out.
abbrev pub owed_row : Transfer → Collaboration → ℕ → ℕ → CollaboratorBalanceMovement
owed_row t c transfer_id company_id = record {
  collaboration_id = c.id;
  source_type = "transfer";
  source_id = transfer_id;
  currency = t.target_currency;
  amount = t.converted_amount;
  debtor_company_id = t.company_id;
  creditor_company_id = company_id;
}

module _ (rows : List CollaboratorBalanceMovement) (wallet_id : ℕ) (n : Decimal) (t : Transfer)
    (c : Collaboration) (company_id by transfer_id : ℕ) (proof_id : Option ℕ) where
  approve_transfer-At :
      Triple
        (λ s. At rows wallet_id n s × Found transfer_id t c s)
        (approve_transfer company_id by transfer_id wallet_id proof_id)
        (λ u.
          At
            (rows ++ owed_row t c transfer_id company_id ∷ [])
            wallet_id
            (n -ℤ quantize t.converted_amount))
  unfolding approve_transfer
  approve_transfer-At =
      Triple-bind
        (λ held s. At rows wallet_id n s × (held ≡ record { transfer = t; collaboration = c })) _ _
        (Triple-Yields (At rows wallet_id n) _ (λ s h. h.0)
          (held_is rows wallet_id n t c transfer_id company_id))
        λ held. Triple-given _ λ same.
          let row_eq =
            ap (λ (x : TransferFor). owed_row x.transfer x.collaboration transfer_id company_id)
              same in
          let n_eq = ap (λ (x : TransferFor). n -ℤ quantize x.transfer.converted_amount) same in
          let row = owed_row held.transfer held.collaboration transfer_id company_id in
          let left = n -ℤ quantize held.transfer.converted_amount in
          Triple-after _ _ (search at_rules) λ u1. Triple-after _ _ (search at_rules) λ u2.
            Triple-after _ _ (search at_rules) λ wallet. Triple-after _ _ (search at_rules) λ u3.
              Triple-bind (λ m. At rows wallet_id left) _ _
                (paid-At rows wallet_id n held.transfer.converted_amount "transfer" transfer_id by)
                λ m. Triple-after _ _ (search at_rules) λ u4.
                  Triple-after _ _ (search at_rules) λ u5.
                    Triple-bind (λ u. At (rows ++ row ∷ []) wallet_id left) _ _
                      (add_movement-At rows wallet_id left row)
                      λ u6.
                        Triple-post (λ u. At (rows ++ row ∷ []) wallet_id left) _
                          (λ u s (p, q). (p ∙ ap (λ x. rows ++ x ∷ []) row_eq, q ∙ n_eq))
                          (Triple-Keeps _ (search at_rules depth 12))

-- An approval that returns has recorded that the company of the transfer owes the approving company
-- the converted amount, and has taken that amount, rounded, out of the wallet: nothing else is
-- recorded between companies.
pub approve_transfer_settles :
    (company_id by transfer_id wallet_id : ℕ) (proof_id : Option ℕ) (s : Db) (t : Transfer)
    (c : Collaboration) {s' : Db}
    → find transfer_id s.transfers ≡ some t
    → find t.collaboration_id s.collaborations ≡ some c
    → approve_transfer company_id by transfer_id wallet_id proof_id s ≡ ok (tt, s')
    → (s'.collaborator_movements
        ≡ s.collaborator_movements ++ owed_row t c transfer_id company_id ∷ [])
      × (net wallet_id s'.wallet_movements
          ≡ net wallet_id s.wallet_movements -ℤ quantize t.converted_amount)
approve_transfer_settles company_id by transfer_id wallet_id proof_id s t c found between h =
    Triple-ok (approve_transfer company_id by transfer_id wallet_id proof_id)
      (approve_transfer-At s.collaborator_movements wallet_id (net wallet_id s.wallet_movements) t c
        company_id by transfer_id proof_id)
      s ((refl, refl), (found, between)) h
