-- ===== src/Collaborations/Balance.antt =====
-- The balance between two companies: what one is owed the other owes.
use d_transfert_backend.Base.{
  ℕ, ◌≡◌, ◌∙◌, ◌≢◌, ◌⊎◌, inl, inr, List, [], ◌∷◌, ◌++◌, arith, true, false, nat_eq, ◌==◌, id_eq,
  if◌then◌else◌, Bool-cases,
}
use d_transfert_backend.Int.{◌+ℤ◌, ◌-ℤ◌, int_laws}
use d_transfert_backend.Money.{Decimal, sum, zero_amount}
use d_transfert_backend.Models.{CollaboratorBalanceMovement}
use d_transfert_backend.Collaborations.{balance_for_company}

-- Every movement of the collaboration is between the two companies.
abbrev pub Between : ℕ → ℕ → ℕ → List CollaboratorBalanceMovement → Type 0
Between k a b [] = Unit
Between k a b (m ∷ ms) =
    (m.collaboration_id ≡ k
      → ((m.debtor_company_id ≡ a) × (m.creditor_company_id ≡ b))
        ⊎ ((m.debtor_company_id ≡ b) × (m.creditor_company_id ≡ a)))
    × Between k a b ms

-- What one movement adds to the balance of a company.
abbrev pub part : ℕ → ℕ → CollaboratorBalanceMovement → Decimal
part k company m =
    if m.collaboration_id == k
    then (if m.creditor_company_id == company then m.amount else zero_amount)
      -ℤ (if m.debtor_company_id == company then m.amount else zero_amount)
    else zero_amount

pub balance-cons :
    (k company : ℕ) (m : CollaboratorBalanceMovement) (ms : List CollaboratorBalanceMovement)
    → balance_for_company k company (m ∷ ms) ≡ part k company m +ℤ balance_for_company k company ms
unfolding balance_for_company sum
balance-cons k company m ms = elim (Bool-cases (m.collaboration_id == k)) [
  | inl here ↦ elim (Bool-cases (m.creditor_company_id == company)) [
    | inl c ↦ elim (Bool-cases (m.debtor_company_id == company)) [
      | inl d ↦ rw (here, c, d) (omega int_laws)
      | inr d ↦ rw (here, c, d) (omega int_laws)
    ]
    | inr c ↦ elim (Bool-cases (m.debtor_company_id == company)) [
      | inl d ↦ rw (here, c, d) (omega int_laws)
      | inr d ↦ rw (here, c, d) (omega int_laws)
    ]
  ]
  | inr other ↦ rw other (omega int_laws)
]

add_comm : (x y : Decimal) → x +ℤ y ≡ y +ℤ x
add_comm x y = omega int_laws

exchange : (x u y v : Decimal) → (x +ℤ u) +ℤ (y +ℤ v) ≡ (x +ℤ y) +ℤ (u +ℤ v)
exchange x u y v = omega int_laws

part_opposite_at :
    (k a b : ℕ) (m : CollaboratorBalanceMovement)
    → nat_eq m.collaboration_id k ≡ true
    → a ≢ b
    → m.debtor_company_id ≡ a
    → m.creditor_company_id ≡ b
    → part k a m +ℤ part k b m ≡ zero_amount
part_opposite_at k a b m here ne d c =
    let da : nat_eq m.debtor_company_id a ≡ true = ground arith in
    let db : nat_eq m.debtor_company_id b ≡ false = ground arith in
    let ca : nat_eq m.creditor_company_id a ≡ false = ground arith in
    let cb : nat_eq m.creditor_company_id b ≡ true = ground arith in
    rw (here, da, db, ca, cb) (omega int_laws)

part_opposite :
    (k a b : ℕ) (m : CollaboratorBalanceMovement)
    → a ≢ b
    → (m.collaboration_id ≡ k
        → ((m.debtor_company_id ≡ a) × (m.creditor_company_id ≡ b))
          ⊎ ((m.debtor_company_id ≡ b) × (m.creditor_company_id ≡ a)))
    → part k a m +ℤ part k b m ≡ zero_amount
part_opposite k a b m ne parties = elim (Bool-cases (nat_eq m.collaboration_id k)) [
  | inl here ↦ elim (parties (ground arith)) [
    | inl (d, c) ↦ part_opposite_at k a b m here ne d c
    | inr (d, c) ↦
        let other_way = part_opposite_at k b a m here (λ e. ne (ground arith)) d c in
        add_comm (part k a m) (part k b m) ∙ other_way
  ]
  | inr other ↦ rw other (omega int_laws)
]

-- If every movement of a collaboration is between its two parties, which differ, the balance of the
-- one is the negative of the balance of the other.
pub balances_opposite :
    (k a b : ℕ) (ms : List CollaboratorBalanceMovement)
    → a ≢ b
    → Between k a b ms
    → balance_for_company k a ms +ℤ balance_for_company k b ms ≡ zero_amount
unfolding balance_for_company sum
balances_opposite k a b [] ne h = omega int_laws
balances_opposite k a b (m ∷ ms) ne (h, rest) =
    let ih = balances_opposite k a b ms ne rest in
    let here = part_opposite k a b m ne h in
    rw (balance-cons k a m ms, balance-cons k b m ms)
      (exchange (part k a m) (balance_for_company k a ms) (part k b m) (balance_for_company k b ms)
        ∙ (rw (here, ih) (omega int_laws)))

-- A further movement adds its part to the balance.
pub balance-append :
    (k company : ℕ) (ms : List CollaboratorBalanceMovement) (m : CollaboratorBalanceMovement)
    → balance_for_company k company (ms ++ m ∷ [])
      ≡ balance_for_company k company ms +ℤ part k company m
unfolding balance_for_company sum
balance-append k company [] m = balance-cons k company m [] ∙ omega int_laws
balance-append k company (x ∷ ms) m =
    rw
      (
        balance-cons k company x (ms ++ m ∷ []),
        balance-cons k company x ms,
        balance-append k company ms m,
      )
      (omega int_laws)
