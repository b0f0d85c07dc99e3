-- ===== src/Suppliers/Effect.antt =====
-- What a debt or a payment does to the wallet and to the balance of the supplier.
use d_transfert_backend.Base.{
  ℕ, arith, String, subst, Bool-cases, inl, inr, ◌≡◌, refl, sym, ap, ◌∙◌, some, nat_eq,
  if◌then◌else◌, ◌==◌, id_eq,
}
use d_transfert_backend.Int.{◌+ℤ◌, ◌-ℤ◌, int_laws}
use d_transfert_backend.Money.{Decimal, quantize, zero_amount}
use d_transfert_backend.Money.Rounding.{
  IsCents, IsCents-add, IsCents-sub, quantize-eq_self, quantize-IsCents,
}
use d_transfert_backend.Errors.{ok}
use d_transfert_backend.Table.{find, provided}
use d_transfert_backend.Table.Laws.{find-update_row_self, map_option}
use d_transfert_backend.Models.{
  Supplier, SupplierBalanceMovement, MovementDirection, SupplierMovementType, supplier_keyed,
}
use d_transfert_backend.Database.{Db}
use d_transfert_backend.Service.Keeps.{Keeps, Keeps-modify, keeps_rules}
use d_transfert_backend.Service.Guarded.{Yields, Yields-gets, Yields-or_raise, Yields-bind}
use d_transfert_backend.Service.Triple.{
  Triple, Triple-bind, Triple-Keeps, Triple-after, Triple-ok, Triple-given, Triple-Yields,
}
use d_transfert_backend.Wallets.Ledger.{net, signed}
use d_transfert_backend.Wallets.{apply_movement}
use d_transfert_backend.Service.{modify}
use d_transfert_backend.Locking.{lock_owned, lock_existing}
use d_transfert_backend.Locking.Nets.{Nets, retarget, moved-Nets, nets_rules, lock_owned-Nets}
use d_transfert_backend.Frame.Plain.{apply_movement-Keeps}
use d_transfert_backend.Audit.{log_action}
use d_transfert_backend.Suppliers.{
  SupplierRebalanceRequest, generate_reference, get_supplier, set_supplier_balance,
  add_supplier_movement, rebalance_supplier, rebalanced, direction_of,
}

-- What a request brings into a wallet.
abbrev pub supplied : ℕ → SupplierRebalanceRequest → Decimal
supplied i payload =
    if nat_eq payload.wallet_id i
    then signed (direction_of payload.type) (quantize payload.amount)
    else zero_amount

module _ (i : ℕ) (n : Decimal) where
  set_supplier_balance-Nets : (j : ℕ) (b : Decimal) → Keeps (Nets i n) (set_supplier_balance j b)
  unfolding set_supplier_balance
  set_supplier_balance-Nets j b = Keeps-modify _ (λ s h. h)

  add_supplier_movement-Nets :
      (m : SupplierBalanceMovement) → Keeps (Nets i n) (add_supplier_movement m)
  unfolding add_supplier_movement
  add_supplier_movement-Nets m = Keeps-modify _ (λ s h. h)

  get_supplier-Nets : (c j : ℕ) → Keeps (Nets i n) (get_supplier c j)
  unfolding get_supplier
  get_supplier-Nets c j = search nets_rules

  generate_reference-Nets : (c : ℕ) → Keeps (Nets i n) (generate_reference c)
  unfolding generate_reference
  generate_reference-Nets c = search nets_rules

ruleset supplier_nets = (
  nets_rules, lock_owned-Nets, set_supplier_balance-Nets, add_supplier_movement-Nets,
  get_supplier-Nets, generate_reference-Nets,
)

-- The amount that is rounded twice is rounded once.
rounded_once :
    (i w : ℕ) (d : MovementDirection) (a n : Decimal)
    → n +ℤ (if nat_eq w i then signed d (quantize (quantize a)) else zero_amount)
      ≡ n +ℤ (if nat_eq w i then signed d (quantize a) else zero_amount)
rounded_once i w d a n =
    ap (λ q. n +ℤ (if nat_eq w i then signed d q else zero_amount))
      (quantize-eq_self (quantize a) (quantize-IsCents a))

rebalance_supplier-Nets :
    (i : ℕ) (n : Decimal) (c by j : ℕ) (payload : SupplierRebalanceRequest)
    → Triple (Nets i n) (rebalance_supplier c by j payload) (λ u. Nets i (n +ℤ supplied i payload))
unfolding rebalance_supplier
rebalance_supplier-Nets i n c by j payload = Triple-after _ _ (search supplier_nets) λ supplier.
    Triple-after _ _ (search supplier_nets) λ wallet.
      Triple-after _ _ (search supplier_nets) λ same.
        Triple-after _ _ (search supplier_nets) λ reference.
          Triple-after _ _ (search supplier_nets) λ written.
            Triple-bind (λ m. Nets i (n +ℤ supplied i payload)) _ _
              (retarget i _ _ (n +ℤ supplied i payload)
                (rounded_once i payload.wallet_id (direction_of payload.type) payload.amount n)
                (moved-Nets i n payload.wallet_id (direction_of payload.type)
                  (quantize payload.amount) "supplier_rebalance" j by))
              λ m. Triple-Keeps _ (search supplier_nets)

-- The row of a supplier.
abbrev SupplierIs : ℕ → Supplier → Db → Type 0
SupplierIs j x s = find j s.suppliers ≡ some x

abbrev pub with_balance : Supplier → Decimal → Supplier
with_balance x b = record x { balance = b }

module _ (j : ℕ) (x : Supplier) where
  add_supplier_movement-SupplierIs :
      (m : SupplierBalanceMovement) → Keeps (SupplierIs j x) (add_supplier_movement m)
  unfolding add_supplier_movement
  add_supplier_movement-SupplierIs m = Keeps-modify _ (λ s h. h)

  log_action-SupplierIs :
      (c u : ℕ) (a e : String) (k : ℕ) → Keeps (SupplierIs j x) (log_action c u a e k)
  unfolding log_action
  log_action-SupplierIs c u a e k = Keeps-modify _ (λ s h. h)

  lock_owned-SupplierIs : (c w : ℕ) → Keeps (SupplierIs j x) (lock_owned c w)
  unfolding lock_owned lock_existing
  lock_owned-SupplierIs c w = search keeps_rules

  generate_reference-SupplierIs : (c : ℕ) → Keeps (SupplierIs j x) (generate_reference c)
  unfolding generate_reference
  generate_reference-SupplierIs c = search keeps_rules

  movement-SupplierIs :
      (i : ℕ) (d : MovementDirection) (amount : Decimal) (source : String) (source_id by : ℕ)
      → Keeps (SupplierIs j x) (apply_movement i d amount source source_id by)
  movement-SupplierIs = apply_movement-Keeps (λ y s h. h) (λ y s h. h)

  own_only : (c : ℕ) (y : Supplier) → provided (λ z. z.company_id == c) (some x) ≡ some y → y ≡ x
  own_only c y h = ground arith

  get_supplier-Yields : (c : ℕ) → Yields (SupplierIs j x) (λ y. y ≡ x) (get_supplier c j)
  unfolding get_supplier
  get_supplier-Yields c =
      Yields-bind (λ o. o ≡ provided (λ y. y.company_id == c) (some x)) _ _
        (Yields-gets _ (λ s h. rw h refl))
        λ o q. Yields-or_raise o _ (λ a r. own_only c a (sym q ∙ r))

  set_supplier_balance-SupplierIs :
      (b : Decimal)
      → Triple (SupplierIs j x) (set_supplier_balance j b) (λ u. SupplierIs j (with_balance x b))
  unfolding set_supplier_balance modify
  set_supplier_balance-SupplierIs b = record {
    at = λ s h.
        find-update_row_self j (λ y. with_balance y b) s.suppliers (λ y. refl)
        ∙ ap (map_option (λ y. with_balance y b)) h;
  }

ruleset supplier_is = (
  keeps_rules, lock_owned-SupplierIs, generate_reference-SupplierIs, movement-SupplierIs,
  add_supplier_movement-SupplierIs, log_action-SupplierIs,
)

rebalance_supplier-SupplierIs :
    (j : ℕ) (x : Supplier) (c by : ℕ) (payload : SupplierRebalanceRequest)
    → Triple (SupplierIs j x) (rebalance_supplier c by j payload) (λ u.
      SupplierIs j (with_balance x (rebalanced payload.type x.balance (quantize payload.amount))))
unfolding rebalance_supplier
rebalance_supplier-SupplierIs j x c by payload =
    let y = with_balance x (rebalanced payload.type x.balance (quantize payload.amount)) in
    Triple-bind (λ held s. SupplierIs j x s × (held ≡ x)) _ _
      (Triple-Yields (SupplierIs j x) _ (λ s h. h) (get_supplier-Yields j x c))
      λ held. Triple-given _ λ same. Triple-after _ _ (search supplier_is) λ wallet.
        Triple-after _ _ (search supplier_is) λ currency.
          Triple-after _ _ (search supplier_is) λ reference.
            Triple-bind (λ u. SupplierIs j y) _ _
              (subst
                (λ (b : Decimal).
                  Triple (SupplierIs j x)
                    (set_supplier_balance j (rebalanced payload.type b (quantize payload.amount)))
                    (λ u. SupplierIs j y))
                (ap (λ (z : Supplier). z.balance) (sym same))
                (set_supplier_balance-SupplierIs j x
                  (rebalanced payload.type x.balance (quantize payload.amount))))
              λ u. Triple-Keeps _ (search supplier_is)

-- The balance of the supplier goes down by what comes in.
rebalanced_lem :
    (type : SupplierMovementType) (balance a : Decimal)
    → IsCents balance
    → rebalanced type balance (quantize a) ≡ balance -ℤ signed (direction_of type) (quantize a)
rebalanced_lem SupplierMovementType.debt balance a h =
    quantize-eq_self _ (IsCents-sub balance (quantize a) h (quantize-IsCents a))
rebalanced_lem SupplierMovementType.payment balance a h =
    quantize-eq_self _ (IsCents-add balance (quantize a) h (quantize-IsCents a)) ∙ omega int_laws

taken_off :
    (payload : SupplierRebalanceRequest) (x : Supplier)
    → IsCents x.balance
    → rebalanced payload.type x.balance (quantize payload.amount)
      ≡ x.balance -ℤ supplied payload.wallet_id payload
taken_off payload x cents = elim (Bool-cases (nat_eq payload.wallet_id payload.wallet_id)) [
  | inl same ↦ rw same (rebalanced_lem payload.type x.balance payload.amount cents)
  | inr other ↦ ground arith
]

-- A debt or a payment that is booked on a supplier whose balance is in whole cents changes each
-- wallet's movements by what the request brings into it, and the balance of the supplier by the
-- opposite of what it brings into the wallet of the request; the rest of the supplier stays.
pub rebalance_supplier_balances :
    (i company_id by supplier_id : ℕ) (payload : SupplierRebalanceRequest) (s : Db) (x : Supplier)
    {s' : Db}
    → find supplier_id s.suppliers ≡ some x
    → IsCents x.balance
    → rebalance_supplier company_id by supplier_id payload s ≡ ok (tt, s')
    → (net i s'.wallet_movements ≡ net i s.wallet_movements +ℤ supplied i payload)
      × (find supplier_id s'.suppliers
          ≡ some (with_balance x (x.balance -ℤ supplied payload.wallet_id payload)))
rebalance_supplier_balances i company_id by supplier_id payload s x found cents h = (
  Triple-ok (rebalance_supplier company_id by supplier_id payload)
      (rebalance_supplier-Nets i (net i s.wallet_movements) company_id by supplier_id payload) s
      refl h,
  Triple-ok (rebalance_supplier company_id by supplier_id payload)
        (rebalance_supplier-SupplierIs supplier_id x company_id by payload) s found h
      ∙ ap (λ b. some (with_balance x b)) (taken_off payload x cents),
)
