-- ===== src/Suppliers.antt =====
-- app/services/supplier_service.py with supplier_repository.py: a debt to a supplier brings money into
-- a wallet and a payment takes it out; the balance of the supplier goes the other way.
pub mod Keeps
pub mod Effect
use d_transfert_backend.Base.{
  ℕ, String, Text, Bool, not, Option, none, some, List, [], ◌∷◌, ◌++◌, ◌==◌, id_eq, string_eq, ◌&&◌,
  is_some, keep, map, if◌then◌else◌,
}
use d_transfert_backend.Int.{◌+ℤ◌, ◌-ℤ◌}
use d_transfert_backend.Money.{Decimal, quantize}
use d_transfert_backend.Errors.{Error, Result}
use d_transfert_backend.Models.{
  Supplier, SupplierBalanceMovement, SupplierMovementType, MovementDirection, supplier_keyed,
}
use d_transfert_backend.Table.{find, update_row, provided, scalar_one_or_none}
use d_transfert_backend.Database.{Db}
use d_transfert_backend.Reference.{Issued, generate_unique_reference}
use d_transfert_backend.TextOps.{codes}
use d_transfert_backend.Service.{
  Service, Done, pure, gets, query, or_raise, ◌>>=◌, ◌>>◌, modify, raise_if, fresh_id,
}
use d_transfert_backend.Audit.{log_action}
use d_transfert_backend.Wallets.{apply_movement}
use d_transfert_backend.Locking.{lock_owned}

-- The references of the supplier movements.
abbrev pub issued_movements : Db → List Issued
issued_movements s =
    map (λ m. record { company_id = m.company_id; reference = m.reference }) s.supplier_movements

unfoldable pub generate_reference : ℕ → Service Text
generate_reference company_id =
    query (λ s. generate_unique_reference (codes "SR") (issued_movements s) company_id s.today)

abbrev pub get_supplier_by_code : ℕ → String → Db → Result (Option Supplier)
get_supplier_by_code company_id code s =
    scalar_one_or_none (λ x. x.company_id == company_id && x.code == code) s.suppliers

-- app/schemas/supplier.py
pub record SupplierCreateRequest : Type 0 where
  pub name : String
  pub code : String
  pub phone : Option String
  pub currency : String
  pub initial_balance : Decimal

pub record SupplierRebalanceRequest : Type 0 where
  pub type : SupplierMovementType
  pub amount : Decimal
  pub wallet_id : ℕ
  pub proof_id : Option ℕ

unfoldable pub add_supplier : Supplier → Service Done
unfolding modify
add_supplier supplier = modify λ s. record s { suppliers = s.suppliers ++ supplier ∷ [] }

unfoldable pub create_supplier : ℕ → SupplierCreateRequest → Service ℕ
create_supplier company_id payload = do
  existing ← query (get_supplier_by_code company_id payload.code)
  raise_if (is_some existing) Error.conflict
  supplier_id ← fresh_id
  add_supplier (record {
    id = supplier_id;
    company_id = company_id;
    name = payload.name;
    code = payload.code;
    phone = payload.phone;
    currency = payload.currency;
    balance = quantize payload.initial_balance;
  })
  pure supplier_id

unfoldable pub get_supplier : ℕ → ℕ → Service Supplier
get_supplier company_id supplier_id = do
  found ← gets (λ s. provided (λ x. x.company_id == company_id) (find supplier_id s.suppliers))
  or_raise found Error.not_found

unfoldable pub get_supplier_movements : ℕ → ℕ → Service (List SupplierBalanceMovement)
get_supplier_movements company_id supplier_id = do
  get_supplier company_id supplier_id
  gets (λ s. keep (λ m. m.supplier_id == supplier_id) s.supplier_movements)

-- A debt comes into the wallet, a payment goes out of it.
abbrev pub direction_of : SupplierMovementType → MovementDirection
direction_of SupplierMovementType.debt = MovementDirection.into
direction_of SupplierMovementType.payment = MovementDirection.out

abbrev pub rebalanced : SupplierMovementType → Decimal → Decimal → Decimal
rebalanced SupplierMovementType.debt balance amount = quantize (balance -ℤ amount)
rebalanced SupplierMovementType.payment balance amount = quantize (balance +ℤ amount)

-- `supplier.balance = balance`
unfoldable pub set_supplier_balance : ℕ → Decimal → Service Done
unfolding modify
set_supplier_balance supplier_id balance = modify λ s. record s {
  suppliers = update_row supplier_id (λ x. record x { balance = balance }) s.suppliers;
}

unfoldable pub add_supplier_movement : SupplierBalanceMovement → Service Done
unfolding modify
add_supplier_movement movement =
    modify λ s. record s { supplier_movements = s.supplier_movements ++ movement ∷ [] }

unfoldable pub rebalance_supplier : ℕ → ℕ → ℕ → SupplierRebalanceRequest → Service Done
rebalance_supplier company_id created_by_id supplier_id payload = do
  supplier ← get_supplier company_id supplier_id
  wallet ← lock_owned company_id payload.wallet_id
  raise_if (not (wallet.currency == supplier.currency)) Error.conflict
  let amount : Decimal = quantize payload.amount
  reference ← generate_reference company_id
  let balance : Decimal = rebalanced payload.type supplier.balance amount
  set_supplier_balance supplier_id balance
  apply_movement payload.wallet_id (direction_of payload.type) amount "supplier_rebalance"
      supplier_id created_by_id
  add_supplier_movement (record {
    company_id = company_id;
    supplier_id = supplier_id;
    reference = reference;
    wallet_id = payload.wallet_id;
    type = payload.type;
    amount = amount;
    balance_before = supplier.balance;
    balance_after = balance;
    proof_id = payload.proof_id;
    created_by_id = created_by_id;
  })
  log_action company_id created_by_id "supplier.rebalance" "supplier" supplier_id
