-- ===== src/Suppliers/Keeps.antt =====
-- The operations of supplier_service keep every invariant that has a `Frame` and allows the writes to
-- the suppliers and their movements.
use d_transfert_backend.Base.{ℕ, List}
use d_transfert_backend.Money.{Decimal}
use d_transfert_backend.Models.{Supplier, SupplierBalanceMovement}
use d_transfert_backend.Database.{Db}
use d_transfert_backend.Service.Keeps.{Keeps, Keeps-modify}
use d_transfert_backend.Frame.{Frame, frame_rules}
use d_transfert_backend.Entries.Keeps.{lock_owned-Keeps}
use d_transfert_backend.Suppliers.{
  generate_reference, add_supplier, create_supplier, get_supplier, set_supplier_balance,
  add_supplier_movement, rebalance_supplier, SupplierCreateRequest, SupplierRebalanceRequest,
}

module _ {P : Db → Type 0} (frame : Frame P)
    (suppliers : (x : List Supplier) (s : Db) → P s → P (record s { suppliers = x })) where
  add_supplier-Keeps : (x : Supplier) → Keeps P (add_supplier x)
  unfolding add_supplier
  add_supplier-Keeps x = Keeps-modify _ (λ s h. suppliers _ s h)

  set_supplier_balance-Keeps : (i : ℕ) (b : Decimal) → Keeps P (set_supplier_balance i b)
  unfolding set_supplier_balance
  set_supplier_balance-Keeps i b = Keeps-modify _ (λ s h. suppliers _ s h)

  get_supplier-Keeps : (c i : ℕ) → Keeps P (get_supplier c i)
  unfolding get_supplier
  get_supplier-Keeps c i = search frame_rules

  generate_reference-Keeps : (c : ℕ) → Keeps P (generate_reference c)
  unfolding generate_reference
  generate_reference-Keeps c = search frame_rules

  pub create_supplier-Keeps :
      (c : ℕ) (payload : SupplierCreateRequest) → Keeps P (create_supplier c payload)
  unfolding create_supplier
  create_supplier-Keeps c payload = search (frame_rules, add_supplier-Keeps) depth 8

module _ {P : Db → Type 0} (frame : Frame P)
    (suppliers : (x : List Supplier) (s : Db) → P s → P (record s { suppliers = x }))
    (movements : (x : List SupplierBalanceMovement) (s : Db)
      → P s
      → P (record s { supplier_movements = x })) where
  add_supplier_movement-Keeps : (m : SupplierBalanceMovement) → Keeps P (add_supplier_movement m)
  unfolding add_supplier_movement
  add_supplier_movement-Keeps m = Keeps-modify _ (λ s h. movements _ s h)

  pub rebalance_supplier-Keeps :
      (c by i : ℕ) (payload : SupplierRebalanceRequest)
      → Keeps P (rebalance_supplier c by i payload)
  unfolding rebalance_supplier
  rebalance_supplier-Keeps c by i payload =
      search
        (
          frame_rules, lock_owned-Keeps, get_supplier-Keeps, generate_reference-Keeps,
          set_supplier_balance-Keeps, add_supplier_movement-Keeps, suppliers,
        )
        depth 14
