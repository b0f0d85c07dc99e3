-- ===== src/Tests/Suppliers.antt =====
-- A payment to a supplier.
use d_transfert_backend.Base.{◌≡◌, refl, none, some, [], ◌∷◌}
use d_transfert_backend.Int.{◌+ℤ◌, ◌-ℤ◌}
use d_transfert_backend.Money.{quantize}
use d_transfert_backend.Models.{Supplier, SupplierMovementType, supplier_keyed}
use d_transfert_backend.Table.{find}
use d_transfert_backend.Database.{Db}
use d_transfert_backend.Service.{committed, ◌>>=◌, raise_if, modify}
use d_transfert_backend.Audit.{log_action}
use d_transfert_backend.Reference.{generate_unique_reference, format_daily_reference}
use d_transfert_backend.Locking.{lock_owned, lock_existing}
use d_transfert_backend.Wallets.{apply_movement}
use d_transfert_backend.Wallets.Ledger.{net}
use d_transfert_backend.Suppliers.{
  SupplierRebalanceRequest, rebalance_supplier, get_supplier, set_supplier_balance,
  add_supplier_movement, generate_reference,
}
use d_transfert_backend.Suppliers.Effect.{supplied, with_balance, rebalance_supplier_balances}
use d_transfert_backend.Tests.Fixtures.{empty_db, cash_box, five, ten}

abbrev wholesaler : Supplier
wholesaler = record {
  id = 8;
  company_id = 1;
  name = "Grossiste";
  code = "G1";
  phone = none;
  currency = "XOF";
  balance = ten;
}

abbrev supplied_db : Db
supplied_db = record empty_db { next_id = 10; wallets = cash_box ∷ []; suppliers = wholesaler ∷ [] }

abbrev payment_request : SupplierRebalanceRequest
payment_request = record {
  type = SupplierMovementType.payment;
  amount = five;
  wallet_id = 3;
  proof_id = none;
}

abbrev paid_db : Db
paid_db = committed (rebalance_supplier 1 7 8 payment_request) supplied_db

rebalance_supplier_balances_example :
    (net 3 paid_db.wallet_movements
      ≡ net 3 supplied_db.wallet_movements +ℤ supplied 3 payment_request)
    × (find 8 paid_db.suppliers
        ≡ some (with_balance wholesaler (wholesaler.balance -ℤ supplied 3 payment_request)))
unfolding rebalance_supplier get_supplier set_supplier_balance add_supplier_movement
    generate_reference generate_unique_reference format_daily_reference lock_owned lock_existing
    apply_movement log_action ◌>>=◌ raise_if quantize ◌+ℤ◌ ◌-ℤ◌ modify
rebalance_supplier_balances_example =
    rebalance_supplier_balances 3 1 7 8 payment_request supplied_db wholesaler {s' = paid_db} refl
      (refl, refl) refl
