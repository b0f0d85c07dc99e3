-- ===== src/Tests/Operations.antt =====
-- A national operation on two wallets, and its cancellation.
use d_transfert_backend.Base.{ℕ, ◌≡◌, refl, arith, none, some, [], ◌∷◌, inl, inr, map}
use d_transfert_backend.Int.{◌+ℤ◌, ◌-ℤ◌}
use d_transfert_backend.Money.{quantize, zero_amount}
use d_transfert_backend.Models.{
  Wallet, WalletType, NationalOperation, NationalOperationType, NationalOperationStatus,
  operation_keyed,
}
use d_transfert_backend.Database.{Db}
use d_transfert_backend.Service.{committed, ◌>>=◌, raise_if, for_each, fresh_id}
use d_transfert_backend.TextOps.{codes}
use d_transfert_backend.Audit.{log_action}
use d_transfert_backend.Reference.{generate_unique_reference, format_daily_reference}
use d_transfert_backend.Locking.{
  sorted_distinct, lock_wallets, lock_owned, lock_existing, check_currency,
}
use d_transfert_backend.Locking.Order.{IsAscending, contains}
use d_transfert_backend.Locking.Wallets.{AllOwned, lock_wallets_order, lock_wallets_same}
use d_transfert_backend.Wallets.{apply_movement}
use d_transfert_backend.Wallets.Ledger.{net}
use d_transfert_backend.Operations.{
  NationalOperationCreateRequest, create_operation, cancel_operation, cancel_loaded,
  generate_reference, add_operation, add_operation_line, change_operation, book_line,
  load_with_lines,
}
use d_transfert_backend.Operations.Schema.{is_valid, is_balanced}
use d_transfert_backend.Operations.Conservation.{gained, create_operation_conserves}
use d_transfert_backend.Operations.Reversal.{cancel_operation_undoes, brought, lines_of}
use d_transfert_backend.Tests.Fixtures.{empty_db, cash_box, five}

abbrev bank_account : Wallet
bank_account = record cash_box { id = 4; code = "B1"; type = WalletType.bank }

abbrev two_wallets : Db
two_wallets = record empty_db { next_id = 10; wallets = cash_box ∷ bank_account ∷ [] }

abbrev rebalance : NationalOperationCreateRequest
rebalance = record {
  client_name = none;
  client_phone = none;
  proof_id = none;
  exchange_rate = none;
  lines =
      record { wallet_id = 3; amount_in = zero_amount; amount_out = five; currency = "XOF" }
      ∷ record { wallet_id = 4; amount_in = five; amount_out = zero_amount; currency = "XOF" }
      ∷ [];
}

abbrev rebalanced_db : Db
rebalanced_db =
    committed (create_operation 1 NationalOperationType.rebalance 7 rebalance) two_wallets

create_operation_conserves_example : gained two_wallets rebalanced_db rebalance.lines ≡ zero_amount
unfolding sorted_distinct create_operation lock_wallets lock_owned lock_existing check_currency
    for_each generate_reference generate_unique_reference format_daily_reference fresh_id
    add_operation add_operation_line book_line apply_movement log_action ◌>>=◌ raise_if quantize
    ◌+ℤ◌ ◌-ℤ◌ is_valid is_balanced
create_operation_conserves_example =
    create_operation_conserves 1 NationalOperationType.rebalance 7 rebalance two_wallets
      {operation_id = 10} {s' = rebalanced_db} refl refl
      ((refl, refl), (refl, refl), ((refl, refl), (refl, refl), tt)) refl

abbrev undone : Db
undone = committed (cancel_operation 1 10 7) rebalanced_db

abbrev moved_once : NationalOperation
moved_once = record {
  id = 10;
  company_id = 1;
  reference = format_daily_reference (codes "OP") (empty_db.today) 1;
  type = NationalOperationType.rebalance;
  status = NationalOperationStatus.validated;
  client_name = none;
  client_phone = none;
  exchange_rate = none;
  proof_id = none;
  created_by_id = 7;
  validated_at = some 0;
  cancelled_at = none;
  reversal_of_id = none;
}

cancel_operation_undoes_example :
    net 3 undone.wallet_movements
    ≡ net 3 rebalanced_db.wallet_movements -ℤ brought 3 (lines_of 10 rebalanced_db)
unfolding cancel_operation cancel_loaded load_with_lines change_operation sorted_distinct
    create_operation lock_wallets lock_owned lock_existing check_currency for_each
    generate_reference generate_unique_reference format_daily_reference fresh_id add_operation
    add_operation_line book_line apply_movement log_action ◌>>=◌ raise_if quantize ◌+ℤ◌ ◌-ℤ◌
cancel_operation_undoes_example =
    cancel_operation_undoes 3 1 10 7 rebalanced_db {reversal_id = 11} {s' = undone} moved_once refl
      ((omega arith, omega arith, inl refl), ((omega arith, omega arith, inr refl), tt)) refl

lock_wallets_order_example :
    (two_wallets ≡ two_wallets)
    × IsAscending (map (λ w. w.id) (cash_box ∷ bank_account ∷ []))
    × ((k : ℕ)
        → contains k (map (λ w. w.id) (cash_box ∷ bank_account ∷ [])) ≡ contains k (4 ∷ 3 ∷ 4 ∷ []))
    × AllOwned 1 two_wallets (cash_box ∷ bank_account ∷ [])
unfolding sorted_distinct lock_wallets lock_owned for_each ◌>>=◌
lock_wallets_order_example =
    lock_wallets_order 1 (4 ∷ 3 ∷ 4 ∷ []) two_wallets {ws = cash_box ∷ bank_account ∷ []}
      {t = two_wallets} refl

lock_wallets_same_example : lock_wallets 1 (3 ∷ 1 ∷ 3 ∷ []) ≡ lock_wallets 1 (1 ∷ 3 ∷ [])
lock_wallets_same_example = lock_wallets_same 1 (3 ∷ 1 ∷ 3 ∷ []) (1 ∷ 3 ∷ []) (λ k. ground arith)
