-- ===== src/Tests/Histories.antt =====
-- Instances of the properties of histories, wallets, clients and collaborations.
use d_transfert_backend.Base.{◌≡◌, inl, refl, arith, some, [], ◌∷◌, String}
use d_transfert_backend.Int.{pos, ◌+ℤ◌, ◌-ℤ◌, ◌≤ℤ◌, ◌<ℤ◌}
use d_transfert_backend.Money.{Decimal, zero_amount, quantize}
use d_transfert_backend.Money.Rounding.{IsCents}
use d_transfert_backend.Errors.{ok}
use d_transfert_backend.Models.{
  MovementDirection, Wallet, WalletMovement, CollaboratorBalanceMovement, transfer_keyed,
  payment_keyed, client_keyed, wallet_keyed,
}
use d_transfert_backend.Table.{find}
use d_transfert_backend.Database.{Db}
use d_transfert_backend.Service.Keeps.{Keeps}
use d_transfert_backend.Wallets.{apply_movement, moved_balance}
use d_transfert_backend.Wallets.Effects.{apply_movement_ok, movement_row, moved}
use d_transfert_backend.Wallets.Ledger.{IsSound, moved_balance_ok, apply_movement-IsSound, signed}
use d_transfert_backend.Clients.{apply_balance_delta}
use d_transfert_backend.Clients.Ledger.{IsBooked, apply_balance_delta-IsBooked}
use d_transfert_backend.Collaborations.{balance_for_company}
use d_transfert_backend.Collaborations.Balance.{balances_opposite}
use d_transfert_backend.System.{Request, Step, Steps, handle}
use d_transfert_backend.System.Histories.{history-IsSound, history-IsBooked}
use d_transfert_backend.System.Finality.{decided_transfer_final, decided_payment_final}
use d_transfert_backend.System.Suspension.{no_suspension, AllLive}
use d_transfert_backend.Tests.Fixtures.{
  empty_db, empty-IsSound, empty-IsBooked, wallet_request, cash_box, ten, five, partner_db,
  decided_db, approved_transfer, rejected_payment,
}

abbrev post_wallets : String
post_wallets = "http:POST /wallets"

abbrev post_clients : String
post_clients = "http:POST /clients"

abbrev post_cancel : String
post_cancel = "http:POST /transfers/5/cancel"

abbrev post_reject : String
post_reject = "http:POST /payments/6/reject"

abbrev post_suspend : String
post_suspend = "http:POST /collaborations/4/suspend"

abbrev create_cash : Request
create_cash = Request.create_wallet_request 1 7 wallet_request

abbrev create_awa : Request
create_awa = Request.create_client_request 1 "Awa" "77"

abbrev cancel_again : Request
cancel_again = Request.cancel_transfer_request 1 7 5

abbrev reject_again : Request
reject_again = Request.reject_payment_request 2 7 6 "late"

abbrev suspend_partners : Request
suspend_partners = Request.suspend_collaboration_request 1 7 4

history-IsSound_example :
    IsSound (handle post_clients create_awa (handle post_wallets create_cash empty_db))
history-IsSound_example = history-IsSound {s = empty_db} empty-IsSound (
    Steps.then (Steps.then Steps.start (Step.request post_wallets create_cash))
      (Step.request post_clients create_awa))

history-IsBooked_example : IsBooked (handle post_clients create_awa empty_db)
history-IsBooked_example =
    history-IsBooked {s = empty_db} empty-IsBooked
      (Steps.then Steps.start (Step.request post_clients create_awa))

decided_transfer_final_example :
    find 5 (handle post_cancel cancel_again decided_db).transfers ≡ some approved_transfer
decided_transfer_final_example =
    decided_transfer_final 5 approved_transfer refl {s = decided_db} refl
      (Steps.then Steps.start (Step.request post_cancel cancel_again))

decided_payment_final_example :
    find 6 (handle post_reject reject_again decided_db).payments ≡ some rejected_payment
decided_payment_final_example =
    decided_payment_final 6 rejected_payment refl {s = decided_db} refl
      (Steps.then Steps.start (Step.request post_reject reject_again))

no_suspension_example : AllLive (handle post_suspend suspend_partners partner_db).collaborations
no_suspension_example =
    no_suspension {s = partner_db} (refl, tt)
      (Steps.then Steps.start (Step.request post_suspend suspend_partners))

apply_movement-IsSound_example :
    Keeps IsSound (apply_movement 3 MovementDirection.out five "transfer" 5 7)
apply_movement-IsSound_example = apply_movement-IsSound 3 MovementDirection.out five "transfer" 5 7

moved_balance_ok_example :
    (pos 0 ≤ℤ five) × IsCents five × (five ≡ ten +ℤ signed MovementDirection.out (quantize five))
unfolding moved_balance quantize ◌+ℤ◌ ◌-ℤ◌
moved_balance_ok_example =
    moved_balance_ok MovementDirection.out cash_box five five refl (omega arith) (omega arith)
      (refl, refl)

abbrev cash_db : Db
cash_db = record empty_db { next_id = 10; wallets = cash_box ∷ [] }

abbrev paid_out : WalletMovement
paid_out = movement_row MovementDirection.out cash_box 3 five five "transfer" 5 7

apply_movement_ok_example :
    (w : Wallet) × (balance : Decimal) × (find 3 cash_db.wallets ≡ some w)
    × (pos 0 <ℤ five)
    × (moved_balance MovementDirection.out w five ≡ ok balance)
    × (paid_out ≡ movement_row MovementDirection.out w 3 five balance "transfer" 5 7)
    × (moved 3 five paid_out cash_db ≡ moved 3 balance paid_out cash_db)
unfolding apply_movement quantize ◌+ℤ◌ ◌-ℤ◌
apply_movement_ok_example =
    apply_movement_ok 3 MovementDirection.out five "transfer" 5 7 cash_db {m = paid_out}
      {s' = moved 3 five paid_out cash_db} refl

apply_balance_delta-IsBooked_example :
    Keeps IsBooked (apply_balance_delta 2 five "transfer" 9 "XOF" 7)
apply_balance_delta-IsBooked_example =
    apply_balance_delta-IsBooked 2 five "transfer" 9 "XOF" 7 (refl, refl)

abbrev advance : CollaboratorBalanceMovement
advance = record {
  collaboration_id = 4;
  source_type = "transfer";
  source_id = 5;
  currency = "XOF";
  amount = ten;
  debtor_company_id = 1;
  creditor_company_id = 2;
}

balances_opposite_example :
    balance_for_company 4 1 (advance ∷ []) +ℤ balance_for_company 4 2 (advance ∷ []) ≡ zero_amount
balances_opposite_example =
    balances_opposite 4 1 2 (advance ∷ []) (omega arith) ((λ h. inl (refl, refl)), tt)
