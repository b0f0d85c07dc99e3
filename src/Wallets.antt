-- ===== src/Wallets.antt =====
-- app/services/wallet_service.py with wallet_repository.py and wallet_movement_repository.py.
-- A mapped `Wallet` object is its primary key: `apply_movement` reads the current attributes of the
-- object that its caller has locked, and writes the balance back to the same row.
pub mod Ledger
pub mod Effects
pub mod Sound
use d_transfert_backend.Base.{
  ℕ, String, Bool, true, false, not, Option, none, some, List, [], ◌∷◌, ◌++◌, ◌==◌, id_eq,
  string_eq, ◌&&◌, keep, if◌then◌else◌,
}
use d_transfert_backend.Int.{◌+ℤ◌, ◌-ℤ◌, ltb_ℤ, leb_ℤ}
use d_transfert_backend.Money.{Decimal, quantize, zero_amount, is_positive}
use d_transfert_backend.Errors.{Error, Result, ok, err}
use d_transfert_backend.Models.{
  Wallet, WalletType, WalletStatus, WalletMovement, MovementDirection, wallet_keyed, is_active,
}
use d_transfert_backend.Table.{find, update_row, provided, scalar_one_or_none}
use d_transfert_backend.Database.{Db}
use d_transfert_backend.Service.{
  Service, Done, pure, gets, query, or_raise, ◌>>=◌, ◌>>◌, modify, raise_if, when, fresh_id,
}
use d_transfert_backend.Audit.{log_action}

-- wallet_repository
abbrev pub lock_by_id : ℕ → Db → Option Wallet
lock_by_id wallet_id s = find wallet_id s.wallets

abbrev pub get_by_company_and_id : ℕ → ℕ → Db → Option Wallet
get_by_company_and_id company_id wallet_id s =
    provided (λ w. w.company_id == company_id) (find wallet_id s.wallets)

abbrev pub get_by_company_and_code : ℕ → String → Db → Result (Option Wallet)
get_by_company_and_code company_id code s =
    scalar_one_or_none (λ w. w.company_id == company_id && w.code == code) s.wallets

-- The tests and the arithmetic of `apply_movement` on a positive amount: the new balance.
unfoldable pub moved_balance : MovementDirection → Wallet → Decimal → Result Decimal
moved_balance direction wallet amount =
    if not (is_active wallet.status) then err Error.conflict else elim direction [
      | MovementDirection.out ↦
          if ltb_ℤ wallet.balance (quantize amount)
          then err Error.insufficient_balance
          else ok (quantize (wallet.balance -ℤ quantize amount))
      | MovementDirection.into ↦ ok (quantize (wallet.balance +ℤ quantize amount))
    ]

-- wallet_movement_repository.create
unfoldable pub create_movement : WalletMovement → Service Done
unfolding modify
create_movement movement =
    modify λ s. record s { wallet_movements = s.wallet_movements ++ movement ∷ [] }

-- `wallet.balance = balance`
unfoldable pub set_balance : ℕ → Decimal → Service Done
unfolding modify
set_balance wallet_id balance =
    modify λ s. record s {
      wallets = update_row wallet_id (λ w. record w { balance = balance }) s.wallets;
    }

unfoldable pub apply_movement :
    ℕ → MovementDirection → Decimal → String → ℕ → ℕ → Service WalletMovement
unfolding ◌>>=◌ raise_if moved_balance set_balance create_movement
apply_movement wallet_id direction amount source_type source_id created_by_id = do
  raise_if (leb_ℤ amount zero_amount) Error.value_error
  locked ← gets (lock_by_id wallet_id)
  wallet ← or_raise locked Error.not_found
  balance ← query (λ _. moved_balance direction wallet amount)
  set_balance wallet_id balance
  let movement : WalletMovement = record {
    wallet_id = wallet_id;
    direction = direction;
    amount = quantize amount;
    currency = wallet.currency;
    balance_before = wallet.balance;
    balance_after = balance;
    source_type = source_type;
    source_id = source_id;
    created_by_id = created_by_id;
  }
  create_movement movement
  pure movement

-- app/schemas/wallet.py
pub record WalletCreateRequest : Type 0 where
  pub name : String
  pub code : String
  pub type : WalletType
  pub phone : Option String
  pub currency : String
  pub initial_balance : Decimal

unfoldable pub add_wallet : Wallet → Service Done
unfolding modify
add_wallet wallet = modify λ s. record s { wallets = s.wallets ++ wallet ∷ [] }

unfoldable pub create_wallet : ℕ → ℕ → WalletCreateRequest → Service ℕ
create_wallet company_id created_by_id payload = do
  existing ← query (get_by_company_and_code company_id payload.code)
  raise_if (elim existing [ none ↦ false | some _ ↦ true ]) Error.conflict
  wallet_id ← fresh_id
  add_wallet (record {
    id = wallet_id;
    company_id = company_id;
    name = payload.name;
    code = payload.code;
    type = payload.type;
    phone = payload.phone;
    currency = payload.currency;
    balance = zero_amount;
    status = WalletStatus.active;
  })
  when (is_positive payload.initial_balance) (
      apply_movement wallet_id MovementDirection.into payload.initial_balance "wallet_initial"
        wallet_id created_by_id
      >> pure tt)
  log_action company_id created_by_id "wallet.create" "wallet" wallet_id
  pure wallet_id

unfoldable pub get_wallet : ℕ → ℕ → Service Wallet
get_wallet company_id wallet_id = do
  found ← gets (get_by_company_and_id company_id wallet_id)
  or_raise found Error.not_found

-- The attributes that a request sets; `None` leaves one alone.
pub record WalletUpdateRequest : Type 0 where
  pub name : Option String
  pub phone : Option String

abbrev pub renamed : WalletUpdateRequest → Wallet → Wallet
renamed payload w = record w {
  name = elim payload.name [ none ↦ w.name | some n ↦ n ];
  phone = elim payload.phone [ none ↦ w.phone | some p ↦ some p ];
}

-- Assignments to the attributes of a wallet.
unfoldable pub change_wallet : ℕ → (Wallet → Wallet) → Service Done
unfolding modify
change_wallet wallet_id f = modify λ s. record s { wallets = update_row wallet_id f s.wallets }

unfoldable pub update_wallet : ℕ → ℕ → ℕ → WalletUpdateRequest → Service Done
update_wallet company_id changed_by_user_id wallet_id payload = do
  wallet ← get_wallet company_id wallet_id
  change_wallet wallet_id (renamed payload)
  log_action company_id changed_by_user_id "wallet.update" "wallet" wallet_id

unfoldable pub set_wallet_status : ℕ → ℕ → ℕ → WalletStatus → Service Done
set_wallet_status company_id changed_by_user_id wallet_id status = do
  wallet ← get_wallet company_id wallet_id
  change_wallet wallet_id (λ w. record w { status = status })
  log_action company_id changed_by_user_id "wallet.status_change" "wallet" wallet_id

unfoldable pub list_wallet_movements : ℕ → ℕ → Service (List WalletMovement)
list_wallet_movements company_id wallet_id = do
  wallet ← get_wallet company_id wallet_id
  gets (λ s. keep (λ m. m.wallet_id == wallet_id) s.wallet_movements)
