-- ===== src/Locking.antt =====
-- How entry_service.create_entry and national_operation_service.create_operation lock wallets: the
-- distinct ids of the lines in ascending order, so that two operations on the same wallets lock them
-- in the same order and cannot deadlock; then the currency of each line is compared.
pub mod Order
pub mod Nets
pub mod Wallets
use d_transfert_backend.Base.{
  ℕ, String, Bool, true, false, not, Option, none, some, List, [], ◌∷◌, ltb, nat_eq, ◌==◌, id_eq,
  string_eq, map, if◌then◌else◌,
}
use d_transfert_backend.Errors.{Error}
use d_transfert_backend.Models.{Wallet, wallet_keyed}
use d_transfert_backend.Table.{provided}
use d_transfert_backend.Service.{
  Service, Done, pure, gets, or_raise, ◌>>=◌, ◌>>◌, raise_if, for_each,
}
use d_transfert_backend.Wallets.{lock_by_id}

-- Insertion into an ascending list without repetition.
abbrev pub insert_distinct : ℕ → List ℕ → List ℕ
insert_distinct i [] = i ∷ []
insert_distinct i (j ∷ js) =
    if nat_eq i j then j ∷ js else if ltb i j then i ∷ j ∷ js else j ∷ insert_distinct i js

-- `sorted({line.wallet_id for line in payload.lines})`
unfoldable pub sorted_distinct : List ℕ → List ℕ
sorted_distinct [] = []
sorted_distinct (i ∷ rest) = insert_distinct i (sorted_distinct rest)

-- `lock_by_id`, then `if wallet is None or wallet.company_id != company_id`
unfoldable pub lock_owned : ℕ → ℕ → Service Wallet
lock_owned company_id wallet_id = do
  locked ← gets (λ s. provided (λ w. w.company_id == company_id) (lock_by_id wallet_id s))
  or_raise locked Error.not_found

-- `lock_by_id`, then `if wallet is None`
unfoldable pub lock_existing : ℕ → Service Wallet
lock_existing wallet_id = do locked ← gets (lock_by_id wallet_id); or_raise locked Error.not_found

unfoldable pub lock_wallets : ℕ → List ℕ → Service (List Wallet)
lock_wallets company_id wallet_ids = for_each (lock_owned company_id) (sorted_distinct wallet_ids)

-- The wallet of a line, which has been locked, holds the currency of the line.
unfoldable pub check_currency : ℕ → String → Service Done
check_currency wallet_id currency = do
  wallet ← lock_existing wallet_id
  raise_if (not (currency == wallet.currency)) Error.unbalanced_operation
