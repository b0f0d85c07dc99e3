-- ===== src/Wallets/Effects.antt =====
-- The exact effect of a movement on the database, and when it is refused.
use d_transfert_backend.Base.{
  ℕ, String, ◌≡◌, refl, some, [], ◌∷◌, ◌++◌, arith, Option-cases, inl, inr, ◌⊎◌,
}
use d_transfert_backend.Int.{pos, ◌<ℤ◌}
use d_transfert_backend.Money.{Decimal, quantize}
use d_transfert_backend.Errors.{Error, Result, ok, err}
use d_transfert_backend.Models.{Wallet, WalletMovement, MovementDirection, wallet_keyed}
use d_transfert_backend.Table.{find, update_row}
use d_transfert_backend.Database.{Db}
use d_transfert_backend.Wallets.{moved_balance, apply_movement}

-- The row that a movement of `wallet` to `balance` writes.
abbrev pub movement_row :
    MovementDirection → Wallet → ℕ → Decimal → Decimal → String → ℕ → ℕ → WalletMovement
movement_row direction wallet wallet_id amount balance source_type source_id created_by_id =
    record {
      wallet_id = wallet_id;
      direction = direction;
      amount = quantize amount;
      currency = wallet.currency;
      balance_before = wallet.balance;
      balance_after = balance;
      source_type = source_type;
      source_id = source_id;
      created_by_id = created_by_id;
    }

abbrev pub moved : ℕ → Decimal → WalletMovement → Db → Db
moved wallet_id balance movement s = record s {
  wallets = update_row wallet_id (λ w. record w { balance = balance }) s.wallets;
  wallet_movements = s.wallet_movements ++ movement ∷ [];
}

pub Result-cases :
    {A : Type 0} (r : Result A) → ((a : A) × (r ≡ ok a)) ⊎ ((e : Error) × (r ≡ err e))
Result-cases (ok a) = inl (a, refl)
Result-cases (err e) = inr (e, refl)

module _ (wallet_id : ℕ) (d : MovementDirection) (amount : Decimal) (source : String)
    (source_id by : ℕ) where
  -- A movement that returns had a positive amount and an existing wallet that allowed it; it has
  -- written the new balance and one movement row, and nothing else.
  pub apply_movement_ok :
      (s : Db) {m : WalletMovement} {s' : Db}
      → apply_movement wallet_id d amount source source_id by s ≡ ok (m, s')
      → (w : Wallet) × (balance : Decimal) × (find wallet_id s.wallets ≡ some w)
        × (pos 0 <ℤ amount)
        × (moved_balance d w amount ≡ ok balance)
        × (m ≡ movement_row d w wallet_id amount balance source source_id by)
        × (s' ≡ moved wallet_id balance m s)
  unfolding apply_movement
  apply_movement_ok s {m} {s'} h = elim (Option-cases (find wallet_id s.wallets)) [
    | inl missing ↦ ground arith
    | inr (w, e) ↦ elim (Result-cases (moved_balance d w amount)) [
      | inl (balance, b) ↦ (w, balance, e, ground arith, b, ground arith, ground arith)
      | inr (e', b) ↦ ground arith
    ]
  ]
