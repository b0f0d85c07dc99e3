-- ===== src/Models/Wallets.antt =====
-- app/models/wallet.py, wallet_movement.py, supplier.py and supplier_balance_movement.py
use d_transfert_backend.Base.{ℕ, Text, String, Bool, true, false, Option}
use d_transfert_backend.Money.{Decimal}
use d_transfert_backend.Table.{Keyed}

pub data WalletType : Type 0 where
  cash mobile_money bank other : WalletType

pub data WalletStatus : Type 0 where
  active inactive : WalletStatus

pub data MovementDirection : Type 0 where
  into out : MovementDirection

pub record Wallet : Type 0 where
  pub id : ℕ
  pub company_id : ℕ
  pub name : String
  pub code : String
  pub type : WalletType
  pub phone : Option String
  pub currency : String
  pub balance : Decimal
  pub status : WalletStatus

pub record WalletMovement : Type 0 where
  pub wallet_id : ℕ
  pub direction : MovementDirection
  pub amount : Decimal
  pub currency : String
  pub balance_before : Decimal
  pub balance_after : Decimal
  pub source_type : String
  pub source_id : ℕ
  pub created_by_id : ℕ

abbrev pub is_active : WalletStatus → Bool
is_active WalletStatus.active = true
is_active WalletStatus.inactive = false

pub data SupplierMovementType : Type 0 where
  debt payment : SupplierMovementType

pub record Supplier : Type 0 where
  pub id : ℕ
  pub company_id : ℕ
  pub name : String
  pub code : String
  pub phone : Option String
  pub currency : String
  pub balance : Decimal

pub record SupplierBalanceMovement : Type 0 where
  pub company_id : ℕ
  pub supplier_id : ℕ
  pub reference : Text
  pub wallet_id : ℕ
  pub type : SupplierMovementType
  pub amount : Decimal
  pub balance_before : Decimal
  pub balance_after : Decimal
  pub proof_id : Option ℕ
  pub created_by_id : ℕ

instance abbrev pub wallet_keyed : Keyed Wallet
wallet_keyed = record { key = λ w. w.id }

instance abbrev pub supplier_keyed : Keyed Supplier
supplier_keyed = record { key = λ s. s.id }
