-- ===== src/Models/Clients.antt =====
-- app/models/client.py and client_balance_movement.py
use d_transfert_backend.Base.{ℕ, String}
use d_transfert_backend.Money.{Decimal}
use d_transfert_backend.Table.{Keyed}

pub record Client : Type 0 where
  pub id : ℕ
  pub company_id : ℕ
  pub name : String
  pub phone : String
  pub balance : Decimal

pub record ClientBalanceMovement : Type 0 where
  pub client_id : ℕ
  pub source_type : String
  pub source_id : ℕ
  pub currency : String
  pub delta : Decimal
  pub balance_before : Decimal
  pub balance_after : Decimal
  pub created_by_id : ℕ

instance abbrev pub client_keyed : Keyed Client
client_keyed = record { key = λ c. c.id }
