-- ===== src/Models/Entries.antt =====
-- app/models/entry.py, entry_line.py and entry_allocation.py
use d_transfert_backend.Base.{ℕ, Text, String, Bool, true, false, Option}
use d_transfert_backend.Money.{Decimal}
use d_transfert_backend.Table.{Keyed}

pub data EntryStatus : Type 0 where
  unallocated partially_allocated allocated consumed rejected cancelled : EntryStatus

pub data EntryAllocationTargetType : Type 0 where
  transfer payment : EntryAllocationTargetType

pub record Entry : Type 0 where
  pub id : ℕ
  pub company_id : ℕ
  pub reference : Text
  pub client_name : Option String
  pub client_phone : Option String
  pub status : EntryStatus
  pub merged_into_id : Option ℕ
  pub created_by_id : ℕ

pub record EntryLine : Type 0 where
  pub entry_id : ℕ
  pub wallet_id : ℕ
  pub amount : Decimal
  pub currency : String

pub record EntryAllocation : Type 0 where
  pub id : ℕ
  pub entry_id : ℕ
  pub target_type : EntryAllocationTargetType
  pub target_id : ℕ
  pub currency : String
  pub amount_allocated : Decimal

instance abbrev pub entry_keyed : Keyed Entry
entry_keyed = record { key = λ e. e.id }

instance abbrev pub allocation_keyed : Keyed EntryAllocation
allocation_keyed = record { key = λ a. a.id }

abbrev pub same_target_type : EntryAllocationTargetType → EntryAllocationTargetType → Bool
same_target_type EntryAllocationTargetType.transfer EntryAllocationTargetType.transfer = true
same_target_type EntryAllocationTargetType.payment EntryAllocationTargetType.payment = true
same_target_type _ _ = false
