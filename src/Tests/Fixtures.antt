-- ===== src/Tests/Fixtures.antt =====
-- The data of the tests: an empty database, and small rows.
use d_transfert_backend.Base.{false, none, some, [], ◌∷◌, arith, refl}
use d_transfert_backend.Int.{pos, ◌+ℤ◌}
use d_transfert_backend.Money.{Decimal, zero_amount}
use d_transfert_backend.Models.{
  Wallet, WalletType, WalletStatus, Client, ClientBalanceMovement, Collaboration,
  CollaborationStatus, Transfer, ExchangeStatus, SendMode, Payment, Entry, EntryLine,
  EntryAllocation, EntryStatus, EntryAllocationTargetType, wallet_keyed, client_keyed,
}
use d_transfert_backend.TextOps.{codes}
use d_transfert_backend.Database.{Db}
use d_transfert_backend.Wallets.{WalletCreateRequest}
use d_transfert_backend.Wallets.Ledger.{IsSound}
use d_transfert_backend.Clients.Ledger.{IsBooked}

abbrev pub empty_db : Db
empty_db = record {
  next_id = 1;
  today = record { year = 2026; month = 3; day = 7 };
  now = 0;
  companies = [];
  wallets = [];
  wallet_movements = [];
  entries = [];
  entry_lines = [];
  allocations = [];
  clients = [];
  client_movements = [];
  collaborations = [];
  rates = [];
  collaborator_movements = [];
  private_rates = [];
  transfers = [];
  transfer_history = [];
  payments = [];
  payment_history = [];
  operations = [];
  operation_lines = [];
  suppliers = [];
  supplier_movements = [];
  proofs = [];
  audit_logs = [];
  notifications = [];
  users = [];
  permissions = [];
  roles = [];
  role_permissions = [];
  overrides = [];
  otps = [];
  revoked_tokens = [];
  settings = [];
  subscriptions = [];
  system_logs = [];
}

-- Ten francs and five francs, in units.
abbrev pub ten : Decimal
ten = pos 1000000000

abbrev pub five : Decimal
five = pos 500000000

abbrev pub cash_box : Wallet
cash_box = record {
  id = 3;
  company_id = 1;
  name = "Caisse";
  code = "C1";
  type = WalletType.cash;
  phone = none;
  currency = "XOF";
  balance = ten;
  status = WalletStatus.active;
}

abbrev pub wallet_request : WalletCreateRequest
wallet_request = record {
  name = "Caisse";
  code = "C1";
  type = WalletType.cash;
  phone = none;
  currency = "XOF";
  initial_balance = ten;
}

abbrev pub awa : Client
awa = record { id = 2; company_id = 1; name = "Awa"; phone = "77"; balance = five }

abbrev pub awa_debt : ClientBalanceMovement
awa_debt = record {
  client_id = 2;
  source_type = "transfer";
  source_id = 9;
  currency = "XOF";
  delta = five;
  balance_before = zero_amount;
  balance_after = five;
  created_by_id = 7;
}

abbrev pub client_db : Db
client_db = record empty_db { next_id = 10; clients = awa ∷ []; client_movements = awa_debt ∷ [] }

abbrev pub partners : Collaboration
partners = record {
  id = 4;
  initiator_company_id = 1;
  target_company_id = 2;
  currency = "XOF";
  status = CollaborationStatus.accepted;
  current_rate_id = none;
}

abbrev pub partner_db : Db
partner_db = record empty_db { next_id = 10; collaborations = partners ∷ [] }

abbrev pub approved_transfer : Transfer
approved_transfer = record {
  id = 5;
  company_id = 1;
  collaboration_id = 4;
  entry_id = none;
  client_id = none;
  client_debt_amount = none;
  reference = codes "TR";
  amount = ten;
  currency = "XOF";
  target_currency = "XOF";
  beneficiary_phone = "78";
  send_mode = SendMode.wave;
  private_rate_used = none;
  collaborative_rate_used = ten;
  converted_amount = ten;
  status = ExchangeStatus.approved;
  proof_id = none;
  wallet_id = some 3;
  created_by_id = 7;
  approved_at = some 0;
  rejected_at = none;
  rejection_reason = none;
}

abbrev pub rejected_payment : Payment
rejected_payment = record {
  id = 6;
  company_id = 1;
  collaboration_id = 4;
  entry_id = none;
  wallet_id = none;
  client_id = none;
  client_debt_amount = none;
  reference = codes "PA";
  amount = ten;
  currency = "XOF";
  client_name = none;
  client_phone = none;
  collaborative_rate_used = ten;
  converted_amount = ten;
  settles_debt = false;
  status = ExchangeStatus.rejected;
  proof_id = none;
  created_by_id = 7;
  approved_at = none;
  rejected_at = some 0;
  rejection_reason = some "";
}

abbrev pub decided_db : Db
decided_db = record partner_db {
  transfers = approved_transfer ∷ [];
  payments = rejected_payment ∷ [];
}

abbrev pub deposit : EntryLine
deposit = record { entry_id = 8; wallet_id = 3; amount = ten; currency = "XOF" }

abbrev pub half_used : EntryAllocation
half_used = record {
  id = 11;
  entry_id = 8;
  target_type = EntryAllocationTargetType.transfer;
  target_id = 5;
  currency = "XOF";
  amount_allocated = five;
}

abbrev pub open_entry : Entry
open_entry = record {
  id = 8;
  company_id = 1;
  reference = codes "EN";
  client_name = some "Awa";
  client_phone = some "77";
  status = EntryStatus.partially_allocated;
  merged_into_id = none;
  created_by_id = 7;
}

pub empty-IsSound : IsSound empty_db
empty-IsSound = record { backing = λ i w h. cc; orphans = λ i h. refl; fresh = λ i h. refl }

pub empty-IsBooked : IsBooked empty_db
empty-IsBooked = record {
  booked = λ i c h. cc;
  orphans = λ i h. refl;
  fresh = λ i h. refl;
  whole = tt;
}

pub client_db-IsBooked : IsBooked client_db
unfolding ◌+ℤ◌
client_db-IsBooked = record {
  booked = λ i c h. ground arith;
  orphans = λ i h. ground arith;
  fresh = λ i h. ground arith;
  whole = ((refl, refl), tt);
}
