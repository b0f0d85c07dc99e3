-- ===== src/Tests/Entries.antt =====
-- An entry that is received and cancelled.
use d_transfert_backend.Table.{find}
use d_transfert_backend.Base.{◌≡◌, refl, none, some, List, [], ◌∷◌, ◌++◌, arith, true}
use d_transfert_backend.Int.{◌+ℤ◌, ◌-ℤ◌}
use d_transfert_backend.Money.{quantize}
use d_transfert_backend.Models.{Entry, EntryLine, EntryStatus, entry_keyed}
use d_transfert_backend.Database.{Db}
use d_transfert_backend.Service.{committed, ◌>>=◌, raise_if, for_each, fresh_id}
use d_transfert_backend.TextOps.{codes}
use d_transfert_backend.Audit.{log_action}
use d_transfert_backend.Reference.{generate_unique_reference, format_daily_reference}
use d_transfert_backend.Locking.{
  sorted_distinct, lock_wallets, lock_owned, lock_existing, check_currency,
}
use d_transfert_backend.Wallets.{apply_movement}
use d_transfert_backend.Wallets.Ledger.{net}
use d_transfert_backend.Entries.{
  EntryCreateRequest, create_entry, cancel_entry, generate_reference, add_entry, add_entry_line,
  change_entry, receive_line, return_line, load_full, get_lines, merge_entries, merge_sources,
  merge_source, distribute, aggregate, client_key_of, available_by_currency,
}
use d_transfert_backend.Entries.Effect.{
  received, held_in, create_entry_receives, cancel_entry_returns,
}
use d_transfert_backend.Entries.Remaining.{line_total}
use d_transfert_backend.Entries.Merging.{available_total}
use d_transfert_backend.Entries.Sources.{sources_of}
use d_transfert_backend.Entries.Merged.{merge_entries_conserves, AllOf}
use d_transfert_backend.Entries.Marked.{merge_entries_marks, marked_if}
use d_transfert_backend.Tests.Fixtures.{empty_db, cash_box, five, deposit, half_used, open_entry}

abbrev one_wallet : Db
one_wallet = record empty_db { next_id = 10; wallets = cash_box ∷ [] }

abbrev entry_request : EntryCreateRequest
entry_request = record {
  client_name = some "Awa";
  client_phone = some "77";
  lines = record { wallet_id = 3; amount = five; currency = "XOF" } ∷ [];
}

abbrev received_db : Db
received_db = committed (create_entry 1 7 entry_request) one_wallet

create_entry_receives_example :
    net 3 received_db.wallet_movements
    ≡ net 3 one_wallet.wallet_movements +ℤ received 3 entry_request.lines
unfolding create_entry sorted_distinct lock_wallets lock_owned lock_existing check_currency for_each
    generate_reference generate_unique_reference format_daily_reference fresh_id add_entry
    add_entry_line receive_line apply_movement log_action ◌>>=◌ raise_if quantize ◌+ℤ◌ ◌-ℤ◌
create_entry_receives_example =
    create_entry_receives 3 1 7 entry_request one_wallet {entry_id = 10} {s' = received_db} refl

abbrev received_entry : Entry
received_entry = record {
  id = 10;
  company_id = 1;
  reference = format_daily_reference (codes "EN") (empty_db.today) 1;
  client_name = some "Awa";
  client_phone = some "77";
  status = EntryStatus.unallocated;
  merged_into_id = none;
  created_by_id = 7;
}

abbrev returned_db : Db
returned_db = committed (cancel_entry 1 7 10) received_db

cancel_entry_returns_example :
    net 3 returned_db.wallet_movements
    ≡ net 3 received_db.wallet_movements -ℤ held_in 3 (get_lines 10 received_db)
unfolding cancel_entry load_full return_line change_entry create_entry sorted_distinct lock_wallets
    lock_owned lock_existing check_currency for_each generate_reference generate_unique_reference
    format_daily_reference fresh_id add_entry add_entry_line receive_line apply_movement log_action
    ◌>>=◌ raise_if quantize ◌+ℤ◌ ◌-ℤ◌
cancel_entry_returns_example =
    cancel_entry_returns 3 1 7 10 received_db received_entry {s' = returned_db} refl refl

-- Half of the deposit is allocated, and the rest goes into the merged entry.
abbrev mergeable : Db
mergeable = record empty_db {
  next_id = 20;
  entries = open_entry ∷ [];
  entry_lines = deposit ∷ [];
  allocations = half_used ∷ [];
}

abbrev merged : Db
merged = committed (merge_entries 1 7 (8 ∷ [])) mergeable

merge_entries_conserves_example :
    (rows : List EntryLine) × (merged.entry_lines ≡ mergeable.entry_lines ++ rows)
    × AllOf 20 rows
    × (line_total "XOF" rows ≡ available_total "XOF" (sources_of (8 ∷ []) mergeable))
unfolding merge_entries merge_sources merge_source load_full distribute aggregate for_each fresh_id
    generate_reference generate_unique_reference format_daily_reference add_entry add_entry_line
    change_entry client_key_of available_by_currency ◌>>=◌ raise_if quantize ◌+ℤ◌ ◌-ℤ◌
merge_entries_conserves_example =
    merge_entries_conserves "XOF" 1 7 (8 ∷ []) mergeable {merged_id = 20} {t = merged}
      ((omega arith, tt), omega arith, omega arith, tt) refl

merge_entries_marks_example : find 8 merged.entries ≡ some (marked_if true 20 open_entry)
unfolding merge_entries merge_sources merge_source load_full distribute aggregate for_each fresh_id
    generate_reference generate_unique_reference format_daily_reference add_entry add_entry_line
    change_entry client_key_of available_by_currency ◌>>=◌ raise_if quantize ◌+ℤ◌ ◌-ℤ◌
merge_entries_marks_example =
    merge_entries_marks 8 1 7 (8 ∷ []) mergeable open_entry {merged_id = 20} {t = merged} refl refl
