-- ===== src/Entries.antt =====
-- app/services/entry_service.py with entry_repository.py: money received from clients into wallets
-- (an entry and its lines), of which transfers and payments allocate parts.
mod Available
mod Merge
unfoldable pub use Available.*
unfoldable pub use Merge.*
pub mod Remaining
pub mod Spreading
pub mod Merging
pub mod Sources
pub mod Merged
pub mod Marked
pub mod Keeps
pub mod Effect
use d_transfert_backend.Base.{
  ℕ, String, Text, Bool, true, false, not, Option, none, some, List, [], ◌∷◌, ◌++◌, ◌==◌, id_eq,
  string_eq, list_eq, ◌&&◌, ◌||◌, keep, map, is_some, if◌then◌else◌,
}
use d_transfert_backend.Money.{Decimal, quantize}
use d_transfert_backend.Errors.{Error}
use d_transfert_backend.Models.{
  Entry, EntryLine, EntryAllocation, EntryStatus, EntryAllocationTargetType, MovementDirection,
  entry_keyed, allocation_keyed, same_target_type,
}
use d_transfert_backend.Table.{find, update_row, delete_row, provided, scalar_one_or_none}
use d_transfert_backend.Database.{Db}
use d_transfert_backend.Reference.{Issued, generate_unique_reference}
use d_transfert_backend.TextOps.{codes}
use d_transfert_backend.Service.{
  Service, Done, pure, gets, query, or_raise, ◌>>=◌, ◌>>◌, modify, raise_if, fresh_id, for_each,
}
use d_transfert_backend.Audit.{log_action}
use d_transfert_backend.Wallets.{apply_movement}
use d_transfert_backend.Locking.{lock_wallets, lock_existing, check_currency}

-- entry_repository
abbrev pub get_by_company_and_id : ℕ → ℕ → Db → Option Entry
get_by_company_and_id company_id entry_id s =
    provided (λ e. e.company_id == company_id) (find entry_id s.entries)

abbrev pub get_lines : ℕ → Db → List EntryLine
get_lines entry_id s = keep (λ l. l.entry_id == entry_id) s.entry_lines

abbrev pub get_allocations : ℕ → Db → List EntryAllocation
get_allocations entry_id s = keep (λ a. a.entry_id == entry_id) s.allocations

abbrev pub issued_entries : Db → List Issued
issued_entries s =
    map (λ e. record { company_id = e.company_id; reference = e.reference }) s.entries

-- `_generate_unique_reference`
unfoldable pub generate_reference : ℕ → Service Text
generate_reference company_id =
    query (λ s. generate_unique_reference (codes "EN") (issued_entries s) company_id s.today)

-- An entry with its lines and its allocations.
pub record Loaded : Type 0 where
  pub entry : Entry
  pub lines : List EntryLine
  pub allocations : List EntryAllocation

-- `_load_full`, which is `get_entry`
unfoldable pub load_full : ℕ → ℕ → Service Loaded
load_full company_id entry_id = do
  found ← gets (get_by_company_and_id company_id entry_id)
  entry ← or_raise found Error.not_found
  lines ← gets (get_lines entry.id)
  allocations ← gets (get_allocations entry.id)
  pure (record { entry = entry; lines = lines; allocations = allocations })

unfoldable pub add_entry : Entry → Service Done
unfolding modify
add_entry entry = modify λ s. record s { entries = s.entries ++ entry ∷ [] }

unfoldable pub add_entry_line : EntryLine → Service Done
unfolding modify
add_entry_line line = modify λ s. record s { entry_lines = s.entry_lines ++ line ∷ [] }

unfoldable pub change_entry : ℕ → (Entry → Entry) → Service Done
unfolding modify
change_entry entry_id f = modify λ s. record s { entries = update_row entry_id f s.entries }

-- `entry.status = status`
abbrev pub set_status : EntryStatus → Entry → Entry
set_status status e = record e { status = status }

-- app/schemas/entry.py
pub record EntryLineRequest : Type 0 where
  pub wallet_id : ℕ
  pub amount : Decimal
  pub currency : String

pub record EntryCreateRequest : Type 0 where
  pub client_name : Option String
  pub client_phone : Option String
  pub lines : List EntryLineRequest

unfoldable pub receive_line : ℕ → ℕ → EntryLineRequest → Service EntryLine
receive_line entry_id created_by_id line = do
  apply_movement line.wallet_id MovementDirection.into line.amount "entry" entry_id created_by_id
  let row : EntryLine = record {
    entry_id = entry_id;
    wallet_id = line.wallet_id;
    amount = quantize line.amount;
    currency = line.currency;
  }
  add_entry_line row
  pure row

unfoldable pub create_entry : ℕ → ℕ → EntryCreateRequest → Service ℕ
create_entry company_id created_by_id payload = do
  lock_wallets company_id (map (λ l. l.wallet_id) payload.lines)
  for_each (λ l. check_currency l.wallet_id l.currency) payload.lines
  reference ← generate_reference company_id
  entry_id ← fresh_id
  add_entry (record {
    id = entry_id;
    company_id = company_id;
    reference = reference;
    client_name = payload.client_name;
    client_phone = payload.client_phone;
    status = EntryStatus.unallocated;
    merged_into_id = none;
    created_by_id = created_by_id;
  })
  for_each (receive_line entry_id created_by_id) payload.lines
  log_action company_id created_by_id "entry.create" "entry" entry_id
  pure entry_id

-- The tests of one source entry of a merge: the key of the client of the entries before it comes
-- in, and its own key goes out with what is left of its lines.
unfoldable pub merge_source :
    ℕ → Option ClientKey → ℕ → Service (ClientKey × Entry × List RemainingLine)
merge_source company_id reference_client_key entry_id = do
  loaded ← load_full company_id entry_id
  raise_if (not (is_mergeable loaded.entry.status)) Error.conflict
  raise_if (is_some loaded.entry.merged_into_id) Error.conflict
  client_key ← or_raise (client_key_of loaded.entry) Error.conflict
  raise_if (not (same_key reference_client_key client_key)) Error.conflict
  pure (
    client_key,
    loaded.entry,
    distribute loaded.lines (available_by_currency loaded.lines loaded.allocations),
  )

-- The loop over `payload.entry_ids`: the source entries, and their remaining lines one after another.
unfoldable pub merge_sources :
    ℕ → Option ClientKey → List ℕ → Service (List Entry × List RemainingLine)
merge_sources company_id key [] = pure ([], [])
merge_sources company_id key (entry_id ∷ rest) = do
  (client_key, entry, lines) ← merge_source company_id key entry_id
  (entries, more) ← merge_sources company_id (some client_key) rest
  pure (entry ∷ entries, lines ++ more)

abbrev pub first_name : List Entry → Option String
first_name [] = none
first_name (e ∷ es) = e.client_name

abbrev pub first_phone : List Entry → Option String
first_phone [] = none
first_phone (e ∷ es) = e.client_phone

unfoldable pub merge_entries : ℕ → ℕ → List ℕ → Service ℕ
merge_entries company_id created_by_id entry_ids = do
  raise_if (not (distinct entry_ids)) Error.conflict
  (source_entries, remaining) ← merge_sources company_id none entry_ids
  reference ← generate_reference company_id
  merged_id ← fresh_id
  add_entry (record {
    id = merged_id;
    company_id = company_id;
    reference = reference;
    client_name = first_name source_entries;
    client_phone = first_phone source_entries;
    status = EntryStatus.unallocated;
    merged_into_id = none;
    created_by_id = created_by_id;
  })
  for_each
      (λ l. add_entry_line (record {
        entry_id = merged_id;
        wallet_id = l.wallet_id;
        amount = l.amount;
        currency = l.currency;
      }))
      (aggregate remaining)
  for_each (λ e. change_entry e.id (λ x. record x { merged_into_id = some merged_id }))
      source_entries
  pure merged_id

unfoldable pub return_line : ℕ → ℕ → EntryLine → Service Done
return_line entry_id created_by_id line = do
  lock_existing line.wallet_id
  apply_movement line.wallet_id MovementDirection.out line.amount "entry_cancellation" entry_id
      created_by_id
  pure tt

abbrev pub is_empty : {A : Type 0} → List A → Bool
is_empty [] = true
is_empty (x ∷ xs) = false

unfoldable pub cancel_entry : ℕ → ℕ → ℕ → Service Done
cancel_entry company_id created_by_id entry_id = do
  loaded ← load_full company_id entry_id
  raise_if (is_some loaded.entry.merged_into_id) Error.conflict
  raise_if (not (is_empty loaded.allocations)) Error.conflict
  raise_if (not (is_mergeable loaded.entry.status)) Error.conflict
  for_each (return_line entry_id created_by_id) loaded.lines
  change_entry entry_id (set_status EntryStatus.cancelled)
