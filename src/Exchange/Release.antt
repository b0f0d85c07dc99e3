-- ===== src/Exchange/Release.antt =====
-- What a rejection or a cancellation undoes: the allocation of the entry and the bookings on the
-- client.
use d_transfert_backend.Base.{ℕ, String, Option, ◌==◌, id_eq, ◌&&◌}
use d_transfert_backend.Models.{
  EntryAllocation, EntryAllocationTargetType, allocation_keyed, same_target_type, proof_keyed,
}
use d_transfert_backend.Table.{delete_row, scalar_one_or_none}
use d_transfert_backend.Errors.{Result}
use d_transfert_backend.Database.{Db}
use d_transfert_backend.Service.{Service, Done, query, ◌>>=◌, ◌>>◌, modify, when_some}
use d_transfert_backend.Entries.{load_full, change_entry, set_status, recompute_status}
use d_transfert_backend.Clients.{reverse_movements_for_source}

-- entry_repository.get_allocation_by_target
abbrev pub get_allocation_by_target :
    EntryAllocationTargetType → ℕ → Db → Result (Option EntryAllocation)
get_allocation_by_target target_type target_id s =
    scalar_one_or_none (λ a. same_target_type a.target_type target_type && a.target_id == target_id)
      s.allocations

unfoldable pub delete_allocation : EntryAllocation → Service Done
unfolding modify
delete_allocation allocation =
    modify λ s. record s { allocations = delete_row allocation.id s.allocations }

-- `if transfer.entry_id is not None: ...`
unfoldable pub release_allocation : Option ℕ → EntryAllocationTargetType → ℕ → ℕ → Service Done
release_allocation entry target_type target_id company_id = when_some entry λ entry_id. do
  allocation ← query (get_allocation_by_target target_type target_id)
  when_some allocation delete_allocation
  loaded ← load_full company_id entry_id
  change_entry entry_id (set_status (recompute_status loaded.lines loaded.allocations))

-- `if transfer.client_id is not None: ...`
unfoldable pub release_client : Option ℕ → ℕ → String → ℕ → ℕ → Service Done
release_client client company_id source_type source_id by =
    when_some client
      λ client_id. reverse_movements_for_source company_id client_id source_type source_id by
