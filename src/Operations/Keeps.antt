-- ===== src/Operations/Keeps.antt =====
-- The operations of national_operation_service keep every invariant that has a `Frame` and allows
-- the writes to the operations and their lines.
use d_transfert_backend.Base.{ℕ, List, ◌≡◌}
use d_transfert_backend.Models.{NationalOperation, NationalOperationLine, NationalOperationType}
use d_transfert_backend.Database.{Db}
use d_transfert_backend.Service.Keeps.{Keeps, Keeps-modify}
use d_transfert_backend.Frame.{Frame, frame_rules}
use d_transfert_backend.Entries.Keeps.{
  lock_wallets-Keeps, lock_existing-Keeps, check_currency-Keeps,
}
use d_transfert_backend.Operations.{
  generate_reference, load_with_lines, add_operation, add_operation_line, change_operation,
  book_line, LineRequest, create_operation, cancel_operation, cancel_loaded,
  NationalOperationCreateRequest,
}

module _ {P : Db → Type 0} (frame : Frame P) where
  generate_reference-Keeps : (company_id : ℕ) → Keeps P (generate_reference company_id)
  unfolding generate_reference
  generate_reference-Keeps company_id = search frame_rules

  load_with_lines-Keeps : (company_id i : ℕ) → Keeps P (load_with_lines company_id i)
  unfolding load_with_lines
  load_with_lines-Keeps company_id i = search frame_rules depth 8

module _ {P : Db → Type 0} (frame : Frame P)
    (lines : (x : List NationalOperationLine) (s : Db)
      → P s
      → P (record s { operation_lines = x })) where
  add_operation_line-Keeps : (l : NationalOperationLine) → Keeps P (add_operation_line l)
  unfolding add_operation_line
  add_operation_line-Keeps l = Keeps-modify _ (λ s h. lines _ s h)

  book_line-Keeps : (i by : ℕ) (l : LineRequest) → Keeps P (book_line i by l)
  unfolding book_line
  book_line-Keeps i by l = search (frame_rules, add_operation_line-Keeps)

ruleset operation_rules = (
  frame_rules, generate_reference-Keeps, load_with_lines-Keeps, book_line-Keeps, lock_wallets-Keeps,
  lock_existing-Keeps, check_currency-Keeps,
)

module _ {P : Db → Type 0} (frame : Frame P)
    (lines : (x : List NationalOperationLine) (s : Db) → P s → P (record s { operation_lines = x }))
    (add : (o : NationalOperation) → Keeps P (add_operation o)) where
  pub create_operation-Keeps :
      (company_id : ℕ) (type : NationalOperationType) (by : ℕ)
      (payload : NationalOperationCreateRequest)
      → Keeps P (create_operation company_id type by payload)
  unfolding create_operation
  create_operation-Keeps company_id type by payload = search (operation_rules, lines, add) depth 12

  pub cancel_operation-Keeps :
      (company_id i by : ℕ)
      → ((f : NationalOperation → NationalOperation)
          → ((o : NationalOperation) → (f o).id ≡ o.id)
          → Keeps P (change_operation i f))
      → Keeps P (cancel_operation company_id i by)
  unfolding cancel_operation cancel_loaded
  cancel_operation-Keeps company_id i by change =
      search (operation_rules, lines, add, change) depth 14
