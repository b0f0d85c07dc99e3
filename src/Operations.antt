-- ===== src/Operations.antt =====
-- app/services/national_operation_service.py with national_operation_repository.py: an operation
-- moves money between wallets of one company, and a cancellation books the mirrored operation.
pub mod Schema
pub mod Conservation
pub mod Keeps
pub mod Effect
pub mod Reversal
use d_transfert_backend.Base.{
  ℕ, String, Text, Bool, not, Option, none, some, List, [], ◌∷◌, ◌++◌, ◌==◌, id_eq, map, keep,
  if◌then◌else◌,
}
use d_transfert_backend.Money.{Decimal, quantize, is_positive}
use d_transfert_backend.Errors.{Error}
use d_transfert_backend.Models.{
  NationalOperation, NationalOperationLine, NationalOperationType, NationalOperationStatus,
  MovementDirection, WalletMovement, operation_keyed, is_validated,
}
use d_transfert_backend.Table.{find, update_row, provided}
use d_transfert_backend.Database.{Db}
use d_transfert_backend.Reference.{Issued, generate_unique_reference}
use d_transfert_backend.TextOps.{codes}
use d_transfert_backend.Service.{
  Service, Done, pure, gets, query, or_raise, ◌>>=◌, ◌>>◌, modify, raise_if, fresh_id, for_each,
}
use d_transfert_backend.Audit.{log_action}
use d_transfert_backend.Wallets.{apply_movement}
use d_transfert_backend.Locking.{lock_wallets, lock_existing, check_currency}

abbrev pub issued_operations : Db → List Issued
issued_operations s =
    map (λ o. record { company_id = o.company_id; reference = o.reference }) s.operations

unfoldable pub generate_reference : ℕ → Service Text
generate_reference company_id =
    query (λ s. generate_unique_reference (codes "OP") (issued_operations s) company_id s.today)

-- app/schemas/national_operation.py
pub record LineRequest : Type 0 where
  pub wallet_id : ℕ
  pub amount_in : Decimal
  pub amount_out : Decimal
  pub currency : String

pub record NationalOperationCreateRequest : Type 0 where
  pub client_name : Option String
  pub client_phone : Option String
  pub proof_id : Option ℕ
  pub exchange_rate : Option Decimal
  pub lines : List LineRequest

-- An operation and its lines.
pub record WithLines : Type 0 where
  pub operation : NationalOperation
  pub lines : List NationalOperationLine

-- `_load_with_lines`
unfoldable pub load_with_lines : ℕ → ℕ → Service WithLines
load_with_lines company_id operation_id = do
  found ← gets (λ s. provided (λ o. o.company_id == company_id) (find operation_id s.operations))
  operation ← or_raise found Error.not_found
  lines ← gets (λ s. keep (λ l. l.national_operation_id == operation.id) s.operation_lines)
  pure (record { operation = operation; lines = lines })

unfoldable pub add_operation : NationalOperation → Service Done
unfolding modify
add_operation operation = modify λ s. record s { operations = s.operations ++ operation ∷ [] }

unfoldable pub add_operation_line : NationalOperationLine → Service Done
unfolding modify
add_operation_line line = modify λ s. record s { operation_lines = s.operation_lines ++ line ∷ [] }

unfoldable pub change_operation : ℕ → (NationalOperation → NationalOperation) → Service Done
unfolding modify
change_operation i f = modify λ s. record s { operations = update_row i f s.operations }

-- The direction and the amount of a line, by `amount_in > 0`.
abbrev pub direction_of : LineRequest → MovementDirection
direction_of line =
    if is_positive line.amount_in then MovementDirection.into else MovementDirection.out

abbrev pub amount_of : LineRequest → Decimal
amount_of line = if is_positive line.amount_in then line.amount_in else line.amount_out

-- One round of the loop over the lines, in `create_operation` and in `cancel_operation`. The columns
-- of the line hold two places.
unfoldable pub book_line : ℕ → ℕ → LineRequest → Service Done
book_line operation_id created_by_id line = do
  movement ←
      apply_movement line.wallet_id (direction_of line) (amount_of line) "national_operation"
        operation_id created_by_id
  add_operation_line (record {
    national_operation_id = operation_id;
    wallet_id = line.wallet_id;
    amount_in = quantize line.amount_in;
    amount_out = quantize line.amount_out;
    currency = line.currency;
    balance_before = movement.balance_before;
    balance_after = movement.balance_after;
  })

unfoldable pub create_operation :
    ℕ → NationalOperationType → ℕ → NationalOperationCreateRequest → Service ℕ
create_operation company_id operation_type created_by_id payload = do
  lock_wallets company_id (map (λ l. l.wallet_id) payload.lines)
  for_each (λ l. check_currency l.wallet_id l.currency) payload.lines
  reference ← generate_reference company_id
  now ← gets (λ s. s.now)
  operation_id ← fresh_id
  add_operation (record {
    id = operation_id;
    company_id = company_id;
    reference = reference;
    type = operation_type;
    status = NationalOperationStatus.validated;
    client_name = payload.client_name;
    client_phone = payload.client_phone;
    exchange_rate = payload.exchange_rate;
    proof_id = payload.proof_id;
    created_by_id = created_by_id;
    validated_at = some now;
    cancelled_at = none;
    reversal_of_id = none;
  })
  for_each (book_line operation_id created_by_id) payload.lines
  log_action company_id created_by_id "national_operation.create" "national_operation" operation_id
  pure operation_id

-- The line of the reversal: what came in goes out.
abbrev pub mirrored : NationalOperationLine → LineRequest
mirrored line = record {
  wallet_id = line.wallet_id;
  amount_in = line.amount_out;
  amount_out = line.amount_in;
  currency = line.currency;
}

-- All that follows the load of the operation and its lines.
unfoldable pub cancel_loaded : ℕ → ℕ → ℕ → WithLines → Service ℕ
cancel_loaded company_id operation_id created_by_id loaded = do
  raise_if (not (is_validated loaded.operation.status)) Error.conflict
  for_each (λ l. lock_existing l.wallet_id) loaded.lines
  reference ← generate_reference company_id
  now ← gets (λ s. s.now)
  reversal_id ← fresh_id
  add_operation (record {
    id = reversal_id;
    company_id = company_id;
    reference = reference;
    type = loaded.operation.type;
    status = NationalOperationStatus.validated;
    client_name = loaded.operation.client_name;
    client_phone = loaded.operation.client_phone;
    exchange_rate = loaded.operation.exchange_rate;
    proof_id = none;
    created_by_id = created_by_id;
    validated_at = some now;
    cancelled_at = none;
    reversal_of_id = some operation_id;
  })
  for_each (book_line reversal_id created_by_id) (map mirrored loaded.lines)
  change_operation operation_id
      (λ o. record o { status = NationalOperationStatus.cancelled; cancelled_at = some now })
  log_action company_id created_by_id "national_operation.cancel" "national_operation" operation_id
  pure reversal_id

unfoldable pub cancel_operation : ℕ → ℕ → ℕ → Service ℕ
cancel_operation company_id operation_id created_by_id = do
  loaded ← load_with_lines company_id operation_id
  cancel_loaded company_id operation_id created_by_id loaded
