-- ===== src/Clients.antt =====
-- app/services/client_service.py with client_repository.py: clients, and the journal of what each
-- owes. A positive balance is a debt of the client.
pub mod Ledger
pub mod Reversal
use d_transfert_backend.Base.{
  ℕ, String, Bool, Option, none, some, List, [], ◌∷◌, ◌++◌, ◌==◌, id_eq, string_eq, ◌&&◌, keep, map,
  if◌then◌else◌, not,
}
use Prim.Native.String.{◌++◌ as append_text}
use d_transfert_backend.Int.{◌+ℤ◌, ◌-ℤ◌, eqb_ℤ}
use d_transfert_backend.Money.{Decimal, quantize, zero_amount, negated, sum}
use d_transfert_backend.Errors.{Error, Result}
use d_transfert_backend.Models.{Client, ClientBalanceMovement, client_keyed}
use d_transfert_backend.Table.{find, update_row, provided, scalar_one_or_none}
use d_transfert_backend.Database.{Db}
use d_transfert_backend.Service.{
  Service, Done, pure, gets, query, or_raise, ◌>>=◌, ◌>>◌, modify, fresh_id, when_some,
}

abbrev pub get_by_company_and_phone : ℕ → String → Db → Result (Option Client)
get_by_company_and_phone company_id phone s =
    scalar_one_or_none (λ c. c.company_id == company_id && c.phone == phone) s.clients

abbrev pub get_by_company_and_id : ℕ → ℕ → Db → Option Client
get_by_company_and_id company_id client_id s =
    provided (λ c. c.company_id == company_id) (find client_id s.clients)

-- The movements of a client for one source, in the order of creation.
abbrev pub of_source : ℕ → String → ℕ → ClientBalanceMovement → Bool
of_source client_id source_type source_id m =
    m.client_id == client_id && (m.source_type == source_type && m.source_id == source_id)

abbrev pub get_by_source : ℕ → String → ℕ → Db → List ClientBalanceMovement
get_by_source client_id source_type source_id s =
    keep (of_source client_id source_type source_id) s.client_movements

unfoldable pub add_client : Client → Service Done
unfolding modify
add_client client = modify λ s. record s { clients = s.clients ++ client ∷ [] }

unfoldable pub create_new_client : ℕ → String → String → Service ℕ
create_new_client company_id name phone = do
  client_id ← fresh_id
  add_client (record {
    id = client_id;
    company_id = company_id;
    name = name;
    phone = phone;
    balance = zero_amount;
  })
  pure client_id

abbrev pub known_or_new : Option Client → Service ℕ → Service ℕ
known_or_new none new = new
known_or_new (some client) new = pure client.id

-- The name and the phone are not null in the table: a missing one fails at the flush.
unfoldable pub get_or_create_client : ℕ → Option String → Option String → Service ℕ
get_or_create_client company_id name phone = do
  client_phone ← or_raise phone Error.integrity_error
  existing ← query (get_by_company_and_phone company_id client_phone)
  known_or_new existing (
      or_raise name Error.integrity_error >>= λ client_name.
      create_new_client company_id client_name client_phone)

-- `client.balance = balance`
unfoldable pub set_client_balance : ℕ → Decimal → Service Done
unfolding modify
set_client_balance client_id balance =
    modify λ s. record s {
      clients = update_row client_id (λ c. record c { balance = balance }) s.clients;
    }

unfoldable pub add_client_movement : ClientBalanceMovement → Service Done
unfolding modify
add_client_movement movement =
    modify λ s. record s { client_movements = s.client_movements ++ movement ∷ [] }

unfoldable pub apply_balance_delta :
    ℕ → Decimal → String → ℕ → String → ℕ → Service ClientBalanceMovement
unfolding ◌>>=◌ set_client_balance add_client_movement
apply_balance_delta client_id delta source_type source_id currency created_by_id = do
  held ← gets (λ s. find client_id s.clients)
  client ← or_raise held Error.not_found
  let balance : Decimal = quantize (client.balance +ℤ delta)
  set_client_balance client_id balance
  let movement : ClientBalanceMovement = record {
    client_id = client_id;
    source_type = source_type;
    source_id = source_id;
    currency = currency;
    delta = quantize delta;
    balance_before = client.balance;
    balance_after = balance;
    created_by_id = created_by_id;
  }
  add_client_movement movement
  pure movement

unfoldable pub get_client : ℕ → ℕ → Service Client
get_client company_id client_id = do
  found ← gets (get_by_company_and_id company_id client_id)
  or_raise found Error.not_found

-- `sum((movement.delta for movement in movements), Decimal("0.00"))`
abbrev pub net_delta : List ClientBalanceMovement → Decimal
net_delta movements = sum (map (λ m. m.delta) movements)

abbrev pub first_currency : List ClientBalanceMovement → String
first_currency [] = ""
first_currency (m ∷ ms) = m.currency

unfoldable pub compensate : ℕ → ℕ → String → ℕ → ℕ → List ClientBalanceMovement → Service Done
compensate company_id client_id source_type source_id created_by_id movements = do
  get_client company_id client_id
  apply_balance_delta client_id (negated (net_delta movements))
      (append_text source_type "_reversal") source_id (first_currency movements) created_by_id
  pure tt

unfoldable pub reverse_movements_for_source : ℕ → ℕ → String → ℕ → ℕ → Service Done
reverse_movements_for_source company_id client_id source_type source_id created_by_id = do
  movements ← gets (get_by_source client_id source_type source_id)
  if eqb_ℤ (net_delta movements) zero_amount
      then pure tt
      else compensate company_id client_id source_type source_id created_by_id movements

unfoldable pub create_client : ℕ → String → String → Service ℕ
create_client company_id name phone = get_or_create_client company_id (some name) (some phone)

unfoldable pub get_movements : ℕ → ℕ → Service (List ClientBalanceMovement)
get_movements company_id client_id = do
  get_client company_id client_id
  gets (λ s. keep (λ m. m.client_id == client_id) s.client_movements)
