-- ===== src/Frame/Plain.antt =====
-- Ways to supply a `Frame`: the calls that touch only the wallets, or only the clients, keep every
-- invariant that does not read those tables; an invariant of the other tables has a frame at once.
use d_transfert_backend.Base.{ℕ, ◌+◌, String, List}
use d_transfert_backend.Money.{Decimal}
use d_transfert_backend.Models.{
  Wallet, WalletMovement, MovementDirection, Client, ClientBalanceMovement, Transfer, Payment,
  Collaboration, CollaborationRateHistory, PrivateSendingRate, NationalOperation,
}
use d_transfert_backend.Database.{Db}
use d_transfert_backend.Service.{fresh_id}
use d_transfert_backend.Service.Keeps.{Keeps, Keeps-modify, Keeps-fresh_id, keeps_rules}
use d_transfert_backend.Wallets.{apply_movement, set_balance, create_movement}
use d_transfert_backend.Clients.{
  create_new_client, add_client, set_client_balance, add_client_movement, apply_balance_delta,
  get_client, compensate, reverse_movements_for_source,
}
use d_transfert_backend.Frame.{Frame}

module _ {P : Db → Type 0}
    (wallets : (x : List Wallet) (s : Db) → P s → P (record s { wallets = x }))
    (wallet_movements : (x : List WalletMovement) (s : Db)
      → P s
      → P (record s { wallet_movements = x })) where
  set_balance-Keeps : (i : ℕ) (b : Decimal) → Keeps P (set_balance i b)
  unfolding set_balance
  set_balance-Keeps i b = Keeps-modify _ (λ s h. wallets _ s h)

  create_movement-Keeps : (m : WalletMovement) → Keeps P (create_movement m)
  unfolding create_movement
  create_movement-Keeps m = Keeps-modify _ (λ s h. wallet_movements _ s h)

  -- A movement touches the wallets and their movements, nothing else.
  pub apply_movement-Keeps :
      (i : ℕ) (d : MovementDirection) (amount : Decimal) (source : String) (source_id by : ℕ)
      → Keeps P (apply_movement i d amount source source_id by)
  unfolding apply_movement
  apply_movement-Keeps i d amount source source_id by =
      search (keeps_rules, set_balance-Keeps, create_movement-Keeps) depth 10

module _ {P : Db → Type 0} (fresh : (s : Db) → P s → P (record s { next_id = s.next_id + 1 }))
    (clients : (x : List Client) (s : Db) → P s → P (record s { clients = x }))
    (client_movements : (x : List ClientBalanceMovement) (s : Db)
      → P s
      → P (record s { client_movements = x })) where
  add_client-Keeps : (c : Client) → Keeps P (add_client c)
  unfolding add_client
  add_client-Keeps c = Keeps-modify _ (λ s h. clients _ s h)

  set_client_balance-Keeps : (i : ℕ) (b : Decimal) → Keeps P (set_client_balance i b)
  unfolding set_client_balance
  set_client_balance-Keeps i b = Keeps-modify _ (λ s h. clients _ s h)

  add_client_movement-Keeps : (m : ClientBalanceMovement) → Keeps P (add_client_movement m)
  unfolding add_client_movement
  add_client_movement-Keeps m = Keeps-modify _ (λ s h. client_movements _ s h)

  fresh_id-Keeps : Keeps P fresh_id
  fresh_id-Keeps = Keeps-fresh_id fresh

  pub create_new_client-Keeps :
      (company_id : ℕ) (name phone : String) → Keeps P (create_new_client company_id name phone)
  unfolding create_new_client
  create_new_client-Keeps company_id name phone =
      search (keeps_rules, fresh_id-Keeps, add_client-Keeps)

  -- A delta touches the clients and their movements, nothing else.
  pub apply_balance_delta-Keeps :
      (i : ℕ) (amount : Decimal) (source : String) (source_id : ℕ) (currency : String) (by : ℕ)
      → Keeps P (apply_balance_delta i amount source source_id currency by)
  unfolding apply_balance_delta
  apply_balance_delta-Keeps i amount source source_id currency by =
      search (keeps_rules, set_client_balance-Keeps, add_client_movement-Keeps) depth 10

  get_client-Keeps : (company_id i : ℕ) → Keeps P (get_client company_id i)
  unfolding get_client
  get_client-Keeps company_id i = search keeps_rules

  compensate-Keeps :
      (company_id i : ℕ) (source : String) (source_id by : ℕ) (ms : List ClientBalanceMovement)
      → Keeps P (compensate company_id i source source_id by ms)
  unfolding compensate
  compensate-Keeps company_id i source source_id by ms =
      search (keeps_rules, get_client-Keeps, apply_balance_delta-Keeps)

  pub reverse_movements-Keeps :
      (company_id i : ℕ) (source : String) (source_id by : ℕ)
      → Keeps P (reverse_movements_for_source company_id i source source_id by)
  unfolding reverse_movements_for_source
  reverse_movements-Keeps company_id i source source_id by = search (keeps_rules, compensate-Keeps)

-- What the transfers, payments, collaborations, rates and national operations say is not changed by
-- the writes of a frame.
abbrev pub Elsewhere :
    (List Transfer
      → List Payment
      → List Collaboration
      → List CollaborationRateHistory
      → List PrivateSendingRate
      → List NationalOperation
      → Type 0)
    → Db
    → Type 0
Elsewhere Q s = Q s.transfers s.payments s.collaborations s.rates s.private_rates s.operations

module _
    (Q : List Transfer
      → List Payment
      → List Collaboration
      → List CollaborationRateHistory
      → List PrivateSendingRate
      → List NationalOperation
      → Type 0) where
  pub Elsewhere-frame : Frame (Elsewhere Q)
  Elsewhere-frame = record {
    fresh = λ s h. h;
    audit_logs = λ x s h. h;
    notifications = λ x s h. h;
    entries = λ x s h. h;
    entry_lines = λ x s h. h;
    allocations = λ x s h. h;
    proofs = λ x s h. h;
    transfer_history = λ x s h. h;
    payment_history = λ x s h. h;
    collaborator_movements = λ x s h. h;
    movement = apply_movement-Keeps (λ x s h. h) (λ x s h. h);
    new_client = create_new_client-Keeps (λ s h. h) (λ x s h. h) (λ x s h. h);
    delta = λ i amount source source_id currency by c.
        apply_balance_delta-Keeps (λ s h. h) (λ x s h. h) (λ x s h. h) i amount source source_id
          currency by;
    reversal = reverse_movements-Keeps (λ s h. h) (λ x s h. h) (λ x s h. h);
  }
