-- ===== src/Consistency.antt =====
-- The cash ledger and the client journal through every operation of the entry, transfer and payment
-- services: `IsSound` and `IsBooked` each have a frame.
use d_transfert_backend.Base.{
  ℕ, ◌+◌, ◌≡◌, sym, refl, ◌∙◌, String, List, [], ◌∷◌, ◌++◌, arith, ℕ_discrete,
}
use d_transfert_backend.Money.{zero_amount}
use d_transfert_backend.Money.Rounding.{IsCents, IsCents-sub}
use d_transfert_backend.Models.{Client, ClientBalanceMovement, client_keyed}
use d_transfert_backend.Table.Laws.{find-append, find-append_ne}
use d_transfert_backend.Database.{Db}
use d_transfert_backend.Service.{◌>>=◌, fresh_id}
use d_transfert_backend.Service.Keeps.{Keeps, keeps_rules}
use d_transfert_backend.Service.Guarded.{Keeps-bind-Yields, Yields-gets}
use d_transfert_backend.Wallets.Ledger.{IsSound, apply_movement-IsSound}
use d_transfert_backend.Clients.{
  create_new_client, add_client, compensate, get_client, reverse_movements_for_source, net_delta,
  of_source,
}
use d_transfert_backend.Clients.Ledger.{IsBooked, apply_balance_delta-IsBooked}
use d_transfert_backend.Clients.Reversal.{sum_keep-IsCents}
use d_transfert_backend.Frame.{Frame}
use d_transfert_backend.Frame.Plain.{
  apply_movement-Keeps, create_new_client-Keeps, apply_balance_delta-Keeps, reverse_movements-Keeps,
}

fresh-IsSound : (s : Db) → IsSound s → IsSound (record s { next_id = s.next_id + 1 })
fresh-IsSound s sound = record {
  backing = sound.backing;
  orphans = sound.orphans;
  fresh = λ i h. sound.fresh i (omega arith);
}

pub IsSound-frame : Frame IsSound
IsSound-frame = record {
  fresh = fresh-IsSound;
  audit_logs = λ x s h. h;
  notifications = λ x s h. h;
  entries = λ x s h. h;
  entry_lines = λ x s h. h;
  allocations = λ x s h. h;
  proofs = λ x s h. h;
  transfer_history = λ x s h. h;
  payment_history = λ x s h. h;
  collaborator_movements = λ x s h. h;
  movement = apply_movement-IsSound;
  new_client = create_new_client-Keeps fresh-IsSound (λ x s h. h) (λ x s h. h);
  delta = λ i amount source source_id currency by c.
      apply_balance_delta-Keeps fresh-IsSound (λ x s h. h) (λ x s h. h) i amount source source_id
        currency by;
  reversal = reverse_movements-Keeps fresh-IsSound (λ x s h. h) (λ x s h. h);
}

fresh-IsBooked : (s : Db) → IsBooked s → IsBooked (record s { next_id = s.next_id + 1 })
fresh-IsBooked s journal = record {
  booked = journal.booked;
  orphans = journal.orphans;
  fresh = λ i h. journal.fresh i (omega arith);
  whole = journal.whole;
}

-- A client with the id just given out and nothing owed.
created-IsBooked :
    (c : Client) (s : Db)
    → c.id ≡ s.next_id
    → c.balance ≡ zero_amount
    → IsBooked s
    → IsBooked (record s { next_id = s.next_id + 1; clients = s.clients ++ c ∷ [] })
created-IsBooked c s new empty journal = record {
  booked = λ i v h. elim (ℕ_discrete c.id i) [
    | yes same ↦
        let missing = journal.fresh i (omega arith) in
        let e : c ≡ v = ground (arith, find-append i s.clients c) in
        let zero_balance : v.balance ≡ zero_amount = rw (← e) empty in
        (rw zero_balance (omega arith), zero_balance ∙ sym (journal.orphans i missing))
    | no other ↦ journal.booked i v (rw (find-append_ne i s.clients c other) at h)
  ];
  orphans = λ i h. journal.orphans i (ground (arith, find-append i s.clients c));
  fresh = λ i h. rw (find-append_ne i s.clients c (omega arith)) (journal.fresh i (omega arith));
  whole = journal.whole;
}

create_new_client-IsBooked :
    (company_id : ℕ) (name phone : String)
    → Keeps IsBooked (create_new_client company_id name phone)
unfolding create_new_client ◌>>=◌ fresh_id add_client
create_new_client-IsBooked company_id name phone = record {
  at = λ s journal.
      created-IsBooked
        (record {
          id = s.next_id;
          company_id = company_id;
          name = name;
          phone = phone;
          balance = zero_amount;
        })
        s refl refl journal;
}

get_client-IsBooked : (company_id i : ℕ) → Keeps IsBooked (get_client company_id i)
unfolding get_client
get_client-IsBooked company_id i = search keeps_rules

compensate-IsBooked :
    (company_id i : ℕ) (source : String) (source_id by : ℕ) (ms : List ClientBalanceMovement)
    → IsCents (net_delta ms)
    → Keeps IsBooked (compensate company_id i source source_id by ms)
unfolding compensate
compensate-IsBooked company_id i source source_id by ms cents =
    let c = IsCents-sub zero_amount (net_delta ms) (omega arith) cents in
    search (keeps_rules, get_client-IsBooked, apply_balance_delta-IsBooked, c)

reverse_movements-IsBooked :
    (company_id i : ℕ) (source : String) (source_id by : ℕ)
    → Keeps IsBooked (reverse_movements_for_source company_id i source source_id by)
unfolding reverse_movements_for_source
reverse_movements-IsBooked company_id i source source_id by =
    Keeps-bind-Yields (λ ms. IsCents (net_delta ms)) _ _
      (Yields-gets _ λ s journal.
        sum_keep-IsCents (of_source i source source_id) s.client_movements journal.whole)
      λ ms cents. search (keeps_rules, compensate-IsBooked, cents)

pub IsBooked-frame : Frame IsBooked
IsBooked-frame = record {
  fresh = fresh-IsBooked;
  audit_logs = λ x s h. h;
  notifications = λ x s h. h;
  entries = λ x s h. h;
  entry_lines = λ x s h. h;
  allocations = λ x s h. h;
  proofs = λ x s h. h;
  transfer_history = λ x s h. h;
  payment_history = λ x s h. h;
  collaborator_movements = λ x s h. h;
  movement = apply_movement-Keeps (λ x s h. h) (λ x s h. h);
  new_client = create_new_client-IsBooked;
  delta = apply_balance_delta-IsBooked;
  reversal = reverse_movements-IsBooked;
}
