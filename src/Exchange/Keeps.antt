-- ===== src/Exchange/Keeps.antt =====
-- The parts that transfers and payments share keep every invariant that has a `Frame`.
use d_transfert_backend.Base.{ℕ, String, Option, none, some, arith}
use d_transfert_backend.Money.{Decimal, negated, zero_amount}
use d_transfert_backend.Money.Rounding.{IsCents, IsCents-sub}
use d_transfert_backend.Models.{Client, Collaboration, EntryAllocation, EntryAllocationTargetType}
use d_transfert_backend.Database.{Db}
use d_transfert_backend.Service.{Service}
use d_transfert_backend.Service.Keeps.{Keeps, Keeps-modify, Keeps-pure}
use d_transfert_backend.Frame.{Frame, frame_rules}
use d_transfert_backend.Clients.{get_or_create_client, known_or_new}
use d_transfert_backend.Entries.{Loaded}
use d_transfert_backend.Entries.Keeps.{load_full-Keeps, change_entry-Keeps}
use d_transfert_backend.Exchange.{
  ExchangeRequest, Plan, get_collaboration_for_party, current_rate, add_allocation, allocate,
  client_for, book_client, delete_allocation, release_allocation, release_client,
}
use d_transfert_backend.Exchange.Split.{PlanInCents}

module _ {P : Db → Type 0} (frame : Frame P) where
  pub get_collaboration_for_party-Keeps :
      (company_id i : ℕ) → Keeps P (get_collaboration_for_party company_id i)
  unfolding get_collaboration_for_party
  get_collaboration_for_party-Keeps company_id i = search frame_rules

  pub current_rate-Keeps : (c : Collaboration) → Keeps P (current_rate c)
  unfolding current_rate
  current_rate-Keeps c = search frame_rules

  known_or_new-Keeps : (o : Option Client) (m : Service ℕ) → Keeps P m → Keeps P (known_or_new o m)
  known_or_new-Keeps none m k = k
  known_or_new-Keeps (some c) m k = Keeps-pure c.id

  pub get_or_create_client-Keeps :
      (company_id : ℕ) (name phone : Option String)
      → Keeps P (get_or_create_client company_id name phone)
  unfolding get_or_create_client
  get_or_create_client-Keeps company_id name phone =
      search (frame_rules, known_or_new-Keeps) depth 8

  add_allocation-Keeps : (a : EntryAllocation) → Keeps P (add_allocation a)
  unfolding add_allocation
  add_allocation-Keeps a = Keeps-modify _ (λ s h. frame.allocations _ s h)

  delete_allocation-Keeps : (a : EntryAllocation) → Keeps P (delete_allocation a)
  unfolding delete_allocation
  delete_allocation-Keeps a = Keeps-modify _ (λ s h. frame.allocations _ s h)

  pub allocate-Keeps :
      (entry : Option Loaded) (t : EntryAllocationTargetType) (i : ℕ) (c : String)
      (amount : Decimal)
      → Keeps P (allocate entry t i c amount)
  unfolding allocate
  allocate-Keeps entry t i c amount =
      search (frame_rules, add_allocation-Keeps, change_entry-Keeps frame) depth 8

  pub client_for-Keeps :
      (company_id : ℕ) (payload : ExchangeRequest) (entry : Option Loaded) (plan : Plan)
      → Keeps P (client_for company_id payload entry plan)
  unfolding client_for
  client_for-Keeps company_id payload entry plan = search (frame_rules, get_or_create_client-Keeps)

  negated-IsCents : (a : Decimal) → IsCents a → IsCents (negated a)
  negated-IsCents a h = IsCents-sub zero_amount a (omega arith) h

  pub book_client-Keeps :
      (client : Option ℕ) (payload : ExchangeRequest) (plan : Plan) (source : String) (i by : ℕ)
      → PlanInCents plan
      → Keeps P (book_client client payload plan source i by)
  unfolding book_client
  book_client-Keeps client payload plan source i by (a, d, r) =
      search (frame_rules, negated-IsCents, d, r) depth 8

  pub release_allocation-Keeps :
      (entry : Option ℕ) (t : EntryAllocationTargetType) (i company_id : ℕ)
      → Keeps P (release_allocation entry t i company_id)
  unfolding release_allocation
  release_allocation-Keeps entry t i company_id =
      search (frame_rules, delete_allocation-Keeps, load_full-Keeps frame, change_entry-Keeps frame)
        depth 8

  pub release_client-Keeps :
      (client : Option ℕ) (company_id : ℕ) (source : String) (i by : ℕ)
      → Keeps P (release_client client company_id source i by)
  unfolding release_client
  release_client-Keeps client company_id source i by = search frame_rules

pub ruleset exchange_rules = (
  frame_rules, get_collaboration_for_party-Keeps, current_rate-Keeps, allocate-Keeps,
  client_for-Keeps, book_client-Keeps, release_allocation-Keeps, release_client-Keeps,
)
