-- ===== src/Entries/Keeps.antt =====
-- The operations of entry_service keep every invariant that has a `Frame`.
use d_transfert_backend.Base.{ℕ, String, Option, List, [], ◌∷◌}
use d_transfert_backend.Models.{Entry, EntryLine}
use d_transfert_backend.Service.Keeps.{Keeps, Keeps-modify}
use d_transfert_backend.Database.{Db}
use d_transfert_backend.Frame.{Frame, frame_rules}
use d_transfert_backend.Locking.{lock_owned, lock_existing, lock_wallets, check_currency}
use d_transfert_backend.Entries.{
  generate_reference, load_full, add_entry, add_entry_line, change_entry, receive_line,
  create_entry, EntryCreateRequest, EntryLineRequest, merge_source, merge_sources, merge_entries,
  ClientKey, return_line, cancel_entry,
}

module _ {P : Db → Type 0} (frame : Frame P) where
  pub lock_owned-Keeps : (company_id i : ℕ) → Keeps P (lock_owned company_id i)
  unfolding lock_owned
  lock_owned-Keeps company_id i = search frame_rules

  pub lock_existing-Keeps : (i : ℕ) → Keeps P (lock_existing i)
  unfolding lock_existing
  lock_existing-Keeps i = search frame_rules

  pub lock_wallets-Keeps : (company_id : ℕ) (is' : List ℕ) → Keeps P (lock_wallets company_id is')
  unfolding lock_wallets
  lock_wallets-Keeps company_id is' = search (frame_rules, lock_owned-Keeps)

  pub check_currency-Keeps : (i : ℕ) (c : String) → Keeps P (check_currency i c)
  unfolding check_currency
  check_currency-Keeps i c = search (frame_rules, lock_existing-Keeps)

  pub generate_reference-Keeps : (company_id : ℕ) → Keeps P (generate_reference company_id)
  unfolding generate_reference
  generate_reference-Keeps company_id = search frame_rules

  pub load_full-Keeps : (company_id i : ℕ) → Keeps P (load_full company_id i)
  unfolding load_full
  load_full-Keeps company_id i = search frame_rules depth 8

  pub add_entry-Keeps : (e : Entry) → Keeps P (add_entry e)
  unfolding add_entry
  add_entry-Keeps e = Keeps-modify _ (λ s h. frame.entries _ s h)

  pub add_entry_line-Keeps : (l : EntryLine) → Keeps P (add_entry_line l)
  unfolding add_entry_line
  add_entry_line-Keeps l = Keeps-modify _ (λ s h. frame.entry_lines _ s h)

  pub change_entry-Keeps : (i : ℕ) (f : Entry → Entry) → Keeps P (change_entry i f)
  unfolding change_entry
  change_entry-Keeps i f = Keeps-modify _ (λ s h. frame.entries _ s h)

  pub receive_line-Keeps : (i by : ℕ) (l : EntryLineRequest) → Keeps P (receive_line i by l)
  unfolding receive_line
  receive_line-Keeps i by l = search (frame_rules, add_entry_line-Keeps)

pub ruleset entry_rules = (
  frame_rules, lock_wallets-Keeps, lock_existing-Keeps, check_currency-Keeps,
  generate_reference-Keeps, load_full-Keeps, add_entry-Keeps, add_entry_line-Keeps,
  change_entry-Keeps, receive_line-Keeps,
)

module _ {P : Db → Type 0} (frame : Frame P) where
  -- Creating an entry keeps the invariant.
  pub create_entry-Keeps :
      (company_id by : ℕ) (payload : EntryCreateRequest)
      → Keeps P (create_entry company_id by payload)
  unfolding create_entry
  create_entry-Keeps company_id by payload = search entry_rules depth 12

  merge_source-Keeps :
      (company_id : ℕ) (key : Option ClientKey) (i : ℕ) → Keeps P (merge_source company_id key i)
  unfolding merge_source
  merge_source-Keeps company_id key i = search entry_rules depth 8

  merge_sources-Keeps :
      (company_id : ℕ) (key : Option ClientKey) (is' : List ℕ)
      → Keeps P (merge_sources company_id key is')
  unfolding merge_sources
  merge_sources-Keeps company_id key [] = search entry_rules
  merge_sources-Keeps company_id key (i ∷ rest) = search (
    entry_rules,
    merge_source-Keeps,
    λ (k : Option ClientKey). merge_sources-Keeps company_id k rest,
  )

  -- A merge moves no cash and books nothing.
  pub merge_entries-Keeps :
      (company_id by : ℕ) (is' : List ℕ) → Keeps P (merge_entries company_id by is')
  unfolding merge_entries
  merge_entries-Keeps company_id by is' = search (entry_rules, merge_sources-Keeps) depth 12

  return_line-Keeps : (i by : ℕ) (l : EntryLine) → Keeps P (return_line i by l)
  unfolding return_line
  return_line-Keeps i by l = search entry_rules

  -- Cancelling an entry keeps the invariant.
  pub cancel_entry-Keeps : (company_id by i : ℕ) → Keeps P (cancel_entry company_id by i)
  unfolding cancel_entry
  cancel_entry-Keeps company_id by i = search (entry_rules, return_line-Keeps) depth 12
