-- ===== src/Administration/Deletion.antt =====
-- admin_service.delete_company: every row of a company goes, table by table.
pub mod Admins
pub mod Owners
pub mod Cash
use d_transfert_backend.Base.{
  ℕ, Bool, false, not, Option, none, some, List, ◌==◌, id_eq, option_eq, ◌||◌, any, keep, map,
  if◌then◌else◌,
}
use d_transfert_backend.Errors.{Error}
use d_transfert_backend.Models.{
  EntryAllocation, EntryAllocationTargetType, Transfer, Payment, Collaboration, AuditLog, SystemLog,
  Wallet, Entry, NationalOperation, Client, company_keyed,
}
use d_transfert_backend.Table.{find, delete_row}
use d_transfert_backend.Database.{Db}
use d_transfert_backend.Service.{Service, Done, gets, or_raise, ◌>>=◌, ◌>>◌, modify}

-- `DELETE FROM ... WHERE p`
abbrev pub without : {A : Type 0} → (A → Bool) → List A → List A
without p rows = keep (λ x. not (p x)) rows

-- `x IN (SELECT id FROM ... WHERE ...)`
abbrev pub has_id : {A : Type 0} → (A → ℕ) → List A → ℕ → Bool
has_id id rows i = any (λ x. id x == i) rows

module _ (company_id : ℕ) (s : Db) where
  -- `collaboration_ids`: the collaborations in which the company takes part.
  abbrev pub is_in : Collaboration → Bool
  is_in c = c.initiator_company_id == company_id || c.target_company_id == company_id

  abbrev pub in_its_collaboration : ℕ → Bool
  in_its_collaboration i = has_id (λ c. c.id) (keep is_in s.collaborations) i

  abbrev pub is_its_transfer : Transfer → Bool
  is_its_transfer t = t.company_id == company_id || in_its_collaboration t.collaboration_id

  abbrev pub is_its_payment : Payment → Bool
  is_its_payment p = p.company_id == company_id || in_its_collaboration p.collaboration_id

  abbrev pub its_wallets : List Wallet
  its_wallets = keep (λ w. w.company_id == company_id) s.wallets

  abbrev pub its_entries : List Entry
  its_entries = keep (λ e. e.company_id == company_id) s.entries

  abbrev pub its_operations : List NationalOperation
  its_operations = keep (λ o. o.company_id == company_id) s.operations

  abbrev pub its_clients : List Client
  its_clients = keep (λ c. c.company_id == company_id) s.clients

  -- The allocations of step 2, and those of step 7 that point to a transfer or a payment that goes.
  abbrev pub points_to : EntryAllocation → EntryAllocationTargetType → Bool
  points_to a EntryAllocationTargetType.transfer =
      has_id (λ t. t.id) (keep is_its_transfer s.transfers) a.target_id
  points_to a EntryAllocationTargetType.payment =
      has_id (λ p. p.id) (keep is_its_payment s.payments) a.target_id

  abbrev pub is_its_allocation : EntryAllocation → Bool
  is_its_allocation a = has_id (λ e. e.id) its_entries a.entry_id || points_to a a.target_type

  -- ON DELETE CASCADE of transfers and payments.
  abbrev pub with_transfer : Option ℕ → Bool
  with_transfer none = false
  with_transfer (some i) = has_id (λ x. x.id) (keep is_its_transfer s.transfers) i

  abbrev pub with_payment : Option ℕ → Bool
  with_payment none = false
  with_payment (some i) = has_id (λ x. x.id) (keep is_its_payment s.payments) i

  abbrev pub in_deleted_collaboration : Option ℕ → Bool
  in_deleted_collaboration none = false
  in_deleted_collaboration (some i) = in_its_collaboration i

  abbrev pub is_its_user : Option ℕ → Bool
  is_its_user i = i == some company_id

  abbrev pub forget_user : Option ℕ → Option ℕ
  forget_user none = none
  forget_user (some i) =
      if has_id (λ u. u.id) (keep (λ u. is_its_user u.company_id) s.users) i then none else some i

  abbrev pub forget_company : Option ℕ → Option ℕ
  forget_company c = if c == some company_id then none else c

  -- The database after all the DELETE statements. Each of their subqueries reads tables from which
  -- nothing has been deleted yet, so all read the database before.
  abbrev pub without_company : Db
  without_company = record s {
    wallet_movements = without (λ m. has_id (λ w. w.id) its_wallets m.wallet_id) s.wallet_movements;
    entry_lines = without (λ l. has_id (λ e. e.id) its_entries l.entry_id) s.entry_lines;
    allocations = without is_its_allocation s.allocations;
    operation_lines =
        without (λ l. has_id (λ o. o.id) its_operations l.national_operation_id) s.operation_lines;
    supplier_movements = without (λ m. m.company_id == company_id) s.supplier_movements;
    client_movements = without (λ m. has_id (λ c. c.id) its_clients m.client_id) s.client_movements;
    proofs =
        without
          (λ p.
            p.company_id == company_id || with_transfer p.transfer_id || with_payment p.payment_id)
          s.proofs;
    transfer_history =
        without
          (λ h.
            h.company_id == company_id
            || has_id (λ t. t.id) (keep is_its_transfer s.transfers) h.subject_id)
          s.transfer_history;
    transfers = without is_its_transfer s.transfers;
    payment_history =
        without
          (λ h.
            h.company_id == company_id
            || has_id (λ p. p.id) (keep is_its_payment s.payments) h.subject_id)
          s.payment_history;
    payments = without is_its_payment s.payments;
    entries = without (λ e. e.company_id == company_id) s.entries;
    operations = without (λ o. o.company_id == company_id) s.operations;
    wallets = without (λ w. w.company_id == company_id) s.wallets;
    clients = without (λ c. c.company_id == company_id) s.clients;
    suppliers = without (λ x. x.company_id == company_id) s.suppliers;
    collaborations = without is_in s.collaborations;
    rates = without (λ r. in_its_collaboration r.collaboration_id) s.rates;
    collaborator_movements =
        without (λ m. in_its_collaboration m.collaboration_id) s.collaborator_movements;
    private_rates =
        without (λ r. r.company_id == company_id || in_deleted_collaboration r.collaboration_id)
          s.private_rates;
    subscriptions = without (λ x. x.company_id == company_id) s.subscriptions;
    notifications = without (λ n. n.company_id == company_id) s.notifications;
    audit_logs =
        map (λ (l : AuditLog). record l { user_id = forget_user l.user_id })
          (without (λ l. l.company_id == some company_id) s.audit_logs);
    overrides =
        without (λ o. has_id (λ u. u.id) (keep (λ u. is_its_user u.company_id) s.users) o.user_id)
          s.overrides;
    otps =
        without (λ o. has_id (λ u. u.id) (keep (λ u. is_its_user u.company_id) s.users) o.user_id)
          s.otps;
    system_logs =
        map
          (λ (l : SystemLog). record l {
            company_id = forget_company l.company_id;
            user_id = forget_user l.user_id;
          })
          s.system_logs;
    users = without (λ u. is_its_user u.company_id) s.users;
    companies = delete_row company_id s.companies;
  }

unfoldable pub delete_company : ℕ → Service Done
delete_company company_id = do
  found ← gets (λ s. find company_id s.companies)
  or_raise found Error.not_found
  modify (without_company company_id)
