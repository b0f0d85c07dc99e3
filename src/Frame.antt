-- ===== src/Frame.antt =====
-- The interface between an invariant of the database and the operations: an invariant that allows
-- the writes below is kept by every operation that is built of them. Each operation is proved once,
-- for any such invariant; `Consistency` and `Frame.Plain` supply the frames.
pub mod Plain
use d_transfert_backend.Base.{ℕ, ◌+◌, String, Option, List}
use d_transfert_backend.Money.{Decimal}
use d_transfert_backend.Money.Rounding.{IsCents}
use d_transfert_backend.Models.{
  Entry, EntryLine, EntryAllocation, Proof, StatusHistory, CollaboratorBalanceMovement, AuditLog,
  Notification, NotificationType, MovementDirection,
}
use d_transfert_backend.Database.{Db}
use d_transfert_backend.Service.{fresh_id, modify}
use d_transfert_backend.Service.Keeps.{Keeps, Keeps-modify, Keeps-fresh_id, keeps_rules}
use d_transfert_backend.Audit.{log_action, notify}
use d_transfert_backend.Wallets.{apply_movement}
use d_transfert_backend.Clients.{
  create_new_client, apply_balance_delta, reverse_movements_for_source,
}

pub record Frame (P : Db → Type 0) : Type 0 where
  pub fresh : (s : Db) → P s → P (record s { next_id = s.next_id + 1 })
  pub audit_logs : (x : List AuditLog) (s : Db) → P s → P (record s { audit_logs = x })
  pub notifications : (x : List Notification) (s : Db) → P s → P (record s { notifications = x })
  pub entries : (x : List Entry) (s : Db) → P s → P (record s { entries = x })
  pub entry_lines : (x : List EntryLine) (s : Db) → P s → P (record s { entry_lines = x })
  pub allocations : (x : List EntryAllocation) (s : Db) → P s → P (record s { allocations = x })
  pub proofs : (x : List Proof) (s : Db) → P s → P (record s { proofs = x })
  pub transfer_history :
      (x : List StatusHistory) (s : Db) → P s → P (record s { transfer_history = x })
  pub payment_history :
      (x : List StatusHistory) (s : Db) → P s → P (record s { payment_history = x })
  pub collaborator_movements :
      (x : List CollaboratorBalanceMovement) (s : Db)
      → P s
      → P (record s { collaborator_movements = x })
  pub movement :
      (i : ℕ) (d : MovementDirection) (amount : Decimal) (source : String) (source_id by : ℕ)
      → Keeps P (apply_movement i d amount source source_id by)
  pub new_client :
      (company_id : ℕ) (name phone : String) → Keeps P (create_new_client company_id name phone)
  pub delta :
      (i : ℕ) (amount : Decimal) (source : String) (source_id : ℕ) (currency : String) (by : ℕ)
      → IsCents amount
      → Keeps P (apply_balance_delta i amount source source_id currency by)
  pub reversal :
      (company_id client_id : ℕ) (source : String) (source_id by : ℕ)
      → Keeps P (reverse_movements_for_source company_id client_id source source_id by)

module _ {P : Db → Type 0} (frame : Frame P) where
  pub fresh_id-Keeps : Keeps P fresh_id
  fresh_id-Keeps = Keeps-fresh_id frame.fresh

  pub log_action-Keeps :
      (company_id user_id : ℕ) (action entity : String) (entity_id : ℕ)
      → Keeps P (log_action company_id user_id action entity entity_id)
  unfolding log_action
  log_action-Keeps company_id user_id action entity entity_id =
      Keeps-modify _ (λ s h. frame.audit_logs _ s h)

  pub notify-Keeps :
      (company_id : ℕ) (type : NotificationType) (link : String) (link_id : ℕ)
      → Keeps P (notify company_id type link link_id)
  unfolding notify
  notify-Keeps company_id type link link_id = Keeps-modify _ (λ s h. frame.notifications _ s h)

  pub movement-Keeps :
      (i : ℕ) (d : MovementDirection) (amount : Decimal) (source : String) (source_id by : ℕ)
      → Keeps P (apply_movement i d amount source source_id by)
  movement-Keeps = frame.movement

  pub new_client-Keeps :
      (company_id : ℕ) (name phone : String) → Keeps P (create_new_client company_id name phone)
  new_client-Keeps = frame.new_client

  pub delta-Keeps :
      (i : ℕ) (amount : Decimal) (source : String) (source_id : ℕ) (currency : String) (by : ℕ)
      → IsCents amount
      → Keeps P (apply_balance_delta i amount source source_id currency by)
  delta-Keeps = frame.delta

  pub reversal-Keeps :
      (company_id client_id : ℕ) (source : String) (source_id by : ℕ)
      → Keeps P (reverse_movements_for_source company_id client_id source source_id by)
  reversal-Keeps = frame.reversal

pub ruleset frame_rules = (
  keeps_rules, fresh_id-Keeps, log_action-Keeps, notify-Keeps, movement-Keeps, new_client-Keeps,
  delta-Keeps, reversal-Keeps,
)
