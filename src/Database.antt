-- ===== src/Database.antt =====
-- The database as one request sees it: the tables, the clock, and the source of fresh ids.
-- `uuid.uuid4` is modelled by a counter, so a fresh id is one that no row has; the creation
-- functions of the app rely on nothing else of it. `today` and `now` stand for the host's clock
-- and stay the same during a request; `now` counts microseconds.
use d_transfert_backend.Base.{ℕ, List}
use d_transfert_backend.Reference.{Date}
use d_transfert_backend.Models.{
  Wallet, WalletMovement, Entry, EntryLine, EntryAllocation, Client, ClientBalanceMovement,
  Collaboration, CollaborationRateHistory, CollaboratorBalanceMovement, PrivateSendingRate,
  Transfer, StatusHistory, Payment, NationalOperation, NationalOperationLine, Supplier,
  SupplierBalanceMovement, Proof, AuditLog, Notification, Company, User, Permission, Role,
  RolePermission, UserPermissionOverride, PasswordResetOtp, RevokedToken, PlatformSetting,
  Subscription, SystemLog,
}

pub record Db : Type 0 where
  pub next_id : ℕ
  pub today : Date
  pub now : ℕ
  pub companies : List Company
  pub wallets : List Wallet
  pub wallet_movements : List WalletMovement
  pub entries : List Entry
  pub entry_lines : List EntryLine
  pub allocations : List EntryAllocation
  pub clients : List Client
  pub client_movements : List ClientBalanceMovement
  pub collaborations : List Collaboration
  pub rates : List CollaborationRateHistory
  pub collaborator_movements : List CollaboratorBalanceMovement
  pub private_rates : List PrivateSendingRate
  pub transfers : List Transfer
  pub transfer_history : List StatusHistory
  pub payments : List Payment
  pub payment_history : List StatusHistory
  pub operations : List NationalOperation
  pub operation_lines : List NationalOperationLine
  pub suppliers : List Supplier
  pub supplier_movements : List SupplierBalanceMovement
  pub proofs : List Proof
  pub audit_logs : List AuditLog
  pub notifications : List Notification
  pub users : List User
  pub permissions : List Permission
  pub roles : List Role
  pub role_permissions : List RolePermission
  pub overrides : List UserPermissionOverride
  pub otps : List PasswordResetOtp
  pub revoked_tokens : List RevokedToken
  pub settings : List PlatformSetting
  pub subscriptions : List Subscription
  pub system_logs : List SystemLog
