-- ===== src/Platform/Frames.antt =====
-- One rule for all platform requests: an invariant that allows the writes to the tables of the
-- accounts is kept by each of them; what is done to the users is asked service by service.
use d_transfert_backend.Base.{ℕ, ◌+◌, String, Option, some, none, List}
use d_transfert_backend.Models.{
  Company, UserPermissionOverride, OverrideEffect, PasswordResetOtp, RevokedToken, PlatformSetting,
  Subscription, SystemLog, AuditLog, Permission,
}
use d_transfert_backend.Database.{Db}
use d_transfert_backend.Service.{fresh_id}
use d_transfert_backend.Service.Keeps.{
  Keeps, Keeps-bind, Keeps-pure, Keeps-modify, Keeps-fresh_id, keeps_rules,
}
use d_transfert_backend.Audit.{log_action, log_action_for}
use d_transfert_backend.Accounts.{
  write_override, set_permission_override, override_code, flush_overrides, PermissionCode,
}

-- Every write to a table of the accounts is allowed, except those to the users.
pub record Tables (P : Db → Type 0) : Type 0 where
  pub fresh : (s : Db) → P s → P (record s { next_id = s.next_id + 1 })
  pub companies : (x : List Company) (s : Db) → P s → P (record s { companies = x })
  pub overrides : (x : List UserPermissionOverride) (s : Db) → P s → P (record s { overrides = x })
  pub otps : (x : List PasswordResetOtp) (s : Db) → P s → P (record s { otps = x })
  pub revoked_tokens : (x : List RevokedToken) (s : Db) → P s → P (record s { revoked_tokens = x })
  pub settings : (x : List PlatformSetting) (s : Db) → P s → P (record s { settings = x })
  pub subscriptions : (x : List Subscription) (s : Db) → P s → P (record s { subscriptions = x })
  pub system_logs : (x : List SystemLog) (s : Db) → P s → P (record s { system_logs = x })
  pub audit_logs : (x : List AuditLog) (s : Db) → P s → P (record s { audit_logs = x })

module _ {P : Db → Type 0} (tables : Tables P) where
  pub fresh-Keeps : Keeps P fresh_id
  fresh-Keeps = Keeps-fresh_id tables.fresh

  pub log_for-Keeps :
      (c : Option ℕ) (u : ℕ) (a e : String) (i : ℕ) → Keeps P (log_action_for c u a e i)
  unfolding log_action_for
  log_for-Keeps c u a e i = Keeps-modify _ (λ s h. tables.audit_logs _ s h)

  pub log-Keeps : (c u : ℕ) (a e : String) (i : ℕ) → Keeps P (log_action c u a e i)
  unfolding log_action
  log-Keeps c = log_for-Keeps (some c)

pub ruleset table_rules = (keeps_rules, fresh-Keeps, log_for-Keeps, log-Keeps)

module _ {P : Db → Type 0} (tables : Tables P) where
  write_override-Keeps :
      (o : Option UserPermissionOverride) (u p : ℕ) (e : OverrideEffect)
      → Keeps P (write_override o u p e)
  unfolding write_override
  write_override-Keeps (some o) u p e = Keeps-modify _ (λ s h. tables.overrides _ s h)
  write_override-Keeps none u p e =
      Keeps-bind _ _ (fresh-Keeps tables) λ i. Keeps-modify _ (λ s h. tables.overrides _ s h)

  set_permission_override-Keeps :
      (f : List UserPermissionOverride) (u : ℕ) (e : OverrideEffect) (p : Permission)
      → Keeps P (set_permission_override f u e p)
  unfolding set_permission_override
  set_permission_override-Keeps f u e p = search (keeps_rules, write_override-Keeps)

  pub override_code-Keeps :
      (f : List UserPermissionOverride) (u : ℕ) (e : OverrideEffect) (c : PermissionCode)
      → Keeps P (override_code f u e c)
  unfolding override_code
  override_code-Keeps f u e c = search (keeps_rules, set_permission_override-Keeps)

  pub flush_overrides-Keeps : Keeps P flush_overrides
  unfolding flush_overrides
  flush_overrides-Keeps = search keeps_rules
