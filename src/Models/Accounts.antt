-- ===== src/Models/Accounts.antt =====
-- app/models/user.py, role.py, password_reset_otp.py, revoked_token.py, platform_setting.py,
-- subscription.py and system_log.py
use d_transfert_backend.Base.{ℕ, String, Text, Option, Bool, List}
use d_transfert_backend.Money.{Decimal}
use d_transfert_backend.Table.{Keyed}

pub record User : Type 0 where
  pub id : ℕ
  pub company_id : Option ℕ
  pub role_id : Option ℕ
  pub matricule : Text
  pub full_name : String
  pub phone : String
  pub password_hash : String
  pub is_owner : Bool
  pub is_super_admin : Bool
  pub is_active : Bool
  pub failed_login_attempts : ℕ
  pub locked_until : Option ℕ
  pub last_login_at : Option ℕ
  pub password_changed_at : Option ℕ

pub record Permission : Type 0 where
  pub id : ℕ
  pub code : String

pub record Role : Type 0 where
  pub id : ℕ
  pub code : String

pub record RolePermission : Type 0 where
  pub role_id : ℕ
  pub permission_id : ℕ

pub data OverrideEffect : Type 0 where
  grant revoke : OverrideEffect

pub record UserPermissionOverride : Type 0 where
  pub id : ℕ
  pub user_id : ℕ
  pub permission_id : ℕ
  pub effect : OverrideEffect

pub record PasswordResetOtp : Type 0 where
  pub id : ℕ
  pub user_id : ℕ
  pub code_hash : String
  pub expires_at : ℕ
  pub used_at : Option ℕ
  pub attempts : ℕ

pub record RevokedToken : Type 0 where
  pub jti : String
  pub expires_at : ℕ

pub record PlatformSetting : Type 0 where
  pub id : ℕ
  pub supported_currencies : List String
  pub max_transaction_amount : Option Decimal
  pub maintenance_mode : Bool
  pub require_company_approval : Bool

pub data SubscriptionPlan : Type 0 where
  free standard premium : SubscriptionPlan

pub data SubscriptionStatus : Type 0 where
  active expired cancelled : SubscriptionStatus

pub record Subscription : Type 0 where
  pub id : ℕ
  pub company_id : ℕ
  pub plan : SubscriptionPlan
  pub status : SubscriptionStatus
  pub price : Option Decimal
  pub currency : Option String
  pub renews_at : Option ℕ

pub data SystemLogLevel : Type 0 where
  info warning error : SystemLogLevel

pub record SystemLog : Type 0 where
  pub level : SystemLogLevel
  pub source : String
  pub company_id : Option ℕ
  pub user_id : Option ℕ

instance abbrev pub user_keyed : Keyed User
user_keyed = record { key = λ u. u.id }

instance abbrev pub override_keyed : Keyed UserPermissionOverride
override_keyed = record { key = λ o. o.id }

instance abbrev pub otp_keyed : Keyed PasswordResetOtp
otp_keyed = record { key = λ o. o.id }

instance abbrev pub subscription_keyed : Keyed Subscription
subscription_keyed = record { key = λ s. s.id }

instance abbrev pub setting_keyed : Keyed PlatformSetting
setting_keyed = record { key = λ s. s.id }
