-- ===== src/Administration/Settings.antt =====
-- app/services/admin_service.py with platform_setting_repository.py and subscription_repository.py:
-- the settings of the platform and the subscriptions of the companies.
use d_transfert_backend.Base.{
  ℕ, String, Bool, false, Option, none, some, List, [], ◌∷◌, ◌++◌, ◌==◌, id_eq, string_eq,
  option_eq,
}
use d_transfert_backend.Money.{Decimal}
use d_transfert_backend.Models.{
  PlatformSetting, Subscription, SubscriptionPlan, SubscriptionStatus, user_keyed, company_keyed,
  setting_keyed, subscription_keyed,
}
use d_transfert_backend.Table.{update_row, scalar_one_or_none}
use d_transfert_backend.Database.{Db}
use d_transfert_backend.Service.{
  Service, Done, pure, gets, query, ◌>>=◌, ◌>>◌, modify, when_some, fresh_id,
}
use d_transfert_backend.Audit.{log_action, log_action_for}
use d_transfert_backend.Companies.{get_my_company}

-- The first row of the table: `select(PlatformSetting).limit(1)`.
abbrev pub first_row : List PlatformSetting → Option PlatformSetting
first_row [] = none
first_row (x ∷ xs) = some x

abbrev pub get_setting : Db → Option PlatformSetting
get_setting s = first_row s.settings

abbrev pub default_setting : ℕ → PlatformSetting
default_setting setting_id = record {
  id = setting_id;
  supported_currencies = "XOF" ∷ "GNF" ∷ "USD" ∷ "EUR" ∷ [];
  max_transaction_amount = none;
  maintenance_mode = false;
  require_company_approval = false;
}

unfoldable pub setting_or_default : Option PlatformSetting → Service PlatformSetting
setting_or_default (some setting) = pure setting
setting_or_default none = do
  setting_id ← fresh_id
  modify (λ s. record s { settings = s.settings ++ default_setting setting_id ∷ [] })
  pure (default_setting setting_id)

unfoldable pub get_settings : Service PlatformSetting
get_settings = do found ← gets get_setting; setting_or_default found

pub record PlatformSettingsUpdateRequest : Type 0 where
  pub supported_currencies : Option (List String)
  pub max_transaction_amount : Option Decimal
  pub maintenance_mode : Option Bool
  pub require_company_approval : Option Bool

unfoldable pub change_setting : ℕ → (PlatformSetting → PlatformSetting) → Service Done
unfolding modify
change_setting setting_id f = modify λ s. record s { settings = update_row setting_id f s.settings }

unfoldable pub update_settings : ℕ → PlatformSettingsUpdateRequest → Service Done
update_settings acted_by_user_id payload = do
  setting ← get_settings
  when_some payload.supported_currencies
      (λ v. change_setting setting.id (λ x. record x { supported_currencies = v }))
  when_some payload.max_transaction_amount
      (λ v. change_setting setting.id (λ x. record x { max_transaction_amount = some v }))
  when_some payload.maintenance_mode
      (λ v. change_setting setting.id (λ x. record x { maintenance_mode = v }))
  when_some payload.require_company_approval
      (λ v. change_setting setting.id (λ x. record x { require_company_approval = v }))
  log_action_for none acted_by_user_id "admin.settings_update" "platform_setting" setting.id

abbrev pub default_subscription : ℕ → ℕ → Subscription
default_subscription subscription_id company_id = record {
  id = subscription_id;
  company_id = company_id;
  plan = SubscriptionPlan.free;
  status = SubscriptionStatus.active;
  price = none;
  currency = none;
  renews_at = none;
}

unfoldable pub subscription_or_default : ℕ → Option Subscription → Service Subscription
subscription_or_default company_id (some subscription) = pure subscription
subscription_or_default company_id none = do
  subscription_id ← fresh_id
  modify (λ s. record s {
    subscriptions = s.subscriptions ++ default_subscription subscription_id company_id ∷ [];
  })
  pure (default_subscription subscription_id company_id)

unfoldable pub get_subscription : ℕ → Service Subscription
get_subscription company_id = do
  get_my_company company_id
  found ← query (λ s. scalar_one_or_none (λ x. x.company_id == company_id) s.subscriptions)
  subscription_or_default company_id found

pub record SubscriptionUpdateRequest : Type 0 where
  pub plan : Option SubscriptionPlan
  pub status : Option SubscriptionStatus
  pub price : Option Decimal
  pub currency : Option String
  pub renews_at : Option ℕ

unfoldable pub change_subscription : ℕ → (Subscription → Subscription) → Service Done
unfolding modify
change_subscription subscription_id f =
    modify λ s. record s { subscriptions = update_row subscription_id f s.subscriptions }

unfoldable pub update_subscription : ℕ → ℕ → SubscriptionUpdateRequest → Service Done
update_subscription acted_by_user_id company_id payload = do
  subscription ← get_subscription company_id
  when_some payload.plan (λ v. change_subscription subscription.id (λ x. record x { plan = v }))
  when_some payload.status (λ v. change_subscription subscription.id (λ x. record x { status = v }))
  when_some payload.price
      (λ v. change_subscription subscription.id (λ x. record x { price = some v }))
  when_some payload.currency
      (λ v. change_subscription subscription.id (λ x. record x { currency = some v }))
  when_some payload.renews_at
      (λ v. change_subscription subscription.id (λ x. record x { renews_at = some v }))
  log_action company_id acted_by_user_id "admin.subscription_update" "subscription" subscription.id
