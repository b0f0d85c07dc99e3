-- ===== src/Platform/Services.antt =====
-- The services of companies, settings and subscriptions keep an invariant that allows the writes to
-- their tables.
use d_transfert_backend.Base.{ℕ, String, Text, Option, some, none}
use d_transfert_backend.Models.{Company, CompanyStatus, PlatformSetting, Subscription}
use d_transfert_backend.Database.{Db}
use d_transfert_backend.Host.{Host}
use d_transfert_backend.Service.Keeps.{Keeps, Keeps-modify, keeps_rules}
use d_transfert_backend.Companies.{
  AdminCompanyUpdateRequest, get_my_company, add_company, change_company, set_phone, set_name,
  update_fields, update_my_company,
}
use d_transfert_backend.Administration.{
  PlatformSettingsUpdateRequest, SubscriptionUpdateRequest, set_company_status, update_company,
  setting_or_default, get_settings, change_setting, update_settings, subscription_or_default,
  get_subscription, change_subscription, update_subscription,
}
use d_transfert_backend.Platform.Frames.{Tables, table_rules}

module _ {P : Db → Type 0} (tables : Tables P) where
  add_company-Keeps : (c : Company) → Keeps P (add_company c)
  unfolding add_company
  add_company-Keeps c = Keeps-modify _ (λ s h. tables.companies _ s h)

  change_company-Keeps : (i : ℕ) (f : Company → Company) → Keeps P (change_company i f)
  unfolding change_company
  change_company-Keeps i f = Keeps-modify _ (λ s h. tables.companies _ s h)

  get_my_company-Keeps : (i : ℕ) → Keeps P (get_my_company i)
  unfolding get_my_company
  get_my_company-Keeps i = search keeps_rules

  set_phone-Keeps : (c : Company) (p : String) → Keeps P (set_phone c p)
  unfolding set_phone
  set_phone-Keeps c p = search (keeps_rules, change_company-Keeps)

  set_name-Keeps : (host : Host) (c : Company) (n : Text) → Keeps P (set_name host c n)
  unfolding set_name
  set_name-Keeps host c n = search (keeps_rules, change_company-Keeps)

  update_fields-Keeps :
      (host : Host) (c : Company) (p : AdminCompanyUpdateRequest) → Keeps P (update_fields host c p)
  unfolding update_fields
  update_fields-Keeps host c p =
      search (keeps_rules, change_company-Keeps, set_phone-Keeps, set_name-Keeps)

  pub update_my_company-Keeps :
      (host : Host) (c by : ℕ) (p : AdminCompanyUpdateRequest)
      → Keeps P (update_my_company host c by p)
  unfolding update_my_company
  update_my_company-Keeps host c by p =
      search (table_rules, get_my_company-Keeps, update_fields-Keeps)

  pub update_company-Keeps :
      (host : Host) (by c : ℕ) (p : AdminCompanyUpdateRequest)
      → Keeps P (update_company host by c p)
  unfolding update_company
  update_company-Keeps host by c p = search (table_rules, get_my_company-Keeps, update_fields-Keeps)

  pub set_company_status-Keeps :
      (by c : ℕ) (st : CompanyStatus) → Keeps P (set_company_status by c st)
  unfolding set_company_status
  set_company_status-Keeps by c st =
      search (table_rules, get_my_company-Keeps, change_company-Keeps)

  setting_or_default-Keeps : (o : Option PlatformSetting) → Keeps P (setting_or_default o)
  unfolding setting_or_default
  setting_or_default-Keeps (some x) = search keeps_rules
  setting_or_default-Keeps none = search (table_rules, Keeps-modify, tables.settings)

  pub get_settings-Keeps : Keeps P get_settings
  unfolding get_settings
  get_settings-Keeps = search (table_rules, setting_or_default-Keeps)

  change_setting-Keeps :
      (i : ℕ) (f : PlatformSetting → PlatformSetting) → Keeps P (change_setting i f)
  unfolding change_setting
  change_setting-Keeps i f = Keeps-modify _ (λ s h. tables.settings _ s h)

  pub update_settings-Keeps :
      (by : ℕ) (p : PlatformSettingsUpdateRequest) → Keeps P (update_settings by p)
  unfolding update_settings
  update_settings-Keeps by p =
      search (table_rules, get_settings-Keeps, change_setting-Keeps) depth 12

  subscription_or_default-Keeps :
      (c : ℕ) (o : Option Subscription) → Keeps P (subscription_or_default c o)
  unfolding subscription_or_default
  subscription_or_default-Keeps c (some x) = search keeps_rules
  subscription_or_default-Keeps c none = search (table_rules, Keeps-modify, tables.subscriptions)

  pub get_subscription-Keeps : (c : ℕ) → Keeps P (get_subscription c)
  unfolding get_subscription
  get_subscription-Keeps c =
      search (table_rules, get_my_company-Keeps, subscription_or_default-Keeps)

  change_subscription-Keeps :
      (i : ℕ) (f : Subscription → Subscription) → Keeps P (change_subscription i f)
  unfolding change_subscription
  change_subscription-Keeps i f = Keeps-modify _ (λ s h. tables.subscriptions _ s h)

  pub update_subscription-Keeps :
      (by c : ℕ) (p : SubscriptionUpdateRequest) → Keeps P (update_subscription by c p)
  unfolding update_subscription
  update_subscription-Keeps by c p =
      search (table_rules, get_subscription-Keeps, change_subscription-Keeps) depth 12
