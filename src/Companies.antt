-- ===== src/Companies.antt =====
-- app/services/company_service.py with company_repository.py: the companies and their owners.
pub mod Slugs
use d_transfert_backend.Base.{
  ℕ, zero, suc, ◌+◌, String, Text, Bool, true, false, not, Option, none, some, is_some, List, [],
  ◌∷◌, ◌++◌, ◌==◌, id_eq, string_eq, option_eq, list_eq, ◌&&◌, if◌then◌else◌,
}
use d_transfert_backend.Errors.{Error, Result, ok, err}
use d_transfert_backend.Models.{Company, CompanyStatus, User, company_keyed}
use d_transfert_backend.Table.{find, update_row, scalar_one_or_none}
use d_transfert_backend.Database.{Db}
use d_transfert_backend.Host.{Host}
use d_transfert_backend.Reference.{decimal}
use d_transfert_backend.TextOps.{codes}
use d_transfert_backend.Service.{
  Service, Done, pure, gets, query, or_raise, ◌>>=◌, ◌>>◌, modify, raise_if, when, when_some,
  fresh_id,
}
use d_transfert_backend.Audit.{log_action}
use d_transfert_backend.Accounts.{add_user}
use d_transfert_backend.Companies.Slugs.{slugify_company_name, generate_reference}

abbrev pub get_by_registration_code : Text → Db → Result (Option Company)
get_by_registration_code code s = scalar_one_or_none (λ c. c.registration_code == code) s.companies

abbrev pub get_by_phone : String → Db → Result (Option Company)
get_by_phone phone s = scalar_one_or_none (λ c. c.phone == phone) s.companies

abbrev pub get_by_name : Host → Text → Db → Result (Option Company)
get_by_name host name s = scalar_one_or_none (λ c. host.lower c.name == host.lower name) s.companies

unfoldable pub get_my_company : ℕ → Service Company
get_my_company company_id = do
  found ← gets (λ s. find company_id s.companies)
  or_raise found Error.not_found

abbrev pub unless_registered : Result (Option Company) → Text → Result Text → Result Text
unless_registered (err e) candidate later = err e
unless_registered (ok none) candidate later = ok candidate
unless_registered (ok (some c)) candidate later = later

-- A loop over candidates, and what comes after the last.
pub try_codes : (ℕ → Text) → Db → ℕ → ℕ → Result Text → Result Text
try_codes candidate s n zero otherwise = otherwise
try_codes candidate s n (suc left) otherwise =
    unless_registered (get_by_registration_code (candidate n) s) (candidate n)
      (try_codes candidate s (n + 1) left otherwise)

abbrev pub registration_code_max_retries : ℕ
registration_code_max_retries = 5

abbrev pub suffixed : Text → ℕ → Text
suffixed base_slug suffix = base_slug ++ (b'-' ∷ decimal suffix)

abbrev pub random_code : Host → ℕ → Text
random_code host attempt = generate_reference (codes "DT") (host.drawn attempt)

-- The random codes come after the slug and its suffixes, or alone where the slug is empty.
abbrev pub code_from : Host → Text → Db → Result Text → Result Text
code_from host [] s random = random
code_from host (c ∷ cs) s random =
    unless_registered (get_by_registration_code (c ∷ cs) s) (c ∷ cs)
      (try_codes (suffixed (c ∷ cs)) s 2 registration_code_max_retries random)

unfoldable pub generate_registration_code : Host → Text → Db → Result Text
unfolding try_codes
generate_registration_code host company_name s =
    code_from host (slugify_company_name host company_name) s
      (try_codes (random_code host) s 0 registration_code_max_retries (err Error.conflict))

pub record CompanyWithOwner : Type 0 where
  pub company_name : Text
  pub company_phone : String
  pub address : String
  pub default_currency : String
  pub owner_full_name : String
  pub password : String
  pub status : CompanyStatus

-- The ids of the company and of its owner, and the registration code.
pub record RegisterResponse : Type 0 where
  pub company_id : ℕ
  pub registration_code : Text
  pub owner_user_id : ℕ

unfoldable pub add_company : Company → Service Done
unfolding modify
add_company company = modify λ s. record s { companies = s.companies ++ company ∷ [] }

unfoldable pub change_company : ℕ → (Company → Company) → Service Done
unfolding modify
change_company company_id f =
    modify λ s. record s { companies = update_row company_id f s.companies }

abbrev pub owner_of : Host → CompanyWithOwner → ℕ → Text → ℕ → User
owner_of host request company_id registration_code user_id = record {
  id = user_id;
  company_id = some company_id;
  role_id = none;
  matricule = registration_code;
  full_name = request.owner_full_name;
  phone = request.company_phone;
  password_hash = host.hash_password request.password;
  is_owner = true;
  is_super_admin = false;
  is_active = true;
  failed_login_attempts = 0;
  locked_until = none;
  last_login_at = none;
  password_changed_at = none;
}

unfoldable pub create_company_with_owner : Host → CompanyWithOwner → Service RegisterResponse
create_company_with_owner host request = do
  same_phone ← query (get_by_phone request.company_phone)
  raise_if (is_some same_phone) Error.conflict
  same_name ← query (get_by_name host request.company_name)
  raise_if (is_some same_name) Error.conflict
  registration_code ← query (generate_registration_code host request.company_name)
  company_id ← fresh_id
  add_company (record {
    id = company_id;
    name = request.company_name;
    registration_code = registration_code;
    address = some request.address;
    phone = request.company_phone;
    default_currency = request.default_currency;
    status = request.status;
  })
  user_id ← fresh_id
  add_user (owner_of host request company_id registration_code user_id)
  pure (record {
    company_id = company_id;
    registration_code = registration_code;
    owner_user_id = user_id;
  })

-- app/schemas/company.py
pub record AdminCompanyUpdateRequest : Type 0 where
  pub name : Option Text
  pub address : Option String
  pub phone : Option String
  pub default_currency : Option String

abbrev pub other_than : Company → Option Company → Bool
other_than company none = false
other_than company (some c) = not (c.id == company.id)

unfoldable pub set_phone : Company → String → Service Done
set_phone company phone = when (not (phone == company.phone)) do
  existing ← query (get_by_phone phone)
  raise_if (other_than company existing) Error.conflict
  change_company company.id (λ c. record c { phone = phone })

unfoldable pub set_name : Host → Company → Text → Service Done
set_name host company name = when (not (name == company.name)) do
  existing ← query (get_by_name host name)
  raise_if (other_than company existing) Error.conflict
  change_company company.id (λ c. record c { name = name })

-- The writes of update_my_company and of admin_service.update_company, which are the same.
unfoldable pub update_fields : Host → Company → AdminCompanyUpdateRequest → Service Done
update_fields host company payload = do
  when_some payload.phone (set_phone company)
  when_some payload.name (set_name host company)
  when_some payload.address (λ a. change_company company.id (λ c. record c { address = some a }))
  when_some payload.default_currency
      (λ d. change_company company.id (λ c. record c { default_currency = d }))

unfoldable pub update_my_company : Host → ℕ → ℕ → AdminCompanyUpdateRequest → Service Done
update_my_company host company_id acted_by_user_id payload = do
  company ← get_my_company company_id
  update_fields host company payload
  log_action company.id acted_by_user_id "company.update" "company" company.id
