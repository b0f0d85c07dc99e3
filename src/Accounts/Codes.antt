-- ===== src/Accounts/Codes.antt =====
-- user_repository.get_effective_permission_codes: the codes of the role, then the overrides.
use d_transfert_backend.Base.{
  ℕ, String, Bool, not, Option, none, some, List, [], ◌∷◌, ◌++◌, ◌==◌, id_eq, string_eq, option_eq,
  list_eq, any, keep, map, if◌then◌else◌,
}
use d_transfert_backend.Models.{
  User, Permission, RolePermission, UserPermissionOverride, OverrideEffect, user_keyed,
  override_keyed,
}
use d_transfert_backend.Database.{Db}

-- A set of codes as a list without repetitions.
abbrev pub contains : String → List String → Bool
contains code codes = any (λ c. c == code) codes

abbrev pub add_code : String → List String → List String
add_code code codes = if contains code codes then codes else codes ++ code ∷ []

abbrev pub discard_code : String → List String → List String
discard_code code codes = keep (λ c. not (c == code)) codes

-- The codes of the permissions with an id.
abbrev pub codes_of : ℕ → List Permission → List String
codes_of permission_id permissions =
    map (λ p. p.code) (keep (λ p. p.id == permission_id) permissions)

abbrev pub joined_codes : List RolePermission → List Permission → List String
joined_codes [] permissions = []
joined_codes (r ∷ rs) permissions =
    codes_of r.permission_id permissions ++ joined_codes rs permissions

abbrev pub role_codes : Option ℕ → Db → List String
role_codes none s = []
role_codes (some role_id) s =
    joined_codes (keep (λ r. r.role_id == role_id) s.role_permissions) s.permissions

abbrev pub apply_effect : OverrideEffect → String → List String → List String
apply_effect OverrideEffect.grant code codes = add_code code codes
apply_effect OverrideEffect.revoke code codes = discard_code code codes

abbrev pub apply_codes : OverrideEffect → List String → List String → List String
apply_codes effect [] codes = codes
apply_codes effect (c ∷ cs) codes = apply_codes effect cs (apply_effect effect c codes)

abbrev pub apply_overrides :
    List UserPermissionOverride → List Permission → List String → List String
apply_overrides [] permissions codes = codes
apply_overrides (o ∷ os) permissions codes =
    apply_overrides os permissions
      (apply_codes o.effect (codes_of o.permission_id permissions) codes)

unfoldable pub get_effective_permission_codes : User → Db → List String
get_effective_permission_codes user s =
    apply_overrides (keep (λ o. o.user_id == user.id) s.overrides) s.permissions
      (role_codes user.role_id s)
