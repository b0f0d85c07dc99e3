-- ===== src/Accounts/Effective.antt =====
-- user_repository.get_effective_permission_codes: which codes are in effect.
use d_transfert_backend.Base.{
  ◌≡◌, refl, sym, ap, ◌∙◌, String, Bool, true, false, ◌||◌, Option, none, some, List, [], ◌∷◌, ◌++◌,
  ◌==◌, string_eq, id_eq, keep, Bool-cases, inl, inr, if◌then◌else◌, arith,
}
use d_transfert_backend.Models.{User, Permission, UserPermissionOverride, OverrideEffect}
use d_transfert_backend.Database.{Db}
use d_transfert_backend.Accounts.{
  contains, add_code, discard_code, codes_of, role_codes, apply_effect, apply_codes,
  apply_overrides, get_effective_permission_codes,
}

abbrev pub is_grant : OverrideEffect → Bool
is_grant OverrideEffect.grant = true
is_grant OverrideEffect.revoke = false

-- The effect of the last override of a permission with a code.
abbrev pub or_earlier : Option OverrideEffect → Option OverrideEffect → Option OverrideEffect
or_earlier (some later) earlier = some later
or_earlier none earlier = earlier

abbrev pub own_verdict : String → List Permission → UserPermissionOverride → Option OverrideEffect
own_verdict code permissions o =
    if contains code (codes_of o.permission_id permissions) then some o.effect else none

abbrev pub verdict : String → List Permission → List UserPermissionOverride → Option OverrideEffect
verdict code permissions [] = none
verdict code permissions (o ∷ os) =
    or_earlier (verdict code permissions os) (own_verdict code permissions o)

abbrev pub decided : Option OverrideEffect → Bool → Bool
decided none from_role = from_role
decided (some effect) from_role = is_grant effect

contains-append :
    (code c : String) (codes : List String)
    → contains code (codes ++ c ∷ []) ≡ contains code codes || c == code
contains-append code c [] = ground arith
contains-append code c (d ∷ codes) = ground (arith, contains-append code c codes)

same_text : (c d code : String) → c ≡ d → (c == code) ≡ (d == code)
same_text c d code h = ap (λ x. x == code) h

drop_hit : (b x : Bool) → (if b then false else x) ≡ (if b then false else b || x)
drop_hit b x = ground arith

drop_miss :
    (a b x : Bool)
    → (b ≡ true → a ≡ false)
    → a || (if b then false else x) ≡ (if b then false else a || x)
drop_miss a b x h = ground arith

not_both : (c d code : String) → (d == c) ≡ false → (c == code) ≡ true → (d == code) ≡ false
not_both c d code miss hit = elim (Bool-cases (d == code)) [
  | inl both ↦
      let p = (string_eq.beq_iff c code).0 hit in
      let q = (string_eq.beq_iff d code).0 both in
      let r = (string_eq.beq_iff d c).1 (q ∙ sym p) in cc
  | inr other ↦ other
]

contains-discard :
    (code c : String) (codes : List String)
    → contains code (discard_code c codes) ≡ (if c == code then false else contains code codes)
contains-discard code c [] = ground arith
contains-discard code c (d ∷ codes) = elim (Bool-cases (d == c)) [
  | inl hit ↦
      rw (hit, contains-discard code c codes, same_text d c code ((string_eq.beq_iff d c).0 hit))
        (drop_hit (c == code) (contains code codes))
  | inr miss ↦
      rw (miss, contains-discard code c codes)
        (drop_miss (d == code) (c == code) (contains code codes) (not_both c d code miss))
]

or_if : (a b : Bool) → a || b ≡ (if b then true else a)
or_if a b = ground arith

nested : (a b g x : Bool) → (if a then g else if b then g else x) ≡ (if b || a then g else x)
nested a b g x = ground arith

overruled :
    (v : Option OverrideEffect) (named : Bool) (e : OverrideEffect) (x : Bool)
    → decided v (if named then is_grant e else x)
      ≡ decided (or_earlier v (if named then some e else none)) x
overruled none true e x = refl
overruled none false e x = refl
overruled (some v) named e x = refl

already :
    (code c : String) (codes : List String)
    → contains c codes ≡ true
    → contains code codes ≡ (if c == code then true else contains code codes)
already code c [] h = cc
already code c (d ∷ codes) h =
    ground (arith, string_eq.beq_iff d c, same_text d c code, already code c codes)

contains-add :
    (code c : String) (codes : List String)
    → contains code (add_code c codes) ≡ (if c == code then true else contains code codes)
contains-add code c codes = elim (Bool-cases (contains c codes)) [
  | inl there ↦ rw there (already code c codes there)
  | inr new ↦ rw (new, contains-append code c codes) (or_if (contains code codes) (c == code))
]

contains-effect :
    (effect : OverrideEffect) (code c : String) (codes : List String)
    → contains code (apply_effect effect c codes)
      ≡ (if c == code then is_grant effect else contains code codes)
contains-effect OverrideEffect.grant code c codes = contains-add code c codes
contains-effect OverrideEffect.revoke code c codes = contains-discard code c codes

contains-apply_codes :
    (effect : OverrideEffect) (code : String) (cs codes : List String)
    → contains code (apply_codes effect cs codes)
      ≡ (if contains code cs then is_grant effect else contains code codes)
contains-apply_codes effect code [] codes = refl
contains-apply_codes effect code (c ∷ cs) codes =
    contains-apply_codes effect code cs (apply_effect effect c codes)
    ∙ rw (contains-effect effect code c codes)
        (nested (contains code cs) (c == code) (is_grant effect) (contains code codes))

contains-apply_overrides :
    (code : String) (permissions : List Permission) (os : List UserPermissionOverride)
    (codes : List String)
    → contains code (apply_overrides os permissions codes)
      ≡ decided (verdict code permissions os) (contains code codes)
contains-apply_overrides code permissions [] codes = refl
contains-apply_overrides code permissions (o ∷ os) codes =
    contains-apply_overrides code permissions os
      (apply_codes o.effect (codes_of o.permission_id permissions) codes)
    ∙ rw (contains-apply_codes o.effect code (codes_of o.permission_id permissions) codes) (
        overruled (verdict code permissions os)
          (contains code (codes_of o.permission_id permissions)) o.effect (contains code codes))

-- A code is in effect for a user exactly if the last override of the user for a permission with that code
-- grants it, or there is none and the role of the user has it.
pub effective_permission_verdict :
    (user : User) (s : Db) (code : String)
    → contains code (get_effective_permission_codes user s)
      ≡ decided
          (verdict code s.permissions (keep (λ o. o.user_id == user.id) s.overrides))
          (contains code (role_codes user.role_id s))
unfolding get_effective_permission_codes
effective_permission_verdict user s code =
    contains-apply_overrides code s.permissions (keep (λ o. o.user_id == user.id) s.overrides)
      (role_codes user.role_id s)
