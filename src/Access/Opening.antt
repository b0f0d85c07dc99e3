-- ===== src/Access/Opening.antt =====
-- What suffices for get_current_user and require_any_permission to let a request through.
use d_transfert_backend.Base.{
  ℕ, ◌≡◌, refl, sym, ap, ◌∙◌, String, Bool, true, false, Option, none, some, string_eq, ==_refl,
  Bool-cases, inl, inr, ◌↔◌, List, any, subst, ◌||◌, not, arith,
}
use d_transfert_backend.Errors.{ok}
use d_transfert_backend.Models.{User, user_keyed, company_keyed}
use d_transfert_backend.Database.{Db}
use d_transfert_backend.Host.{Host, Claims}
use d_transfert_backend.Service.Inversion.{
  gets_then, some_then, false_then, bind_then, pure_then, raise_if-false,
}
use d_transfert_backend.Accounts.{PermissionCode, value, contains}
use d_transfert_backend.Access.{
  TokenType, type_value, decode_token, CurrentUser, check_company, user_of_claims, get_current_user,
  authorize, has_any, require_any_permission,
}
use d_transfert_backend.Access.Guards.{
  IsSession, IsOpen, IsIdentified, MayCall, authorize_safe, described,
}

module _ (host : Host) where
  decode_token_opens :
      (text : String) (type : TokenType) (s : Db) (claims : Claims)
      → host.decode text s.now ≡ some claims
      → claims.type ≡ type_value type
      → decode_token host text type s ≡ ok (claims, s)
  unfolding decode_token
  decode_token_opens text type s claims decoded typed = gets_then _ _ s (
      some_then _ _ _ s decoded
        (false_then _ _ _ s (rw typed (rw (==_refl (type_value type)) refl)) (pure_then claims s)))

user_of_claims_opens :
    (claims : Claims) (s : Db) (user : User)
    → IsSession claims s user
    → user_of_claims claims s ≡ ok (user, s)
unfolding user_of_claims
user_of_claims_opens claims s user known = some_then _ _ _ s known.named (
    gets_then _ _ s (
      false_then _ _ _ s known.not_revoked (
        gets_then _ _ s (
          some_then _ _ _ s known.found (
            false_then _ _ _ s (rw known.active refl)
              (false_then _ _ _ s known.current (pure_then user s)))))))

check_company_opens : (c : Option ℕ) (s : Db) → IsOpen c s → check_company c s ≡ ok (tt, s)
unfolding check_company
check_company_opens none s h = pure_then tt s
check_company_opens (some i) s (company, found, going) =
    gets_then _ _ s (rw found (raise_if-false _ _ s going))

-- A request whose sender is identified is let through.
pub get_current_user_opens :
    (host : Host) (token : Option String) (on_admin_path : Bool) (s : Db) (sender : CurrentUser)
    → IsIdentified host token on_admin_path s sender
    → get_current_user host token on_admin_path s ≡ ok (sender, s)
unfolding get_current_user
get_current_user_opens host token on_admin_path s sender known = some_then _ _ _ s known.sent (
    bind_then _ _ s
      (decode_token_opens host known.text TokenType.access s known.claims known.decoded
        known.for_access)
      (bind_then _ _ s (user_of_claims_opens known.claims s known.user known.session) (
        bind_then _ _ s (check_company_opens known.user.company_id s known.open_company) (
          gets_then _ _ s (
            false_then _ _ _ s known.working
              (gets_then _ _ s (pure_then _ s ∙ ap (λ x. ok (x, s)) (sym known.same))))))))

owner_passes : (a c : Bool) → not (a || true || c) ≡ false
owner_passes a c = ground arith

code_passes : (a o c : Bool) → c ≡ true → not (a || o || c) ≡ false
code_passes a o c h = ground arith

any_code :
    (user : User) (codes : List PermissionCode) (s : Db)
    → MayCall user codes s
    → not (user.is_super_admin || user.is_owner || has_any codes (described user s)) ≡ false
any_code user codes s (inl admin) = rw admin refl
any_code user codes s (inr (inl owner)) = rw owner (owner_passes user.is_super_admin _)
any_code user codes s (inr (inr code)) = elim (Bool-cases user.is_super_admin) [
  | inl admin ↦ rw admin refl
  | inr plain ↦ elim (Bool-cases user.is_owner) [
    | inl owner ↦ rw owner (owner_passes user.is_super_admin _)
    | inr employee ↦ code_passes user.is_super_admin user.is_owner _ (
        subst (λ of_sender. any (λ c. contains (value c) of_sender) codes ≡ true)
          (rw (plain, employee) refl) code)
  ]
]

-- A request is let through by require_any_permission, and then leaves the database as it is, exactly if it
-- has a token that decodes, is an access token and is not revoked, of an active user who has not changed
-- the password since, whose company, if there is one, is there and not suspended, at a time without
-- maintenance unless the user is a super admin or the path is one of administration, the sender is that
-- user, and the user is a super admin, an owner or has one of the codes in effect.
pub authorize_iff :
    (host : Host) (token : Option String) (on_admin_path : Bool) (codes : List PermissionCode)
    (s t : Db) (sender : CurrentUser)
    → (authorize host token on_admin_path codes s ≡ ok (sender, t)) ↔ (
        (s ≡ t)
        × ((known : IsIdentified host token on_admin_path s sender) × MayCall known.user codes s))
unfolding authorize require_any_permission
authorize_iff host token on_admin_path codes s t sender = (
  authorize_safe host token on_admin_path codes s,
  λ (same, (known, may)).
      bind_then _ _ s (get_current_user_opens host token on_admin_path s sender known) (
        false_then _ _ _ s
          (subst
            (λ (x : CurrentUser). not (x.is_super_admin || x.is_owner || has_any codes x) ≡ false)
            (sym known.same) (any_code known.user codes s may))
          (pure_then sender s ∙ ap (λ x. ok (sender, x)) same)),
)
