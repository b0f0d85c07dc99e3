-- ===== src/Access/Guards.antt =====
-- What a request has shown when get_current_user and require_any_permission let it through.
use d_transfert_backend.Base.{
  Bool-cases, ℕ, ◌≡◌, refl, sym, ap, subst, ◌∙◌, String, Bool, true, false, not, ◌&&◌, ◌||◌, Option,
  none, some, List, any, ◌⊎◌, inl, inr, string_eq, arith,
}
use d_transfert_backend.Errors.{ok}
use d_transfert_backend.Models.{User, Company, is_suspended, user_keyed, company_keyed}
use d_transfert_backend.Table.{find}
use d_transfert_backend.Database.{Db}
use d_transfert_backend.Host.{Host, Claims}
use d_transfert_backend.Service.{Done}
use d_transfert_backend.Service.Keeps.{>>=-eq-ok}
use d_transfert_backend.Service.Inversion.{
  pure-eq-ok, raise_if-eq-ok, or_raise_passed, gets_passed, raise_if_passed,
}
use d_transfert_backend.Accounts.{PermissionCode, value, contains, get_effective_permission_codes}
use d_transfert_backend.Administration.{get_setting}
use d_transfert_backend.Access.{
  TokenType, type_value, decode_token, is_revoked, is_outdated, CurrentUser, is_closed,
  check_company, in_maintenance, user_of_claims, permissions_of, get_current_user, has_any,
  require_any_permission, authorize,
}

-- The claims stand for a session of the user that is still good.
pub record IsSession (claims : Claims) (s : Db) (user : User) : Type 0 where
  pub id : ℕ
  pub named : claims.sub ≡ some id
  pub found : find id s.users ≡ some user
  pub not_revoked : is_revoked claims.jti s ≡ false
  pub active : user.is_active ≡ true
  pub current : is_outdated claims user.password_changed_at ≡ false

not-false : (b : Bool) → not b ≡ false → b ≡ true
not-false true h = refl
not-false false h = cc

pub user_of_claims_ok :
    (claims : Claims) (s : Db) {user : User} {t : Db}
    → user_of_claims claims s ≡ ok (user, t)
    → IsSession claims s user × (s ≡ t)
unfolding user_of_claims
user_of_claims_ok claims s {user} {t} h =
    let (i, named, h) = or_raise_passed claims.sub _ _ s h in
    let (fresh, h) = raise_if_passed _ _ _ s (gets_passed _ _ s h) in
    let (u, found, h) = or_raise_passed _ _ _ s (gets_passed _ _ s h) in
    let (active, h) = raise_if_passed _ _ _ s h in
    let (current, h) = raise_if_passed _ _ _ s h in
    let (same, still) = pure-eq-ok u s h in
    (
      record {
        id = i;
        named = named;
        found = found ∙ ap some same;
        not_revoked = fresh;
        active = subst (λ (v : User). v.is_active ≡ true) same (not-false u.is_active active);
        current =
            subst (λ (v : User). is_outdated claims v.password_changed_at ≡ false) same current;
      },
      still,
    )

-- The company of a user who has one is there and not suspended.
abbrev pub IsOpen : Option ℕ → Db → Type 0
IsOpen none s = Unit
IsOpen (some i) s =
    (company : Company) × (find i s.companies ≡ some company)
    × (is_suspended company.status ≡ false)

pub decode_token_ok :
    (host : Host) (token : String) (type : TokenType) (s : Db) {claims : Claims} {t : Db}
    → decode_token host token type s ≡ ok (claims, t)
    → (host.decode token s.now ≡ some claims) × (claims.type ≡ type_value type) × (s ≡ t)
unfolding decode_token
decode_token_ok host token type s {claims} {t} h =
    let (c, decoded, h) = or_raise_passed _ _ _ s (gets_passed _ _ s h) in
    let (typed, h) = raise_if_passed _ _ _ s h in
    let (same, still) = pure-eq-ok c s h in
    (
      decoded ∙ ap some same,
      subst (λ (x : Claims). x.type ≡ type_value type) same
          ((string_eq.beq_iff c.type (type_value type)).0 (not-false _ typed)),
      still,
    )

not_closed :
    (o : Option Company)
    → is_closed o ≡ false
    → (company : Company) × (o ≡ some company) × (is_suspended company.status ≡ false)
not_closed none h = cc
not_closed (some company) h = (company, refl, h)

check_company_ok :
    (c : Option ℕ) (s : Db) {u : Done} {t : Db}
    → check_company c s ≡ ok (u, t)
    → IsOpen c s × (s ≡ t)
unfolding check_company
check_company_ok none s h = let (u, still) = pure-eq-ok tt s h in (tt, still)
check_company_ok (some i) s h =
    let (open_, still) = raise_if-eq-ok _ _ s (gets_passed _ _ s h) in (not_closed _ open_, still)

abbrev pub described : User → Db → CurrentUser
described user s = record {
  id = user.id;
  company_id = user.company_id;
  permissions = permissions_of user s;
  is_owner = user.is_owner;
  is_super_admin = user.is_super_admin;
}

-- The sender of a request with a token, to a path.
pub record IsIdentified (host : Host) (token : Option String) (on_admin_path : Bool) (s : Db)
    (sender : CurrentUser) : Type 0 where
  pub text : String
  pub claims : Claims
  pub user : User
  pub sent : token ≡ some text
  pub decoded : host.decode text s.now ≡ some claims
  pub for_access : claims.type ≡ "access"
  pub session : IsSession claims s user
  pub open_company : IsOpen user.company_id s
  pub working :
      (in_maintenance (get_setting s) && not user.is_super_admin && not on_admin_path) ≡ false
  pub same : sender ≡ described user s

pub get_current_user_ok :
    (host : Host) (token : Option String) (on_admin_path : Bool) (s : Db) {sender : CurrentUser}
    {t : Db}
    → get_current_user host token on_admin_path s ≡ ok (sender, t)
    → IsIdentified host token on_admin_path s sender × (s ≡ t)
unfolding get_current_user
get_current_user_ok host token on_admin_path s {sender} h =
    let (text, sent, h) = or_raise_passed _ _ _ s h in
    let (claims, s1, e1, h1) = >>=-eq-ok (decode_token host text TokenType.access) _ s h in
    let (decoded, for_access, p1) = decode_token_ok host text _ s e1 in
    let (user, s2, e2, h2) = >>=-eq-ok (user_of_claims claims) _ s1 h1 in
    let (session, p2) = user_of_claims_ok claims s1 e2 in
    let (u, s3, e3, h3) = >>=-eq-ok (check_company user.company_id) _ s2 h2 in
    let (open_company, p3) = check_company_ok user.company_id s2 e3 in
    let (working, h4) = raise_if_passed _ _ _ s3 (gets_passed _ _ s3 h3) in
    let (same, p4) = pure-eq-ok _ s3 (gets_passed _ _ s3 h4) in
    let back2 = p1 ∙ p2 in
    let back3 = back2 ∙ p3 in
    (
      record {
        text = text;
        claims = claims;
        user = user;
        sent = sent;
        decoded = decoded;
        for_access = for_access;
        session = subst (λ x. IsSession claims x user) (sym p1) session;
        open_company = subst (IsOpen user.company_id) (sym back2) open_company;
        working =
            subst
              (λ x.
                (in_maintenance (get_setting x) && not user.is_super_admin && not on_admin_path)
                ≡ false)
              (sym back3) working;
        same = sym same ∙ ap (described user) (sym back3);
      },
      back3 ∙ p4,
    )

-- Why a user may call an endpoint: a super admin, an owner, or one of the codes in effect.
abbrev pub MayCall : User → List PermissionCode → Db → Type 0
MayCall user codes s =
    (user.is_super_admin ≡ true)
    ⊎ (user.is_owner ≡ true)
    ⊎ (any (λ code. contains (value code) (get_effective_permission_codes user s)) codes ≡ true)

by_code : (a o c : Bool) → a ≡ false → o ≡ false → not (a || o || c) ≡ false → c ≡ true
by_code a o c p q h = ground arith

may_call :
    (user : User) (codes : List PermissionCode) (s : Db)
    → not (user.is_super_admin || user.is_owner || has_any codes (described user s)) ≡ false
    → MayCall user codes s
may_call user codes s h = elim (Bool-cases user.is_super_admin) [
  | inl admin ↦ inl admin
  | inr plain ↦ elim (Bool-cases user.is_owner) [
    | inl owner ↦ inr (inl owner)
    | inr employee ↦ inr (
        inr (
          subst
            (λ codes_of_sender. any (λ code. contains (value code) codes_of_sender) codes ≡ true)
            (rw (plain, employee) refl) (by_code _ _ _ plain employee h)))
  ]
]

-- A request for which require_any_permission lets the endpoint run changes nothing by that, and has a
-- token that decodes, is an access token and is not revoked, of an active user who has not changed the
-- password since, whose company, if there is one, is there and not suspended, at a time without
-- maintenance unless the user is a super admin or the path is one of administration; the sender is that
-- user, and is a super admin, an owner or has one of the codes in effect.
pub authorize_safe :
    (host : Host) (token : Option String) (on_admin_path : Bool) (codes : List PermissionCode)
    (s : Db) {sender : CurrentUser} {t : Db}
    → authorize host token on_admin_path codes s ≡ ok (sender, t)
    → (s ≡ t)
      × ((known : IsIdentified host token on_admin_path s sender) × MayCall known.user codes s)
unfolding authorize require_any_permission
authorize_safe host token on_admin_path codes s h =
    let (sender, s1, e1, h1) = >>=-eq-ok (get_current_user host token on_admin_path) _ s h in
    let (known, p1) = get_current_user_ok host token on_admin_path s e1 in
    let (allowed, h2) = raise_if_passed _ _ _ s1 h1 in
    let (same, p2) = pure-eq-ok sender s1 h2 in
    (
      p1 ∙ p2,
      subst (λ x. (k : IsIdentified host token on_admin_path s x) × MayCall k.user codes s) same
          (
            known,
            may_call known.user codes s (
                subst
                  (λ (x : CurrentUser).
                    not (x.is_super_admin || x.is_owner || has_any codes x) ≡ false)
                  known.same allowed),
          ),
    )
