-- ===== src/Platform/Admins.antt =====
-- The super admins among the users: what each write does to their number.
use d_transfert_backend.Base.{
  ℕ, ◌+◌, ◌≤◌, ◌≡◌, refl, subst, nat_eq_iff, Bool, true, false, ◌&&◌, ◌||◌, some, List, [], ◌∷◌,
  ◌++◌, id_eq, nat_eq, any, keep, length, arith, Bool-cases, inl, inr,
}
use d_transfert_backend.Models.{User, user_keyed}
use d_transfert_backend.Table.{find, update_row, delete_row}
use d_transfert_backend.Accounts.{is_active_admin}
use d_transfert_backend.Employees.{with_state}
use d_transfert_backend.Platform.People.{IsHarmless, IsUnbound}

abbrev pub admins : List User → ℕ
admins us = length (keep is_active_admin us)

abbrev pub AreUnbound : List User → Type 0
AreUnbound [] = Unit
AreUnbound (u ∷ us) = IsUnbound u × AreUnbound us

abbrev pub has_user : ℕ → List User → Bool
has_user i us = any (λ u. nat_eq u.id i) us

abbrev pub HaveOwnIds : List User → Type 0
HaveOwnIds [] = Unit
HaveOwnIds (u ∷ us) = (has_user u.id us ≡ false) × HaveOwnIds us

abbrev pub one_if : Bool → ℕ
one_if true = 1
one_if false = 0

has_user-update :
    (i j : ℕ) (f : User → User) (us : List User)
    → ((x : User) → (f x).id ≡ x.id)
    → has_user j (update_row i f us) ≡ has_user j us
has_user-update i j f [] same = refl
has_user-update i j f (u ∷ us) same = ground (arith, same u, has_user-update i j f us same)

pub update-HaveOwnIds :
    (i : ℕ) (f : User → User) (us : List User)
    → ((x : User) → (f x).id ≡ x.id)
    → HaveOwnIds us
    → HaveOwnIds (update_row i f us)
update-HaveOwnIds i f [] same h = tt
update-HaveOwnIds i f (u ∷ us) same (h, hs) =
    (ground (arith, same u, has_user-update i u.id f us same), update-HaveOwnIds i f us same hs)

pub update-AreUnbound :
    (i : ℕ) (f : User → User) (us : List User)
    → ((x : User) → IsUnbound x → IsUnbound (f x))
    → AreUnbound us
    → AreUnbound (update_row i f us)
update-AreUnbound i f [] keeps h = tt
update-AreUnbound i f (u ∷ us) keeps (h, hs) = elim (Bool-cases (nat_eq u.id i)) [
  | inl here ↦ (rw here (keeps u h), update-AreUnbound i f us keeps hs)
  | inr other ↦ (rw other h, update-AreUnbound i f us keeps hs)
]

pub admins-update :
    (i : ℕ) (f : User → User) (us : List User)
    → IsHarmless f
    → admins (update_row i f us) ≡ admins us
admins-update i f [] h = refl
admins-update i f (u ∷ us) h = ground (arith, h.same_rank u, h.same_state u, admins-update i f us h)

pub append-AreUnbound :
    (us : List User) (u : User) → AreUnbound us → IsUnbound u → AreUnbound (us ++ u ∷ [])
append-AreUnbound [] u h k = (k, tt)
append-AreUnbound (x ∷ us) u (h, hs) k = (h, append-AreUnbound us u hs k)

has_user-append :
    (i : ℕ) (us : List User) (u : User)
    → has_user i (us ++ u ∷ []) ≡ (has_user i us || nat_eq u.id i)
has_user-append i [] u = ground arith
has_user-append i (x ∷ us) u = ground (arith, has_user-append i us u)

pub append-HaveOwnIds :
    (us : List User) (u : User)
    → has_user u.id us ≡ false
    → HaveOwnIds us
    → HaveOwnIds (us ++ u ∷ [])
append-HaveOwnIds [] u new h = (refl, tt)
append-HaveOwnIds (x ∷ us) u new (h, hs) =
    (ground (arith, has_user-append x.id us u), append-HaveOwnIds us u (ground arith) hs)

pub admins-append : (us : List User) (u : User) → admins us ≤ admins (us ++ u ∷ [])
admins-append [] u = ground arith
admins-append (x ∷ us) u = ground (arith, admins-append us u)

-- A row that no key finds is not touched.
absent-update :
    (i : ℕ) (f : User → User) (us : List User) → has_user i us ≡ false → update_row i f us ≡ us
absent-update i f [] h = refl
absent-update i f (u ∷ us) h = ground (arith, absent-update i f us)

absent-delete : (i : ℕ) (us : List User) → has_user i us ≡ false → delete_row i us ≡ us
absent-delete i [] h = refl
absent-delete i (u ∷ us) h = ground (arith, absent-delete i us)

own_rest :
    (i : ℕ) (x : User) (us : List User)
    → nat_eq x.id i ≡ true
    → has_user x.id us ≡ false
    → has_user i us ≡ false
own_rest i x us here new = subst (λ j. has_user j us ≡ false) ((nat_eq_iff x.id i).0 here) new

pub admins-with_state :
    (i : ℕ) (a : Bool) (us : List User) (u : User)
    → HaveOwnIds us
    → find i us ≡ some u
    → admins (update_row i (with_state a) us) + one_if (is_active_admin u)
      ≡ admins us + one_if (u.is_super_admin && a)
admins-with_state i a [] u own found = ground arith
admins-with_state i a (x ∷ us) u (new, own) found = elim (Bool-cases (nat_eq x.id i)) [
  | inl here ↦ ground (arith, absent-update i (with_state a) us (own_rest i x us here new))
  | inr other ↦ ground (arith, admins-with_state i a us u own)
]

pub admins-delete :
    (i : ℕ) (us : List User) (u : User)
    → HaveOwnIds us
    → find i us ≡ some u
    → admins (delete_row i us) + one_if (is_active_admin u) ≡ admins us
admins-delete i [] u own found = ground arith
admins-delete i (x ∷ us) u (new, own) found = elim (Bool-cases (nat_eq x.id i)) [
  | inl here ↦ ground (arith, absent-delete i us (own_rest i x us here new))
  | inr other ↦ ground (arith, admins-delete i us u own)
]

pub delete-AreUnbound : (i : ℕ) (us : List User) → AreUnbound us → AreUnbound (delete_row i us)
delete-AreUnbound i [] h = tt
delete-AreUnbound i (u ∷ us) (h, hs) = elim (Bool-cases (nat_eq u.id i)) [
  | inl here ↦ rw here (delete-AreUnbound i us hs)
  | inr other ↦ rw other (h, delete-AreUnbound i us hs)
]

has_user-delete :
    (i j : ℕ) (us : List User) → has_user j us ≡ false → has_user j (delete_row i us) ≡ false
has_user-delete i j [] h = refl
has_user-delete i j (u ∷ us) h = ground (arith, has_user-delete i j us)

pub delete-HaveOwnIds : (i : ℕ) (us : List User) → HaveOwnIds us → HaveOwnIds (delete_row i us)
delete-HaveOwnIds i [] h = tt
delete-HaveOwnIds i (u ∷ us) (h, hs) = elim (Bool-cases (nat_eq u.id i)) [
  | inl here ↦ rw here (delete-HaveOwnIds i us hs)
  | inr other ↦ rw other (has_user-delete i u.id us h, delete-HaveOwnIds i us hs)
]

pub find-IsUnbound :
    (i : ℕ) (us : List User) (u : User) → AreUnbound us → find i us ≡ some u → IsUnbound u
find-IsUnbound i [] u h found = ground arith
find-IsUnbound i (x ∷ us) u (h, hs) found = elim (Bool-cases (nat_eq x.id i)) [
  | inl here ↦ ground arith
  | inr other ↦ find-IsUnbound i us u hs (ground arith)
]

pub found_id : (i : ℕ) (us : List User) (u : User) → find i us ≡ some u → u.id ≡ i
found_id i [] u found = ground arith
found_id i (x ∷ us) u found = elim (Bool-cases (nat_eq x.id i)) [
  | inl here ↦ ground arith
  | inr other ↦ found_id i us u (ground arith)
]
