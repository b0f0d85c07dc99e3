-- ===== src/Administration/Deletion/Admins.antt =====
-- The deletion of a company deletes no super admin.
use d_transfert_backend.Base.{
  ℕ, ◌≡◌, refl, Bool, true, false, ◌&&◌, Option, none, some, is_some, List, [], ◌∷◌, ◌==◌, id_eq,
  option_eq, arith, Bool-cases, inl, inr, ap, suc,
}
use d_transfert_backend.Models.{User}
use d_transfert_backend.Accounts.{is_active_admin}
use d_transfert_backend.Administration.Deletion.{without}
use d_transfert_backend.Platform.Admins.{admins, AreUnbound, HaveOwnIds, has_user}
use d_transfert_backend.Platform.Supervision.{AreSupervised}

abbrev belongs : ℕ → User → Bool
belongs company_id u = u.company_id == some company_id

no_admin :
    (super active : Bool) (o : Option ℕ) (c : ℕ)
    → (super && is_some o) ≡ false
    → (o == some c) ≡ true
    → (super && active) ≡ false
no_admin super active none c h k = cc
no_admin super active (some d) c h k = ground arith

module _ (company_id : ℕ) where
  admins-without :
      (us : List User) → AreUnbound us → admins (without (belongs company_id) us) ≡ admins us
  admins-without [] h = refl
  admins-without (u ∷ us) (h, hs) = elim (Bool-cases (belongs company_id u)) [
    | inl gone ↦
        rw (gone, no_admin u.is_super_admin u.is_active u.company_id company_id h gone)
          (admins-without us hs)
    | inr stays ↦ rw stays (elim (Bool-cases (is_active_admin u)) [
      | inl admin ↦ rw admin (ap suc (admins-without us hs))
      | inr other ↦ rw other (admins-without us hs)
    ])
  ]

  without-AreUnbound :
      (us : List User) → AreUnbound us → AreUnbound (without (belongs company_id) us)
  without-AreUnbound [] h = tt
  without-AreUnbound (u ∷ us) (h, hs) = elim (Bool-cases (belongs company_id u)) [
    | inl gone ↦ rw gone (without-AreUnbound us hs)
    | inr stays ↦ rw stays (h, without-AreUnbound us hs)
  ]

  without_absent :
      (i : ℕ) (us : List User)
      → has_user i us ≡ false
      → has_user i (without (belongs company_id) us) ≡ false
  without_absent i [] h = refl
  without_absent i (u ∷ us) h = ground (arith, without_absent i us)

  without-HaveOwnIds :
      (us : List User) → HaveOwnIds us → HaveOwnIds (without (belongs company_id) us)
  without-HaveOwnIds [] h = tt
  without-HaveOwnIds (u ∷ us) (h, hs) = elim (Bool-cases (belongs company_id u)) [
    | inl gone ↦ rw gone (without-HaveOwnIds us hs)
    | inr stays ↦ rw stays (without_absent u.id us h, without-HaveOwnIds us hs)
  ]

  pub without-AreSupervised :
      (us : List User) → AreSupervised us → AreSupervised (without (belongs company_id) us)
  without-AreSupervised us h = record {
    unbound = without-AreUnbound us h.unbound;
    own_ids = without-HaveOwnIds us h.own_ids;
    one = rw (admins-without us h.unbound) h.one;
  }
