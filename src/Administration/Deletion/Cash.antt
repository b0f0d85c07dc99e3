-- ===== src/Administration/Deletion/Cash.antt =====
-- The deletion of a company leaves the cash ledger and the client journal of the others in order.
use d_transfert_backend.Administration.Deletion.Owners.{AllOwned, AllOwned-without}
use d_transfert_backend.Administration.Deletion.Admins.{without-AreSupervised}
use d_transfert_backend.Platform.Supervision.{IsSupervised}
use d_transfert_backend.Service.{committed}
use d_transfert_backend.Base.{
  ℕ, ◌≡◌, refl, sym, ◌∙◌, Bool, true, false, not, none, List, [], ◌∷◌, id_eq, nat_eq, keep, arith,
  Bool-cases, inl, inr,
}
use d_transfert_backend.Int.{int_laws}
use d_transfert_backend.Money.{zero_amount}
use d_transfert_backend.Errors.{Error}
use d_transfert_backend.Models.{
  Wallet, WalletMovement, wallet_keyed, Client, ClientBalanceMovement, client_keyed,
}
use d_transfert_backend.Table.{Keyed, find}
use d_transfert_backend.Database.{Db}
use d_transfert_backend.Service.Keeps.{
  Keeps-modify, Keeps-bind, Keeps-gets, Keeps-or_raise, Keeps-committed,
}
use d_transfert_backend.Wallets.Ledger.{IsSound, IsLedger, net}
use d_transfert_backend.Clients.Ledger.{IsBooked, IsJournal, owed, WholeCents}
use d_transfert_backend.Administration.Deletion.{without, has_id, without_company, delete_company}

module _ {A : Type 0} ⦃k : Keyed A⦄ where
  -- A primary key: no two rows share it.
  abbrev pub AreUnique : List A → Type 0
  AreUnique [] = Unit
  AreUnique (x ∷ xs) = (has_id k.key xs (k.key x) ≡ false) × AreUnique xs

  module _ (p : A → Bool) (i : ℕ) where
    kept_absent : (xs : List A) → has_id k.key xs i ≡ false → has_id k.key (keep p xs) i ≡ false
    kept_absent [] h = refl
    kept_absent (x ∷ xs) h = ground (arith, kept_absent xs)

    without_absent : (xs : List A) → has_id k.key xs i ≡ false → find i (without p xs) ≡ none
    without_absent [] h = refl
    without_absent (x ∷ xs) h = ground (arith, without_absent xs)

    find-without_other :
        (xs : List A) → has_id k.key (keep p xs) i ≡ false → find i (without p xs) ≡ find i xs
    find-without_other [] h = refl
    find-without_other (x ∷ xs) h = ground (arith, find-without_other xs)

    find-without_own :
        (xs : List A)
        → AreUnique xs
        → has_id k.key (keep p xs) i ≡ true
        → find i (without p xs) ≡ none
    find-without_own [] u h = cc
    find-without_own (x ∷ xs) (alone, u) h =
        ground (arith, find-without_own xs u, kept_absent xs, without_absent xs)

unique-without :
    {A : Type 0} ⦃k : Keyed A⦄ (p : A → Bool) (xs : List A)
    → AreUnique xs
    → AreUnique (without p xs)
unique-without p [] u = tt
unique-without ⦃k⦄ p (x ∷ xs) (alone, u) = elim (Bool-cases (p x)) [
  | inl gone ↦ rw gone (unique-without p xs u)
  | inr stays ↦ rw stays (kept_absent (λ y. not (p y)) (k.key x) xs alone, unique-without p xs u)
]

apart : (gone : ℕ → Bool) (i j : ℕ) (b : Bool) → gone i ≡ b → gone j ≡ not b → nat_eq j i ≡ false
apart gone i j b h g = elim (Bool-cases (nat_eq j i)) [
  | inl same ↦ let e : j ≡ i = ground arith in ground arith
  | inr other ↦ other
]

-- What is deleted with the owners that are gone takes nothing from the others, and all from them.
module _ (gone : ℕ → Bool) (i : ℕ) where
  net-without_other :
      (ms : List WalletMovement)
      → gone i ≡ false
      → net i (without (λ m. gone m.wallet_id) ms) ≡ net i ms
  net-without_other [] h = refl
  net-without_other (m ∷ ms) h = elim (Bool-cases (gone m.wallet_id)) [
    | inl g ↦ rw (g, apart gone i m.wallet_id false h g, net-without_other ms h) (omega int_laws)
    | inr g ↦ rw (g, net-without_other ms h) refl
  ]

  net-without_own :
      (ms : List WalletMovement)
      → gone i ≡ true
      → net i (without (λ m. gone m.wallet_id) ms) ≡ zero_amount
  net-without_own [] h = refl
  net-without_own (m ∷ ms) h = elim (Bool-cases (gone m.wallet_id)) [
    | inl g ↦ rw g (net-without_own ms h)
    | inr g ↦ rw (g, apart gone i m.wallet_id true h g, net-without_own ms h) (omega int_laws)
  ]

  owed-without_other :
      (ms : List ClientBalanceMovement)
      → gone i ≡ false
      → owed i (without (λ m. gone m.client_id) ms) ≡ owed i ms
  owed-without_other [] h = refl
  owed-without_other (m ∷ ms) h = elim (Bool-cases (gone m.client_id)) [
    | inl g ↦ rw (g, apart gone i m.client_id false h g, owed-without_other ms h) (omega int_laws)
    | inr g ↦ rw (g, owed-without_other ms h) refl
  ]

  owed-without_own :
      (ms : List ClientBalanceMovement)
      → gone i ≡ true
      → owed i (without (λ m. gone m.client_id) ms) ≡ zero_amount
  owed-without_own [] h = refl
  owed-without_own (m ∷ ms) h = elim (Bool-cases (gone m.client_id)) [
    | inl g ↦ rw g (owed-without_own ms h)
    | inr g ↦ rw (g, apart gone i m.client_id true h g, owed-without_own ms h) (omega int_laws)
  ]

WholeCents-without :
    (q : ClientBalanceMovement → Bool) (ms : List ClientBalanceMovement)
    → WholeCents ms
    → WholeCents (without q ms)
WholeCents-without q [] h = tt
WholeCents-without q (m ∷ ms) (c, h) = elim (Bool-cases (q m)) [
  | inl gone ↦ rw gone (WholeCents-without q ms h)
  | inr stays ↦ rw stays (c, WholeCents-without q ms h)
]

without-IsLedger :
    (p : Wallet → Bool) (n : ℕ) (ws : List Wallet) (ms : List WalletMovement)
    → AreUnique ws
    → IsLedger n ws ms
    → IsLedger n (without p ws) (without (λ m. has_id (λ w. w.id) (keep p ws) m.wallet_id) ms)
without-IsLedger p n ws ms unique h = record {
  backing = λ i w found. elim (Bool-cases (gone i)) [
    | inl own ↦ let none_left = find-without_own p i ws unique own in cc
    | inr other ↦
        let b = h.backing i w (sym (find-without_other p i ws other) ∙ found) in
        record {
          nonneg = b.nonneg;
          cents = b.cents;
          backed = b.backed ∙ sym (net-without_other gone i ms other);
        }
  ];
  orphans = λ i missing. elim (Bool-cases (gone i)) [
    | inl own ↦ net-without_own gone i ms own
    | inr other ↦
        net-without_other gone i ms other
        ∙ h.orphans i (sym (find-without_other p i ws other) ∙ missing)
  ];
  fresh = λ i le. elim (Bool-cases (gone i)) [
    | inl own ↦ find-without_own p i ws unique own
    | inr other ↦ find-without_other p i ws other ∙ h.fresh i le
  ];
}
  where
    gone : ℕ → Bool
    gone i = has_id (λ w. w.id) (keep p ws) i

without-IsJournal :
    (p : Client → Bool) (n : ℕ) (cs : List Client) (ms : List ClientBalanceMovement)
    → AreUnique cs
    → IsJournal n cs ms
    → IsJournal n (without p cs) (without (λ m. has_id (λ c. c.id) (keep p cs) m.client_id) ms)
without-IsJournal p n cs ms unique h = record {
  booked = λ i c found. elim (Bool-cases (gone i)) [
    | inl own ↦ let none_left = find-without_own p i cs unique own in cc
    | inr other ↦
        let (whole, sum) = h.booked i c (sym (find-without_other p i cs other) ∙ found) in
        (whole, sum ∙ sym (owed-without_other gone i ms other))
  ];
  orphans = λ i missing. elim (Bool-cases (gone i)) [
    | inl own ↦ owed-without_own gone i ms own
    | inr other ↦
        owed-without_other gone i ms other
        ∙ h.orphans i (sym (find-without_other p i cs other) ∙ missing)
  ];
  fresh = λ i le. elim (Bool-cases (gone i)) [
    | inl own ↦ find-without_own p i cs unique own
    | inr other ↦ find-without_other p i cs other ∙ h.fresh i le
  ];
  whole = WholeCents-without _ ms h.whole;
}
  where
    gone : ℕ → Bool
    gone i = has_id (λ c. c.id) (keep p cs) i

-- Wallets and clients have ids of their own, each movement has its wallet or client, the balances add
-- up, and there is an active super admin.
pub record IsConsistent (s : Db) : Type 0 where
  pub unique_wallets : AreUnique s.wallets
  pub unique_clients : AreUnique s.clients
  pub held_movements : AllOwned (λ m. m.wallet_id) s.wallets s.wallet_movements
  pub held_client_movements : AllOwned (λ m. m.client_id) s.clients s.client_movements
  pub cash : IsSound s
  pub journal : IsBooked s
  pub admins : IsSupervised s

without_company-IsConsistent :
    (company_id : ℕ) (s : Db) → IsConsistent s → IsConsistent (without_company company_id s)
without_company-IsConsistent company_id s h = record {
  unique_wallets = unique-without _ s.wallets h.unique_wallets;
  unique_clients = unique-without _ s.clients h.unique_clients;
  held_movements =
      AllOwned-without _ (λ m. m.wallet_id) s.wallets s.wallet_movements h.held_movements;
  held_client_movements =
      AllOwned-without _ (λ m. m.client_id) s.clients s.client_movements h.held_client_movements;
  cash = without-IsLedger _ s.next_id s.wallets s.wallet_movements h.unique_wallets h.cash;
  journal = without-IsJournal _ s.next_id s.clients s.client_movements h.unique_clients h.journal;
  admins = without-AreSupervised company_id s.users h.admins;
}

-- The deletion of a company, whether it is found or not, keeps a database consistent: no two wallets and
-- no two clients have one id, every movement is one of a wallet or client that is there (none of a
-- deleted one is left behind), the balances of the wallets and clients add up from the movements, and
-- there is an active super admin.
pub delete_company-IsConsistent :
    (company_id : ℕ) (s : Db)
    → IsConsistent s
    → IsConsistent (committed (delete_company company_id) s)
unfolding delete_company
delete_company-IsConsistent company_id s h =
    Keeps-committed _
      (Keeps-bind _ _ (Keeps-gets _) λ found.
        Keeps-bind _ _ (Keeps-or_raise found Error.not_found)
          λ c. Keeps-modify _ (without_company-IsConsistent company_id))
      s h
