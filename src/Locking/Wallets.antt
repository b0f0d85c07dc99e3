-- ===== src/Locking/Wallets.antt =====
-- The wallets that lock_wallets locks, and the order in which it does.
use d_transfert_backend.Base.{ℕ, ◌≡◌, sym, ◌∙◌, ap, some, List, [], ◌∷◌, map, subst, id_eq, arith}
use d_transfert_backend.Errors.{ok}
use d_transfert_backend.Models.{Wallet, wallet_keyed}
use d_transfert_backend.Table.{Keyed, find}
use d_transfert_backend.Database.{Db}
use d_transfert_backend.Service.{for_each}
use d_transfert_backend.Service.Keeps.{>>=-eq-ok}
use d_transfert_backend.Service.Inversion.{gets_passed, some-eq-ok, pure-eq-ok}
use d_transfert_backend.Platform.Supervision.{provided-some}
use d_transfert_backend.Locking.{lock_owned, lock_wallets, sorted_distinct}
use d_transfert_backend.Locking.Order.{
  IsAscending, contains, sorted_distinct-IsAscending, contains-sorted_distinct, lock_order_unique,
}

-- Each wallet is that of the database, and belongs to the company.
abbrev pub AllOwned : ℕ → Db → List Wallet → Type 0
AllOwned company_id s [] = Unit
AllOwned company_id s (w ∷ ws) =
    (find w.id s.wallets ≡ some w) × (w.company_id ≡ company_id) × AllOwned company_id s ws

module _ {A : Type 0} ⦃k : Keyed A⦄ where
  pub find-key : (i : ℕ) (xs : List A) (x : A) → find i xs ≡ some x → k.key x ≡ i
  find-key i [] x h = cc
  find-key i (y ∷ ys) x h = ground (arith, find-key i ys x)

module _ (company_id : ℕ) where
  lock_owned-eq-ok :
      (i : ℕ) (s : Db) {w : Wallet} {t : Db}
      → lock_owned company_id i s ≡ ok (w, t)
      → (s ≡ t) × (w.id ≡ i) × (find i s.wallets ≡ some w) × (w.company_id ≡ company_id)
  unfolding lock_owned
  lock_owned-eq-ok i s {w} h =
      let (found, same) = some-eq-ok _ _ _ (gets_passed _ _ s h) in
      let (here, owned) = provided-some _ _ w found in
      (same, find-key i s.wallets w here, here, ground arith)

  locked_all :
      (js : List ℕ) (s : Db) {ws : List Wallet} {t : Db}
      → for_each (lock_owned company_id) js s ≡ ok (ws, t)
      → (s ≡ t) × (map (λ w. w.id) ws ≡ js) × AllOwned company_id s ws
  unfolding for_each
  locked_all [] s h =
      let (none_left, same) = pure-eq-ok _ s h in
      (same, ap (map (λ w. w.id)) (sym none_left), subst (AllOwned company_id s) none_left tt)
  locked_all (i ∷ js) s h =
      let (w, u, first, rest) = >>=-eq-ok (lock_owned company_id i) _ s h in
      let (ws, v, others, last) = >>=-eq-ok (for_each (lock_owned company_id) js) _ u rest in
      let (all, same) = pure-eq-ok _ v last in
      let (still, key, found, owned) = lock_owned-eq-ok i s first in
      let (stiller, keys, owned_all) = locked_all js u others in
      let owned_then : AllOwned company_id s ws =
        subst (λ d. AllOwned company_id d ws) (sym still) owned_all in
      let here : find w.id s.wallets ≡ some w = ap (λ k. find k s.wallets) key ∙ found in
      let ids : map (λ w. w.id) (w ∷ ws) ≡ i ∷ js = cc in
      (
        still ∙ stiller ∙ same,
        ap (map (λ w. w.id)) (sym all) ∙ ids,
        subst (AllOwned company_id s) all (here, owned, owned_then),
      )

  -- If lock_wallets returns, it has read only, and has locked in strictly ascending order of their
  -- ids exactly the wallets that are named, each once; they are wallets of the database and all
  -- belong to the company.
  pub lock_wallets_order :
      (ids : List ℕ) (s : Db) {ws : List Wallet} {t : Db}
      → lock_wallets company_id ids s ≡ ok (ws, t)
      → (s ≡ t)
        × IsAscending (map (λ w. w.id) ws)
        × ((k : ℕ) → contains k (map (λ w. w.id) ws) ≡ contains k ids)
        × AllOwned company_id s ws
  unfolding lock_wallets
  lock_wallets_order ids s h =
      let (same, keys, owned) = locked_all (sorted_distinct ids) s h in
      (
        same,
        subst IsAscending (sym keys) (sorted_distinct-IsAscending ids),
        (λ k. ap (contains k) keys ∙ contains-sorted_distinct k ids),
        owned,
      )

  -- Two operations that name the same wallets, in any order and any number of times, lock them by the
  -- same calls: in the same order, and with the same outcome on every database.
  pub lock_wallets_same :
      (xs ys : List ℕ)
      → ((k : ℕ) → contains k xs ≡ contains k ys)
      → lock_wallets company_id xs ≡ lock_wallets company_id ys
  unfolding lock_wallets
  lock_wallets_same xs ys same =
      ap (for_each (lock_owned company_id)) (lock_order_unique xs ys same)
