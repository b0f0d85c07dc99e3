-- ===== src/Locking/Nets.antt =====
-- What the movements of one wallet add up to, through the calls that the entry and the operation
-- services are built of.
use d_transfert_backend.Base.{
  ℕ, ◌≡◌, refl, subst, ◌∙◌, ap, String, List, [], id_eq, ◌∷◌, nat_eq, if◌then◌else◌,
}
use d_transfert_backend.Int.{◌+ℤ◌, int_laws}
use d_transfert_backend.Money.{Decimal, quantize, zero_amount}
use d_transfert_backend.Errors.{Result, ok, err}
use d_transfert_backend.Models.{MovementDirection, WalletMovement, operation_keyed}
use d_transfert_backend.Database.{Db}
use d_transfert_backend.Service.{Service, fresh_id}
use d_transfert_backend.Service.Keeps.{
  Keeps, Keeps-modify, Keeps-pure, keeps_rules, Keeps-fresh_id, >>=-eq-ok,
}
use d_transfert_backend.Service.Triple.{Triple, Post}
use d_transfert_backend.Audit.{log_action}
use d_transfert_backend.Wallets.{apply_movement}
use d_transfert_backend.Wallets.Effects.{apply_movement_ok, movement_row}
use d_transfert_backend.Wallets.Ledger.{net, signed, net-append}
use d_transfert_backend.Locking.{lock_existing, lock_owned, lock_wallets, check_currency}

-- The movements of a wallet add up to an amount.
abbrev pub Nets : ℕ → Decimal → Db → Type 0
Nets i n s = net i s.wallet_movements ≡ n

module _ (i : ℕ) (n : Decimal) where
  pub moved-Nets :
      (w : ℕ) (d : MovementDirection) (amount : Decimal) (source : String) (source_id by : ℕ)
      → Triple
          (Nets i n)
          (apply_movement w d amount source source_id by)
          (λ m. Nets i (n +ℤ (if nat_eq w i then signed d (quantize amount) else zero_amount)))
  moved-Nets w d amount source source_id by = record {
    at = λ s h. post s h (apply_movement w d amount source source_id by s) refl;
  }
    where
      post :
          (s : Db)
          → Nets i n s
          → (r : Result (WalletMovement × Db)) → apply_movement w d amount source source_id by s ≡ r
          → Post
              (λ m. Nets i (n +ℤ (if nat_eq w i then signed d (quantize amount) else zero_amount)))
              r
      post s h (err e) q = tt
      post s h (ok (m, s')) q =
          let (wallet, balance, found, positive, b, row, new) =
            apply_movement_ok w d amount source source_id by s q in
          let row' = movement_row d wallet w amount balance source source_id by in
          ap (λ (x : Db). net i x.wallet_movements) new
          ∙ net-append i s.wallet_movements m
          ∙ ap (λ x. net i s.wallet_movements +ℤ net i (x ∷ [])) row
          ∙ (rw h (omega int_laws))

  pub log_action-Nets : (c u : ℕ) (a e : String) (j : ℕ) → Keeps (Nets i n) (log_action c u a e j)
  unfolding log_action
  log_action-Nets c u a e j = Keeps-modify _ (λ s h. h)

  pub fresh_id-Nets : Keeps (Nets i n) fresh_id
  fresh_id-Nets = Keeps-fresh_id (λ s h. h)

  pub lock_existing-Nets : (w : ℕ) → Keeps (Nets i n) (lock_existing w)
  unfolding lock_existing
  lock_existing-Nets w = search keeps_rules

  pub lock_owned-Nets : (c w : ℕ) → Keeps (Nets i n) (lock_owned c w)
  unfolding lock_owned
  lock_owned-Nets c w = search keeps_rules

  pub lock_wallets-Nets : (c : ℕ) (ws : List ℕ) → Keeps (Nets i n) (lock_wallets c ws)
  unfolding lock_wallets
  lock_wallets-Nets c ws = search (keeps_rules, lock_owned-Nets)

  pub check_currency-Nets : (w : ℕ) (c : String) → Keeps (Nets i n) (check_currency w c)
  unfolding check_currency
  check_currency-Nets w c = search (keeps_rules, lock_existing-Nets)

pub ruleset nets_rules = (
  keeps_rules, log_action-Nets, fresh_id-Nets, lock_existing-Nets, lock_wallets-Nets,
  check_currency-Nets,
)

pub retarget :
    {A : Type 0} {P : Db → Type 0} (i : ℕ) (m : Service A) (n k : Decimal)
    → n ≡ k
    → Triple P m (λ u. Nets i n)
    → Triple P m (λ u. Nets i k)
retarget {P = P} i m n k e t = subst (λ j. Triple P m (λ u. Nets i j)) e t
