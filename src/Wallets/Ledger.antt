-- ===== src/Wallets/Ledger.antt =====
-- The invariant of the cash ledger: every wallet's balance is what its movements add up to.
use d_transfert_backend.Base.{
  ℕ, ◌≤◌, ◌≡◌, ◌≢◌, refl, sym, subst, String, true, false, ℕ_discrete, none, some, List, [], ◌∷◌,
  ◌++◌, arith, id_eq, nat_eq, if◌then◌else◌,
}
use d_transfert_backend.Int.{pos, ◌+ℤ◌, ◌-ℤ◌, ◌≤ℤ◌, int_laws}
use d_transfert_backend.Money.{Decimal, quantize, zero_amount}
use d_transfert_backend.Money.Rounding.{
  IsCents, IsCents-add, IsCents-sub, quantize-IsCents, quantize-eq_self, quantize_nonneg,
}
use d_transfert_backend.Errors.{Result, ok, err}
use d_transfert_backend.Models.{Wallet, WalletMovement, MovementDirection, wallet_keyed}
use d_transfert_backend.Table.{find, update_row}
use d_transfert_backend.Table.Laws.{find-update_row_self, find-update_row_ne}
use d_transfert_backend.Database.{Db}
use d_transfert_backend.Service.Keeps.{Keeps, Kept}
use d_transfert_backend.Wallets.{moved_balance, apply_movement}
use d_transfert_backend.Wallets.Effects.{moved, apply_movement_ok, movement_row}

-- The signed amount of a movement.
abbrev pub signed : MovementDirection → Decimal → Decimal
signed MovementDirection.into amount = amount
signed MovementDirection.out amount = zero_amount -ℤ amount

-- What the movements of a wallet add up to.
abbrev pub net : ℕ → List WalletMovement → Decimal
net i [] = zero_amount
net i (m ∷ ms) =
    (if nat_eq m.wallet_id i then signed m.direction m.amount else zero_amount) +ℤ net i ms

pub net-append :
    (i : ℕ) (ms : List WalletMovement) (m : WalletMovement)
    → net i (ms ++ m ∷ []) ≡ net i ms +ℤ net i (m ∷ [])
net-append i [] m = omega int_laws
net-append i (x ∷ ms) m = rw (net-append i ms m) (omega int_laws)

-- A balance is never negative, is a whole number of cents, and is the sum of the wallet's movements.
pub record IsBacked (ms : List WalletMovement) (i : ℕ) (w : Wallet) : Type 0 where
  pub nonneg : pos 0 ≤ℤ w.balance
  pub cents : IsCents w.balance
  pub backed : w.balance ≡ net i ms

-- The ledger of a database: every wallet is backed by its movements, no movement is of a wallet
-- that is not there, and no wallet has an id that is still to be given out.
pub record IsLedger (next_id : ℕ) (ws : List Wallet) (ms : List WalletMovement) : Type 0 where
  pub backing : (i : ℕ) (w : Wallet) → find i ws ≡ some w → IsBacked ms i w
  pub orphans : (i : ℕ) → find i ws ≡ none → net i ms ≡ zero_amount
  pub fresh : (i : ℕ) → next_id ≤ i → find i ws ≡ none

abbrev pub IsSound : Db → Type 0
IsSound s = IsLedger s.next_id s.wallets s.wallet_movements

-- If the amount is not negative and the old balance is non-negative and in whole cents, the new balance
-- of a movement that is accepted is non-negative and in whole cents, and differs from the old by the
-- rounded signed amount.
pub moved_balance_ok :
    (d : MovementDirection) (w : Wallet) (amount balance : Decimal)
    → moved_balance d w amount ≡ ok balance
    → pos 0 ≤ℤ amount
    → pos 0 ≤ℤ w.balance
    → IsCents w.balance
    → (pos 0 ≤ℤ balance) × IsCents balance × (balance ≡ w.balance +ℤ signed d (quantize amount))
unfolding moved_balance
moved_balance_ok MovementDirection.into w amount balance h a n c =
    let whole =
      quantize-eq_self (w.balance +ℤ quantize amount)
        (IsCents-add w.balance (quantize amount) c (quantize-IsCents amount)) in
    let sum_cents = IsCents-add w.balance (quantize amount) c (quantize-IsCents amount) in
    let e : balance ≡ w.balance +ℤ quantize amount = ground (arith, whole) in
    (rw e (omega (int_laws, quantize_nonneg amount a)), rw e sum_cents, e)
moved_balance_ok MovementDirection.out w amount balance h a n c =
    let difference = IsCents-sub w.balance (quantize amount) c (quantize-IsCents amount) in
    let whole = quantize-eq_self (w.balance -ℤ quantize amount) difference in
    let e : balance ≡ w.balance -ℤ quantize amount = ground (arith, whole) in
    let enough : quantize amount ≤ℤ w.balance = ground arith in
    (rw e (omega (int_laws, enough)), rw e difference, rw e (omega int_laws))

net-append_ne :
    (i : ℕ) (ms : List WalletMovement) (m : WalletMovement)
    → m.wallet_id ≢ i
    → net i (ms ++ m ∷ []) ≡ net i ms
net-append_ne i ms m ne =
    let other : nat_eq m.wallet_id i ≡ false = ground arith in
    rw (net-append i ms m, other) (omega int_laws)

net-append_self :
    (ms : List WalletMovement) (m : WalletMovement)
    → net m.wallet_id (ms ++ m ∷ []) ≡ net m.wallet_id ms +ℤ signed m.direction m.amount
net-append_self ms m =
    let same : nat_eq m.wallet_id m.wallet_id ≡ true = ground arith in
    rw (net-append m.wallet_id ms m, same) (omega int_laws)

abbrev with_balance : Decimal → Wallet → Wallet
with_balance balance w = record w { balance = balance }

-- A write of a balance with the movement that explains it keeps the ledger sound.
module _ (balance : Decimal) (m : WalletMovement) (s : Db) (w : Wallet) where
  pub moved-IsSound :
      IsSound s
      → find m.wallet_id s.wallets ≡ some w
      → pos 0 ≤ℤ balance
      → IsCents balance
      → balance ≡ w.balance +ℤ signed m.direction m.amount
      → IsSound (moved m.wallet_id balance m s)
  moved-IsSound sound found n c e = record {
    backing = λ i v h. elim (ℕ_discrete m.wallet_id i) [
      | yes same ↦
          let self =
            find-update_row_self m.wallet_id (with_balance balance) s.wallets (λ x. refl) in
          let old = (sound.backing m.wallet_id w found).backed in
          let v_eq : with_balance balance w ≡ v = ground arith in
          subst (λ j. IsBacked (s.wallet_movements ++ m ∷ []) j v) same
            (subst (λ x. IsBacked (s.wallet_movements ++ m ∷ []) m.wallet_id x) v_eq
              (record {
                nonneg = n;
                cents = c;
                backed = rw (net-append_self s.wallet_movements m, ← old) e;
              }))
      | no other ↦
          let here =
            find-update_row_ne m.wallet_id i (with_balance balance) s.wallets (λ x. refl) other in
          let b = sound.backing i v (rw here at h) in
          record {
            nonneg = b.nonneg;
            cents = b.cents;
            backed = rw (net-append_ne i s.wallet_movements m other) b.backed;
          }
    ];
    orphans = λ i h. elim (ℕ_discrete m.wallet_id i) [
      | yes same ↦
          let self =
            find-update_row_self m.wallet_id (with_balance balance) s.wallets (λ x. refl) in
          let gone =
            subst (λ j. find j (update_row m.wallet_id (with_balance balance) s.wallets) ≡ none)
              (sym same) h in
          ground arith
      | no other ↦
          let here =
            find-update_row_ne m.wallet_id i (with_balance balance) s.wallets (λ x. refl) other in
          rw (net-append_ne i s.wallet_movements m other) (sound.orphans i (rw here at h))
    ];
    fresh = λ i h. elim (ℕ_discrete m.wallet_id i) [
      | yes same ↦ ground (arith, sound.fresh i h)
      | no other ↦
          rw (find-update_row_ne m.wallet_id i (with_balance balance) s.wallets (λ x. refl) other)
            (sound.fresh i h)
    ];
  }

module _ (wallet_id : ℕ) (d : MovementDirection) (amount : Decimal) (source : String)
    (source_id by : ℕ) where
  -- Every movement, whether it returns or raises, keeps the cash ledger sound.
  pub apply_movement-IsSound : Keeps IsSound (apply_movement wallet_id d amount source source_id by)
  apply_movement-IsSound = record {
    at = λ s sound. kept s sound (apply_movement wallet_id d amount source source_id by s) refl;
  }
    where
      kept :
          (s : Db)
          → IsSound s
          → (r : Result (WalletMovement × Db))
          → apply_movement wallet_id d amount source source_id by s ≡ r
          → Kept IsSound r
      kept s sound (err e) h = tt
      kept s sound (ok (m, s')) h =
          let (w, balance, found, positive, b, row, new) =
            apply_movement_ok wallet_id d amount source source_id by s h in
          let old = sound.backing wallet_id w found in
          let (n, c, e) =
            moved_balance_ok d w amount balance b (omega arith) old.nonneg old.cents in
          let row' = movement_row d w wallet_id amount balance source source_id by in
          subst IsSound (sym new) (
            subst (λ x. IsSound (moved wallet_id balance x s)) (sym row)
              (moved-IsSound balance row' s w sound found n c e))
