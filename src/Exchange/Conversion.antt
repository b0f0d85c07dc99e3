-- ===== src/Exchange/Conversion.antt =====
-- What `_convert_amount` of the transfers and payments returns.
use d_transfert_backend.Base.{
  ℕ, ◌+◌, ◌*◌, ◌/◌, ◌≤◌, ◌<◌, ◌≡◌, refl, String, arith, ◌==◌, string_eq, if◌then◌else◌, Bool-cases,
  inl, inr,
}
use d_transfert_backend.Int.{pos}
use d_transfert_backend.Money.{unit, cent, quantize, quantize_product}
use d_transfert_backend.Exchange.{convert_amount}

-- The converted amount before it is rounded, in units of 10^-16.
abbrev pub exact_amount : String → String → (amount rate : ℕ) → ℕ
exact_amount from_currency to_currency amount rate =
    if from_currency == to_currency then amount * unit else amount * rate

-- `cents` is the whole number of cents nearest to `exact`, which has sixteen places, and the upper one
-- of two that are equally near.
abbrev pub IsNearest : (exact cents : ℕ) → Type 0
IsNearest exact cents =
    (cents * 100000000000000 ≤ exact + 50000000000000)
    × (exact + 50000000000000 < (cents + 1) * 100000000000000)

nearest : (exact : ℕ) → IsNearest exact ((exact + 50000000000000) / 100000000000000)
nearest exact = (omega arith, omega arith)

same_currency : (n : ℕ) → IsNearest (n * unit) ((n + 500000) / 1000000)
same_currency n = (omega arith, omega arith)

-- The conversion of an amount that is not negative by a rate that is not is the nearest whole number
-- of cents to the amount times the rate, or to the amount itself if the two currencies are the same;
-- half a cent goes up.
pub convert_amount-IsNearest :
    (from_currency to_currency : String) (amount rate : ℕ)
    → (cents : ℕ) × (convert_amount (pos amount) from_currency to_currency (pos rate)
        ≡ pos (cents * cent))
      × IsNearest (exact_amount from_currency to_currency amount rate) cents
unfolding quantize quantize_product convert_amount
convert_amount-IsNearest f t n m = elim (Bool-cases (f == t)) [
  | inl same ↦ rw same ((n + 500000) / 1000000, refl, same_currency n)
  | inr other ↦ rw other ((n * m + 50000000000000) / 100000000000000, refl, nearest (n * m))
]
