-- ===== src/Money.antt =====
-- Decimal amounts of money: `Decimal`, `_CENTS` and `_quantize` of the services.
-- A `Decimal` is a whole number of units of 10^-8, so a cent is 1,000,000 units; a rate of six places
-- and an amount of up to eight places are exact. The product of two decimals is rounded once, as
-- `_quantize(amount * rate)` does, and is never kept unrounded.
pub mod Rounding
use d_transfert_backend.Base.{ℕ, zero, suc, ◌+◌, ◌*◌, ◌/◌, ◌≡◌, Bool, List, [], ◌∷◌}
use d_transfert_backend.Int.{ℤ, pos, negsuc, pos_part, neg_part, ltb_ℤ, leb_ℤ, ◌+ℤ◌, ◌-ℤ◌}

abbrev pub Decimal : Type 0
Decimal = ℤ

abbrev pub unit : ℕ
unit = 100000000

abbrev pub cent : ℕ
cent = 1000000

abbrev pub zero_amount : Decimal
zero_amount = pos 0

abbrev pub negate_ℕ : ℕ → ℤ
negate_ℕ zero = pos 0
negate_ℕ (suc n) = negsuc n

-- The nearest multiple of a cent, half a cent going up.
abbrev pub round_half_up : ℕ → ℕ
round_half_up n = (n + 500000) / 1000000 * 1000000

-- `amount.quantize(Decimal("0.01"), rounding=ROUND_HALF_UP)`: ties go away from zero.
unfoldable pub quantize : Decimal → Decimal
quantize (pos n) = pos (round_half_up n)
quantize (negsuc n) = negate_ℕ (round_half_up (suc n))

-- A product has sixteen places; this is its nearest multiple of a cent, in units.
abbrev pub round_product : ℕ → ℕ
round_product n = (n + 50000000000000) / 100000000000000 * 1000000

-- `_quantize(amount * rate)`.
unfoldable pub quantize_product : Decimal → Decimal → Decimal
quantize_product (pos n) (pos m) = pos (round_product (n * m))
quantize_product (pos n) (negsuc m) = negate_ℕ (round_product (n * suc m))
quantize_product (negsuc n) (pos m) = negate_ℕ (round_product (suc n * m))
quantize_product (negsuc n) (negsuc m) = pos (round_product (suc n * suc m))

abbrev pub is_positive : Decimal → Bool
is_positive a = ltb_ℤ zero_amount a

abbrev pub negated : Decimal → Decimal
negated a = zero_amount -ℤ a

-- Python's `sum(..., Decimal("0.00"))`.
unfoldable pub sum : List Decimal → Decimal
sum [] = zero_amount
sum (a ∷ rest) = a +ℤ sum rest
