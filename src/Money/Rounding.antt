-- ===== src/Money/Rounding.antt =====
-- What rounding to cents does: it gives whole cents, leaves whole cents, and keeps the order.
use d_transfert_backend.Base.{◌%◌, ◌≡◌, arith}
use d_transfert_backend.Int.{pos, negsuc, pos_part, neg_part, ◌+ℤ◌, ◌-ℤ◌, ◌≤ℤ◌}
use d_transfert_backend.Money.{Decimal, quantize, quantize_product}

-- A whole number of cents, which is what a Numeric(18, 2) column holds.
abbrev pub IsCents : Decimal → Type 0
IsCents a = (pos_part a % 1000000 ≡ 0) × (neg_part a % 1000000 ≡ 0)

pub IsCents-add : (a b : Decimal) → IsCents a → IsCents b → IsCents (a +ℤ b)
unfolding ◌+ℤ◌
IsCents-add a b h k = ground arith

pub IsCents-sub : (a b : Decimal) → IsCents a → IsCents b → IsCents (a -ℤ b)
unfolding ◌-ℤ◌
IsCents-sub a b h k = ground arith

-- Quantizing yields a whole number of cents.
pub quantize-IsCents : (a : Decimal) → IsCents (quantize a)
unfolding quantize
quantize-IsCents (pos n) = ground arith
quantize-IsCents (negsuc n) = ground arith

-- Quantizing leaves a whole number of cents as it is.
pub quantize-eq_self : (a : Decimal) → IsCents a → quantize a ≡ a
unfolding quantize
quantize-eq_self (pos n) h = ground arith
quantize-eq_self (negsuc n) h = ground arith

pub quantize_nonneg : (a : Decimal) → pos 0 ≤ℤ a → pos 0 ≤ℤ quantize a
unfolding quantize
quantize_nonneg (pos n) h = ground arith
quantize_nonneg (negsuc n) h = ground arith

-- Quantizing keeps the order of amounts.
pub quantize_mono : (a b : Decimal) → a ≤ℤ b → quantize a ≤ℤ quantize b
unfolding quantize
quantize_mono (pos n) (pos m) h = ground arith
quantize_mono (pos n) (negsuc m) h = ground arith
quantize_mono (negsuc n) (pos m) h = ground arith
quantize_mono (negsuc n) (negsuc m) h = ground arith

pub quantize_product-IsCents : (a b : Decimal) → IsCents (quantize_product a b)
unfolding quantize_product
quantize_product-IsCents (pos n) (pos m) = ground arith
quantize_product-IsCents (pos n) (negsuc m) = ground arith
quantize_product-IsCents (negsuc n) (pos m) = ground arith
quantize_product-IsCents (negsuc n) (negsuc m) = ground arith
