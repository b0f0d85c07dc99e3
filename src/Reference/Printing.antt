-- ===== src/Reference/Printing.antt =====
-- Printing a sequence number and reading it back; references of one day differ in their number.
use d_transfert_backend.Base.{
  ℕ, zero, suc, ◌+◌, ◌-◌, ◌*◌, ◌/◌, ◌≤◌, ◌≡◌, refl, ap, ◌∙◌, sym, [], ◌∷◌, ◌++◌, Text, arith, ltb,
  length, Bool-cases, inl, inr,
}
use d_transfert_backend.Reference.{
  Date, digit, decimal_from, decimal, zeros, pad4, daily_sequence_prefix, format_daily_reference,
}

-- The number that a list of decimal digits stands for.
abbrev pub read_from : ℕ → Text → ℕ
read_from acc [] = acc
read_from acc (c ∷ cs) = read_from (acc * 10 + (c - b'0')) cs

abbrev pub read_decimal : Text → ℕ
read_decimal = read_from 0

read_from-append : (acc : ℕ) (s t : Text) → read_from acc (s ++ t) ≡ read_from (read_from acc s) t
read_from-append acc [] t = refl
read_from-append acc (c ∷ s) t = read_from-append (acc * 10 + (c - b'0')) s t

read-decimal_from : (fuel n : ℕ) → n ≤ fuel → read_decimal (decimal_from fuel n) ≡ n
unfolding decimal_from
read-decimal_from zero n h = omega arith
read-decimal_from (suc fuel) n h = elim (Bool-cases (ltb n 10)) [
  | inl small ↦ rw small (ground arith)
  | inr large ↦
      let e = read-decimal_from fuel (n / 10) (ground arith) in
      rw (large, read_from-append 0 (decimal_from fuel (n / 10)) (digit n ∷ []), e) (omega arith)
]

read-zeros : (k : ℕ) (t : Text) → read_decimal (zeros k ++ t) ≡ read_decimal t
unfolding zeros
read-zeros zero t = refl
read-zeros (suc k) t = read-zeros k t

-- A sequence number printed with its zeros reads back as itself, whatever its size.
pub read-pad4 : (n : ℕ) → read_decimal (pad4 n) ≡ n
unfolding pad4 decimal
read-pad4 n =
    read-zeros (4 - length (decimal_from n n)) (decimal_from n n)
    ∙ read-decimal_from n n (omega arith)

append_cancel : (s t u : Text) → s ++ t ≡ s ++ u → t ≡ u
append_cancel [] t u h = h
append_cancel (c ∷ s) t u h = append_cancel s t u (cc)

-- Two references with one prefix and one date are equal only when their sequence numbers are.
pub format_daily_reference_injective :
    (prefix : Text) (on_date : Date) (a b : ℕ)
    → format_daily_reference prefix on_date a ≡ format_daily_reference prefix on_date b
    → a ≡ b
unfolding format_daily_reference
format_daily_reference_injective prefix on_date a b h =
    let e : pad4 a ≡ pad4 b =
      append_cancel (daily_sequence_prefix prefix on_date) (pad4 a) (pad4 b) h in
    sym (read-pad4 a) ∙ ap read_decimal e ∙ read-pad4 b
