-- ===== src/Entries/Remaining.antt =====
-- What is left of an entry in a currency, and that a merge carries exactly that over.
use d_transfert_backend.Base.{
  ◌≡◌, refl, String, List, [], ◌∷◌, arith, ◌==◌, string_eq, id_eq, text_eq_iff, Bool-cases, inl,
  inr, if◌then◌else◌,
}
use d_transfert_backend.Int.{◌+ℤ◌, ◌-ℤ◌, int_laws}
use d_transfert_backend.Money.{Decimal, quantize, zero_amount, negated}
use d_transfert_backend.Models.{EntryLine, EntryAllocation}
use d_transfert_backend.Entries.Available.{
  Totals, add_to, total_of, add_lines, subtract_allocations, available_by_currency,
}

-- The amount of a line, if it is in the currency.
abbrev pub in_currency : String → String → Decimal → Decimal
in_currency c currency amount = if currency == c then amount else zero_amount

-- The rounded sum of the lines in a currency.
abbrev pub line_total : String → List EntryLine → Decimal
line_total c [] = zero_amount
line_total c (l ∷ ls) = in_currency c l.currency (quantize l.amount) +ℤ line_total c ls

abbrev pub allocated : String → List EntryAllocation → Decimal
allocated c [] = zero_amount
allocated c (a ∷ rest) = in_currency c a.currency (quantize a.amount_allocated) +ℤ allocated c rest

total_of-add_to :
    (c k : String) (x : Decimal) (t : Totals)
    → total_of c (add_to k x t) ≡ total_of c t +ℤ in_currency c k x
total_of-add_to c k x [] = elim (Bool-cases (k == c)) [
  | inl same ↦ rw same refl
  | inr other ↦ rw other (omega int_laws)
]
total_of-add_to c k x ((j, y) ∷ t) = elim (Bool-cases (k == c)) [
  | inl same ↦ elim (Bool-cases (j == k)) [
    | inl first ↦ ground (arith, text_eq_iff k c, text_eq_iff j k, text_eq_iff j c)
    | inr later ↦
        ground (arith, text_eq_iff k c, text_eq_iff j k, text_eq_iff j c, total_of-add_to c k x t)
  ]
  | inr other ↦
      let ih = total_of-add_to c k x t in
      let zero_right : (a : Decimal) → a +ℤ zero_amount ≡ a = λ a. omega int_laws in
      ground (
        arith,
        text_eq_iff k c,
        text_eq_iff j k,
        text_eq_iff j c,
        ih,
        zero_right y,
        zero_right (total_of c t),
      )
]

total_of-add_lines :
    (c : String) (ls : List EntryLine) (t : Totals)
    → total_of c (add_lines ls t) ≡ total_of c t +ℤ line_total c ls
total_of-add_lines c [] t = omega int_laws
total_of-add_lines c (l ∷ ls) t =
    rw
      (
        total_of-add_lines c ls (add_to l.currency (quantize l.amount) t),
        total_of-add_to c l.currency (quantize l.amount) t,
      )
      (omega int_laws)

in_currency-negated :
    (c k : String) (x : Decimal) → in_currency c k (negated x) ≡ negated (in_currency c k x)
in_currency-negated c k x = elim (Bool-cases (k == c)) [
  | inl same ↦ rw same refl
  | inr other ↦ rw other (omega int_laws)
]

total_of-subtract_allocations :
    (c : String) (as' : List EntryAllocation) (t : Totals)
    → total_of c (subtract_allocations as' t) ≡ total_of c t -ℤ allocated c as'
total_of-subtract_allocations c [] t = omega int_laws
total_of-subtract_allocations c (a ∷ as') t =
    rw
      (
        total_of-subtract_allocations c as'
            (add_to a.currency (negated (quantize a.amount_allocated)) t),
        total_of-add_to c a.currency (negated (quantize a.amount_allocated)) t,
        in_currency-negated c a.currency (quantize a.amount_allocated),
      )
      (omega int_laws)

-- What `available_by_currency` reports for a currency is the sum of the lines in it less the sum of
-- the allocations in it, whatever the order of either.
pub available_lem :
    (c : String) (lines : List EntryLine) (allocations : List EntryAllocation)
    → total_of c (available_by_currency lines allocations)
      ≡ line_total c lines -ℤ allocated c allocations
unfolding available_by_currency
available_lem c lines allocations =
    rw
      (
        total_of-subtract_allocations c allocations (add_lines lines []),
        total_of-add_lines c lines [],
      )
      (omega int_laws)
