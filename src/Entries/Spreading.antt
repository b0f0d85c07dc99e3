-- ===== src/Entries/Spreading.antt =====
-- Spreading what is left of an entry over its lines.
use d_transfert_backend.Base.{
  ◌≡◌, refl, ap, ◌∙◌, String, List, [], ◌∷◌, arith, ◌==◌, string_eq, id_eq, text_eq_iff, Bool-cases,
  inl, inr, if◌then◌else◌,
}
use d_transfert_backend.Int.{pos, ◌+ℤ◌, ◌-ℤ◌, ◌≤ℤ◌, ltb_ℤ, int_laws}
use d_transfert_backend.Money.{Decimal, quantize, zero_amount, is_positive}
use d_transfert_backend.Models.{EntryLine}
use d_transfert_backend.Entries.{Totals, total_of, RemainingLine, set_total, take_of, distribute}
use d_transfert_backend.Entries.Remaining.{in_currency, line_total}

total_of-set_total :
    (c k : String) (x : Decimal) (t : Totals)
    → total_of c (set_total k x t) ≡ (if k == c then x else total_of c t)
total_of-set_total c k x [] = refl
total_of-set_total c k x ((j, y) ∷ t) =
    ground (arith, text_eq_iff k c, text_eq_iff j k, text_eq_iff j c, total_of-set_total c k x t)

-- The sum of remaining lines in a currency.
abbrev pub remaining_total : String → List RemainingLine → Decimal
remaining_total c [] = zero_amount
remaining_total c (l ∷ ls) = in_currency c l.currency l.amount +ℤ remaining_total c ls

abbrev pub AllNonneg : List EntryLine → Type 0
AllNonneg [] = Unit
AllNonneg (l ∷ ls) = (pos 0 ≤ℤ quantize l.amount) × AllNonneg ls

line_total_nonneg : (c : String) (ls : List EntryLine) → AllNonneg ls → pos 0 ≤ℤ line_total c ls
line_total_nonneg c [] h = omega arith
line_total_nonneg c (l ∷ ls) h = elim (Bool-cases (l.currency == c)) [
  | inl same ↦ rw same (omega (int_laws, h.0, line_total_nonneg c ls h.1))
  | inr other ↦ rw other (omega (int_laws, line_total_nonneg c ls h.1))
]

-- The three bounds of what a line takes.
take_of_bounds :
    (amount remaining : Decimal)
    → pos 0 ≤ℤ quantize amount
    → pos 0 ≤ℤ remaining
    → (pos 0 ≤ℤ take_of amount remaining)
      × (take_of amount remaining ≤ℤ remaining)
      × (take_of amount remaining ≤ℤ quantize amount)
take_of_bounds amount remaining h k = ground arith

-- A line takes all that is left, or all of its own amount.
take_of_full :
    (amount remaining rest : Decimal)
    → pos 0 ≤ℤ quantize amount
    → pos 0 ≤ℤ remaining
    → pos 0 ≤ℤ rest
    → remaining ≤ℤ quantize amount +ℤ rest
    → remaining -ℤ take_of amount remaining ≤ℤ rest
take_of_full amount remaining rest h k r bound =
    elim (Bool-cases (ltb_ℤ remaining (quantize amount))) [
      | inl less ↦
          let e : take_of amount remaining ≡ remaining = ground arith in rw e (omega (int_laws, r))
      | inr more ↦
          let e : take_of amount remaining ≡ quantize amount = ground arith in
          rw e (omega (int_laws, bound))
    ]

leave_nothing : (r take rest : Decimal) → take ≡ zero_amount → r -ℤ take ≤ℤ rest → r ≤ℤ rest
leave_nothing r take rest nil h = let h' : r -ℤ zero_amount ≤ℤ rest = rw (← nil) h in omega int_laws

bound_of_rest : (r rest : Decimal) → r ≤ℤ zero_amount +ℤ rest → r ≤ℤ rest
bound_of_rest r rest h = omega int_laws

-- If no line is negative and what is left of a currency is between nothing and the sum of the lines in
-- that currency, spreading it over the lines gives out all of it.
pub distribute_total :
    (c : String) (ls : List EntryLine) (t : Totals)
    → AllNonneg ls
    → pos 0 ≤ℤ total_of c t
    → total_of c t ≤ℤ line_total c ls
    → remaining_total c (distribute ls t) ≡ total_of c t
unfolding distribute
distribute_total c [] t h n b = omega int_laws
distribute_total c (l ∷ ls) t h n b =
    let r = total_of l.currency t in
    let take = take_of l.amount r in
    let t' = set_total l.currency (r -ℤ take) t in
    let after = total_of-set_total c l.currency (r -ℤ take) t in
    elim (Bool-cases (l.currency == c)) [
      | inl same ↦
          let e : l.currency ≡ c = (text_eq_iff l.currency c).0 same in
          let r_eq : r ≡ total_of c t = ap (λ k. total_of k t) e in
          let after_c : total_of c t' ≡ r -ℤ take = after ∙ (rw same refl) in
          let bounds = take_of_bounds l.amount r h.0 (rw r_eq n) in
          let whole : r ≤ℤ quantize l.amount +ℤ line_total c ls = rw r_eq (rw same at b) in
          let left =
            take_of_full l.amount r (line_total c ls) h.0 (rw r_eq n) (line_total_nonneg c ls h.1)
              whole in
          elim (Bool-cases (is_positive take)) [
            | inl positive ↦
                let ih =
                  distribute_total c ls t' h.1 (rw after_c (omega (int_laws, bounds.1)))
                    (rw after_c left) in
                let back : take +ℤ (r -ℤ take) ≡ r = omega int_laws in
                rw (positive, same, ih, after_c) (back ∙ r_eq)
            | inr nothing ↦
                let nil : take ≡ zero_amount = ground (arith, bounds.0) in
                let fits : r ≤ℤ line_total c ls = leave_nothing r take (line_total c ls) nil left in
                rw nothing (distribute_total c ls t h.1 n (rw (← r_eq) fits))
          ]
      | inr other ↦
          let after_c : total_of c t' ≡ total_of c t = after ∙ (rw other refl) in
          let bound : total_of c t ≤ℤ line_total c ls =
            bound_of_rest (total_of c t) (line_total c ls) (rw other at b) in
          elim (Bool-cases (is_positive take)) [
            | inl positive ↦
                let ih = distribute_total c ls t' h.1 (rw after_c n) (rw after_c bound) in
                rw (positive, other, ih, after_c) (omega int_laws)
            | inr nothing ↦ rw nothing (distribute_total c ls t h.1 n bound)
          ]
    ]
