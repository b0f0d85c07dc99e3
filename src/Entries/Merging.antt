-- ===== src/Entries/Merging.antt =====
-- Sums of what a merge carries over: what is left of the lines of an entry, and what is left of several
-- entries, summed up by wallet and currency.
use d_transfert_backend.Base.{
  ◌≡◌, refl, ◌∙◌, String, true, false, List, [], ◌∷◌, ◌++◌, arith, ◌==◌, string_eq, id_eq,
  text_eq_iff, ◌&&◌, Bool-cases, inl, inr,
}
use d_transfert_backend.Int.{pos, ◌+ℤ◌, ◌-ℤ◌, ◌≤ℤ◌, int_laws}
use d_transfert_backend.Money.{Decimal, quantize, zero_amount, negated, is_positive}
use d_transfert_backend.Money.Rounding.{
  IsCents, IsCents-add, IsCents-sub, quantize-IsCents, quantize-eq_self,
}
use d_transfert_backend.Models.{EntryLine, EntryAllocation}
use d_transfert_backend.Entries.{
  Totals, add_to, add_lines, subtract_allocations, total_of, available_by_currency, RemainingLine,
  set_total, take_of, distribute, add_line, add_all, aggregate,
}
use d_transfert_backend.Entries.Remaining.{in_currency, line_total, allocated, available_lem}
use d_transfert_backend.Entries.Spreading.{remaining_total, AllNonneg, distribute_total}

zero_left : (a : Decimal) → zero_amount +ℤ a ≡ a
zero_left a = omega int_laws

remaining_total-add_line :
    (c : String) (l : RemainingLine) (ms : List RemainingLine)
    → remaining_total c (add_line l ms)
      ≡ remaining_total c ms +ℤ in_currency c l.currency (quantize l.amount)
remaining_total-add_line c l [] = elim (Bool-cases (l.currency == c)) [
  | inl same ↦ rw same (omega int_laws)
  | inr other ↦ rw other (omega int_laws)
]
remaining_total-add_line c l (m ∷ ms) =
    elim (Bool-cases (m.wallet_id == l.wallet_id && m.currency == l.currency)) [
      | inl match ↦
          let e : m.currency ≡ l.currency = ground (arith, text_eq_iff m.currency l.currency) in
          rw match (elim (Bool-cases (m.currency == c)) [
            | inl same ↦
                let same' : (l.currency == c) ≡ true = rw (← e) same in
                rw (same, same') (omega int_laws)
            | inr other ↦
                let other' : (l.currency == c) ≡ false = rw (← e) other in
                rw (other, other') (omega int_laws)
          ])
      | inr differ ↦ rw (differ, remaining_total-add_line c l ms) (omega int_laws)
    ]

-- Amounts in whole cents.
abbrev pub AllCents : List RemainingLine → Type 0
AllCents [] = Unit
AllCents (l ∷ ls) = IsCents l.amount × AllCents ls

remaining_total-add_all :
    (c : String) (ls ms : List RemainingLine)
    → AllCents ls
    → remaining_total c (add_all ls ms) ≡ remaining_total c ms +ℤ remaining_total c ls
remaining_total-add_all c [] ms h = omega int_laws
remaining_total-add_all c (l ∷ ls) ms h =
    rw
      (
        remaining_total-add_all c ls (add_line l ms) h.1,
        remaining_total-add_line c l ms,
        quantize-eq_self l.amount h.0,
      )
      (omega int_laws)

-- Summing up by wallet and currency keeps the total of every currency.
pub remaining_total-aggregate :
    (c : String) (ls : List RemainingLine)
    → AllCents ls
    → remaining_total c (aggregate ls) ≡ remaining_total c ls
unfolding aggregate
remaining_total-aggregate c ls h =
    remaining_total-add_all c ls [] h ∙ zero_left (remaining_total c ls)

take_of-IsCents : (a r : Decimal) → IsCents r → IsCents (take_of a r)
take_of-IsCents a r h = let q = quantize-IsCents a in ground arith

abbrev pub TotalsInCents : Totals → Type 0
TotalsInCents [] = Unit
TotalsInCents ((c, x) ∷ t) = IsCents x × TotalsInCents t

total_of-IsCents : (c : String) (t : Totals) → TotalsInCents t → IsCents (total_of c t)
total_of-IsCents c [] h = omega arith
total_of-IsCents c ((k, x) ∷ t) h = elim (Bool-cases (k == c)) [
  | inl same ↦ rw same h.0
  | inr other ↦ rw other (total_of-IsCents c t h.1)
]

set_total-TotalsInCents :
    (c : String) (x : Decimal) (t : Totals)
    → IsCents x
    → TotalsInCents t
    → TotalsInCents (set_total c x t)
set_total-TotalsInCents c x [] h k = (h, tt)
set_total-TotalsInCents c x ((j, y) ∷ t) h k = elim (Bool-cases (j == c)) [
  | inl same ↦ rw same (h, k.1)
  | inr other ↦ rw other (k.0, set_total-TotalsInCents c x t h k.1)
]

distribute-AllCents :
    (ls : List EntryLine) (t : Totals) → TotalsInCents t → AllCents (distribute ls t)
unfolding distribute
distribute-AllCents [] t h = tt
distribute-AllCents (l ∷ ls) t h =
    let r = total_of l.currency t in
    let take = take_of l.amount r in
    let cents = take_of-IsCents l.amount r (total_of-IsCents l.currency t h) in
    elim (Bool-cases (is_positive take)) [
      | inl positive ↦ rw positive (
        cents,
        distribute-AllCents ls (set_total l.currency (r -ℤ take) t) (
            set_total-TotalsInCents l.currency (r -ℤ take) t
              (IsCents-sub r take (total_of-IsCents l.currency t h) cents) h),
      )
      | inr nothing ↦ rw nothing (distribute-AllCents ls t h)
    ]

add_to-TotalsInCents :
    (c : String) (x : Decimal) (t : Totals)
    → IsCents x
    → TotalsInCents t
    → TotalsInCents (add_to c x t)
add_to-TotalsInCents c x [] h k = (IsCents-add zero_amount x (omega arith) h, tt)
add_to-TotalsInCents c x ((j, y) ∷ t) h k = elim (Bool-cases (j == c)) [
  | inl same ↦ rw same (IsCents-add y x k.0 h, k.1)
  | inr other ↦ rw other (k.0, add_to-TotalsInCents c x t h k.1)
]

add_lines-TotalsInCents :
    (ls : List EntryLine) (t : Totals) → TotalsInCents t → TotalsInCents (add_lines ls t)
add_lines-TotalsInCents [] t h = h
add_lines-TotalsInCents (l ∷ ls) t h =
    add_lines-TotalsInCents ls _
      (add_to-TotalsInCents l.currency (quantize l.amount) t (quantize-IsCents l.amount) h)

subtract-TotalsInCents :
    (rest : List EntryAllocation) (t : Totals)
    → TotalsInCents t
    → TotalsInCents (subtract_allocations rest t)
subtract-TotalsInCents [] t h = h
subtract-TotalsInCents (a ∷ rest) t h = subtract-TotalsInCents rest _ (
    add_to-TotalsInCents a.currency (negated (quantize a.amount_allocated)) t
      (IsCents-sub zero_amount (quantize a.amount_allocated) (omega arith)
        (quantize-IsCents a.amount_allocated))
      h)

available-TotalsInCents :
    (ls : List EntryLine) (rest : List EntryAllocation)
    → TotalsInCents (available_by_currency ls rest)
unfolding available_by_currency
available-TotalsInCents ls rest = subtract-TotalsInCents rest _ (add_lines-TotalsInCents ls [] tt)

-- The lines and the allocations of a source entry.
abbrev pub Source : Type 0
Source = List EntryLine × List EntryAllocation

-- The remaining lines of the source entries, one entry after another.
abbrev pub remaining_of : List Source → List RemainingLine
remaining_of [] = []
remaining_of ((ls, rest) ∷ sources) =
    distribute ls (available_by_currency ls rest) ++ remaining_of sources

-- The lines less the allocations of all sources, in one currency.
abbrev pub available_total : String → List Source → Decimal
available_total c [] = zero_amount
available_total c ((ls, rest) ∷ sources) =
    line_total c ls -ℤ allocated c rest +ℤ available_total c sources

-- No line is negative, and the allocations of the currency are between nothing and the lines.
abbrev pub AllCovered : String → List Source → Type 0
AllCovered c [] = Unit
AllCovered c ((ls, rest) ∷ sources) =
    AllNonneg ls
    × (pos 0 ≤ℤ allocated c rest)
    × (allocated c rest ≤ℤ line_total c ls)
    × AllCovered c sources

remaining_total-append :
    (c : String) (ls ms : List RemainingLine)
    → remaining_total c (ls ++ ms) ≡ remaining_total c ls +ℤ remaining_total c ms
remaining_total-append c [] ms = omega int_laws
remaining_total-append c (l ∷ ls) ms = rw (remaining_total-append c ls ms) (omega int_laws)

AllCents-append : (ls ms : List RemainingLine) → AllCents ls → AllCents ms → AllCents (ls ++ ms)
AllCents-append [] ms h k = k
AllCents-append (l ∷ ls) ms h k = (h.0, AllCents-append ls ms h.1 k)

remaining_of-AllCents : (sources : List Source) → AllCents (remaining_of sources)
remaining_of-AllCents [] = tt
remaining_of-AllCents ((ls, rest) ∷ sources) =
    AllCents-append (distribute ls (available_by_currency ls rest)) (remaining_of sources)
      (distribute-AllCents ls _ (available-TotalsInCents ls rest)) (remaining_of-AllCents sources)

remaining_of_total :
    (c : String) (sources : List Source)
    → AllCovered c sources
    → remaining_total c (remaining_of sources) ≡ available_total c sources
remaining_of_total c [] h = refl
remaining_of_total c ((ls, rest) ∷ sources) h =
    let t = available_by_currency ls rest in
    let spec = available_lem c ls rest in
    let one =
      distribute_total c ls t h.0 (rw spec (omega (int_laws, h.1, h.2)))
        (rw spec (omega (int_laws, h.1, h.2))) in
    rw
      (
        remaining_total-append c (distribute ls t) (remaining_of sources),
        one,
        spec,
        remaining_of_total c sources h.3,
      )
      refl

-- In every currency in which the sources are covered, their remaining lines, summed up by wallet and
-- currency, add up to what the sources had available.
pub merged_total :
    (c : String) (sources : List Source)
    → AllCovered c sources
    → remaining_total c (aggregate (remaining_of sources)) ≡ available_total c sources
merged_total c sources h =
    remaining_total-aggregate c (remaining_of sources) (remaining_of-AllCents sources)
    ∙ remaining_of_total c sources h
