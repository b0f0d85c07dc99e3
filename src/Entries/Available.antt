-- ===== src/Entries/Available.antt =====
-- `available_by_currency` and `recompute_status`: what is left of an entry, currency by currency.
-- A dict of totals is an association list in the order of insertion.
use d_transfert_backend.Base.{String, Bool, List, [], ◌∷◌, ◌==◌, string_eq, all, if◌then◌else◌}
use d_transfert_backend.Int.{◌+ℤ◌, leb_ℤ}
use d_transfert_backend.Money.{Decimal, quantize, zero_amount, negated}
use d_transfert_backend.Models.{EntryLine, EntryAllocation, EntryStatus}

abbrev pub Totals : Type 0
Totals = List (String × Decimal)

-- `totals[currency] += amount` on a `defaultdict(Decimal)`
abbrev pub add_to : String → Decimal → Totals → Totals
add_to currency amount [] = (currency, zero_amount +ℤ amount) ∷ []
add_to currency amount ((c, total) ∷ rest) =
    if c == currency then (c, total +ℤ amount) ∷ rest else (c, total) ∷ add_to currency amount rest

-- `totals.get(currency, Decimal("0"))`
abbrev pub total_of : String → Totals → Decimal
total_of currency [] = zero_amount
total_of currency ((c, total) ∷ rest) = if c == currency then total else total_of currency rest

abbrev pub add_lines : List EntryLine → Totals → Totals
add_lines [] totals = totals
add_lines (l ∷ ls) totals = add_lines ls (add_to l.currency (quantize l.amount) totals)

abbrev pub subtract_allocations : List EntryAllocation → Totals → Totals
subtract_allocations [] totals = totals
subtract_allocations (a ∷ as') totals =
    subtract_allocations as' (add_to a.currency (negated (quantize a.amount_allocated)) totals)

unfoldable pub available_by_currency : List EntryLine → List EntryAllocation → Totals
available_by_currency lines allocations = subtract_allocations allocations (add_lines lines [])

-- `all(amount <= 0 for amount in remaining.values())`
abbrev pub all_spent : Totals → Bool
all_spent totals = all (λ (c, total). leb_ℤ total zero_amount) totals

unfoldable pub recompute_status : List EntryLine → List EntryAllocation → EntryStatus
recompute_status lines [] = EntryStatus.unallocated
recompute_status lines (a ∷ allocations) =
    if all_spent (available_by_currency lines (a ∷ allocations))
    then EntryStatus.consumed
    else EntryStatus.partially_allocated
