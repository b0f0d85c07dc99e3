-- ===== src/Entries/Merge.antt =====
-- The pure parts of `merge_entries`: which entries may be merged, how what is left of an entry is
-- spread over its lines, and the sums of the lines by wallet and currency.
use d_transfert_backend.Base.{
  ℕ, String, Text, Bool, true, false, not, Option, none, some, List, [], ◌∷◌, ◌==◌, id_eq,
  string_eq, list_eq, ◌&&◌, any, if◌then◌else◌,
}
use d_transfert_backend.Int.{◌+ℤ◌, ◌-ℤ◌, min_ℤ}
use d_transfert_backend.Money.{Decimal, quantize, zero_amount, is_positive}
use d_transfert_backend.Models.{Entry, EntryLine, EntryStatus}
use d_transfert_backend.TextOps.{codes, strip, lower}
use d_transfert_backend.Entries.Available.{Totals, total_of}

-- `entry.status in MERGEABLE_STATUSES`
abbrev pub is_mergeable : EntryStatus → Bool
is_mergeable EntryStatus.unallocated = true
is_mergeable EntryStatus.partially_allocated = true
is_mergeable _ = false

-- `len(set(ids)) == len(ids)`
abbrev pub distinct : List ℕ → Bool
distinct [] = true
distinct (i ∷ rest) = not (any (λ j. i == j) rest) && distinct rest

abbrev pub ClientKey : Type 0
ClientKey = Text × Text

-- `_entry_client_key`
unfoldable pub client_key_of : Entry → Option ClientKey
client_key_of e = elim e.client_name [
  | none ↦ none
  | some name ↦ elim e.client_phone [
    | none ↦ none
    | some phone ↦ some (lower (strip (codes name)), strip (codes phone))
  ]
]

-- The first entry sets the key, and each later one must have it.
abbrev pub same_key : Option ClientKey → ClientKey → Bool
same_key none key = true
same_key (some (name, phone)) key = name == key.0 && phone == key.1

-- A transient `EntryLine`, which belongs to no entry.
pub record RemainingLine : Type 0 where
  pub wallet_id : ℕ
  pub amount : Decimal
  pub currency : String

-- `remaining_by_currency[currency] = amount`
abbrev pub set_total : String → Decimal → Totals → Totals
set_total currency amount [] = (currency, amount) ∷ []
set_total currency amount ((c, total) ∷ rest) =
    if c == currency then (c, amount) ∷ rest else (c, total) ∷ set_total currency amount rest

-- What a line takes of the rest of its currency: nothing where nothing is left.
abbrev pub take_of : Decimal → Decimal → Decimal
take_of amount remaining =
    if is_positive remaining
    then (if is_positive (min_ℤ (quantize amount) remaining)
        then min_ℤ (quantize amount) remaining
        else zero_amount)
    else zero_amount

-- The loop over the lines of an entry. A line that takes nothing is skipped, and leaves the totals.
unfoldable pub distribute : List EntryLine → Totals → List RemainingLine
distribute [] totals = []
distribute (l ∷ ls) totals =
    let remaining = total_of l.currency totals in
    let take = take_of l.amount remaining in
    let skipped = distribute ls totals in
    let taken = distribute ls (set_total l.currency (remaining -ℤ take) totals) in
    if is_positive take
    then record { wallet_id = l.wallet_id; amount = take; currency = l.currency } ∷ taken
    else skipped

-- `aggregated[(line.wallet_id, line.currency)] += _quantize(line.amount)`
abbrev pub add_line : RemainingLine → List RemainingLine → List RemainingLine
add_line l [] = record l { amount = zero_amount +ℤ quantize l.amount } ∷ []
add_line l (m ∷ ms) =
    if m.wallet_id == l.wallet_id && m.currency == l.currency
    then record m { amount = m.amount +ℤ quantize l.amount } ∷ ms
    else m ∷ add_line l ms

abbrev pub add_all : List RemainingLine → List RemainingLine → List RemainingLine
add_all [] sums = sums
add_all (l ∷ ls) sums = add_all ls (add_line l sums)

unfoldable pub aggregate : List RemainingLine → List RemainingLine
aggregate lines = add_all lines []
