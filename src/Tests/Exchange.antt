-- ===== src/Tests/Exchange.antt =====
-- Instances of the properties of money, references, locking, entries and the split of an amount.
use d_transfert_backend.Base.{
  ℕ, ◌≡◌, ◌⊎◌, ◌≤◌, ◌<◌, ◌+◌, refl, arith, true, false, some, none, List, [], ◌∷◌, ◌*◌,
}
use d_transfert_backend.Int.{pos, ◌+ℤ◌, ◌-ℤ◌, ◌≤ℤ◌}
use d_transfert_backend.Money.{Decimal, zero_amount, quantize, cent}
use d_transfert_backend.Errors.{Error, ok}
use d_transfert_backend.TextOps.{codes}
use d_transfert_backend.Reference.{
  Date, Issued, taken, count_prefix, daily_sequence_prefix, format_daily_reference,
  generate_unique_reference,
}
use d_transfert_backend.Reference.Printing.{format_daily_reference_injective}
use d_transfert_backend.Reference.Unique.{
  generate_unique_reference_ok, generate_unique_reference_err, Used,
}
use d_transfert_backend.Entries.{Loaded, total_of, available_by_currency, distribute, is_mergeable}
use d_transfert_backend.Entries.Remaining.{available_lem, line_total, allocated}
use d_transfert_backend.Entries.Spreading.{distribute_total, remaining_total}
use d_transfert_backend.Exchange.{
  ExchangeRequest, ReliquatAction, Plan, split_amount, plan_with_entry, names_client,
}
use d_transfert_backend.Exchange.Split.{
  split_amount_within, split_amount_conserves, plan_with_entry_ok,
}
use d_transfert_backend.Exchange.{convert_amount}
use d_transfert_backend.Exchange.Conversion.{convert_amount-IsNearest, exact_amount, IsNearest}
use d_transfert_backend.Tests.Fixtures.{five, deposit, half_used, open_entry}

abbrev today : Date
today = record { year = 2026; month = 3; day = 7 }

abbrev issued_number : ℕ → Issued
issued_number n = record { company_id = 1; reference = format_daily_reference (codes "EN") today n }

abbrev seventh : ℕ
seventh = 7

format_daily_reference_injective_example : seventh ≡ seventh
format_daily_reference_injective_example =
    format_daily_reference_injective (codes "EN") today seventh seventh refl

abbrev first_two : List Issued
first_two = issued_number 1 ∷ issued_number 3 ∷ []

generate_unique_reference_ok_example :
    (n : ℕ) × (count_prefix first_two 1 (daily_sequence_prefix (codes "EN") today) < n)
    × (n ≤ count_prefix first_two 1 (daily_sequence_prefix (codes "EN") today) + 5)
    × (format_daily_reference (codes "EN") today 4 ≡ format_daily_reference (codes "EN") today n)
    × (taken first_two 1 (format_daily_reference (codes "EN") today 4) ≡ false)
    × ((m : ℕ)
        → count_prefix first_two 1 (daily_sequence_prefix (codes "EN") today) < m
        → m < n
        → Used first_two 1 (codes "EN") today m)
unfolding generate_unique_reference format_daily_reference
generate_unique_reference_ok_example =
    generate_unique_reference_ok first_two 1 (codes "EN") today
      {reference = format_daily_reference (codes "EN") today 4} refl

abbrev five_ahead : List Issued
five_ahead =
    issued_number 6 ∷ issued_number 7 ∷ issued_number 8 ∷ issued_number 9 ∷ issued_number 10 ∷ []

generate_unique_reference_err_example : Used five_ahead 1 (codes "EN") today 8
unfolding generate_unique_reference format_daily_reference
generate_unique_reference_err_example =
    generate_unique_reference_err five_ahead 1 (codes "EN") today {e = Error.conflict} refl 8
      (omega arith) (omega arith)

available_lem_example :
    total_of "XOF" (available_by_currency (deposit ∷ []) (half_used ∷ []))
    ≡ line_total "XOF" (deposit ∷ []) -ℤ allocated "XOF" (half_used ∷ [])
available_lem_example = available_lem "XOF" (deposit ∷ []) (half_used ∷ [])

distribute_total_example :
    remaining_total "XOF" (distribute (deposit ∷ []) (("XOF", five) ∷ []))
    ≡ total_of "XOF" (("XOF", five) ∷ [])
unfolding quantize ◌+ℤ◌
distribute_total_example =
    distribute_total "XOF" (deposit ∷ []) (("XOF", five) ∷ []) (omega arith, tt) (omega arith)
      (omega arith)

-- Seven francs, of which an entry with five left covers a part.
abbrev seven : Decimal
seven = pos 700000000

abbrev exchange_request : ExchangeRequest
exchange_request = record {
  collaboration_id = 4;
  entry_id = some 8;
  amount = seven;
  currency = "XOF";
  client_name = none;
  client_phone = none;
  reliquat_action = ReliquatAction.unallocated;
}

abbrev short_plan : Plan
short_plan = record {
  allocation_amount = five;
  client_debt_amount = pos 200000000;
  reliquat_amount = zero_amount;
}

split_amount_within_example :
    (five ≤ℤ five)
    × (pos 0 ≤ℤ pos 200000000)
    × (pos 0 ≤ℤ zero_amount)
    × ((pos 200000000 ≡ zero_amount) ⊎ (zero_amount ≡ zero_amount))
unfolding split_amount quantize ◌-ℤ◌
split_amount_within_example =
    split_amount_within exchange_request true five {p = short_plan} refl (refl, refl)

split_amount_conserves_example : five +ℤ pos 200000000 ≡ seven +ℤ zero_amount
unfolding split_amount quantize ◌-ℤ◌
split_amount_conserves_example =
    split_amount_conserves exchange_request true five {p = short_plan} refl (refl, refl)
      (refl, refl)

abbrev loaded_entry : Loaded
loaded_entry = record { entry = open_entry; lines = deposit ∷ []; allocations = half_used ∷ [] }

plan_with_entry_ok_example :
    (open_entry.merged_into_id ≡ none)
    × (is_mergeable open_entry.status ≡ true)
    × (split_amount exchange_request
          (names_client exchange_request loaded_entry)
          (total_of "XOF" (available_by_currency (deposit ∷ []) (half_used ∷ [])))
        ≡ ok short_plan)
unfolding plan_with_entry split_amount available_by_currency quantize ◌-ℤ◌ ◌+ℤ◌
plan_with_entry_ok_example = plan_with_entry_ok exchange_request loaded_entry {p = short_plan} refl

-- One and a half cents, at the rate 1.
convert_amount-IsNearest_example :
    (cents : ℕ) × (convert_amount (pos 1500000) "USD" "XOF" (pos 100000000) ≡ pos (cents * cent))
    × IsNearest (exact_amount "USD" "XOF" 1500000 100000000) cents
convert_amount-IsNearest_example = convert_amount-IsNearest "USD" "XOF" 1500000 100000000
