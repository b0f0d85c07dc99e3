-- ===== src/Operations/Schema.antt =====
-- The validators of app/schemas/national_operation.py, which a request passes before the service runs.
-- The test of the currencies' names is left out, since `upper` of any Unicode text is not modelled.
use d_transfert_backend.Base.{
  ℕ, Bool, true, false, not, Option, none, some, List, [], ◌∷◌, ◌==◌, id_eq, string_eq, ◌&&◌, map,
  if◌then◌else◌, any, all, leb, ◌+◌, ◌*◌,
}
use d_transfert_backend.Int.{pos_part, neg_part, ltb_ℤ, leb_ℤ, eqb_ℤ, ◌-ℤ◌}
use d_transfert_backend.Money.{Decimal, zero_amount, is_positive}
use d_transfert_backend.Entries.{Totals, add_to}
use d_transfert_backend.Operations.{LineRequest, NationalOperationCreateRequest}

-- `Field(ge=0)` on both amounts, and the two tests of `_validate_single_direction` on them.
abbrev pub has_single_direction : LineRequest → Bool
has_single_direction line =
    leb_ℤ zero_amount line.amount_in
    && leb_ℤ zero_amount line.amount_out
    && not (is_positive line.amount_in && is_positive line.amount_out)
    && not (eqb_ℤ line.amount_in zero_amount && eqb_ℤ line.amount_out zero_amount)

-- `len(set(wallet_ids)) == len(wallet_ids)`
abbrev pub are_distinct : List ℕ → Bool
are_distinct [] = true
are_distinct (w ∷ ws) = not (any (λ v. v == w) ws) && are_distinct ws

-- `totals.setdefault(currency, 0)` and `totals[currency] += change`, line by line.
abbrev pub totals_of : List LineRequest → Totals → Totals
totals_of [] totals = totals
totals_of (line ∷ lines) totals =
    totals_of lines (add_to line.currency (line.amount_in -ℤ line.amount_out) totals)

-- `abs(source * rate - dest) <= 0.01` for amounts and rates that are not negative; a product of two
-- amounts counts units of 10^-16.
abbrev pub is_converted : ℕ → ℕ → ℕ → Bool
is_converted source rate dest =
    leb (source * rate) (dest * 100000000 + 100000000000000)
    && leb (dest * 100000000) (source * rate + 100000000000000)

-- The branches on `len(totals)`.
unfoldable pub is_balanced : Option Decimal → Totals → Bool
is_balanced none ((_, total) ∷ []) = eqb_ℤ total zero_amount
is_balanced (some rate) ((_, a) ∷ (_, b) ∷ []) =
    if ltb_ℤ a zero_amount && is_positive b
    then is_converted (neg_part a) (pos_part rate) (pos_part b)
    else if ltb_ℤ b zero_amount && is_positive a
    then is_converted (neg_part b) (pos_part rate) (pos_part a)
    else false
is_balanced _ _ = false

-- `Field(gt=0)`
abbrev pub has_valid_rate : Option Decimal → Bool
has_valid_rate none = true
has_valid_rate (some rate) = is_positive rate

abbrev pub has_two : List LineRequest → Bool
has_two (a ∷ b ∷ rest) = true
has_two _ = false

unfoldable pub is_valid : NationalOperationCreateRequest → Bool
is_valid payload =
    all has_single_direction payload.lines
    && has_two payload.lines
    && has_valid_rate payload.exchange_rate
    && are_distinct (map (λ l. l.wallet_id) payload.lines)
    && is_balanced payload.exchange_rate (totals_of payload.lines [])
