-- ===== src/Reference.antt =====
-- app/utils/reference.py: the daily references of operations, and the `_generate_unique_reference`
-- of entry_service, transfer_service, payment_service, national_operation_service and
-- supplier_service, which differ in the prefix and the table alone.
-- A reference is the list of its code points. Printing a number takes the number as fuel, which is
-- more than its digits.
pub mod Printing
pub mod Unique
use d_transfert_backend.Base.{
  ℕ, zero, suc, ◌+◌, ◌-◌, ◌*◌, ◌/◌, ◌%◌, Bool, true, false, List, [], ◌∷◌, ◌++◌, Text, ltb, ◌==◌,
  id_eq, list_eq, ◌&&◌, keep, length, any, if◌then◌else◌,
}
use d_transfert_backend.Errors.{Error, Result, ok, err}

-- The parts of a `datetime.date`.
pub record Date : Type 0 where
  pub year : ℕ
  pub month : ℕ
  pub day : ℕ

abbrev pub digit : ℕ → ℕ
digit n = b'0' + n % 10

pub decimal_from : ℕ → ℕ → Text
decimal_from zero n = digit n ∷ []
decimal_from (suc fuel) n =
    let rest = decimal_from fuel (n / 10) in if ltb n 10 then digit n ∷ [] else rest ++ digit n ∷ []

-- `str(n)`
unfoldable pub decimal : ℕ → Text
unfolding decimal_from
decimal n = decimal_from n n

unfoldable pub zeros : ℕ → Text
zeros zero = []
zeros (suc n) = b'0' ∷ zeros n

-- `{n:04d}`: at least four digits, filled with zeros on the left.
unfoldable pub pad4 : ℕ → Text
unfolding zeros decimal
pad4 n = zeros (4 - length (decimal n)) ++ decimal n

-- `%d`, `%m` and `%y`: two digits.
abbrev pub pad2 : ℕ → Text
pad2 n = digit (n / 10) ∷ digit n ∷ []

-- `f"{prefix}-{on_date:%d-%m-%y}-"`
unfoldable pub daily_sequence_prefix : Text → Date → Text
daily_sequence_prefix prefix on_date =
    prefix
    ++ (b'-'
        ∷ (pad2 on_date.day
            ++ (b'-' ∷ (pad2 on_date.month ++ (b'-' ∷ (pad2 on_date.year ++ b'-' ∷ []))))))

unfoldable pub format_daily_reference : Text → Date → ℕ → Text
unfolding daily_sequence_prefix pad4
format_daily_reference prefix on_date sequence =
    daily_sequence_prefix prefix on_date ++ pad4 sequence

abbrev pub starts_with : Text → Text → Bool
starts_with [] t = true
starts_with (c ∷ cs) [] = false
starts_with (c ∷ cs) (d ∷ ds) = c == d && starts_with cs ds

-- The references that a table has issued, with the company of each.
pub record Issued : Type 0 where
  pub company_id : ℕ
  pub reference : Text

-- `get_by_company_and_reference(...) is not None`
abbrev pub taken : List Issued → ℕ → Text → Bool
taken issued company_id reference =
    any (λ r. r.company_id == company_id && r.reference == reference) issued

-- `count_by_company_and_reference_prefix`, with LIKE on a prefix that has no wildcard
abbrev pub count_prefix : List Issued → ℕ → Text → ℕ
count_prefix issued company_id prefix =
    length (keep (λ r. r.company_id == company_id && starts_with prefix r.reference) issued)

abbrev pub reference_max_retries : ℕ
reference_max_retries = 5

-- The loop over `range(REFERENCE_MAX_RETRIES)`: `left` attempts are left, `sequence` is tried next.
pub try_references : List Issued → ℕ → Text → Date → ℕ → ℕ → Result Text
try_references issued company_id prefix today sequence zero = err Error.conflict
try_references issued company_id prefix today sequence (suc left) =
    let later = try_references issued company_id prefix today (sequence + 1) left in
    let candidate = format_daily_reference prefix today sequence in
    if taken issued company_id candidate then later else ok candidate

unfoldable pub generate_unique_reference : Text → List Issued → ℕ → Date → Result Text
unfolding try_references
generate_unique_reference prefix issued company_id today =
    let already_issued = count_prefix issued company_id (daily_sequence_prefix prefix today) in
    try_references issued company_id prefix today (already_issued + 1) reference_max_retries
