-- ===== src/Reference/Unique.antt =====
-- What `generate_unique_reference` returns: an unused reference, and when it fails.
use d_transfert_backend.Base.{
  ℕ, zero, suc, ◌+◌, ◌≤◌, ◌<◌, ◌≡◌, true, false, List, Text, arith, Bool-cases, inl, inr, sym,
  dec_lt,
}
use d_transfert_backend.Errors.{Error, ok, err}
use d_transfert_backend.Reference.{
  Date, Issued, taken, count_prefix, daily_sequence_prefix, format_daily_reference, try_references,
  generate_unique_reference,
}

module _ (issued : List Issued) (company_id : ℕ) (prefix : Text) (today : Date) where
  -- The candidate with a sequence number has been issued.
  abbrev pub Used : ℕ → Type 0
  Used sequence = taken issued company_id (format_daily_reference prefix today sequence) ≡ true

  try_references_ok :
      (sequence left : ℕ) {reference : Text}
      → try_references issued company_id prefix today sequence left ≡ ok reference
      → (n : ℕ) × (sequence ≤ n)
        × (n < sequence + left)
        × (reference ≡ format_daily_reference prefix today n)
        × (taken issued company_id reference ≡ false)
        × ((m : ℕ) → sequence ≤ m → m < n → Used m)
  unfolding try_references
  try_references_ok sequence zero h = cc
  try_references_ok sequence (suc left) {reference} h =
      elim (Bool-cases (taken issued company_id (format_daily_reference prefix today sequence))) [
        | inl used ↦
            let (n, above, below, e, free, before) =
              try_references_ok (sequence + 1) left {reference = reference} (rw used at h) in
            (
              n,
              omega arith,
              omega arith,
              e,
              free,
              λ m p q. elim (dec_lt sequence m) [
                | yes r ↦ before m (omega arith) q
                | no r ↦ let same : m ≡ sequence = omega arith in rw same used
              ],
            )
        | inr free ↦
            let e : format_daily_reference prefix today sequence ≡ reference = ground arith in
            (sequence, omega arith, omega arith, sym e, rw e at free, λ m p q. absurd (omega arith))
      ]

  try_references_err :
      (sequence left : ℕ) {e : Error}
      → try_references issued company_id prefix today sequence left ≡ err e
      → (m : ℕ) → sequence ≤ m
      → m < sequence + left
      → Used m
  unfolding try_references
  try_references_err sequence zero h m p q = absurd (omega arith)
  try_references_err sequence (suc left) {e} h m p q =
      elim (Bool-cases (taken issued company_id (format_daily_reference prefix today sequence))) [
        | inl used ↦ elim (dec_lt sequence m) [
          | yes r ↦
              try_references_err (sequence + 1) left {e = e} (rw used at h) m (omega arith)
                (omega arith)
          | no r ↦ let same : m ≡ sequence = omega arith in rw same used
        ]
        | inr free ↦ ground arith
      ]

  -- A reference that is returned is not taken in the company, and it is the day's reference with
  -- the first free number after the count of those issued, one of the five that are tried.
  pub generate_unique_reference_ok :
      {reference : Text}
      → generate_unique_reference prefix issued company_id today ≡ ok reference
      → (n : ℕ) × (count_prefix issued company_id (daily_sequence_prefix prefix today) < n)
        × (n ≤ count_prefix issued company_id (daily_sequence_prefix prefix today) + 5)
        × (reference ≡ format_daily_reference prefix today n)
        × (taken issued company_id reference ≡ false)
        × ((m : ℕ)
            → count_prefix issued company_id (daily_sequence_prefix prefix today) < m
            → m < n
            → Used m)
  unfolding generate_unique_reference
  generate_unique_reference_ok {reference} h =
      let count = count_prefix issued company_id (daily_sequence_prefix prefix today) in
      let (n, above, below, e, free, before) =
        try_references_ok (count + 1) 5 {reference = reference} h in
      (n, omega arith, omega arith, e, free, λ m p q. before m (omega arith) q)

  -- Generation fails only when all five candidates are taken.
  pub generate_unique_reference_err :
      {e : Error}
      → generate_unique_reference prefix issued company_id today ≡ err e
      → (m : ℕ) → count_prefix issued company_id (daily_sequence_prefix prefix today) < m
      → m ≤ count_prefix issued company_id (daily_sequence_prefix prefix today) + 5
      → Used m
  unfolding generate_unique_reference
  generate_unique_reference_err {e} h m p q =
      let count = count_prefix issued company_id (daily_sequence_prefix prefix today) in
      try_references_err (count + 1) 5 {e = e} h m (omega arith) (omega arith)
