-- ===== src/Exchange/Split.antt =====
-- How a request is split between the entry and the client: nothing is over-allocated, and nothing is
-- lost when the amount is a whole number of cents.
use d_transfert_backend.Base.{
  ◌≡◌, refl, Bool, true, none, arith, Bool-cases, inl, inr, ◌⊎◌, not, ◌&&◌, is_some, is_some-false,
}
use d_transfert_backend.Int.{pos, ◌+ℤ◌, ◌-ℤ◌, ◌≤ℤ◌, ◌<ℤ◌, ltb_ℤ, int_laws}
use d_transfert_backend.Money.{Decimal, quantize, zero_amount}
use d_transfert_backend.Money.Rounding.{
  IsCents, IsCents-sub, quantize-IsCents, quantize-eq_self, quantize_mono, quantize_nonneg,
}
use d_transfert_backend.Errors.{ok}
use d_transfert_backend.Entries.{Loaded, is_mergeable, total_of, available_by_currency}
use d_transfert_backend.Exchange.{
  ExchangeRequest, Plan, split_amount, plan_with_entry, plan_direct, plain_plan, names_client,
  is_unallocated,
}

-- The three amounts of a plan are whole numbers of cents.
abbrev pub PlanInCents : Plan → Type 0
PlanInCents p =
    IsCents p.allocation_amount × IsCents p.client_debt_amount × IsCents p.reliquat_amount

module _ (payload : ExchangeRequest) (named : Bool) (available : Decimal) where
  -- The three ways in which an amount is split.
  pub split_amount_cases :
      {p : Plan}
      → split_amount payload named available ≡ ok p
      → ((available <ℤ payload.amount)
          × (named ≡ true)
          × (p ≡ record {
            allocation_amount = quantize available;
            client_debt_amount = quantize (payload.amount -ℤ available);
            reliquat_amount = zero_amount;
          }))
        ⊎ ((payload.amount <ℤ available)
            × (p ≡ record {
              allocation_amount = quantize available;
              client_debt_amount = zero_amount;
              reliquat_amount = quantize (available -ℤ payload.amount);
            }))
        ⊎ ((payload.amount ≤ℤ available) × (p ≡ plain_plan payload.amount))
  unfolding split_amount
  split_amount_cases {p} h = elim (Bool-cases (ltb_ℤ available payload.amount)) [
    | inl over ↦ inl (ground arith, ground arith, ground arith)
    | inr within ↦
        elim (Bool-cases
          (ltb_ℤ payload.amount available && not (is_unallocated payload.reliquat_action))) [
            | inl under ↦ inr (inl (ground arith, ground arith))
            | inr rest ↦ inr (inr (ground arith, ground arith))
          ]
  ]

  pub split_amount-PlanInCents :
      {p : Plan} → split_amount payload named available ≡ ok p → PlanInCents p
  split_amount-PlanInCents {p} h = elim (split_amount_cases {p = p} h) [
    | inl (over, n, e) ↦
        rw e
          (quantize-IsCents available, quantize-IsCents (payload.amount -ℤ available), omega arith)
    | inr (inl (under, e)) ↦
        rw e
          (quantize-IsCents available, omega arith, quantize-IsCents (available -ℤ payload.amount))
    | inr (inr (fits, e)) ↦ rw e (quantize-IsCents payload.amount, omega arith, omega arith)
  ]

  -- No more is allocated than the entry has available, the debt and the reliquat are never negative,
  -- and only one of them is positive.
  pub split_amount_within :
      {p : Plan}
      → split_amount payload named available ≡ ok p
      → IsCents available
      → (p.allocation_amount ≤ℤ available)
        × (pos 0 ≤ℤ p.client_debt_amount)
        × (pos 0 ≤ℤ p.reliquat_amount)
        × ((p.client_debt_amount ≡ zero_amount) ⊎ (p.reliquat_amount ≡ zero_amount))
  split_amount_within {p} h cents =
      let whole = quantize-eq_self available cents in
      elim (split_amount_cases {p = p} h) [
        | inl (over, n, e) ↦
            rw (e, whole)
              (
                omega arith,
                quantize_nonneg (payload.amount -ℤ available) (omega int_laws),
                omega arith,
                inr refl,
              )
        | inr (inl (under, e)) ↦
            rw (e, whole)
              (
                omega arith,
                omega arith,
                quantize_nonneg (available -ℤ payload.amount) (omega int_laws),
                inl refl,
              )
        | inr (inr (fits, e)) ↦
            let bound = quantize_mono payload.amount available fits in
            let bound' : quantize payload.amount ≤ℤ available = rw whole at bound in
            rw e (bound', omega arith, omega arith, inl refl)
      ]

  -- An amount of whole cents is split without loss: what is allocated and what the client owes add
  -- up to the amount and the reliquat.
  pub split_amount_conserves :
      {p : Plan}
      → split_amount payload named available ≡ ok p
      → IsCents available
      → IsCents payload.amount
      → p.allocation_amount +ℤ p.client_debt_amount ≡ payload.amount +ℤ p.reliquat_amount
  split_amount_conserves {p} h cents amount_cents =
      let whole = quantize-eq_self available cents in
      let whole' = quantize-eq_self payload.amount amount_cents in
      let debt =
        quantize-eq_self (payload.amount -ℤ available)
          (IsCents-sub payload.amount available amount_cents cents) in
      let rest =
        quantize-eq_self (available -ℤ payload.amount)
          (IsCents-sub available payload.amount cents amount_cents) in
      elim (split_amount_cases {p = p} h) [
        | inl (over, n, e) ↦ rw (e, whole, debt) (omega int_laws)
        | inr (inl (under, e)) ↦ rw (e, whole, rest) (omega int_laws)
        | inr (inr (fits, e)) ↦ rw (e, whole') (omega int_laws)
      ]

-- A request that is accepted for an entry found it open: not merged, and in a status that allows
-- an allocation; its amounts are those of the split of what is available.
pub plan_with_entry_ok :
    (payload : ExchangeRequest) (loaded : Loaded) {p : Plan}
    → plan_with_entry payload loaded ≡ ok p
    → (loaded.entry.merged_into_id ≡ none)
      × (is_mergeable loaded.entry.status ≡ true)
      × (split_amount payload
            (names_client payload loaded)
            (total_of payload.currency (available_by_currency loaded.lines loaded.allocations))
          ≡ ok p)
unfolding plan_with_entry
plan_with_entry_ok payload loaded {p} h = elim (Bool-cases (is_some loaded.entry.merged_into_id)) [
  | inl merged ↦ cc (rw merged at h)
  | inr unmerged ↦ elim (Bool-cases (is_mergeable loaded.entry.status)) [
    | inl open_entry ↦ (
      is_some-false loaded.entry.merged_into_id unmerged,
      open_entry,
      rw (unmerged, open_entry) at h,
    )
    | inr closed ↦ cc (rw (unmerged, closed) at h)
  ]
]

pub plan_direct-PlanInCents : (payload : ExchangeRequest) → PlanInCents (plan_direct payload)
unfolding plan_direct
plan_direct-PlanInCents payload = let q = quantize-IsCents payload.amount in ground arith

pub plan_with_entry-PlanInCents :
    (payload : ExchangeRequest) (loaded : Loaded) {p : Plan}
    → plan_with_entry payload loaded ≡ ok p
    → PlanInCents p
plan_with_entry-PlanInCents payload loaded {p} h =
    let (_, _, e) = plan_with_entry_ok payload loaded {p = p} h in
    split_amount-PlanInCents payload (names_client payload loaded)
      (total_of payload.currency (available_by_currency loaded.lines loaded.allocations)) {p = p} e
