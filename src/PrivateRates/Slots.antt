-- ===== src/PrivateRates/Slots.antt =====
-- After a rate is set, it is the one active rate of its slot.
use d_transfert_backend.Base.{
  ℕ, ◌≡◌, refl, Bool, true, false, Option, none, some, List, [], ◌∷◌, ◌++◌, keep, nat_eq, String,
  id_eq, string_eq, option_eq, ==_refl, arith, Bool-cases, inl, inr, ◌⊎◌,
}
use d_transfert_backend.Errors.{ok}
use d_transfert_backend.Models.{PrivateSendingRate, private_rate_keyed}
use d_transfert_backend.Table.{Keyed, update_row, one_of, scalar_one_or_none}
use d_transfert_backend.Database.{Db}
use d_transfert_backend.Service.{Service, ◌>>=◌, ◌>>◌, fresh_id, when_some, gets, pure}
use d_transfert_backend.Wallets.Effects.{Result-cases}
use d_transfert_backend.PrivateRates.{
  is_active_in, requested_slot, deactivated, PrivateRateCreateRequest, resolve_target_currency,
  set_rate, change_rate, add_rate,
}

module _ {A : Type 0} ⦃k : Keyed A⦄ (f : A → Bool) where
  -- Every row that is kept has the key.
  abbrev AllKey : ℕ → List A → Type 0
  AllKey i [] = Unit
  AllKey i (x ∷ xs) = (k.key x ≡ i) × AllKey i xs

  update_row-none_kept :
      (i : ℕ) (g : A → A) (xs : List A)
      → ((x : A) → f (g x) ≡ false)
      → AllKey i (keep f xs)
      → keep f (update_row i g xs) ≡ []
  update_row-none_kept i g [] off h = refl
  update_row-none_kept i g (x ∷ xs) off h = elim (Bool-cases (f x)) [
    | inl kept ↦
        let (same, rest) = rw kept at h in
        let here : nat_eq (k.key x) i ≡ true = ground arith in
        rw (here, off x) (update_row-none_kept i g xs off rest)
    | inr dropped ↦
        let rest = rw dropped at h in
        elim (Bool-cases (nat_eq (k.key x) i)) [
          | inl here ↦ rw (here, off x) (update_row-none_kept i g xs off rest)
          | inr other ↦ rw (other, dropped) (update_row-none_kept i g xs off rest)
        ]
  ]

  keep-append_kept :
      (xs : List A) (a : A) → f a ≡ true → keep f (xs ++ a ∷ []) ≡ keep f xs ++ a ∷ []
  keep-append_kept [] a h = rw h refl
  keep-append_kept (x ∷ xs) a h = elim (Bool-cases (f x)) [
    | inl kept ↦ rw (kept, keep-append_kept xs a h) refl
    | inr dropped ↦ rw (dropped, keep-append_kept xs a h) refl
  ]

  one_of_cases :
      (xs : List A) {o : Option A}
      → one_of xs ≡ ok o
      → ((o ≡ none) × (xs ≡ [])) ⊎ ((x : A) × (o ≡ some x) × (xs ≡ x ∷ []))
  one_of_cases [] h = inl (cc, refl)
  one_of_cases (x ∷ []) h = inr (x, cc, refl)
  one_of_cases (x ∷ y ∷ xs) h = cc

-- The row that `set_rate` writes.
abbrev pub new_rate : ℕ → ℕ → PrivateRateCreateRequest → Option String → ℕ → PrivateSendingRate
new_rate company_id by payload target_currency rate_id = record {
  id = rate_id;
  company_id = company_id;
  collaboration_id = payload.collaboration_id;
  country = payload.country;
  operation_type = payload.operation_type;
  currency = payload.currency;
  target_currency = target_currency;
  rate = payload.rate;
  is_active = true;
  created_by_id = by;
  deactivated_at = none;
}

module _ (company_id by : ℕ) (payload : PrivateRateCreateRequest) (target : Option String) where
  new_rate-is_active_in :
      (i : ℕ)
      → is_active_in
          (requested_slot company_id payload target)
          (new_rate company_id by payload target i)
        ≡ true
  new_rate-is_active_in i =
      rw
        (
          ==_refl company_id,
          ==_refl payload.collaboration_id,
          ==_refl payload.currency,
          ==_refl target,
          ==_refl payload.operation_type,
        )
        refl

  off :
      (now : ℕ) (r : PrivateSendingRate)
      → is_active_in (requested_slot company_id payload target) (deactivated now r) ≡ false
  off now r = ground arith

  -- The database after the active rates of the slot were `xs` and the old one, if any, gave way.
  one_left :
      (i now : ℕ) (o : Option PrivateSendingRate) (xs : List PrivateSendingRate)
      → scalar_one_or_none (is_active_in (requested_slot company_id payload target)) xs ≡ ok o
      → keep (is_active_in (requested_slot company_id payload target)) (
          (elim o [ none ↦ xs | some r ↦ update_row r.id (deactivated now) xs ])
          ++ new_rate company_id by payload target i ∷ [])
        ≡ new_rate company_id by payload target i ∷ []
  one_left i now o xs h =
      let f = is_active_in (requested_slot company_id payload target) in
      let new = new_rate company_id by payload target i in
      elim (one_of_cases f (keep f xs) {o = o} h) [
        | inl (none_there, empty) ↦
            rw (none_there, keep-append_kept f xs new (new_rate-is_active_in i), empty) refl
        | inr (r, there, single) ↦
            let gone =
              update_row-none_kept f r.id (deactivated now) xs (off now) (rw single (refl, tt)) in
            rw
              (
                there,
                keep-append_kept f (update_row r.id (deactivated now) xs) new
                    (new_rate-is_active_in i),
                gone,
              )
              refl
      ]

-- What follows the query for the active rate.
abbrev replaced :
    ℕ → ℕ → PrivateRateCreateRequest → Option String → Option PrivateSendingRate → Service ℕ
replaced company_id by payload target existing = do
  now ← gets (λ s. s.now)
  when_some existing (λ r. change_rate r.id (deactivated now))
  rate_id ← fresh_id
  add_rate (new_rate company_id by payload target rate_id)
  pure rate_id

module _ (company_id by : ℕ) (payload : PrivateRateCreateRequest) (target : Option String)
    (t : Db) where
  written :
      (o : Option PrivateSendingRate)
      → scalar_one_or_none (is_active_in (requested_slot company_id payload target)) t.private_rates
        ≡ ok o
      → {rate_id : ℕ} {s' : Db} → replaced company_id by payload target o t ≡ ok (rate_id, s')
      → keep (is_active_in (requested_slot company_id payload target)) s'.private_rates
        ≡ new_rate company_id by payload target rate_id ∷ []
  unfolding ◌>>=◌ when_some change_rate fresh_id add_rate
  written none single {rate_id} {s'} h =
      let left =
        one_left company_id by payload target t.next_id t.now none t.private_rates single in
      let rows : t.private_rates ++ new_rate company_id by payload target t.next_id ∷ []
          ≡ s'.private_rates =
        ground arith in
      let same : t.next_id ≡ rate_id = ground arith in rw (← rows, ← same) left
  written (some r) single {rate_id} {s'} h =
      let left =
        one_left company_id by payload target t.next_id t.now (some r) t.private_rates single in
      let rows : update_row r.id (deactivated t.now) t.private_rates
            ++ new_rate company_id by payload target t.next_id ∷ []
          ≡ s'.private_rates =
        ground arith in
      let same : t.next_id ≡ rate_id = ground arith in rw (← rows, ← same) left

-- A rate that is set is the one active rate of its slot: whatever was active there before is not any
-- more, whatever the country it was labelled with.
pub set_rate_exclusive :
    (company_id by : ℕ) (payload : PrivateRateCreateRequest) (s : Db) {rate_id : ℕ} {s' : Db}
    → set_rate company_id by payload s ≡ ok (rate_id, s')
    → (target : Option String) × (t : Db) × (resolve_target_currency payload s ≡ ok (target, t))
      × (keep (is_active_in (requested_slot company_id payload target)) s'.private_rates
          ≡ new_rate company_id by payload target rate_id ∷ [])
unfolding set_rate ◌>>=◌ when_some change_rate fresh_id add_rate
set_rate_exclusive company_id by payload s {rate_id} {s'} h =
    elim (Result-cases (resolve_target_currency payload s)) [
      | inr (e, raised) ↦ cc (rw raised at h)
      | inl ((target, t), resolved) ↦
          let slot = requested_slot company_id payload target in
          let h' = rw resolved at h in
          elim (Result-cases (scalar_one_or_none (is_active_in slot) t.private_rates)) [
            | inr (e, raised) ↦ cc (rw raised at h')
            | inl (o, single) ↦ (
              target,
              t,
              resolved,
              written company_id by payload target t o single (rw single at h'),
            )
          ]
    ]
