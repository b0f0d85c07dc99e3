-- ===== src/Clients/Ledger.antt =====
-- The invariant of the client journal: a client's balance is what its movements add up to, and
-- every movement records the balance before and after it.
use d_transfert_backend.Base.{
  ℕ, ◌≤◌, ◌≡◌, ◌≢◌, refl, sym, ap, subst, ◌∙◌, String, true, false, ℕ_discrete, none, some, List,
  [], ◌∷◌, ◌++◌, arith, nat_eq, if◌then◌else◌, Option-cases, inl, inr,
}
use d_transfert_backend.Int.{◌+ℤ◌, int_laws}
use d_transfert_backend.Money.{Decimal, quantize, zero_amount}
use d_transfert_backend.Money.Rounding.{IsCents, IsCents-add, quantize-IsCents, quantize-eq_self}
use d_transfert_backend.Errors.{Result, ok, err}
use d_transfert_backend.Models.{Client, ClientBalanceMovement, client_keyed}
use d_transfert_backend.Table.{find, update_row}
use d_transfert_backend.Table.Laws.{
  find-update_row_self, find-update_row_ne, find-none-update_row, find-none_of_update_row,
}
use d_transfert_backend.Database.{Db}
use d_transfert_backend.Service.Keeps.{Keeps, Kept}
use d_transfert_backend.Clients.{apply_balance_delta}

-- What the journal of a client adds up to.
abbrev pub owed : ℕ → List ClientBalanceMovement → Decimal
owed i [] = zero_amount
owed i (m ∷ ms) = (if nat_eq m.client_id i then m.delta else zero_amount) +ℤ owed i ms

pub owed-append :
    (i : ℕ) (ms : List ClientBalanceMovement) (m : ClientBalanceMovement)
    → owed i (ms ++ m ∷ []) ≡ owed i ms +ℤ owed i (m ∷ [])
owed-append i [] m = omega int_laws
owed-append i (x ∷ ms) m = rw (owed-append i ms m) (omega int_laws)

-- Every movement is of a whole number of cents.
abbrev pub WholeCents : List ClientBalanceMovement → Type 0
WholeCents [] = Unit
WholeCents (m ∷ ms) = IsCents m.delta × WholeCents ms

WholeCents-append :
    (ms : List ClientBalanceMovement) (m : ClientBalanceMovement)
    → WholeCents ms
    → IsCents m.delta
    → WholeCents (ms ++ m ∷ [])
WholeCents-append [] m h c = (c, tt)
WholeCents-append (x ∷ ms) m h c = (h.0, WholeCents-append ms m h.1 c)

pub record IsJournal (next_id : ℕ) (cs : List Client) (ms : List ClientBalanceMovement)
    : Type 0 where
  pub booked :
      (i : ℕ) (c : Client) → find i cs ≡ some c → IsCents c.balance × (c.balance ≡ owed i ms)
  pub orphans : (i : ℕ) → find i cs ≡ none → owed i ms ≡ zero_amount
  pub fresh : (i : ℕ) → next_id ≤ i → find i cs ≡ none
  pub whole : WholeCents ms

abbrev pub IsBooked : Db → Type 0
IsBooked s = IsJournal s.next_id s.clients s.client_movements

owed-append_ne :
    (i : ℕ) (ms : List ClientBalanceMovement) (m : ClientBalanceMovement)
    → m.client_id ≢ i
    → owed i (ms ++ m ∷ []) ≡ owed i ms
owed-append_ne i ms m ne =
    let other : nat_eq m.client_id i ≡ false = ground arith in
    rw (owed-append i ms m, other) (omega int_laws)

owed-append_self :
    (ms : List ClientBalanceMovement) (m : ClientBalanceMovement)
    → owed m.client_id (ms ++ m ∷ []) ≡ owed m.client_id ms +ℤ m.delta
owed-append_self ms m =
    let same : nat_eq m.client_id m.client_id ≡ true = ground arith in
    rw (owed-append m.client_id ms m, same) (omega int_laws)

abbrev with_balance : Decimal → Client → Client
with_balance balance c = record c { balance = balance }

-- The database after a client's balance and the movement that explains it have been written.
abbrev pub delta_applied : ℕ → Decimal → ClientBalanceMovement → Db → Db
delta_applied client_id balance m s = record s {
  clients = update_row client_id (λ c. record c { balance = balance }) s.clients;
  client_movements = s.client_movements ++ m ∷ [];
}

abbrev pub delta_row : ℕ → Client → Decimal → String → ℕ → String → ℕ → ClientBalanceMovement
delta_row client_id client delta source_type source_id currency created_by_id = record {
  client_id = client_id;
  source_type = source_type;
  source_id = source_id;
  currency = currency;
  delta = quantize delta;
  balance_before = client.balance;
  balance_after = quantize (client.balance +ℤ delta);
  created_by_id = created_by_id;
}

module _ (client_id : ℕ) (delta : Decimal) (source : String) (source_id : ℕ) (currency : String)
    (by : ℕ) where
  -- A delta that returns found its client and wrote the balance and the movement, nothing else.
  pub apply_balance_delta_ok :
      (s : Db) {m : ClientBalanceMovement} {s' : Db}
      → apply_balance_delta client_id delta source source_id currency by s ≡ ok (m, s')
      → (c : Client) × (find client_id s.clients ≡ some c)
        × (m ≡ delta_row client_id c delta source source_id currency by)
        × (s' ≡ delta_applied client_id (quantize (c.balance +ℤ delta)) m s)
  unfolding apply_balance_delta
  apply_balance_delta_ok s {m} {s'} h = elim (Option-cases (find client_id s.clients)) [
    | inl missing ↦ ground arith
    | inr (c, e) ↦ (c, e, ground arith, ground arith)
  ]

-- Booking whole cents keeps the journal.
module _ (m : ClientBalanceMovement) (balance : Decimal) (s : Db) (c : Client) where
  pub delta_applied-IsBooked :
      IsBooked s
      → find m.client_id s.clients ≡ some c
      → IsCents balance
      → IsCents m.delta
      → balance ≡ c.balance +ℤ m.delta
      → IsBooked (delta_applied m.client_id balance m s)
  delta_applied-IsBooked journal found cents d e = record {
    booked = λ i v h. elim (ℕ_discrete m.client_id i) [
      | yes same ↦
          let self =
            find-update_row_self m.client_id (with_balance balance) s.clients (λ x. refl) in
          let (_, old) = journal.booked m.client_id c found in
          let at_id =
            subst (λ j. find j (update_row m.client_id (with_balance balance) s.clients) ≡ some v)
              (sym same) h in
          let v_eq : v.balance ≡ balance = ground arith in
          (
            rw v_eq cents,
            v_eq
                ∙ subst (λ j. balance ≡ owed j (s.client_movements ++ m ∷ [])) same
                    (rw (owed-append_self s.client_movements m, ← old) e),
          )
      | no other ↦
          let here =
            find-update_row_ne m.client_id i (with_balance balance) s.clients (λ x. refl) other in
          let (b, old) = journal.booked i v (rw here at h) in
          (b, rw (owed-append_ne i s.client_movements m other) old)
    ];
    orphans = λ i h.
        let missing =
          find-none_of_update_row m.client_id i (with_balance balance) s.clients (λ x. refl) h in
        elim (ℕ_discrete m.client_id i) [
          | yes same ↦ ground arith
          | no other ↦ rw (owed-append_ne i s.client_movements m other) (journal.orphans i missing)
        ];
    fresh = λ i h.
        find-none-update_row m.client_id i (with_balance balance) s.clients (λ x. refl)
          (journal.fresh i h);
    whole = WholeCents-append s.client_movements m journal.whole d;
  }

module _ (client_id : ℕ) (delta : Decimal) (source : String) (source_id : ℕ) (currency : String)
    (by : ℕ) where
  -- A delta of whole cents, whether it returns or raises, keeps the client journal.
  pub apply_balance_delta-IsBooked :
      IsCents delta
      → Keeps IsBooked (apply_balance_delta client_id delta source source_id currency by)
  apply_balance_delta-IsBooked cents = record {
    at = λ s journal.
        kept s journal (apply_balance_delta client_id delta source source_id currency by s) refl;
  }
    where
      kept :
          (s : Db)
          → IsBooked s
          → (r : Result (ClientBalanceMovement × Db))
          → apply_balance_delta client_id delta source source_id currency by s ≡ r
          → Kept IsBooked r
      kept s journal (err e) h = tt
      kept s journal (ok (m, s')) h =
          let (c, found, row, new) =
            apply_balance_delta_ok client_id delta source source_id currency by s h in
          let (old_cents, _) = journal.booked client_id c found in
          let total = IsCents-add c.balance delta old_cents cents in
          let row' = delta_row client_id c delta source source_id currency by in
          let exact : quantize (c.balance +ℤ delta) ≡ c.balance +ℤ quantize delta =
            quantize-eq_self (c.balance +ℤ delta) total
            ∙ ap (λ d. c.balance +ℤ d) (sym (quantize-eq_self delta cents)) in
          subst IsBooked (sym new) (
            subst (λ x. IsBooked (delta_applied client_id (quantize (c.balance +ℤ delta)) x s))
              (sym row)
              (delta_applied-IsBooked row' (quantize (c.balance +ℤ delta)) s c journal found
                (quantize-IsCents (c.balance +ℤ delta)) (quantize-IsCents delta) exact))
