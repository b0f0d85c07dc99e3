-- ===== src/Operations/Conservation.antt =====
-- A balanced operation in one currency creates no money and loses none.
use d_transfert_backend.Base.{
  ℕ, arith, String, Bool, true, false, not, none, List, [], ◌∷◌, ◌≡◌, refl, subst, ap, ◌∙◌, ◌==◌,
  id_eq, string_eq, ◌&&◌, map, any, all, nat_eq, nat_eq_iff, Bool-cases, inl, inr,
}
use d_transfert_backend.Int.{eqb_ℤ, ◌+ℤ◌, ◌-ℤ◌, int_laws}
use d_transfert_backend.Money.{Decimal, quantize, zero_amount, is_positive}
use d_transfert_backend.Money.Rounding.{IsCents, quantize-eq_self}
use d_transfert_backend.Errors.{ok}
use d_transfert_backend.Models.{NationalOperationType}
use d_transfert_backend.Database.{Db}
use d_transfert_backend.Wallets.Ledger.{net, signed}
use d_transfert_backend.Entries.{Totals, add_to}
use d_transfert_backend.Operations.{
  LineRequest, NationalOperationCreateRequest, direction_of, amount_of, create_operation,
}
use d_transfert_backend.Operations.Schema.{
  has_single_direction, are_distinct, totals_of, is_balanced, is_valid,
}
use d_transfert_backend.Operations.Effect.{line_effect, effect, create_operation_moves}

-- What the lines change, in minus out.
abbrev change : List LineRequest → Decimal
change [] = zero_amount
change (l ∷ ls) = (l.amount_in -ℤ l.amount_out) +ℤ change ls

abbrev sum_of : Totals → Decimal
sum_of [] = zero_amount
sum_of ((_, total) ∷ ts) = total +ℤ sum_of ts

sum_of-add_to : (c : String) (a : Decimal) (ts : Totals) → sum_of (add_to c a ts) ≡ sum_of ts +ℤ a
sum_of-add_to c a [] = omega int_laws
sum_of-add_to c a ((k, total) ∷ ts) = elim (Bool-cases (k == c)) [
  | inl same ↦ rw same (omega int_laws)
  | inr other ↦ rw other (ap (λ x. total +ℤ x) (sum_of-add_to c a ts) ∙ omega int_laws)
]

sum_of-totals_of :
    (ls : List LineRequest) (ts : Totals) → sum_of (totals_of ls ts) ≡ sum_of ts +ℤ change ls
sum_of-totals_of [] ts = omega int_laws
sum_of-totals_of (l ∷ ls) ts =
    sum_of-totals_of ls (add_to l.currency (l.amount_in -ℤ l.amount_out) ts)
    ∙ ap (λ x. x +ℤ change ls) (sum_of-add_to l.currency (l.amount_in -ℤ l.amount_out) ts)
    ∙ omega int_laws

eqb_ℤ_zero : (a : Decimal) → eqb_ℤ a zero_amount ≡ true → a ≡ zero_amount
eqb_ℤ_zero a h = ground arith

balanced_total : (ts : Totals) → is_balanced none ts ≡ true → sum_of ts ≡ zero_amount
unfolding is_balanced
balanced_total [] h = ground arith
balanced_total ((k, a) ∷ []) h = grind (int_laws, eqb_ℤ_zero a h)
balanced_total (a ∷ b ∷ ts) h = ground arith

-- The effect of a line on its own wallet.
abbrev line_change : LineRequest → Decimal
line_change l = signed (direction_of l) (quantize (amount_of l))

-- Amounts in whole cents.
abbrev pub AreCents : List LineRequest → Type 0
AreCents [] = Unit
AreCents (l ∷ ls) = IsCents l.amount_in × IsCents l.amount_out × AreCents ls

pays_nothing :
    (l : LineRequest)
    → has_single_direction l ≡ true
    → is_positive l.amount_in ≡ true
    → l.amount_out ≡ zero_amount
pays_nothing l single into = ground arith

gets_nothing :
    (l : LineRequest)
    → has_single_direction l ≡ true
    → is_positive l.amount_in ≡ false
    → l.amount_in ≡ zero_amount
gets_nothing l single out = ground arith

cents_change :
    (l : LineRequest)
    → has_single_direction l ≡ true
    → IsCents l.amount_in
    → IsCents l.amount_out
    → line_change l ≡ l.amount_in -ℤ l.amount_out
cents_change l single ins outs = elim (Bool-cases (is_positive l.amount_in)) [
  | inl into ↦
      rw into
        (quantize-eq_self l.amount_in ins ∙ (rw (pays_nothing l single into) (omega int_laws)))
  | inr out ↦ rw out (
      ap (λ x. zero_amount -ℤ x) (quantize-eq_self l.amount_out outs)
      ∙ (rw (gets_nothing l single out) (omega int_laws)))
]

-- The effects of some lines on some wallets, added up.
abbrev spread : List ℕ → List LineRequest → Decimal
spread [] lines = zero_amount
spread (w ∷ ws) lines = effect w lines +ℤ spread ws lines

abbrev line_spread : List ℕ → LineRequest → Decimal
line_spread [] l = zero_amount
line_spread (w ∷ ws) l = line_effect w l +ℤ line_spread ws l

spread-nil : (ws : List ℕ) → spread ws [] ≡ zero_amount
spread-nil [] = refl
spread-nil (w ∷ ws) = rw (spread-nil ws) (omega int_laws)

spread-cons :
    (ws : List ℕ) (l : LineRequest) (ls : List LineRequest)
    → spread ws (l ∷ ls) ≡ line_spread ws l +ℤ spread ws ls
spread-cons [] l ls = omega int_laws
spread-cons (w ∷ ws) l ls = rw (spread-cons ws l ls) (omega int_laws)

abbrev is_in : ℕ → List ℕ → Bool
is_in w ws = any (λ v. v == w) ws

line_spread-absent :
    (ws : List ℕ) (l : LineRequest) → is_in l.wallet_id ws ≡ false → line_spread ws l ≡ zero_amount
line_spread-absent [] l h = refl
line_spread-absent (w ∷ ws) l h = elim (Bool-cases (nat_eq l.wallet_id w)) [
  | inl here ↦ ground arith
  | inr there ↦ rw there (rw (line_spread-absent ws l (ground arith)) (omega int_laws))
]

absent : (b c : Bool) → (not b && c) ≡ true → b ≡ false
absent b c h = ground arith

rest_without :
    (w : ℕ) (ws : List ℕ) (l : LineRequest)
    → are_distinct (w ∷ ws) ≡ true
    → nat_eq l.wallet_id w ≡ true
    → is_in l.wallet_id ws ≡ false
rest_without w ws l d here =
    ap (λ x. is_in x ws) ((nat_eq_iff l.wallet_id w).0 here)
    ∙ absent (is_in w ws) (are_distinct ws) d

line_spread-once :
    (ws : List ℕ) (l : LineRequest)
    → are_distinct ws ≡ true
    → is_in l.wallet_id ws ≡ true
    → line_spread ws l ≡ line_change l
line_spread-once [] l d h = ground arith
line_spread-once (w ∷ ws) l d h = elim (Bool-cases (nat_eq l.wallet_id w)) [
  | inl here ↦ rw here (rw (line_spread-absent ws l (rest_without w ws l d here)) (omega int_laws))
  | inr there ↦ rw there (rw (line_spread-once ws l (ground arith) (ground arith)) (omega int_laws))
]

abbrev are_in : List ℕ → List LineRequest → Bool
are_in ws ls = all (λ l. is_in l.wallet_id ws) ls

spread_lem :
    (ws : List ℕ) (ls : List LineRequest)
    → are_distinct ws ≡ true
    → are_in ws ls ≡ true
    → all has_single_direction ls ≡ true
    → AreCents ls
    → spread ws ls ≡ change ls
spread_lem ws [] d i h c = spread-nil ws
spread_lem ws (l ∷ ls) d i h (ins, outs, rest) =
    spread-cons ws l ls
    ∙ ap (λ x. x +ℤ spread ws ls)
        (line_spread-once ws l d (ground arith) ∙ cents_change l (ground arith) ins outs)
    ∙ ap (λ x. (l.amount_in -ℤ l.amount_out) +ℤ x)
        (spread_lem ws ls d (ground arith) (ground arith) rest)

are_in-more :
    (w : ℕ) (ws : List ℕ) (ls : List LineRequest) → are_in ws ls ≡ true → are_in (w ∷ ws) ls ≡ true
are_in-more w ws [] h = refl
are_in-more w ws (l ∷ ls) h = ground (arith, are_in-more w ws ls)

are_in_own : (ls : List LineRequest) → are_in (map (λ l. l.wallet_id) ls) ls ≡ true
are_in_own [] = refl
are_in_own (l ∷ ls) =
    ground (arith, are_in-more l.wallet_id (map (λ m. m.wallet_id) ls) ls (are_in_own ls))

-- What the wallets of some lines hold more after than before, added up.
abbrev pub gained : Db → Db → List LineRequest → Decimal
gained s s' [] = zero_amount
gained s s' (l ∷ ls) =
    (net l.wallet_id s'.wallet_movements -ℤ net l.wallet_id s.wallet_movements) +ℤ gained s s' ls

gained-spread :
    (s s' : Db) (lines ls : List LineRequest)
    → ((i : ℕ) → net i s'.wallet_movements ≡ net i s.wallet_movements +ℤ effect i lines)
    → gained s s' ls ≡ spread (map (λ l. l.wallet_id) ls) lines
gained-spread s s' lines [] h = refl
gained-spread s s' lines (l ∷ ls) h =
    rw (gained-spread s s' lines ls h) (rw (h l.wallet_id) (omega int_laws))

zero_left : {a : Decimal} (b : Decimal) → a ≡ zero_amount +ℤ b → a ≡ zero_amount → b ≡ zero_amount
zero_left b h k = grind int_laws

parts : (a b c d e : Bool) → (a && b && c && d && e) ≡ true → (a ≡ true) × (d ≡ true) × (e ≡ true)
parts a b c d e h = (ground arith, ground arith, ground arith)

change_is_zero :
    (ls : List LineRequest) → is_balanced none (totals_of ls []) ≡ true → change ls ≡ zero_amount
change_is_zero ls h = zero_left _ (sum_of-totals_of ls []) (balanced_total _ h)

-- A valid operation without an exchange rate, its amounts in whole cents, that returns leaves the
-- money of the wallets it names as it was, all added up.
pub create_operation_conserves :
    (company_id : ℕ) (type : NationalOperationType) (by : ℕ)
    (payload : NationalOperationCreateRequest) (s : Db) {operation_id : ℕ} {s' : Db}
    → is_valid payload ≡ true
    → payload.exchange_rate ≡ none
    → AreCents payload.lines
    → create_operation company_id type by payload s ≡ ok (operation_id, s')
    → gained s s' payload.lines ≡ zero_amount
unfolding is_valid
create_operation_conserves company_id type by payload s {s' = s'} valid no_rate cents h =
    let (single, distinct, balanced) = parts _ _ _ _ _ valid in
    gained-spread s s' payload.lines payload.lines
      (λ i. create_operation_moves i company_id type by payload s h)
    ∙ spread_lem _ payload.lines distinct (are_in_own payload.lines) single cents
    ∙ change_is_zero payload.lines
        (subst (λ r. is_balanced r (totals_of payload.lines []) ≡ true) no_rate balanced)
