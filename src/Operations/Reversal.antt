-- ===== src/Operations/Reversal.antt =====
-- A cancellation of a national operation undoes it.
use d_transfert_backend.Base.{
  ℕ, ◌≡◌, ◌∙◌, ap, arith, List, [], keep, ◌==◌, id_eq, ◌∷◌, some, nat_eq, if◌then◌else◌, Bool-cases,
  inl, inr, map, ◌⊎◌,
}
use d_transfert_backend.Int.{pos, ◌+ℤ◌, ◌-ℤ◌, ◌≤ℤ◌, int_laws}
use d_transfert_backend.Money.{Decimal, quantize, zero_amount, is_positive}
use d_transfert_backend.Errors.{Result, ok}
use d_transfert_backend.Table.{find}
use d_transfert_backend.Models.{NationalOperation, NationalOperationLine, operation_keyed}
use d_transfert_backend.Database.{Db}
use d_transfert_backend.Service.{◌>>=◌}
use d_transfert_backend.Service.Keeps.{>>=-eq-ok}
use d_transfert_backend.Service.Triple.{Triple, Triple-bind, Triple-Keeps, Triple-after, Triple-ok}
use d_transfert_backend.Wallets.Ledger.{net}
use d_transfert_backend.Operations.{
  load_with_lines, WithLines, cancel_operation, cancel_loaded, mirrored,
}
use d_transfert_backend.Locking.Nets.{Nets}
use d_transfert_backend.Operations.Effect.{effect, line_effect, operation_nets, book_lines-Nets}

-- A row with money in one direction only.
abbrev pub IsOneWay : NationalOperationLine → Type 0
IsOneWay l =
    (pos 0 ≤ℤ l.amount_in)
    × (pos 0 ≤ℤ l.amount_out)
    × ((l.amount_in ≡ zero_amount) ⊎ (l.amount_out ≡ zero_amount))

abbrev pub AllOneWay : List NationalOperationLine → Type 0
AllOneWay [] = Unit
AllOneWay (l ∷ ls) = IsOneWay l × AllOneWay ls

-- What the rows of an operation have brought into a wallet.
abbrev pub brought : ℕ → List NationalOperationLine → Decimal
brought i [] = zero_amount
brought i (l ∷ ls) =
    (if nat_eq l.wallet_id i then quantize l.amount_in -ℤ quantize l.amount_out else zero_amount)
    +ℤ brought i ls

mirrored_effect :
    (i : ℕ) (l : NationalOperationLine)
    → IsOneWay l
    → line_effect i (mirrored l)
      ≡ zero_amount
        -ℤ (if nat_eq l.wallet_id i
            then quantize l.amount_in -ℤ quantize l.amount_out
            else zero_amount)
unfolding quantize
mirrored_effect i l (n, m, which) = elim (Bool-cases (nat_eq l.wallet_id i)) [
  | inl here ↦ elim (Bool-cases (is_positive l.amount_out)) [
    | inl positive ↦
        let zero_in : l.amount_in ≡ zero_amount = ground arith in
        rw (here, positive, zero_in) (omega int_laws)
    | inr nothing ↦
        let zero_out : l.amount_out ≡ zero_amount = ground arith in
        rw (here, nothing, zero_out) (omega int_laws)
  ]
  | inr other ↦ rw other (omega int_laws)
]

effect-mirrored :
    (i : ℕ) (ls : List NationalOperationLine)
    → AllOneWay ls
    → effect i (map mirrored ls) ≡ zero_amount -ℤ brought i ls
effect-mirrored i [] h = omega int_laws
effect-mirrored i (l ∷ ls) (h, rest) =
    rw (mirrored_effect i l h, effect-mirrored i ls rest) (omega int_laws)

cancel_rest-Nets :
    (i : ℕ) (n : Decimal) (company_id operation_id by : ℕ) (loaded : WithLines)
    → Triple
        (Nets i n)
        (cancel_loaded company_id operation_id by loaded)
        (λ u. Nets i (n +ℤ effect i (map mirrored loaded.lines)))
unfolding cancel_loaded
cancel_rest-Nets i n company_id operation_id by loaded =
    Triple-after _ _ (search operation_nets) λ checked.
      Triple-after _ _ (search operation_nets) λ locked.
        Triple-after _ _ (search operation_nets) λ reference.
          Triple-after _ _ (search operation_nets) λ now.
            Triple-after _ _ (search operation_nets) λ reversal_id.
              Triple-after _ _ (search operation_nets) λ added.
                Triple-bind (λ u. Nets i (n +ℤ effect i (map mirrored loaded.lines))) _ _
                  (book_lines-Nets i n reversal_id by (map mirrored loaded.lines))
                  λ booked. Triple-Keeps _ (search operation_nets)

abbrev pub lines_of : ℕ → Db → List NationalOperationLine
lines_of operation_id s = keep (λ l. l.national_operation_id == operation_id) s.operation_lines

load_ok :
    (company_id operation_id : ℕ) (s : Db) (o : NationalOperation) {loaded : WithLines} {t : Db}
    → find operation_id s.operations ≡ some o
    → load_with_lines company_id operation_id s ≡ ok (loaded, t)
    → (t ≡ s) × (loaded.lines ≡ lines_of o.id s)
unfolding load_with_lines ◌>>=◌
load_ok company_id operation_id s o {loaded} {t} found h =
    elim (Bool-cases (o.company_id == company_id)) [
      | inl own ↦
          let e : ◌≡◌ {A = Result (WithLines × Db)}
              (ok (record { operation = o; lines = lines_of o.id s }, s)) (ok (loaded, t)) =
            rw (found, own) at h in
          (cc, cc)
      | inr foreign ↦ cc (rw (found, foreign) at h)
    ]

-- A cancellation that returns has loaded an operation of the company, and in every wallet it has
-- taken back what the rows of the operation brought in, if each row goes in one direction.
pub cancel_operation_undoes :
    (i company_id operation_id by : ℕ) (s : Db) {reversal_id : ℕ} {s' : Db} (o : NationalOperation)
    → find operation_id s.operations ≡ some o
    → AllOneWay (lines_of o.id s)
    → cancel_operation company_id operation_id by s ≡ ok (reversal_id, s')
    → net i s'.wallet_movements ≡ net i s.wallet_movements -ℤ brought i (lines_of o.id s)
unfolding cancel_operation
cancel_operation_undoes i company_id operation_id by s {reversal_id} {s'} o found ways h =
    let (loaded, t, first, rest) = >>=-eq-ok _ _ s h in
    let (same, rows) = load_ok company_id operation_id s o {loaded = loaded} {t = t} found first in
    let n = net i s.wallet_movements in
    let moved =
      Triple-ok (cancel_loaded company_id operation_id by loaded)
        (cancel_rest-Nets i n company_id operation_id by loaded) t
        (ap (λ (x : Db). net i x.wallet_movements) same) rest in
    moved
    ∙ ap (λ ls. n +ℤ effect i (map mirrored ls)) rows
    ∙ (rw (effect-mirrored i (lines_of o.id s) ways) (omega int_laws))
