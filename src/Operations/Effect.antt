-- ===== src/Operations/Effect.antt =====
-- What a national operation does to the wallets.
use d_transfert_backend.Base.{ℕ, ◌≡◌, refl, List, [], id_eq, ◌∷◌, nat_eq, if◌then◌else◌}
use d_transfert_backend.Int.{◌+ℤ◌, int_laws}
use d_transfert_backend.Money.{Decimal, quantize, zero_amount}
use d_transfert_backend.Errors.{ok}
use d_transfert_backend.Models.{
  NationalOperation, NationalOperationLine, NationalOperationType, operation_keyed,
}
use d_transfert_backend.Database.{Db}
use d_transfert_backend.Service.{for_each}
use d_transfert_backend.Service.Keeps.{Keeps, Keeps-modify, Keeps-pure, keeps_rules}
use d_transfert_backend.Service.Triple.{Triple, Triple-bind, Triple-Keeps, Triple-after, Triple-ok}
use d_transfert_backend.Wallets.Ledger.{net, signed}
use d_transfert_backend.Operations.{
  LineRequest, direction_of, amount_of, book_line, add_operation, add_operation_line,
  change_operation, generate_reference, NationalOperationCreateRequest, create_operation,
}
use d_transfert_backend.Locking.Nets.{Nets, retarget, moved-Nets, nets_rules}

-- What a line does to a wallet.
abbrev pub line_effect : ℕ → LineRequest → Decimal
line_effect i line =
    if nat_eq line.wallet_id i
    then signed (direction_of line) (quantize (amount_of line))
    else zero_amount

abbrev pub effect : ℕ → List LineRequest → Decimal
effect i [] = zero_amount
effect i (line ∷ lines) = line_effect i line +ℤ effect i lines

module _ (i : ℕ) (n : Decimal) where
  pub add_operation_line-Nets :
      (l : NationalOperationLine) → Keeps (Nets i n) (add_operation_line l)
  unfolding add_operation_line
  add_operation_line-Nets l = Keeps-modify _ (λ s h. h)

  pub add_operation-Nets : (o : NationalOperation) → Keeps (Nets i n) (add_operation o)
  unfolding add_operation
  add_operation-Nets o = Keeps-modify _ (λ s h. h)

  pub change_operation-Nets :
      (j : ℕ) (f : NationalOperation → NationalOperation) → Keeps (Nets i n) (change_operation j f)
  unfolding change_operation
  change_operation-Nets j f = Keeps-modify _ (λ s h. h)

  pub generate_reference-Nets : (c : ℕ) → Keeps (Nets i n) (generate_reference c)
  unfolding generate_reference
  generate_reference-Nets c = search keeps_rules

pub ruleset operation_nets = (
  nets_rules, add_operation_line-Nets, add_operation-Nets, change_operation-Nets,
  generate_reference-Nets,
)

book_line-Nets :
    (i : ℕ) (n : Decimal) (operation_id by : ℕ) (line : LineRequest)
    → Triple (Nets i n) (book_line operation_id by line) (λ u. Nets i (n +ℤ line_effect i line))
unfolding book_line
book_line-Nets i n operation_id by line =
    Triple-bind (λ m. Nets i (n +ℤ line_effect i line)) _ _
      (moved-Nets i n line.wallet_id (direction_of line) (amount_of line) "national_operation"
        operation_id by)
      λ m. Triple-Keeps _ (add_operation_line-Nets i (n +ℤ line_effect i line) _)

pub book_lines-Nets :
    (i : ℕ) (n : Decimal) (operation_id by : ℕ) (lines : List LineRequest)
    → Triple
        (Nets i n)
        (for_each (book_line operation_id by) lines)
        (λ u. Nets i (n +ℤ effect i lines))
unfolding for_each
book_lines-Nets i n operation_id by [] =
    retarget i _ n (n +ℤ zero_amount) (omega int_laws) (Triple-Keeps _ (Keeps-pure []))
book_lines-Nets i n operation_id by (line ∷ lines) =
    let n' = n +ℤ line_effect i line in
    retarget i _ (n' +ℤ effect i lines) (n +ℤ (line_effect i line +ℤ effect i lines))
      (omega int_laws)
      (Triple-bind (λ u. Nets i n') _ _ (book_line-Nets i n operation_id by line)
        λ y.
          Triple-bind (λ u. Nets i (n' +ℤ effect i lines)) _ _
            (book_lines-Nets i n' operation_id by lines) λ ys. Triple-Keeps _ (Keeps-pure (y ∷ ys)))

create_operation-Nets :
    (i : ℕ) (n : Decimal) (company_id : ℕ) (type : NationalOperationType) (by : ℕ)
    (payload : NationalOperationCreateRequest)
    → Triple
        (Nets i n)
        (create_operation company_id type by payload)
        (λ u. Nets i (n +ℤ effect i payload.lines))
unfolding create_operation
create_operation-Nets i n company_id type by payload =
    Triple-after _ _ (search operation_nets) λ wallets.
      Triple-after _ _ (search operation_nets) λ checked.
        Triple-after _ _ (search operation_nets) λ reference.
          Triple-after _ _ (search operation_nets) λ now.
            Triple-after _ _ (search operation_nets) λ operation_id.
              Triple-after _ _ (search operation_nets) λ added.
                Triple-bind (λ u. Nets i (n +ℤ effect i payload.lines)) _ _
                  (book_lines-Nets i n operation_id by payload.lines)
                  λ booked. Triple-Keeps _ (search operation_nets)

pub create_operation_moves :
    (i company_id : ℕ) (type : NationalOperationType) (by : ℕ)
    (payload : NationalOperationCreateRequest) (s : Db) {operation_id : ℕ} {s' : Db}
    → create_operation company_id type by payload s ≡ ok (operation_id, s')
    → net i s'.wallet_movements ≡ net i s.wallet_movements +ℤ effect i payload.lines
create_operation_moves i company_id type by payload s h =
    Triple-ok (create_operation company_id type by payload)
      (create_operation-Nets i (net i s.wallet_movements) company_id type by payload) s refl h
