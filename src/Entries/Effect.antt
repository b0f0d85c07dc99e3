-- ===== src/Entries/Effect.antt =====
-- What an entry does to the wallets, and that a cancellation gives it back.
use d_transfert_backend.Base.{
  ℕ, ◌≡◌, refl, sym, ap, ◌∙◌, some, List, [], ◌∷◌, nat_eq, if◌then◌else◌, ◌==◌, id_eq, Bool-cases,
  inl, inr, arith,
}
use d_transfert_backend.Int.{◌+ℤ◌, ◌-ℤ◌, int_laws}
use d_transfert_backend.Money.{Decimal, quantize, zero_amount}
use d_transfert_backend.Errors.{ok}
use d_transfert_backend.Table.{find, provided}
use d_transfert_backend.Models.{Entry, EntryLine, MovementDirection, entry_keyed}
use d_transfert_backend.Database.{Db}
use d_transfert_backend.Service.{for_each}
use d_transfert_backend.Service.Keeps.{Keeps, Keeps-modify, Keeps-pure, Keeps-gets, keeps_rules}
use d_transfert_backend.Service.Guarded.{
  Yields, Yields-pure, Yields-gets, Yields-or_raise, Yields-bind, Yields-after,
}
use d_transfert_backend.Service.Triple.{
  Triple, Triple-bind, Triple-Keeps, Triple-after, Triple-ok, Triple-given, Triple-Yields,
}
use d_transfert_backend.Wallets.Ledger.{net, signed}
use d_transfert_backend.Locking.Nets.{Nets, retarget, moved-Nets, nets_rules}
use d_transfert_backend.Entries.{
  Loaded, load_full, get_lines, add_entry, add_entry_line, change_entry, generate_reference,
  receive_line, EntryLineRequest, EntryCreateRequest, create_entry, return_line, cancel_entry,
}

module _ (i : ℕ) (n : Decimal) where
  add_entry-Nets : (e : Entry) → Keeps (Nets i n) (add_entry e)
  unfolding add_entry
  add_entry-Nets e = Keeps-modify _ (λ s h. h)

  add_entry_line-Nets : (l : EntryLine) → Keeps (Nets i n) (add_entry_line l)
  unfolding add_entry_line
  add_entry_line-Nets l = Keeps-modify _ (λ s h. h)

  change_entry-Nets : (j : ℕ) (f : Entry → Entry) → Keeps (Nets i n) (change_entry j f)
  unfolding change_entry
  change_entry-Nets j f = Keeps-modify _ (λ s h. h)

  generate_reference-Nets : (c : ℕ) → Keeps (Nets i n) (generate_reference c)
  unfolding generate_reference
  generate_reference-Nets c = search keeps_rules

ruleset entry_nets =
    (nets_rules, add_entry-Nets, add_entry_line-Nets, change_entry-Nets, generate_reference-Nets)

-- The rounded amount of a line, in its wallet.
abbrev pub in_wallet : ℕ → ℕ → Decimal → Decimal
in_wallet i wallet_id amount = if nat_eq wallet_id i then quantize amount else zero_amount

abbrev pub received : ℕ → List EntryLineRequest → Decimal
received i [] = zero_amount
received i (l ∷ ls) = in_wallet i l.wallet_id l.amount +ℤ received i ls

abbrev pub held_in : ℕ → List EntryLine → Decimal
held_in i [] = zero_amount
held_in i (l ∷ ls) = in_wallet i l.wallet_id l.amount +ℤ held_in i ls

receive_line-Nets :
    (i : ℕ) (n : Decimal) (entry_id by : ℕ) (l : EntryLineRequest)
    → Triple
        (Nets i n)
        (receive_line entry_id by l)
        (λ u. Nets i (n +ℤ in_wallet i l.wallet_id l.amount))
unfolding receive_line
receive_line-Nets i n entry_id by l =
    Triple-bind (λ m. Nets i (n +ℤ in_wallet i l.wallet_id l.amount)) _ _
      (moved-Nets i n l.wallet_id MovementDirection.into l.amount "entry" entry_id by)
      λ m. Triple-Keeps _ (search entry_nets)

receive_lines-Nets :
    (i : ℕ) (n : Decimal) (entry_id by : ℕ) (ls : List EntryLineRequest)
    → Triple (Nets i n) (for_each (receive_line entry_id by) ls) (λ u. Nets i (n +ℤ received i ls))
unfolding for_each
receive_lines-Nets i n entry_id by [] =
    retarget i _ n (n +ℤ zero_amount) (omega int_laws) (Triple-Keeps _ (Keeps-pure []))
receive_lines-Nets i n entry_id by (l ∷ ls) =
    let n' = n +ℤ in_wallet i l.wallet_id l.amount in
    retarget i _ (n' +ℤ received i ls) (n +ℤ (in_wallet i l.wallet_id l.amount +ℤ received i ls))
      (omega int_laws)
      (Triple-bind (λ u. Nets i n') _ _ (receive_line-Nets i n entry_id by l)
        λ y.
          Triple-bind (λ u. Nets i (n' +ℤ received i ls)) _ _
            (receive_lines-Nets i n' entry_id by ls) λ ys. Triple-Keeps _ (Keeps-pure (y ∷ ys)))

create_entry-Nets :
    (i : ℕ) (n : Decimal) (company_id by : ℕ) (payload : EntryCreateRequest)
    → Triple
        (Nets i n)
        (create_entry company_id by payload)
        (λ u. Nets i (n +ℤ received i payload.lines))
unfolding create_entry
create_entry-Nets i n company_id by payload = Triple-after _ _ (search entry_nets) λ wallets.
    Triple-after _ _ (search entry_nets) λ checked.
      Triple-after _ _ (search entry_nets) λ reference.
        Triple-after _ _ (search entry_nets) λ entry_id.
          Triple-after _ _ (search entry_nets) λ added.
            Triple-bind (λ u. Nets i (n +ℤ received i payload.lines)) _ _
              (receive_lines-Nets i n entry_id by payload.lines)
              λ rows. Triple-Keeps _ (search entry_nets)

-- An entry that is created has brought into each wallet exactly the rounded amounts of its lines.
pub create_entry_receives :
    (i company_id by : ℕ) (payload : EntryCreateRequest) (s : Db) {entry_id : ℕ} {s' : Db}
    → create_entry company_id by payload s ≡ ok (entry_id, s')
    → net i s'.wallet_movements ≡ net i s.wallet_movements +ℤ received i payload.lines
create_entry_receives i company_id by payload s h =
    Triple-ok (create_entry company_id by payload)
      (create_entry-Nets i (net i s.wallet_movements) company_id by payload) s refl h

out_is :
    (i w : ℕ) (n amount : Decimal)
    → n +ℤ (if nat_eq w i then signed MovementDirection.out (quantize amount) else zero_amount)
      ≡ n -ℤ in_wallet i w amount
out_is i w n amount = elim (Bool-cases (nat_eq w i)) [
  | inl here ↦ rw here (omega int_laws)
  | inr other ↦ rw other (omega int_laws)
]

return_line-Nets :
    (i : ℕ) (n : Decimal) (entry_id by : ℕ) (l : EntryLine)
    → Triple
        (Nets i n)
        (return_line entry_id by l)
        (λ u. Nets i (n -ℤ in_wallet i l.wallet_id l.amount))
unfolding return_line
return_line-Nets i n entry_id by l =
    let n' =
      n
      +ℤ (if nat_eq l.wallet_id i
          then signed MovementDirection.out (quantize l.amount)
          else zero_amount) in
    retarget i _ n' (n -ℤ in_wallet i l.wallet_id l.amount) (out_is i l.wallet_id n l.amount) (
      Triple-after _ _ (search entry_nets) λ wallet.
        Triple-bind (λ m. Nets i n') _ _
          (moved-Nets i n l.wallet_id MovementDirection.out l.amount "entry_cancellation" entry_id
            by)
          λ m. Triple-Keeps _ (search entry_nets))

return_lines-Nets :
    (i : ℕ) (n : Decimal) (entry_id by : ℕ) (ls : List EntryLine)
    → Triple (Nets i n) (for_each (return_line entry_id by) ls) (λ u. Nets i (n -ℤ held_in i ls))
unfolding for_each
return_lines-Nets i n entry_id by [] =
    retarget i _ n (n -ℤ zero_amount) (omega int_laws) (Triple-Keeps _ (Keeps-pure []))
return_lines-Nets i n entry_id by (l ∷ ls) =
    let n' = n -ℤ in_wallet i l.wallet_id l.amount in
    retarget i _ (n' -ℤ held_in i ls) (n -ℤ (in_wallet i l.wallet_id l.amount +ℤ held_in i ls))
      (omega int_laws)
      (Triple-bind (λ u. Nets i n') _ _ (return_line-Nets i n entry_id by l)
        λ y.
          Triple-bind (λ u. Nets i (n' -ℤ held_in i ls)) _ _ (return_lines-Nets i n' entry_id by ls)
            λ ys. Triple-Keeps _ (Keeps-pure (y ∷ ys)))

module _ (i : ℕ) (n : Decimal) (company_id by entry_id : ℕ) (e : Entry)
    (rows : List EntryLine) where
  abbrev Before : Db → Type 0
  Before s = Nets i n s × (find entry_id s.entries ≡ some e) × (get_lines e.id s ≡ rows)

  own_only : (x : Entry) → provided (λ y. y.company_id == company_id) (some e) ≡ some x → x ≡ e
  own_only x h = ground arith

  loaded_rows :
      Yields Before (λ (loaded : Loaded). loaded.lines ≡ rows) (load_full company_id entry_id)
  unfolding load_full
  loaded_rows =
      Yields-bind (λ o. o ≡ provided (λ y. y.company_id == company_id) (some e)) _ _
        (Yields-gets _ (λ s h. rw h.1 refl))
        λ o q.
          Yields-bind (λ x. x ≡ e) _ _ (Yields-or_raise o _ (λ a r. own_only a (sym q ∙ r)))
            λ x same.
              Yields-bind (λ ls. ls ≡ rows) _ _ (Yields-gets _ (λ s h. rw same h.2))
                λ ls lines. Yields-after _ _ (Keeps-gets _) λ rest. Yields-pure _ lines

  cancel_entry-Nets :
      Triple Before (cancel_entry company_id by entry_id) (λ u. Nets i (n -ℤ held_in i rows))
  unfolding cancel_entry
  cancel_entry-Nets =
      Triple-bind (λ loaded s. Nets i n s × (loaded.lines ≡ rows)) _ _
        (Triple-Yields (Nets i n) _ (λ s h. h.0) loaded_rows)
        λ loaded. Triple-given _ λ same.
          retarget i _ (n -ℤ held_in i loaded.lines) (n -ℤ held_in i rows)
            (ap (λ ls. n -ℤ held_in i ls) same)
            (Triple-after _ _ (search entry_nets) λ u1. Triple-after _ _ (search entry_nets) λ u2.
              Triple-after _ _ (search entry_nets) λ u3.
                Triple-bind (λ u. Nets i (n -ℤ held_in i loaded.lines)) _ _
                  (return_lines-Nets i n entry_id by loaded.lines)
                  λ u4. Triple-Keeps _ (search entry_nets))

-- An entry that is cancelled has given back, out of each wallet, exactly the rounded amounts of its
-- lines.
pub cancel_entry_returns :
    (i company_id by entry_id : ℕ) (s : Db) (e : Entry) {s' : Db}
    → find entry_id s.entries ≡ some e
    → cancel_entry company_id by entry_id s ≡ ok (tt, s')
    → net i s'.wallet_movements ≡ net i s.wallet_movements -ℤ held_in i (get_lines e.id s)
cancel_entry_returns i company_id by entry_id s e found h =
    Triple-ok (cancel_entry company_id by entry_id)
      (cancel_entry-Nets i (net i s.wallet_movements) company_id by entry_id e (get_lines e.id s)) s
      (refl, found, refl) h
