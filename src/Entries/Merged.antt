-- ===== src/Entries/Merged.antt =====
-- A merge neither loses nor duplicates money: in every currency the lines of the merged entry add up to
-- what the source entries had left.
use d_transfert_backend.Base.{
  ℕ, ◌≡◌, refl, sym, ◌∙◌, ap, subst, String, List, [], ◌∷◌, ◌++◌, map, none, ◌==◌, id_eq, string_eq,
  ◌&&◌, Bool-cases, inl, inr, arith,
}
use mathlib.Core.List.{append-nil, append_assoc}
use d_transfert_backend.Money.{quantize, zero_amount}
use d_transfert_backend.Money.Rounding.{IsCents-add, quantize-IsCents, quantize-eq_self}
use d_transfert_backend.Errors.{ok}
use d_transfert_backend.Models.{Entry, EntryLine}
use d_transfert_backend.Database.{Db}
use d_transfert_backend.Service.{Done, pure, for_each, fresh_id}
use d_transfert_backend.Service.Keeps.{Keeps, Keeps-modify, Keeps-pure, keeps_rules, >>=-eq-ok}
use d_transfert_backend.Service.Inversion.{raise_if_passed}
use d_transfert_backend.Service.Triple.{
  Triple, Triple-bind, Triple-Keeps, Triple-after, Triple-ok, Triple-pure,
}
use d_transfert_backend.Entries.{
  RemainingLine, aggregate, add_line, add_all, add_entry, add_entry_line, change_entry,
  generate_reference, merge_entries, merge_sources,
}
use d_transfert_backend.Entries.Remaining.{line_total}
use d_transfert_backend.Entries.Spreading.{remaining_total}
use d_transfert_backend.Entries.Merging.{AllCents, AllCovered, available_total, merged_total}
use d_transfert_backend.Entries.Sources.{sources_of, merge_sources-eq-ok}

add_line-AllCents :
    (l : RemainingLine) (ms : List RemainingLine) → AllCents ms → AllCents (add_line l ms)
add_line-AllCents l [] h =
    (IsCents-add zero_amount (quantize l.amount) (omega arith) (quantize-IsCents l.amount), tt)
add_line-AllCents l (m ∷ ms) h =
    elim (Bool-cases (m.wallet_id == l.wallet_id && m.currency == l.currency)) [
      | inl match ↦
          rw match (IsCents-add m.amount (quantize l.amount) h.0 (quantize-IsCents l.amount), h.1)
      | inr differ ↦ rw differ (h.0, add_line-AllCents l ms h.1)
    ]

add_all-AllCents : (ls ms : List RemainingLine) → AllCents ms → AllCents (add_all ls ms)
add_all-AllCents [] ms h = h
add_all-AllCents (l ∷ ls) ms h = add_all-AllCents ls (add_line l ms) (add_line-AllCents l ms h)

aggregate-AllCents : (ls : List RemainingLine) → AllCents (aggregate ls)
unfolding aggregate
aggregate-AllCents ls = add_all-AllCents ls [] tt

-- The row of a line of the merged entry.
abbrev line_of : ℕ → RemainingLine → EntryLine
line_of merged_id l = record {
  entry_id = merged_id;
  wallet_id = l.wallet_id;
  amount = l.amount;
  currency = l.currency;
}

-- All rows are of one entry.
abbrev pub AllOf : ℕ → List EntryLine → Type 0
AllOf merged_id [] = Unit
AllOf merged_id (l ∷ ls) = (l.entry_id ≡ merged_id) × AllOf merged_id ls

lines_of-AllOf :
    (merged_id : ℕ) (ls : List RemainingLine) → AllOf merged_id (map (line_of merged_id) ls)
lines_of-AllOf merged_id [] = tt
lines_of-AllOf merged_id (l ∷ ls) = (refl, lines_of-AllOf merged_id ls)

line_total-lines_of :
    (c : String) (merged_id : ℕ) (ls : List RemainingLine)
    → AllCents ls
    → line_total c (map (line_of merged_id) ls) ≡ remaining_total c ls
line_total-lines_of c merged_id [] h = refl
line_total-lines_of c merged_id (l ∷ ls) h =
    rw (quantize-eq_self l.amount h.0, line_total-lines_of c merged_id ls h.1) refl

HasLines : List EntryLine → Db → Type 0
HasLines rows s = s.entry_lines ≡ rows

module _ (rows : List EntryLine) where
  generate_reference-HasLines : (c : ℕ) → Keeps (HasLines rows) (generate_reference c)
  unfolding generate_reference HasLines
  generate_reference-HasLines c = search keeps_rules

  add_entry-HasLines : (e : Entry) → Keeps (HasLines rows) (add_entry e)
  unfolding add_entry HasLines
  add_entry-HasLines e = Keeps-modify _ (λ s h. h)

  change_entry-HasLines : (i : ℕ) (f : Entry → Entry) → Keeps (HasLines rows) (change_entry i f)
  unfolding change_entry HasLines
  change_entry-HasLines i f = Keeps-modify _ (λ s h. h)

  fresh_id-HasLines : Keeps (HasLines rows) fresh_id
  unfolding fresh_id HasLines
  fresh_id-HasLines = record { at = λ s h. h }

ruleset lines_rules = (
  keeps_rules, generate_reference-HasLines, add_entry-HasLines, change_entry-HasLines,
  fresh_id-HasLines,
)

add_line-HasLines :
    (rows : List EntryLine) (l : EntryLine)
    → Triple (HasLines rows) (add_entry_line l) (λ u. HasLines (rows ++ l ∷ []))
unfolding add_entry_line HasLines
add_line-HasLines rows l = record { at = λ s h. ap (λ ls. ls ++ l ∷ []) h }

add_lines-HasLines :
    (merged_id : ℕ) (rows : List EntryLine) (ls : List RemainingLine)
    → Triple
        (HasLines rows)
        (for_each (λ l. add_entry_line (line_of merged_id l)) ls)
        (λ u. HasLines (rows ++ map (line_of merged_id) ls))
unfolding for_each HasLines
add_lines-HasLines merged_id rows [] =
    subst (λ zs. Triple {A = List Done} (HasLines rows) (pure []) (λ u. HasLines zs))
      (sym (append-nil rows)) (Triple-Keeps _ (Keeps-pure []))
add_lines-HasLines merged_id rows (l ∷ ls) =
    let rows' = rows ++ line_of merged_id l ∷ [] in
    Triple-bind (λ u. HasLines rows') _ _ (add_line-HasLines rows (line_of merged_id l))
      λ y.
        Triple-bind (λ u. HasLines (rows ++ map (line_of merged_id) (l ∷ ls))) _ _
          (subst
            (λ zs.
              Triple (HasLines rows') (for_each (λ l. add_entry_line (line_of merged_id l)) ls)
                (λ u. HasLines zs))
            (append_assoc rows (line_of merged_id l ∷ []) (map (line_of merged_id) ls))
            (add_lines-HasLines merged_id rows' ls))
          λ ys. Triple-Keeps _ (Keeps-pure (y ∷ ys))

-- If merge_entries returns, the rows that it adds to the lines are all of the merged entry; and in every
-- currency in which each source is covered (no line negative, the allocations between nothing and the
-- lines) they add up to the lines less the allocations of the sources.
pub merge_entries_conserves :
    (c : String) (company_id by : ℕ) (entry_ids : List ℕ) (s : Db) {merged_id : ℕ} {t : Db}
    → AllCovered c (sources_of entry_ids s)
    → merge_entries company_id by entry_ids s ≡ ok (merged_id, t)
    → (rows : List EntryLine) × (t.entry_lines ≡ s.entry_lines ++ rows)
      × AllOf merged_id rows
      × (line_total c rows ≡ available_total c (sources_of entry_ids s))
unfolding merge_entries HasLines
merge_entries_conserves c company_id by entry_ids s {merged_id} {t} covered h =
    let (distinct_ids, loop) = raise_if_passed _ _ _ s h in
    let ((es, ls), u, read, rest) = >>=-eq-ok (merge_sources company_id none entry_ids) _ s loop in
    let (still, remaining, keys) = merge_sources-eq-ok company_id none entry_ids s read in
    let written : t.entry_lines ≡ s.entry_lines ++ map (line_of merged_id) (aggregate ls) =
      Triple-ok {P = HasLines s.entry_lines}
        {Q = λ i. HasLines (s.entry_lines ++ map (line_of i) (aggregate ls))} _
        (Triple-after _ _ (search lines_rules) λ reference.
          Triple-after _ _ (search lines_rules) λ i. Triple-after _ _ (search lines_rules) λ added.
            Triple-bind (λ u. HasLines (s.entry_lines ++ map (line_of i) (aggregate ls))) _ _
              (add_lines-HasLines i s.entry_lines (aggregate ls))
              λ lines. Triple-after _ _ (search lines_rules) λ marked. Triple-pure i (λ d k. k))
        u (ap (λ d. d.entry_lines) (sym still)) rest in
    (
      map (line_of merged_id) (aggregate ls),
      written,
      lines_of-AllOf merged_id (aggregate ls),
      line_total-lines_of c merged_id (aggregate ls) (aggregate-AllCents ls)
          ∙ ap (λ ms. remaining_total c (aggregate ms)) remaining
          ∙ merged_total c (sources_of entry_ids s) covered,
    )
