-- ===== src/Entries/Marked.antt =====
-- A merge marks its source entries, and no others.
use d_transfert_backend.Base.{
  ℕ, ◌≡◌, refl, sym, ◌∙◌, ap, subst, Bool, true, false, ◌||◌, none, some, List, [], ◌∷◌, map, any,
  nat_eq, Bool-cases, inl, inr,
}
use d_transfert_backend.Errors.{ok}
use d_transfert_backend.Models.{Entry, EntryLine, entry_keyed}
use d_transfert_backend.Table.{find}
use d_transfert_backend.Table.Laws.{find-append_some, find-update_row}
use d_transfert_backend.Database.{Db}
use d_transfert_backend.Service.{for_each, fresh_id}
use d_transfert_backend.Service.Keeps.{Keeps, Keeps-modify, Keeps-pure, keeps_rules, >>=-eq-ok}
use d_transfert_backend.Service.Inversion.{raise_if_passed}
use d_transfert_backend.Service.Triple.{
  Triple, Triple-bind, Triple-Keeps, Triple-after, Triple-ok, Triple-pure,
}
use d_transfert_backend.Entries.{
  add_entry, add_entry_line, change_entry, generate_reference, merge_entries, merge_sources,
}
use d_transfert_backend.Entries.Sources.{merge_sources-eq-ok}

-- `entry.merged_into_id = merged_entry.id`, for an entry that is one of the sources.
abbrev pub marked_if : Bool → ℕ → Entry → Entry
marked_if true merged_id e = record e { merged_into_id = some merged_id }
marked_if false merged_id e = e

marked_if_twice :
    (b c : Bool) (k : ℕ) (e : Entry) → marked_if c k (marked_if b k e) ≡ marked_if (b || c) k e
marked_if_twice true true k e = refl
marked_if_twice true false k e = refl
marked_if_twice false c k e = refl

module _ (i : ℕ) where
  HasRow : Entry → Db → Type 0
  HasRow e s = find i s.entries ≡ some e

  module _ (e : Entry) where
    generate_reference-HasRow : (c : ℕ) → Keeps (HasRow e) (generate_reference c)
    unfolding generate_reference HasRow
    generate_reference-HasRow c = search keeps_rules

    add_entry-HasRow : (x : Entry) → Keeps (HasRow e) (add_entry x)
    unfolding add_entry HasRow
    add_entry-HasRow x = Keeps-modify _ (λ s h. find-append_some i s.entries x e h)

    add_entry_line-HasRow : (l : EntryLine) → Keeps (HasRow e) (add_entry_line l)
    unfolding add_entry_line HasRow
    add_entry_line-HasRow l = Keeps-modify _ (λ s h. h)

    fresh_id-HasRow : Keeps (HasRow e) fresh_id
    unfolding fresh_id HasRow
    fresh_id-HasRow = record { at = λ s h. h }

  mark-HasRow :
      (k j : ℕ) (e : Entry)
      → Triple
          (HasRow e)
          (change_entry j (λ x. record x { merged_into_id = some k }))
          (λ u. HasRow (marked_if (nat_eq j i) k e))
  unfolding change_entry HasRow
  mark-HasRow k j e = record {
    at = λ s h. elim (Bool-cases (nat_eq j i)) [
      | inl same ↦
          rw
            (
              find-update_row j i (λ (x : Entry). record x { merged_into_id = some k }) s.entries
                  (λ x. refl),
              same,
              h,
            )
            refl
      | inr other ↦
          rw
            (
              find-update_row j i (λ (x : Entry). record x { merged_into_id = some k }) s.entries
                  (λ x. refl),
              other,
              h,
            )
            refl
    ];
  }

  mark_all-HasRow :
      (k : ℕ) (e : Entry) (es : List Entry)
      → Triple
          (HasRow e)
          (for_each (λ x. change_entry x.id (λ y. record y { merged_into_id = some k })) es)
          (λ u. HasRow (marked_if (any (λ j. nat_eq j i) (map (λ x. x.id) es)) k e))
  unfolding for_each
  mark_all-HasRow k e [] = Triple-Keeps _ (Keeps-pure [])
  mark_all-HasRow k e (x ∷ es) =
      let first = marked_if (nat_eq x.id i) k e in
      let last = marked_if (any (λ j. nat_eq j i) (map (λ x. x.id) (x ∷ es))) k e in
      Triple-bind (λ u. HasRow first) _ _ (mark-HasRow k x.id e)
        λ y.
          Triple-bind (λ u. HasRow last) _ _
            (subst
              (λ r.
                Triple (HasRow first)
                  (for_each (λ x. change_entry x.id (λ y. record y { merged_into_id = some k })) es)
                  (λ u. HasRow r))
              (marked_if_twice (nat_eq x.id i) (any (λ j. nat_eq j i) (map (λ x. x.id) es)) k e)
              (mark_all-HasRow k first es))
            λ ys. Triple-Keeps _ (Keeps-pure (y ∷ ys))

ruleset row_rules = (
  keeps_rules, generate_reference-HasRow, add_entry-HasRow, add_entry_line-HasRow, fresh_id-HasRow,
)

-- If merge_entries returns, the row of each entry of the database is marked as merged into the new entry
-- if it is one of those named, and stays as it was if not; nothing else of the row changes.
pub merge_entries_marks :
    (i company_id by : ℕ) (entry_ids : List ℕ) (s : Db) (e : Entry) {merged_id : ℕ} {t : Db}
    → find i s.entries ≡ some e
    → merge_entries company_id by entry_ids s ≡ ok (merged_id, t)
    → find i t.entries ≡ some (marked_if (any (λ j. nat_eq j i) entry_ids) merged_id e)
unfolding merge_entries HasRow
merge_entries_marks i company_id by entry_ids s e {merged_id} {t} found h =
    let (distinct_ids, loop) = raise_if_passed _ _ _ s h in
    let ((es, ls), u, read, rest) = >>=-eq-ok (merge_sources company_id none entry_ids) _ s loop in
    let (still, remaining, keys) = merge_sources-eq-ok company_id none entry_ids s read in
    let named = any (λ j. nat_eq j i) (map (λ x. x.id) es) in
    let row : find i t.entries ≡ some (marked_if named merged_id e) =
      Triple-ok {P = HasRow i e} {Q = λ k. HasRow i (marked_if named k e)} _
        (Triple-after _ _ (search row_rules) λ reference. Triple-after _ _ (search row_rules) λ k.
          Triple-after _ _ (search row_rules) λ added. Triple-after _ _ (search row_rules) λ lines.
            Triple-bind (λ x. HasRow i (marked_if named k e)) _ _ (mark_all-HasRow i k e es)
              λ marked. Triple-pure k (λ d r. r))
        u (ap (λ d. find i d.entries) (sym still) ∙ found) rest in
    row ∙ ap (λ ids. some (marked_if (any (λ j. nat_eq j i) ids) merged_id e)) keys
