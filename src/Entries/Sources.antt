-- ===== src/Entries/Sources.antt =====
-- What the loop of merge_entries over the source entries reads and carries over.
use d_transfert_backend.Base.{
  ℕ, ◌≡◌, refl, sym, ◌∙◌, ap, subst, Option, some, List, [], ◌∷◌, map, id_eq,
}
use d_transfert_backend.Errors.{ok}
use d_transfert_backend.Models.{Entry, entry_keyed}
use d_transfert_backend.Database.{Db}
use d_transfert_backend.Service.Keeps.{>>=-eq-ok}
use d_transfert_backend.Service.Inversion.{
  gets_passed, or_raise_passed, raise_if_passed, pure-eq-ok,
}
use d_transfert_backend.Platform.Supervision.{provided-some}
use d_transfert_backend.Locking.Wallets.{find-key}
use d_transfert_backend.Entries.{
  Loaded, load_full, get_lines, get_allocations, available_by_currency, RemainingLine, distribute,
  ClientKey, merge_source, merge_sources,
}
use d_transfert_backend.Entries.Merging.{Source, remaining_of}

-- The rows of the entries in the database.
abbrev pub sources_of : List ℕ → Db → List Source
sources_of entry_ids s = map (λ i. (get_lines i s, get_allocations i s)) entry_ids

load_full-eq-ok :
    (company_id i : ℕ) (s : Db) {loaded : Loaded} {t : Db}
    → load_full company_id i s ≡ ok (loaded, t)
    → (s ≡ t)
      × (loaded.lines ≡ get_lines i s)
      × (loaded.allocations ≡ get_allocations i s)
      × (loaded.entry.id ≡ i)
unfolding load_full
load_full-eq-ok company_id i s h =
    let (e, found, read) = or_raise_passed _ _ _ s (gets_passed _ _ s h) in
    let (here, owned) = provided-some _ _ e found in
    let key = find-key i s.entries e here in
    let (same, still) = pure-eq-ok _ s (gets_passed _ _ s (gets_passed _ _ s read)) in
    (
      still,
      ap (λ l. l.lines) (sym same) ∙ ap (λ k. get_lines k s) key,
      ap (λ l. l.allocations) (sym same) ∙ ap (λ k. get_allocations k s) key,
      ap (λ l. l.entry.id) (sym same) ∙ key,
    )

merge_source-eq-ok :
    (company_id : ℕ) (key : Option ClientKey) (i : ℕ) (s : Db)
    {x : ClientKey × Entry × List RemainingLine} {t : Db}
    → merge_source company_id key i s ≡ ok (x, t)
    → (s ≡ t)
      × (x.2
          ≡ distribute
              (get_lines i s)
              (available_by_currency (get_lines i s) (get_allocations i s)))
      × (x.1.id ≡ i)
unfolding merge_source
merge_source-eq-ok company_id key i s h =
    let (loaded, u, read, rest) = >>=-eq-ok (load_full company_id i) _ s h in
    let (mergeable, rest1) = raise_if_passed _ _ _ u rest in
    let (unmerged, rest2) = raise_if_passed _ _ _ u rest1 in
    let (k, keyed, rest3) = or_raise_passed _ _ _ u rest2 in
    let (same_client, rest4) = raise_if_passed _ _ _ u rest3 in
    let (same, still) = pure-eq-ok _ u rest4 in
    let (before, lines, allocations, key) = load_full-eq-ok company_id i s read in
    (
      before ∙ still,
      ap (λ y. y.2) (sym same) ∙ rw (lines, allocations) refl,
      ap (λ y. y.1.id) (sym same) ∙ key,
    )

-- The loop only reads, and carries over what is left of the rows of each entry.
pub merge_sources-eq-ok :
    (company_id : ℕ) (key : Option ClientKey) (ids : List ℕ) (s : Db) {es : List Entry}
    {ls : List RemainingLine} {t : Db}
    → merge_sources company_id key ids s ≡ ok ((es, ls), t)
    → (s ≡ t) × (ls ≡ remaining_of (sources_of ids s)) × (map (λ e. e.id) es ≡ ids)
unfolding merge_sources
merge_sources-eq-ok company_id key [] s h =
    let (none_left, still) = pure-eq-ok _ s h in
    (still, ap (λ y. y.1) (sym none_left), ap (λ y. map (λ e. e.id) y.0) (sym none_left))
merge_sources-eq-ok company_id key (i ∷ ids) s {es} {ls} h =
    let ((k, e, lines), u, first, rest) = >>=-eq-ok (merge_source company_id key i) _ s h in
    let ((entries, more), v, others, last) =
      >>=-eq-ok (merge_sources company_id (some k) ids) _ u rest in
    let (all, still) = pure-eq-ok _ v last in
    let (before, own, key) = merge_source-eq-ok company_id key i s first in
    let (between, theirs, keys) = merge_sources-eq-ok company_id (some k) ids u others in
    let theirs_then : more ≡ remaining_of (sources_of ids s) =
      subst (λ d. more ≡ remaining_of (sources_of ids d)) (sym before) theirs in
    (
      before ∙ between ∙ still,
      ap (λ y. y.1) (sym all) ∙ cc,
      ap (λ y. map (λ e. e.id) y.0) (sym all) ∙ cc,
    )
