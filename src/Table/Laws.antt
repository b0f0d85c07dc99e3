-- ===== src/Table/Laws.antt =====
-- Laws of the table operations.
use d_transfert_backend.Base.{
  ℕ, ◌≡◌, ◌≢◌, ◌⊎◌, inl, inr, Option-cases, Bool-cases, refl, Option, none, some, List, [], ◌∷◌,
  ◌++◌, arith, nat_eq, if◌then◌else◌,
}
use d_transfert_backend.Table.{Keyed, find, update_row}

abbrev pub map_option : {A B : Type 0} → (A → B) → Option A → Option B
map_option f none = none
map_option f (some a) = some (f a)

abbrev pub or_row : {A : Type 0} → Option A → Option A → Option A
or_row none b = b
or_row (some a) b = some a

module _ {A : Type 0} ⦃k : Keyed A⦄ where
  pub find-update_row :
      (i j : ℕ) (f : A → A) (xs : List A)
      → ((x : A) → k.key (f x) ≡ k.key x)
      → find j (update_row i f xs) ≡ (if nat_eq i j then map_option f (find j xs) else find j xs)
  find-update_row i j f [] h = ground arith
  find-update_row i j f (x ∷ xs) h = ground (arith, h x, find-update_row i j f xs h)

  pub find-append :
      (j : ℕ) (xs : List A) (a : A) → find j (xs ++ a ∷ []) ≡ or_row (find j xs) (find j (a ∷ []))
  find-append j [] a = refl
  find-append j (x ∷ xs) a = ground (arith, find-append j xs a)

  pub find-update_row_self :
      (i : ℕ) (f : A → A) (xs : List A)
      → ((x : A) → k.key (f x) ≡ k.key x)
      → find i (update_row i f xs) ≡ map_option f (find i xs)
  find-update_row_self i f xs h = ground (arith, find-update_row i i f xs h)

  pub find-update_row_ne :
      (i j : ℕ) (f : A → A) (xs : List A)
      → ((x : A) → k.key (f x) ≡ k.key x)
      → i ≢ j
      → find j (update_row i f xs) ≡ find j xs
  find-update_row_ne i j f xs h ne = ground (arith, find-update_row i j f xs h)

  pub find-append_ne :
      (j : ℕ) (xs : List A) (a : A) → k.key a ≢ j → find j (xs ++ a ∷ []) ≡ find j xs
  find-append_ne j [] a ne = ground arith
  find-append_ne j (x ∷ xs) a ne = ground (arith, find-append_ne j xs a ne)

  pub find-append_new :
      (xs : List A) (a : A) → find (k.key a) xs ≡ none → find (k.key a) (xs ++ a ∷ []) ≡ some a
  find-append_new [] a h = ground arith
  find-append_new (x ∷ xs) a h = ground (arith, find-append_new xs a)

  -- A row after an update is an old row, updated or not; the same keys are found.
  pub find-update_row-some :
      (i j : ℕ) (f : A → A) (xs : List A) (v : A)
      → ((x : A) → k.key (f x) ≡ k.key x)
      → find j (update_row i f xs) ≡ some v
      → (w : A) × (find j xs ≡ some w) × ((v ≡ f w) ⊎ (v ≡ w))
  find-update_row-some i j f xs v h e = elim (Option-cases (find j xs)) [
    | inl missing ↦ ground (arith, find-update_row i j f xs h)
    | inr (w, found) ↦ elim (Bool-cases (nat_eq i j)) [
      | inl same ↦ (w, found, inl (ground (arith, find-update_row i j f xs h)))
      | inr other ↦ (w, found, inr (ground (arith, find-update_row i j f xs h)))
    ]
  ]

  pub find-none-update_row :
      (i j : ℕ) (f : A → A) (xs : List A)
      → ((x : A) → k.key (f x) ≡ k.key x)
      → find j xs ≡ none
      → find j (update_row i f xs) ≡ none
  find-none-update_row i j f xs h e = ground (arith, find-update_row i j f xs h)

  pub find-none_of_update_row :
      (i j : ℕ) (f : A → A) (xs : List A)
      → ((x : A) → k.key (f x) ≡ k.key x)
      → find j (update_row i f xs) ≡ none
      → find j xs ≡ none
  find-none_of_update_row i j f xs h e = ground (arith, find-update_row i j f xs h)

  pub find-append_some :
      (j : ℕ) (xs : List A) (a v : A) → find j xs ≡ some v → find j (xs ++ a ∷ []) ≡ some v
  find-append_some j [] a v h = ground arith
  find-append_some j (x ∷ xs) a v h = ground (arith, find-append_some j xs a v)
