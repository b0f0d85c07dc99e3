-- ===== src/Administration/Deletion/Owners.antt =====
-- Rows that belong to the rows of another table: with an owner go all rows of the owner, and no
-- others.
use d_transfert_backend.Base.{
  ℕ, ◌≡◌, Bool, true, false, List, [], ◌∷◌, keep, arith, Bool-cases, inl, inr,
}
use d_transfert_backend.Table.{Keyed}
use d_transfert_backend.Administration.Deletion.{without, has_id}

module _ {A B : Type 0} ⦃k : Keyed A⦄ (owner : B → ℕ) where
  -- The owner of every row is there, as a foreign key demands.
  abbrev pub AllOwned : List A → List B → Type 0
  AllOwned xs [] = Unit
  AllOwned xs (m ∷ ms) = (has_id k.key xs (owner m) ≡ true) × AllOwned xs ms

module _ {A : Type 0} ⦃k : Keyed A⦄ (p : A → Bool) where
  left_present :
      (i : ℕ) (xs : List A)
      → has_id k.key xs i ≡ true
      → has_id k.key (keep p xs) i ≡ false
      → has_id k.key (without p xs) i ≡ true
  left_present i [] h g = h
  left_present i (x ∷ xs) h g = ground (arith, left_present i xs)

  -- Of the rows whose owner is not deleted every owner is still there.
  pub AllOwned-without :
      {B : Type 0} (owner : B → ℕ) (xs : List A) (ms : List B)
      → AllOwned owner xs ms
      → AllOwned owner (without p xs) (without (λ m. has_id k.key (keep p xs) (owner m)) ms)
  AllOwned-without owner xs [] h = tt
  AllOwned-without owner xs (m ∷ ms) (held, h) =
      elim (Bool-cases (has_id k.key (keep p xs) (owner m))) [
        | inl gone ↦ rw gone (AllOwned-without owner xs ms h)
        | inr stays ↦
            rw stays (left_present (owner m) xs held stays, AllOwned-without owner xs ms h)
      ]
