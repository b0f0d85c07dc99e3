-- ===== src/Table.antt =====
-- A table is a list of rows in the order of creation. `find` is `session.get` and the other
-- lookups by primary key; `update_row` writes to the one object that a primary key stands for, as
-- an attribute assignment on a mapped instance does; `scalar_one_or_none` raises on two results.
pub mod Laws
use d_transfert_backend.Base.{
  ℕ, Bool, true, false, Option, none, some, List, [], ◌∷◌, keep, nat_eq, if◌then◌else◌,
}
use d_transfert_backend.Errors.{Error, Result, ok, err}

-- The primary key of a row.
pub record Keyed (A : Type 0) : Type 0 where
  pub key : A → ℕ

module _ {A : Type 0} ⦃k : Keyed A⦄ where
  abbrev pub find : ℕ → List A → Option A
  find i [] = none
  find i (x ∷ xs) = if nat_eq (k.key x) i then some x else find i xs

  abbrev pub update_row : ℕ → (A → A) → List A → List A
  update_row i f [] = []
  update_row i f (x ∷ xs) = (if nat_eq (k.key x) i then f x else x) ∷ update_row i f xs

  -- `session.delete(row)`
  abbrev pub delete_row : ℕ → List A → List A
  delete_row i xs = keep (λ x. if nat_eq (k.key x) i then false else true) xs

module _ {A : Type 0} where
  abbrev pub one_of : List A → Result (Option A)
  one_of [] = ok none
  one_of (x ∷ []) = ok (some x)
  one_of (x ∷ y ∷ xs) = err Error.multiple_results

  -- `select(...).where(p)`, then `result.scalar_one_or_none()`
  abbrev pub scalar_one_or_none : (A → Bool) → List A → Result (Option A)
  scalar_one_or_none p xs = one_of (keep p xs)

  -- `next((x for x in xs if p(x)), None)`
  abbrev pub first_match : (A → Bool) → List A → Option A
  first_match p [] = none
  first_match p (x ∷ xs) = if p x then some x else first_match p xs

-- A further condition of the WHERE clause of a lookup by primary key.
abbrev pub provided : {A : Type 0} → (A → Bool) → Option A → Option A
provided p none = none
provided p (some x) = if p x then some x else none
