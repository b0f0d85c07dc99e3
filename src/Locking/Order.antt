-- ===== src/Locking/Order.antt =====
-- The order of `sorted_distinct`: strictly ascending, and given by the set of members alone.
use d_transfert_backend.Base.{
  ℕ, ◌<◌, ◌≡◌, refl, Bool, true, false, List, [], ◌∷◌, arith, nat_eq, ◌||◌,
}
use d_transfert_backend.Locking.{insert_distinct, sorted_distinct}

-- Every element is above a bound.
abbrev pub AllAbove : ℕ → List ℕ → Type 0
AllAbove i [] = Unit
AllAbove i (j ∷ js) = (i < j) × AllAbove i js

-- Strictly ascending.
abbrev pub IsAscending : List ℕ → Type 0
IsAscending [] = Unit
IsAscending (i ∷ rest) = AllAbove i rest × IsAscending rest

abbrev pub contains : ℕ → List ℕ → Bool
contains i [] = false
contains i (j ∷ js) = nat_eq i j || contains i js

AllAbove-insert_distinct :
    (b i : ℕ) (js : List ℕ) → b < i → AllAbove b js → AllAbove b (insert_distinct i js)
AllAbove-insert_distinct b i [] h k = (h, tt)
AllAbove-insert_distinct b i (j ∷ js) h k = ground (arith, AllAbove-insert_distinct b i js h)

AllAbove-mono : (a b : ℕ) (js : List ℕ) → a < b → AllAbove b js → AllAbove a js
AllAbove-mono a b [] h k = tt
AllAbove-mono a b (j ∷ js) h k = (omega arith, AllAbove-mono a b js h k.1)

insert_distinct-IsAscending :
    (i : ℕ) (js : List ℕ) → IsAscending js → IsAscending (insert_distinct i js)
insert_distinct-IsAscending i [] h = (tt, tt)
insert_distinct-IsAscending i (j ∷ js) h =
    ground (
      arith,
      insert_distinct-IsAscending i js,
      AllAbove-insert_distinct j i js,
      AllAbove-mono i j js,
    )

-- `sorted_distinct` is strictly ascending, so it has no repetition.
pub sorted_distinct-IsAscending : (xs : List ℕ) → IsAscending (sorted_distinct xs)
unfolding sorted_distinct
sorted_distinct-IsAscending [] = tt
sorted_distinct-IsAscending (i ∷ xs) =
    insert_distinct-IsAscending i _ (sorted_distinct-IsAscending xs)

contains-insert_distinct :
    (k i : ℕ) (js : List ℕ) → contains k (insert_distinct i js) ≡ (nat_eq k i || contains k js)
contains-insert_distinct k i [] = refl
contains-insert_distinct k i (j ∷ js) = ground (arith, contains-insert_distinct k i js)

pub contains-sorted_distinct :
    (k : ℕ) (xs : List ℕ) → contains k (sorted_distinct xs) ≡ contains k xs
unfolding sorted_distinct
contains-sorted_distinct k [] = refl
contains-sorted_distinct k (i ∷ xs) =
    ground (arith, contains-insert_distinct k i (sorted_distinct xs), contains-sorted_distinct k xs)

not_contains_below : (i : ℕ) (js : List ℕ) → AllAbove i js → contains i js ≡ false
not_contains_below i [] h = refl
not_contains_below i (j ∷ js) h = ground (arith, not_contains_below i js h.1)

below_of_contains : (i k : ℕ) (js : List ℕ) → AllAbove i js → contains k js ≡ true → i < k
below_of_contains i k [] h e = cc
below_of_contains i k (j ∷ js) h e = ground (arith, below_of_contains i k js h.1)

-- Two strictly ascending lists with the same members are the same list.
ascending_unique :
    (xs ys : List ℕ)
    → IsAscending xs
    → IsAscending ys
    → ((k : ℕ) → contains k xs ≡ contains k ys)
    → xs ≡ ys
ascending_unique [] [] hx hy same = refl
ascending_unique [] (y ∷ ys) hx hy same = ground (arith, same y)
ascending_unique (x ∷ xs) [] hx hy same = ground (arith, same x)
ascending_unique (x ∷ xs) (y ∷ ys) hx hy same =
    let heads : x ≡ y =
      ground
        (arith, same x, same y, below_of_contains x y xs hx.0, below_of_contains y x ys hy.0) in
    let tails = ascending_unique xs ys hx.1 hy.1 (λ k.
      ground (arith, same k, heads, not_contains_below x xs hx.0, not_contains_below y ys hy.0)) in
    cc

-- Two lists with the same members, in any order and any number of times, have one `sorted_distinct`.
pub lock_order_unique :
    (xs ys : List ℕ)
    → ((k : ℕ) → contains k xs ≡ contains k ys)
    → sorted_distinct xs ≡ sorted_distinct ys
lock_order_unique xs ys same =
    ascending_unique (sorted_distinct xs) (sorted_distinct ys) (sorted_distinct-IsAscending xs)
      (sorted_distinct-IsAscending ys)
      λ k. ground (arith, contains-sorted_distinct k xs, contains-sorted_distinct k ys, same k)
