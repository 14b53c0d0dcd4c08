-- ===== src/Base/Sort.antt =====
-- A stable insertion sort: Python's `sorted` and a query's `order_by`, with the order given as a
-- test "may stand before".
pub mod Filter
use Prim.Native.Nat.{suc}
use mathlib.Core.Path.{◌≡◌, refl, ap, ◌∙◌}
use mathlib.Core.Logic.{◌⊎◌, inl, inr}
use mathlib.Core.Bool.{Bool, true, false}
use mathlib.Core.List.{List, [], ◌∷◌}
use native.Mathlib.Omega.{arith}
use net_auto_ops.Base.Tests.{if◌then◌else◌, Bool-cases}
use net_auto_ops.Base.Lists.{In, All, All-map, length, count}

module _ {ℓ} {A : Type ℓ} (le : A → A → Bool) where
  unfoldable pub insert : A → List A → List A
  insert x [] = x ∷ []
  insert x (y ∷ ys) = let rest = insert x ys in if le x y then x ∷ y ∷ ys else y ∷ rest

  unfoldable pub sort : List A → List A
  unfolding insert
  sort [] = []
  sort (x ∷ xs) = insert x (sort xs)

  -- Every element may stand before each later one.
  abbrev pub IsSorted : List A → Type ℓ
  IsSorted [] = Unit
  IsSorted (x ∷ xs) = All (λ y. le x y ≡ true) xs × IsSorted xs

module _ {ℓ κ} {A : Type ℓ} (P : A → Type κ) (le : A → A → Bool) where
  All-insert : (x : A) (xs : List A) → P x → All P xs → All P (insert le x xs)
  unfolding insert
  All-insert x [] p _ = (p, tt)
  All-insert x (y ∷ ys) p (q, h) = elim (Bool-cases (le x y)) [
    | inl e ↦ rw (e, if◌then◌else◌) (p, (q, h))
    | inr e ↦ rw (e, if◌then◌else◌) (q, All-insert x ys p h)
  ]

  pub All-sort : (xs : List A) → All P xs → All P (sort le xs)
  unfolding sort
  All-sort [] h = tt
  All-sort (x ∷ xs) (p, h) = All-insert x (sort le xs) p (All-sort xs h)

-- The order is total and transitive.
pub record IsOrder {ℓ} {A : Type ℓ} (le : A → A → Bool) : Type ℓ where
  pub total : (x y : A) → le x y ≡ false → le y x ≡ true
  pub trans : (x y z : A) → le x y ≡ true → le y z ≡ true → le x z ≡ true

module _ {ℓ} {A : Type ℓ} {le : A → A → Bool} (order : IsOrder le) where
  insert-IsSorted : (x : A) (xs : List A) → IsSorted le xs → IsSorted le (insert le x xs)
  unfolding insert
  insert-IsSorted x [] _ = (tt, tt)
  insert-IsSorted x (y ∷ ys) (q, h) = elim (Bool-cases (le x y)) [
    | inl e ↦ rw (e, if◌then◌else◌) ((e, All-map (λ z k. order.trans x y z e k) ys q), (q, h))
    | inr e ↦
        rw (e, if◌then◌else◌) (All-insert _ le x ys (order.total x y e) q, insert-IsSorted x ys h)
  ]

  pub sort-IsSorted : (xs : List A) → IsSorted le (sort le xs)
  unfolding sort
  sort-IsSorted [] = tt
  sort-IsSorted (x ∷ xs) = insert-IsSorted x (sort le xs) (sort-IsSorted xs)

module _ {A : Type 0} (le : A → A → Bool) where
  In-insert : (z x : A) (xs : List A) → (z ≡ x) ⊎ In z xs → In z (insert le x xs)
  unfolding insert
  In-insert z x [] h = h
  In-insert z x (y ∷ ys) h = ground (arith, In-insert z x ys)

  In-of_insert : (z x : A) (xs : List A) → In z (insert le x xs) → (z ≡ x) ⊎ In z xs
  unfolding insert
  In-of_insert z x [] h = h
  In-of_insert z x (y ∷ ys) h = ground (arith, In-of_insert z x ys)

  -- A sort keeps the elements.
  pub In-sort : (z : A) (xs : List A) → In z xs → In z (sort le xs)
  unfolding sort
  In-sort z [] h = h
  In-sort z (x ∷ xs) h = In-insert z x (sort le xs) (ground (arith, In-sort z xs))

  -- A sort adds none.
  pub In-of_sort : (z : A) (xs : List A) → In z (sort le xs) → In z xs
  unfolding sort
  In-of_sort z [] h = h
  In-of_sort z (x ∷ xs) h = ground (arith, In-of_insert z x (sort le xs), In-of_sort z xs)

module _ {ℓ} {A : Type ℓ} (le : A → A → Bool) where
  insert-head : (x : A) (xs : List A) → All (λ y. le x y ≡ true) xs → insert le x xs ≡ x ∷ xs
  unfolding insert
  insert-head x [] h = refl
  insert-head x (y ∷ ys) (e, _) = rw e

  -- What may stand before all others stays in front.
  pub sort-cons :
      (x : A) (xs : List A) → All (λ y. le x y ≡ true) xs → sort le (x ∷ xs) ≡ x ∷ sort le xs
  unfolding sort
  sort-cons x xs h = insert-head x (sort le xs) (All-sort _ le xs h)

  length-insert : (x : A) (xs : List A) → length (insert le x xs) ≡ suc (length xs)
  unfolding insert
  length-insert x [] = refl
  length-insert x (y ∷ ys) = ground (arith, length-insert x ys)

  pub length-sort : (xs : List A) → length (sort le xs) ≡ length xs
  unfolding sort
  length-sort [] = refl
  length-sort (x ∷ xs) = length-insert x (sort le xs) ∙ ap suc (length-sort xs)

  count-insert : (p : A → Bool) (x : A) (xs : List A) → count p (insert le x xs) ≡ count p (x ∷ xs)
  unfolding insert
  count-insert p x [] = refl
  count-insert p x (y ∷ ys) = ground (arith, count-insert p x ys)

  pub count-sort : (p : A → Bool) (xs : List A) → count p (sort le xs) ≡ count p xs
  unfolding sort
  count-sort p [] = refl
  count-sort p (x ∷ xs) = omega (arith, count-insert p x (sort le xs), count-sort p xs)
