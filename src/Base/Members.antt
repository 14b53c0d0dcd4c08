-- ===== src/Base/Members.antt =====
-- What stands in the lists that a comprehension builds.
use mathlib.Core.Path.{◌≡◌, refl, sym, ap, ◌∙◌}
use mathlib.Core.Logic.{◌⊎◌, inl, inr}
use mathlib.Core.Bool.{Bool, true}
use mathlib.Core.List.{List, [], ◌∷◌, ◌++◌, map}
use net_auto_ops.Base.Tests.{if◌then◌else◌, Bool-cases}
use net_auto_ops.Base.Lists.{In, All, filter}

module _ {A : Type 0} where
  pub In-filter : (p : A → Bool) (z : A) (xs : List A) → In z xs → p z ≡ true → In z (filter p xs)
  In-filter p z [] h k = h
  In-filter p z (x ∷ xs) (inl e) k = rw (sym (ap p e) ∙ k, if◌then◌else◌) (inl e)
  In-filter p z (x ∷ xs) (inr h) k = elim (Bool-cases (p x)) [
    | inl q ↦ rw (q, if◌then◌else◌) (inr (In-filter p z xs h k))
    | inr q ↦ rw (q, if◌then◌else◌) (In-filter p z xs h k)
  ]

  pub In-of_filter :
      (p : A → Bool) (z : A) (xs : List A) → In z (filter p xs) → In z xs × (p z ≡ true)
  In-of_filter p z [] h = absurd h
  In-of_filter p z (x ∷ xs) h = elim (Bool-cases (p x)) [
    | inl q ↦
        let m : In z (x ∷ filter p xs) = rw (q, if◌then◌else◌) at h in
        elim m [
          | inl e ↦ (inl e, ap p e ∙ q)
          | inr k ↦ let (a, b) = In-of_filter p z xs k in (inr a, b)
        ]
    | inr q ↦ let (a, b) = In-of_filter p z xs (rw (q, if◌then◌else◌) at h) in (inr a, b)
  ]

  pub In-append : (z : A) (xs ys : List A) → In z xs ⊎ In z ys → In z (xs ++ ys)
  In-append z [] ys (inl h) = absurd h
  In-append z [] ys (inr h) = h
  In-append z (x ∷ xs) ys (inl (inl e)) = inl e
  In-append z (x ∷ xs) ys (inl (inr h)) = inr (In-append z xs ys (inl h))
  In-append z (x ∷ xs) ys (inr h) = inr (In-append z xs ys (inr h))

  pub In-of_append : (z : A) (xs ys : List A) → In z (xs ++ ys) → In z xs ⊎ In z ys
  In-of_append z [] ys h = inr h
  In-of_append z (x ∷ xs) ys (inl e) = inl (inl e)
  In-of_append z (x ∷ xs) ys (inr h) = elim (In-of_append z xs ys h) [
    | inl k ↦ inl (inr k)
    | inr k ↦ inr k
  ]

  -- A property of all elements, given for each that stands in the list.
  pub All-of_In : (P : A → Type 0) (xs : List A) → ((x : A) → In x xs → P x) → All P xs
  All-of_In P [] f = tt
  All-of_In P (x ∷ xs) f = (f x (inl refl), All-of_In P xs (λ y h. f y (inr h)))

module _ {A B : Type 0} (f : A → B) where
  pub In-map : (x : A) (xs : List A) → In x xs → In (f x) (map f xs)
  In-map x [] h = h
  In-map x (y ∷ ys) (inl e) = inl (ap f e)
  In-map x (y ∷ ys) (inr h) = inr (In-map x ys h)

  pub In-of_map : (z : B) (xs : List A) → In z (map f xs) → (x : A) × In x xs × (z ≡ f x)
  In-of_map z [] h = absurd h
  In-of_map z (y ∷ ys) (inl e) = (y, inl refl, e)
  In-of_map z (y ∷ ys) (inr h) = let (x, a, b) = In-of_map z ys h in (x, inr a, b)
