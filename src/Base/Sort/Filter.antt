-- ===== src/Base/Sort/Filter.antt =====
-- A query that filters and sorts: which comes first does not matter.
use mathlib.Core.Path.{◌≡◌, refl, sym, ap, ◌∙◌}
use mathlib.Core.Logic.{inl, inr}
use mathlib.Core.Bool.{Bool, true, false}
use mathlib.Core.List.{List, [], ◌∷◌}
use native.Mathlib.Omega.{arith}
use net_auto_ops.Base.Tests.{if◌then◌else◌, Bool-cases}
use net_auto_ops.Base.Lists.{All, All-map, filter}
use net_auto_ops.Base.Sort.{insert, sort, IsSorted, IsOrder, sort-IsSorted}

module _ {A : Type 0} (p : A → Bool) (le le' : A → A → Bool) (order : IsOrder le)
    (agree : (x y : A) → p x ≡ true → p y ≡ true → le x y ≡ le' x y) where
  -- Nothing that passes stands before `x`.
  insert-filter :
      (x : A) (ys : List A)
      → p x ≡ true
      → All (λ y. le x y ≡ true) ys
      → insert le' x (filter p ys) ≡ x ∷ filter p ys
  unfolding insert
  insert-filter x [] h k = refl
  insert-filter x (y ∷ ys) h (e, k) = elim (Bool-cases (p y)) [
    | inl q ↦ rw (q, if◌then◌else◌) (rw (sym (agree x y h q) ∙ e) refl)
    | inr q ↦ rw (q, if◌then◌else◌) (insert-filter x ys h k)
  ]

  filter-insert_kept :
      (x : A) (ys : List A)
      → p x ≡ true
      → IsSorted le ys
      → filter p (insert le x ys) ≡ insert le' x (filter p ys)
  unfolding insert
  filter-insert_kept x [] h s = rw h refl
  filter-insert_kept x (y ∷ ys) h (k, s) = elim (Bool-cases (le x y)) [
    | inl e ↦
        let all : All (λ z. le x z ≡ true) (y ∷ ys) =
          (e, All-map (λ z q. order.trans x y z e q) ys k) in
        rw e (rw h (sym (insert-filter x (y ∷ ys) h all)))
    | inr e ↦ elim (Bool-cases (p y)) [
      | inl q ↦ rw (e, q, sym (agree x y h q) ∙ e) (ap (λ t. y ∷ t) (filter-insert_kept x ys h s))
      | inr q ↦ rw (e, q) (filter-insert_kept x ys h s)
    ]
  ]

  filter-insert_dropped :
      (x : A) (ys : List A) → p x ≡ false → filter p (insert le x ys) ≡ filter p ys
  unfolding insert
  filter-insert_dropped x [] h = rw h refl
  filter-insert_dropped x (y ∷ ys) h = ground (arith, filter-insert_dropped x ys h)

  -- The rows of a sort that pass are the sort of those that pass.
  pub filter-sort : (xs : List A) → filter p (sort le xs) ≡ sort le' (filter p xs)
  unfolding sort
  filter-sort [] = refl
  filter-sort (x ∷ xs) = elim (Bool-cases (p x)) [
    | inl h ↦
        rw (h, if◌then◌else◌)
          (filter-insert_kept x (sort le xs) h (sort-IsSorted order xs)
            ∙ ap (insert le' x) (filter-sort xs))
    | inr h ↦ rw (h, if◌then◌else◌) (filter-insert_dropped x (sort le xs) h ∙ filter-sort xs)
  ]
