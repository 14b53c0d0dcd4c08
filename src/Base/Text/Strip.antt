-- ===== src/Base/Text/Strip.antt =====
-- A stripped text stays as it is.
use Prim.Native.Nat.{ℕ, ◌≤◌}
use mathlib.Core.Path.{◌≡◌, refl, sym, ap, ◌∙◌}
use mathlib.Core.Logic.{inl, inr}
use mathlib.Core.Bool.{Bool}
use mathlib.Core.List.{[], ◌∷◌, ◌++◌, reverse, reverse-append, reverse-reverse}
use native.Mathlib.Omega.{arith}
use net_auto_ops.Base.Tests.{if◌then◌else◌, Bool-cases}
use net_auto_ops.Base.Lists.{length}
use net_auto_ops.Base.Text.{Text, drop_while, strip_of, strip, is_space}

module _ (p : ℕ → Bool) where
  drop_while-drop_while : (s : Text) → drop_while p (drop_while p s) ≡ drop_while p s
  unfolding drop_while
  drop_while-drop_while [] = refl
  drop_while-drop_while (c ∷ s) = elim (Bool-cases (p c)) [
    | inl e ↦ rw (e, if◌then◌else◌) (drop_while-drop_while s)
    | inr e ↦ rw (e, if◌then◌else◌) (rw (e, if◌then◌else◌) refl)
  ]

  length-drop_while-le : (s : Text) → length (drop_while p s) ≤ length s
  unfolding drop_while
  length-drop_while-le [] = omega arith
  length-drop_while-le (c ∷ s) = ground (arith, length-drop_while-le s)

  -- What is dropped stood in front.
  drop_while-append : (s : Text) → (dropped : Text) × (s ≡ dropped ++ drop_while p s)
  unfolding drop_while
  drop_while-append [] = ([], refl)
  drop_while-append (c ∷ s) = elim (Bool-cases (p c)) [
    | inl e ↦ let (t, h) = drop_while-append s in (c ∷ t, rw (e, if◌then◌else◌) (ap (λ x. c ∷ x) h))
    | inr e ↦ ([], rw (e, if◌then◌else◌) refl)
  ]

  drop_while-prefix : (s t : Text) → drop_while p (s ++ t) ≡ s ++ t → drop_while p s ≡ s
  unfolding drop_while
  drop_while-prefix [] t h = refl
  drop_while-prefix (c ∷ s) t h = elim (Bool-cases (p c)) [
    | inr e ↦ rw (e, if◌then◌else◌) refl
    | inl e ↦
        let same : drop_while p (s ++ t) ≡ c ∷ s ++ t = rw (e, if◌then◌else◌) at h in
        let l = ap length same in absurd (omega (arith, length-drop_while-le (s ++ t)))
  ]

  strip_of-strip_of : (s : Text) → strip_of p (strip_of p s) ≡ strip_of p s
  unfolding strip_of
  strip_of-strip_of s =
      let u = drop_while p s in
      let v = reverse u in
      let t = reverse (drop_while p v) in
      let (d, split) = drop_while-append v in
      let whole : u ≡ t ++ reverse d =
        sym (reverse-reverse u) ∙ ap reverse split ∙ reverse-append d (drop_while p v) in
      let kept : drop_while p t ≡ t =
        drop_while-prefix t (reverse d)
          (ap (drop_while p) (sym whole) ∙ drop_while-drop_while s ∙ whole) in
      ap (λ x. reverse (drop_while p (reverse x))) kept
      ∙ ap (λ x. reverse (drop_while p x)) (reverse-reverse (drop_while p v))
      ∙ ap reverse (drop_while-drop_while v)

pub strip-strip : (s : Text) → strip (strip s) ≡ strip s
unfolding strip
strip-strip s = strip_of-strip_of is_space s
