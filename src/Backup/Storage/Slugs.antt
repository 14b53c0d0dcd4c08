-- ===== src/Backup/Storage/Slugs.antt =====
-- What a slug is made of.
use mathlib.Core.List.{reverse, reverse-reverse, reverse_aux}
use net_auto_ops.Base.{
  ℕ, ◌≡◌, ◌≢◌, refl, Bool, true, false, [], ◌∷◌, All, All-map, arith, Bool-cases, inl, inr,
  if◌then◌else◌,
}
use net_auto_ops.Base.Text.{Text, text, strip, strip_of, lower, lower_char, drop_while, is_space}
use net_auto_ops.Backup.Storage.{is_slug_char, replace_runs, is_underscore, or_unknown, slugify}

abbrev IsSlug : Text → Type 0
IsSlug s = All (λ c. is_slug_char c ≡ true) s

underscore_is_slug_char : is_slug_char b'_' ≡ true
unfolding is_slug_char
underscore_is_slug_char = refl

replace_runs-IsSlug : (in_run : Bool) (s : Text) → IsSlug (replace_runs in_run s)
unfolding replace_runs
replace_runs-IsSlug in_run [] = tt
replace_runs-IsSlug true (c ∷ s) = elim (Bool-cases (is_slug_char c)) [
  | inl e ↦ rw (e, replace_runs) (e, replace_runs-IsSlug false s)
  | inr e ↦ rw (e, replace_runs) (replace_runs-IsSlug true s)
]
replace_runs-IsSlug false (c ∷ s) = elim (Bool-cases (is_slug_char c)) [
  | inl e ↦ rw (e, replace_runs) (e, replace_runs-IsSlug false s)
  | inr e ↦ rw (e, replace_runs) (underscore_is_slug_char, replace_runs-IsSlug true s)
]

All-reverse_aux : (P : ℕ → Type 0) (s t : Text) → All P s → All P t → All P (reverse_aux s t)
All-reverse_aux P [] t h k = k
All-reverse_aux P (c ∷ s) t (p, h) k = All-reverse_aux P s (c ∷ t) h (p, k)

All-drop_while : (P : ℕ → Type 0) (p : ℕ → Bool) (s : Text) → All P s → All P (drop_while p s)
unfolding drop_while
All-drop_while P p [] h = tt
All-drop_while P p (c ∷ s) (q, h) = elim (Bool-cases (p c)) [
  | inl e ↦ rw (e, if◌then◌else◌) (All-drop_while P p s h)
  | inr e ↦ rw (e, if◌then◌else◌) (q, h)
]

strip_of-IsSlug : (p : ℕ → Bool) (s : Text) → IsSlug s → IsSlug (strip_of p s)
unfolding strip_of
strip_of-IsSlug p s h =
    All-reverse_aux _ (drop_while p (reverse (drop_while p s))) []
      (All-drop_while _ p _ (All-reverse_aux _ (drop_while p s) [] (All-drop_while _ p s h) tt)) tt

or_unknown-IsSlug : (s : Text) → IsSlug s → IsSlug (or_unknown s) × (or_unknown s ≢ [])
unfolding text is_slug_char
or_unknown-IsSlug [] h = ((refl, (refl, (refl, (refl, (refl, (refl, (refl, tt))))))), λ e. cc)
or_unknown-IsSlug (c ∷ s) h = (h, λ e. cc)

-- A slug is never empty, and has only lower-case letters, digits, dots, underscores and dashes: in
-- particular no path separator.
pub slugify-IsSlug :
    (value : Text) → All (λ c. is_slug_char c ≡ true) (slugify value) × (slugify value ≢ [])
unfolding slugify
slugify-IsSlug value =
    or_unknown-IsSlug _
      (strip_of-IsSlug is_underscore _ (replace_runs-IsSlug false (lower (strip value))))

replace_runs-fixed : (s : Text) → IsSlug s → replace_runs false s ≡ s
unfolding replace_runs
replace_runs-fixed [] h = refl
replace_runs-fixed (c ∷ s) (e, h) = rw (e, replace_runs, replace_runs-fixed s h) refl

lower-fixed : (s : Text) → IsSlug s → lower s ≡ s
unfolding lower lower_char is_slug_char
lower-fixed [] h = refl
lower-fixed (c ∷ s) (e, h) = ground (arith, lower-fixed s h)

not_space : (c : ℕ) → is_slug_char c ≡ true → is_space c ≡ false
unfolding is_space is_slug_char
not_space c h = ground arith

drop_while-fixed : (p : ℕ → Bool) (s : Text) → All (λ c. p c ≡ false) s → drop_while p s ≡ s
unfolding drop_while
drop_while-fixed p [] h = refl
drop_while-fixed p (c ∷ s) (e, h) = rw (e, if◌then◌else◌) refl

strip_fixed : (s : Text) → IsSlug s → strip s ≡ s
unfolding strip strip_of
strip_fixed s h =
    let k : All (λ c. is_space c ≡ false) s = All-map (λ c e. not_space c e) s h in
    rw
      (
        drop_while-fixed is_space s k,
        drop_while-fixed is_space (reverse s) (All-reverse_aux _ s [] k tt),
      )
      (reverse-reverse s)

-- A name of such characters that is not empty and has no underscore at its ends is its own slug,
-- a name that consists of dots included.
pub slugify_fixed :
    (s : Text)
    → All (λ c. is_slug_char c ≡ true) s
    → strip_of is_underscore s ≡ s
    → s ≢ []
    → slugify s ≡ s
unfolding slugify
slugify_fixed [] h k n = elim (n refl) [ ]
slugify_fixed (c ∷ s) h k n =
    rw (strip_fixed (c ∷ s) h, lower-fixed (c ∷ s) h, replace_runs-fixed (c ∷ s) h, k) refl
