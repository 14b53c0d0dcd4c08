-- ===== src/Monitoring/Regex.antt =====
-- The part of Python's `re` that app/monitoring/vendor_adapters.py uses: backtracking search with
-- greedy repetition of a character class and numbered groups. `\d`, `\w` and letter case are those
-- of ASCII.
use mathlib.Core.List.{foldl, reverse}
use net_auto_ops.Base.{
  ℕ, zero, suc, ◌+◌, ◌*◌, ◌-◌, Bool, true, false, not, ◌&&◌, ◌||◌, Option, none, some, List, [],
  ◌∷◌, String, leb, ◌==◌, length, take, if◌then◌else◌,
}
use net_auto_ops.Base.Text.{Text, text, is_space, lower_char}

pub data Regex : Type 0 where
  empty : Regex
  -- one character of a class, and as many as there are
  chr : (ℕ → Bool) → Regex
  many : (ℕ → Bool) → Regex
  seq alt : Regex → Regex → Regex
  group : ℕ → Regex → Regex
  -- `^` and `$` under MULTILINE, and `\b`
  line_start line_end boundary : Regex

-- A place in the text, with the characters before it from right to left, and the groups so far.
pub record Place : Type 0 where
  pub before : Text
  pub after : Text
  pub groups : List (ℕ × Text)

unfoldable pub is_word : ℕ → Bool
is_word c =
    (leb b'0' c && leb c b'9')
    || (leb b'A' c && leb c b'Z')
    || (leb b'a' c && leb c b'z')
    || c == b'_'

head_is : (ℕ → Bool) → Text → Bool
head_is p [] = false
head_is p (c ∷ s) = p c

at_edge : Text → Bool
at_edge [] = true
at_edge (c ∷ s) = c == 10

-- What stands between two places.
captured : Place → Place → Text
captured p q = reverse (take (length q.before - length p.before) q.before)

one : (ℕ → Bool) → Text → Text → List (ℕ × Text) → (Place → Option Place) → Option Place
one c before [] groups k = none
one c before (x ∷ s) groups k =
    if c x then k (record { before = x ∷ before; after = s; groups = groups }) else none

-- The longest run first.
run : (ℕ → Bool) → Text → Text → List (ℕ × Text) → (Place → Option Place) → Option Place
run c before [] groups k = k (record { before = before; after = []; groups = groups })
run c before (x ∷ s) groups k =
    let longer = run c (x ∷ before) s groups k in
    let here = k (record { before = before; after = x ∷ s; groups = groups }) in
    if c x then elim longer [ some q ↦ some q | none ↦ here ] else here

-- A match from a place, and what comes after it by the continuation.
unfoldable pub match_at : Regex → Place → (Place → Option Place) → Option Place
unfolding one run captured is_word head_is at_edge
match_at empty p k = k p
match_at (chr c) p k = one c p.before p.after p.groups k
match_at (many c) p k = run c p.before p.after p.groups k
match_at (seq a b) p k = match_at a p (λ q. match_at b q k)
match_at (alt a b) p k =
    let second = match_at b p k in elim (match_at a p k) [ some q ↦ some q | none ↦ second ]
match_at (group n r) p k =
    match_at r p (λ q. k (record q { groups = (n, captured p q) ∷ q.groups }))
match_at line_start p k = if at_edge p.before then k p else none
match_at line_end p k = if at_edge p.after then k p else none
match_at boundary p k =
    let left = head_is is_word p.before in
    let right = head_is is_word p.after in
    if (left && not right) || (right && not left) then k p else none

abbrev place : Text → Text → Place
place before after = record { before = before; after = after; groups = [] }

search_from : Regex → Text → Text → Option Place
unfolding match_at
search_from r before [] = match_at r (place before []) some
search_from r before (x ∷ s) =
    let later = search_from r (x ∷ before) s in
    elim (match_at r (place before (x ∷ s)) some) [ some q ↦ some q | none ↦ later ]

-- `re.search(r, s)`: the end of the first match, with its groups
unfoldable pub search_re : Regex → Text → Option Place
unfolding search_from
search_re r s = search_from r [] s

-- A match of `finditer`: where it starts, and its groups.
pub record Match : Type 0 where
  pub start : ℕ
  pub groups : List (ℕ × Text)

-- After a match the search goes on where it ended: `skip` characters are passed over.
finditer_from : Regex → Text → Text → ℕ → List Match
unfolding match_at
finditer_from r before [] skip = []
finditer_from r before (x ∷ s) (suc skip) = finditer_from r (x ∷ before) s skip
finditer_from r before (x ∷ s) zero =
    let found = match_at r (place before (x ∷ s)) some in
    let width : ℕ = elim found [ some q ↦ length q.before - length before - 1 | none ↦ 0 ] in
    let later = finditer_from r (x ∷ before) s width in
    elim found [
      | some q ↦ record { start = length before; groups = q.groups } ∷ later
      | none ↦ later
    ]

-- `list(r.finditer(s))`, for a pattern that matches no empty text
unfoldable pub finditer : Regex → Text → List Match
unfolding finditer_from
finditer r s = finditer_from r [] s 0

-- `m.group(n)`, for a group that takes part in every match
unfoldable pub group_of : ℕ → List (ℕ × Text) → Text
group_of n [] = []
group_of n ((k, s) ∷ rest) = let other = group_of n rest in if k == n then s else other

-- `m.group(1) if m else None`, where `m = re.search(r, s)`
unfoldable pub search_group : Regex → Text → Option Text
unfolding search_re group_of
search_group r s = elim (search_re r s) [ some q ↦ some (group_of 1 q.groups) | none ↦ none ]

-- `int(s)` of decimal digits
unfoldable pub int_of : Text → ℕ
int_of s = foldl (λ n c. n * 10 + (c - 48)) 0 s

-- Classes and patterns.
abbrev pub is_digit : ℕ → Bool
is_digit c = leb b'0' c && leb c b'9'

abbrev pub not_space : ℕ → Bool
not_space c = not (is_space c)

abbrev pub not_newline : ℕ → Bool
not_newline c = not (c == 10)

abbrev pub some_of : (ℕ → Bool) → Regex
some_of c = seq (chr c) (many c)

infixr 60 ◌▸◌
abbrev pub ◌▸◌ : Regex → Regex → Regex
a ▸ b = seq a b

lit_codes : Text → Regex
lit_codes [] = empty
lit_codes (c ∷ s) = seq (chr (λ x. x == c)) (lit_codes s)

nocase_codes : Text → Regex
nocase_codes [] = empty
nocase_codes (c ∷ s) = seq (chr (λ x. lower_char x == lower_char c)) (nocase_codes s)

-- A literal, as it stands and under IGNORECASE.
unfoldable pub lit : String → Regex
unfolding lit_codes text
lit s = lit_codes (text s)

unfoldable pub nocase : String → Regex
unfolding nocase_codes text
nocase s = nocase_codes (text s)
