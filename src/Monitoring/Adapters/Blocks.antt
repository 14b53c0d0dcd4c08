-- ===== src/Monitoring/Adapters/Blocks.antt =====
-- The parser that two vendors share, and the cutting of an output into one block for each header,
-- of app/monitoring/vendor_adapters.py.
use net_auto_ops.Base.{
  ℕ, ◌-◌, ◌*◌, Option, none, some, List, [], ◌∷◌, length, ltb, take, drop, if◌then◌else◌,
}
use mathlib.Core.Option as Opt
use net_auto_ops.Exec.{other, Result, ok, raised, and_then}
use net_auto_ops.Base.Text.{Text, text, strip, lower, is_space}
use net_auto_ops.Monitoring.Regex.{
  Regex, group, line_start, line_end, ◌▸◌, some_of, lit, not_space, not_newline, search_re,
  group_of, Match, search_group, int_of,
}
use net_auto_ops.Monitoring.Adapters.Types.{VersionInfo}

-- ^(\S+)\s+uptime is\s+(.+)$
uptime_re : Regex
uptime_re =
    line_start
    ▸ group 1 (some_of not_space)
    ▸ some_of is_space
    ▸ lit "uptime is"
    ▸ some_of is_space
    ▸ group 2 (some_of not_newline)
    ▸ line_end

unfoldable pub parse_uptime_line : Text → VersionInfo
unfolding uptime_re
parse_uptime_line output = elim (search_re uptime_re output) [
  | none ↦ record { hostname = none; uptime = none }
  | some m ↦ record {
    hostname = some (group_of 1 m.groups);
    uptime = some (strip (group_of 2 m.groups));
  }
]

-- The header matches with their blocks: `output[match.start():end]`, where `end` is the start of
-- the next header, or the length of the output.
unfoldable pub blocks : Text → List Match → List (Match × Text)
blocks output [] = []
blocks output (m ∷ []) = (m, drop m.start output) ∷ []
blocks output (m ∷ n ∷ rest) =
    (m, take (n.start - m.start) (drop m.start output)) ∷ blocks output (n ∷ rest)

-- `float(m.group(1)) if m else None`, in hundredths
unfoldable pub search_float : Regex → Text → Option ℕ
search_float r s = Opt.map (λ t. 100 * int_of t) (search_group r s)

-- `int(s)` of decimal digits, which raises ValueError on more than 4300 of them
int_of_group : Option Text → Result (Option ℕ)
int_of_group none = ok none
int_of_group (some s) =
    if ltb 4300 (length s) then raised (other (text "ValueError")) else ok (some (int_of s))

-- `int(m.group(1)) if m else None`
unfoldable pub search_int : Regex → Text → Result (Option ℕ)
unfolding int_of_group
search_int r s = int_of_group (search_group r s)

-- `for x in xs: results.append(f(x))`
unfoldable pub each : {A B : Type 0} → (A → Result B) → List A → Result (List B)
each f [] = ok []
each f (x ∷ xs) = and_then (f x) λ y. and_then (each f xs) λ ys. ok (y ∷ ys)

unfoldable pub search_lower : Regex → Text → Option Text
search_lower r s = Opt.map lower (search_group r s)

unfoldable pub search_strip : Regex → Text → Option Text
search_strip r s = Opt.map strip (search_group r s)
