-- ===== src/Strings.antt =====
-- The methods of JavaScript strings that the program calls.
pub mod Laws
use mathlib.Core.List.{reverse}
use kube_diagnostics_mcp.Common.{
  ℕ, zero, suc, ◌+◌, ◌-◌, ◌≤◌, ◌≡◌, Bool, true, false, ◌&&◌, Option, none, some, List, [], ◌∷◌,
  ◌++◌, map, ◌==◌, if◌then◌else◌, Text, length, take, drop,
}
use kube_diagnostics_mcp.Regex.Classes.{is_space, lower}

drop_space : Text → Text
drop_space [] = []
drop_space (c ∷ s) = if is_space c then drop_space s else c ∷ s

-- `s.trim()`
unfoldable pub trim : Text → Text
unfolding drop_space
trim s = reverse (drop_space (reverse (drop_space s)))

-- `s.trimEnd()`
unfoldable pub trim_end : Text → Text
unfolding drop_space
trim_end s = reverse (drop_space (reverse s))

-- `s.toLowerCase()`, on ASCII text
abbrev pub lower_case : Text → Text
lower_case = map lower

-- `s.startsWith(p)`
unfoldable pub starts_with : Text → Text → Bool
starts_with [] s = true
starts_with (c ∷ p) [] = false
starts_with (c ∷ p) (d ∷ s) = c == d && starts_with p s

split_from : ℕ → Text → Text → List Text
split_from sep cur [] = cur ∷ []
split_from sep cur (c ∷ s) =
    let closed = cur ∷ split_from sep [] s in
    let longer = split_from sep (cur ++ c ∷ []) s in if c == sep then closed else longer

-- `s.split(sep)`, for a separator of one character
unfoldable pub split : ℕ → Text → List Text
unfolding split_from
split sep s = split_from sep [] s

split_space_from : Bool → Text → Text → List Text
split_space_from gap cur [] = cur ∷ []
split_space_from gap cur (c ∷ s) =
    let skipped = split_space_from true cur s in
    let closed = cur ∷ split_space_from true [] s in
    let longer = split_space_from false (cur ++ c ∷ []) s in
    if is_space c then (if gap then skipped else closed) else longer

-- `s.split(/\s+/)`
unfoldable pub split_space : Text → List Text
unfolding split_space_from
split_space s = split_space_from false [] s

-- `s.split(sep)[0]`
unfoldable pub until : ℕ → Text → Text
until sep [] = []
until sep (c ∷ s) = if c == sep then [] else c ∷ until sep s

-- `l.join(sep)`
unfoldable pub join : Text → List Text → Text
join sep [] = []
join sep (s ∷ []) = s
join sep (s ∷ t ∷ l) = s ++ (sep ++ join sep (t ∷ l))

-- `s.slice(0, n)`
abbrev pub slice_to : ℕ → Text → Text
slice_to = take

-- `s.slice(n)`
abbrev pub slice_from : ℕ → Text → Text
slice_from = drop
