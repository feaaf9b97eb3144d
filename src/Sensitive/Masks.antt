-- ===== src/Sensitive/Masks.antt =====
-- src/security/sensitive.ts: the Luhn check and the masks.
use kube_diagnostics_mcp.Common.{
  ℕ, zero, suc, ◌+◌, ◌-◌, ◌*◌, ◌%◌, min, Bool, true, false, not, ◌&&◌, ◌||◌, List, [], ◌∷◌, ◌++◌,
  filter, any, Text, txt, length, leb, ltb, take, take_last, if◌then◌else◌, ◌==◌,
}
use kube_diagnostics_mcp.Regex.{test}
use kube_diagnostics_mcp.Regex.Anchored.{all_of}
use kube_diagnostics_mcp.Regex.Classes.{is_digit, is_space}
use kube_diagnostics_mcp.Strings.{split, slice_to}

-- `s.replace(/[\s-]/g, "")`
unfoldable pub without_gaps : Text → Text
unfolding filter
without_gaps s = filter (λ c. not (is_space c || c == b'-')) s

-- What one digit adds to the sum.
abbrev pub share : Bool → ℕ → ℕ
share false n = n
share true n = if ltb 9 (n * 2) then n * 2 - 9 else n * 2

-- The loop over the digits from the last to the first, which doubles every second one.
unfoldable pub luhn_sum : Bool → List ℕ → ℕ
luhn_sum doubled [] = 0
luhn_sum doubled (n ∷ ns) = share doubled n + luhn_sum (not doubled) ns

-- The digits' values, the last first.
unfoldable pub digits_from_last : Text → List ℕ → List ℕ
digits_from_last [] acc = acc
digits_from_last (c ∷ s) acc = digits_from_last s ((c - b'0') ∷ acc)

unfoldable pub luhn_valid : Text → Bool
unfolding without_gaps luhn_sum digits_from_last test
luhn_valid digits =
    let s = without_gaps digits in
    if test (all_of is_digit 13 19) s
    then luhn_sum false (digits_from_last s []) % 10 == 0
    else false

unfoldable pub stars : ℕ → Text
stars zero = []
stars (suc n) = b'*' ∷ stars n

-- `maskMiddle(value, keep)`, for `keep` at least 1
unfoldable pub mask_middle : Text → ℕ → Text
unfolding stars take take_last
mask_middle value keep =
    if leb (length value) (keep * 2 + 1)
    then stars (length value)
    else slice_to keep value ++ (stars (min (length value - keep * 2) 12) ++ take_last keep value)

-- The text from the last dot on, empty if there is none.
unfoldable pub from_last_dot : Text → Text
unfolding any
from_last_dot [] = []
from_last_dot (c ∷ s) =
    let later = from_last_dot s in
    if any (λ d. d == b'.') s then later else if c == b'.' then c ∷ s else []

abbrev pub first_two : List Text → Text × Text
first_two [] = ([], [])
first_two (a ∷ []) = (a, [])
first_two (a ∷ b ∷ l) = (a, b)

unfoldable pub mask_email : Text → Text
unfolding split from_last_dot take txt
mask_email value =
    let (local, domain) = first_two (split b'@' value) in
    slice_to 2 local ++ (txt "***@***" ++ from_last_dot domain)

-- `m.slice(0, m.search(/[:=]/) + 1)`
unfoldable pub through_assignment : Text → Text
through_assignment [] = []
through_assignment (c ∷ s) =
    let rest = through_assignment s in if c == b':' || c == b'=' then c ∷ [] else c ∷ rest

-- `m.slice(0, m.indexOf("://") + 3)`, of a text that has it
unfoldable pub through_scheme : Text → Text
through_scheme (c ∷ d ∷ e ∷ s) =
    let rest = through_scheme (d ∷ e ∷ s) in
    if c == b':' && (d == b'/' && e == b'/') then c ∷ d ∷ e ∷ [] else c ∷ rest
through_scheme s = s
