-- ===== src/Regex/Classes.antt =====
-- The character classes of the source's regular expressions.
use Prim.Native.Nat.{◌+◌, ◌-◌}
use kube_diagnostics_mcp.Common.{ℕ, Bool, true, false, ◌&&◌, ◌||◌, [], ◌∷◌, ◌==◌, leb, Text}

abbrev pub is_lower : ℕ → Bool
is_lower c = leb b'a' c && leb c b'z'

abbrev pub is_upper : ℕ → Bool
is_upper c = leb b'A' c && leb c b'Z'

-- `\d`
abbrev pub is_digit : ℕ → Bool
is_digit c = leb b'0' c && leb c b'9'

-- `[a-z0-9]`
abbrev pub is_lower_alnum : ℕ → Bool
is_lower_alnum c = is_lower c || is_digit c

-- `[A-Za-z]`
abbrev pub is_letter : ℕ → Bool
is_letter c = is_upper c || is_lower c

-- `[A-Za-z0-9]`
abbrev pub is_alnum : ℕ → Bool
is_alnum c = is_letter c || is_digit c

-- `\w`
abbrev pub is_word : ℕ → Bool
is_word c = is_alnum c || c == b'_'

-- `[0-9a-f]` under the `i` flag
abbrev pub is_hex : ℕ → Bool
is_hex c = is_digit c || leb b'a' c && leb c b'f' || leb b'A' c && leb c b'F'

-- `\s`, and what `trim` removes: the white space and line terminators of ECMAScript
abbrev pub is_space : ℕ → Bool
is_space c =
    leb 9 c && leb c 13
    || c == 32
    || c == 160
    || c == 5760
    || leb 8192 c && leb c 8202
    || c == 8232
    || c == 8233
    || c == 8239
    || c == 8287
    || c == 12288
    || c == 65279

-- `[…]` of single characters
unfoldable pub one_of : Text → ℕ → Bool
one_of [] c = false
one_of (d ∷ ds) c = c == d || one_of ds c

-- A class under the `i` flag: either case of the letter is tried.
abbrev pub upper : ℕ → ℕ
upper c = elim (is_lower c) [ true ↦ c - 32 | false ↦ c ]

abbrev pub lower : ℕ → ℕ
lower c = elim (is_upper c) [ true ↦ c + 32 | false ↦ c ]

abbrev pub any_case : (ℕ → Bool) → ℕ → Bool
any_case p c = p (lower c) || p (upper c)
