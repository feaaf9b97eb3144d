-- ===== src/Rum/Prometheus/Labels.antt =====
-- A label that the exposition holds is read back by the rules of the text format.
use kube_diagnostics_mcp.Common.{
  ℕ, ◌≡◌, refl, Bool, true, false, Option, none, some, [], ◌∷◌, ◌++◌, arith, Text, All,
  if◌then◌else◌, ◌==◌, ap, ◌∙◌,
}
use kube_diagnostics_mcp.Rum.Prometheus.{esc}

-- A reader of a label's value up to its closing quote, by the rules of the text format: a backslash
-- stands before a backslash, a quote or an `n` for a line feed, and a value has no line feed.
unescaped : ℕ → Option ℕ
unescaped c =
    if c == b'\\'
    then some b'\\'
    else if c == b'"'
    then some b'"'
    else if c == b'n'
    then some 10
    else none

abbrev with_char : Option ℕ → Option (Text × Text) → Option (Text × Text)
with_char (some c) (some (s, rest)) = some (c ∷ s, rest)
with_char _ _ = none

-- The flag says that the character before was a backslash.
read_from : Bool → Text → Option (Text × Text)
read_from escaped [] = none
read_from true (c ∷ s) = with_char (unescaped c) (read_from false s)
read_from false (c ∷ s) =
    let marked = read_from true s in
    let plain = with_char (some c) (read_from false s) in
    if c == b'"'
    then some ([], s)
    else if c == b'\\'
    then marked
    else if c == 10
    then none
    else plain

pub read_label : Text → Option (Text × Text)
read_label s = read_from false s

abbrev esc_char : ℕ → Text → Text
esc_char c s =
    if c == b'\\' then b'\\' ∷ b'\\' ∷ s else if c == b'"' then b'\\' ∷ b'"' ∷ s else c ∷ s

esc-cons : (c : ℕ) (s : Text) → esc (c ∷ s) ≡ esc_char c (esc s)
unfolding esc
esc-cons c s = ground arith

read_char :
    (c : ℕ) (s t rest : Text)
    → (c == 10) ≡ false
    → read_from false t ≡ some (s, rest)
    → read_from false (esc_char c t) ≡ some (c ∷ s, rest)
unfolding read_from unescaped
read_char c s t rest h k = ground arith

esc_char-append : (c : ℕ) (s t : Text) → esc_char c s ++ t ≡ esc_char c (s ++ t)
esc_char-append c s t = ground arith

-- No character is a line feed.
abbrev pub OneLine : Text → Type 0
OneLine = All (λ c. (c == 10) ≡ false)

-- A label of one line that is escaped and closed by a quote is read back whole, and the reader goes
-- on right after that quote: nothing in the label ends it early.
pub read_label-esc :
    (s rest : Text) → OneLine s → read_label (esc s ++ b'"' ∷ rest) ≡ some (s, rest)
unfolding read_label read_from esc
read_label-esc [] rest h = refl
read_label-esc (c ∷ s) rest h =
    ap (λ (t : Text). read_from false (t ++ b'"' ∷ rest)) (esc-cons c s)
    ∙ ap (read_from false) (esc_char-append c (esc s) (b'"' ∷ rest))
    ∙ read_char c s (esc s ++ b'"' ∷ rest) rest h.0 (read_label-esc s rest h.1)
