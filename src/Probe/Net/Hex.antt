-- ===== src/Probe/Net/Hex.antt =====
-- What the kernel writes into /proc/net/tcp for an address is read back.
use kube_diagnostics_mcp.Common.{
  ℕ, zero, suc, ◌+◌, ◌-◌, ◌*◌, ◌/◌, ◌%◌, ◌≤◌, ◌<◌, ◌≡◌, refl, ◌∙◌, ap, true, false, List, [], ◌∷◌,
  ◌++◌, arith, Text, txt, All, All-append, ◌==◌, ltb, if◌then◌else◌, whole, print, length,
  length-append,
}
use kube_diagnostics_mcp.Probe.Net.{
  Address, to_uint32, byte_at, first, second, parse_hex?, hex_value, hex_prefix, hex_digits_value,
  skip_0x, parse_hex, parse_hex_addr4, dotted,
}
use kube_diagnostics_mcp.Regex.Classes.{is_hex}
use kube_diagnostics_mcp.Strings.{join, split}
use kube_diagnostics_mcp.Strings.Laws.{Without, split-two}

-- The kernel's `%X` at a fixed width.
abbrev pub hex_digit : ℕ → ℕ
hex_digit d = if ltb d 10 then b'0' + d else b'A' + (d - 10)

abbrev pub hex_text : ℕ → ℕ → Text
hex_text zero n = []
hex_text (suc k) n = hex_text k (n / 16) ++ hex_digit (n % 16) ∷ []

-- `n` has `k` hexadecimal digits at most.
abbrev Fits : ℕ → ℕ → Type 0
Fits zero n = n ≡ 0
Fits (suc k) n = Fits k (n / 16)

abbrev Hex : Text → Type 0
Hex = All (λ c. is_hex c ≡ true)

digit_value : (d : ℕ) → d < 16 → hex_value (hex_digit d) ≡ d
digit_value d h = ground arith

digit_hex : (d : ℕ) → d < 16 → is_hex (hex_digit d) ≡ true
digit_hex d h = ground arith

hex_text-Hex : (k n : ℕ) → Hex (hex_text k n)
hex_text-Hex zero n = tt
hex_text-Hex (suc k) n =
    All-append (λ c. is_hex c ≡ true) (hex_text k (n / 16)) (hex_digit (n % 16) ∷ [])
      (hex_text-Hex k (n / 16)) (digit_hex (n % 16) (omega arith), tt)

value-push :
    (acc : ℕ) (s : Text) (c : ℕ)
    → hex_digits_value acc (s ++ c ∷ []) ≡ hex_digits_value acc s * 16 + hex_value c
unfolding hex_digits_value
value-push acc [] c = refl
value-push acc (d ∷ s) c = value-push (acc * 16 + hex_value d) s c

value-hex_text : (k n : ℕ) → Fits k n → hex_digits_value 0 (hex_text k n) ≡ n
unfolding hex_digits_value
value-hex_text zero n h = omega arith
value-hex_text (suc k) n h =
    value-push 0 (hex_text k (n / 16)) (hex_digit (n % 16))
    ∙ omega (arith, value-hex_text k (n / 16) h, digit_value (n % 16) (omega arith))

hex_prefix-Hex : (s : Text) → Hex s → hex_prefix s ≡ s
hex_prefix-Hex [] h = refl
hex_prefix-Hex (c ∷ s) h = rw h.0 (ap (◌∷◌ c) (hex_prefix-Hex s h.1))

skip_0x-Hex : (s : Text) → Hex s → skip_0x s ≡ s
skip_0x-Hex [] h = refl
skip_0x-Hex (c ∷ []) h = refl
skip_0x-Hex (c ∷ d ∷ s) h = ground (arith, h.1.0)

Hex-Without : (s : Text) → Hex s → Without b':' s
Hex-Without [] h = tt
Hex-Without (c ∷ s) h = (ground (arith, h.0), Hex-Without s h.1)

parse_hex-Hex :
    (c : ℕ) (s : Text) → Hex (c ∷ s) → parse_hex (c ∷ s) ≡ whole (hex_digits_value 0 (c ∷ s))
unfolding parse_hex
parse_hex-Hex c s h =
    let plain : (c == b'-') ≡ false = ground (arith, h.0) in
    let no_plus : (c == b'+') ≡ false = ground (arith, h.0) in
    rw (plain, no_plus, skip_0x-Hex (c ∷ s) h, hex_prefix-Hex (c ∷ s) h) refl

parse_hex-hex_text : (k n : ℕ) → Fits (suc k) n → parse_hex (hex_text (suc k) n) ≡ whole n
parse_hex-hex_text k n f =
    non_empty (hex_text (suc k) n) (hex_text-Hex (suc k) n)
      (omega (arith, length-append (hex_text k (n / 16)) (hex_digit (n % 16) ∷ [])))
    ∙ ap whole (value-hex_text (suc k) n f)
  where
    non_empty : (s : Text) → Hex s → 1 ≤ length s → parse_hex s ≡ whole (hex_digits_value 0 s)
    non_empty [] h l = absurd (omega arith)
    non_empty (c ∷ s) h l = parse_hex-Hex c s h

-- The word in which the kernel of a little-endian machine keeps the address `a.b.c.d`.
abbrev pub word_of : (a b c d : ℕ) → ℕ
word_of a b c d = a + 256 * b + 65536 * c + 16777216 * d

dotted_word :
    (a b c d : ℕ)
    → a < 256
    → b < 256
    → c < 256
    → d < 256
    → dotted (to_uint32 (whole (word_of a b c d)))
      ≡ join (txt ".") (print a ∷ print b ∷ print c ∷ print d ∷ [])
unfolding dotted
dotted_word a b c d ha hb hc hd =
    let n = to_uint32 (whole (word_of a b c d)) in
    let e0 : byte_at 0 n ≡ a = omega arith in
    let e1 : byte_at 8 n ≡ b = omega arith in
    let e2 : byte_at 16 n ≡ c = omega arith in
    let e3 : byte_at 24 n ≡ d = omega arith in
    λ i. join (txt ".") (print (e0 i) ∷ print (e1 i) ∷ print (e2 i) ∷ print (e3 i) ∷ [])

abbrev address_of : List Text → Address
address_of parts = record {
  address = dotted (to_uint32 (parse_hex (first parts)));
  port = parse_hex? (second parts);
}

read_parts :
    (s t : Text) (n p : ℕ)
    → parse_hex s ≡ whole n
    → parse_hex t ≡ whole p
    → address_of (s ∷ t ∷ []) ≡ record { address = dotted (to_uint32 (whole n)); port = whole p }
read_parts s t n p h k = λ i. record { address = dotted (to_uint32 (h i)); port = k i }

split_parts : (hex : Text) → parse_hex_addr4 hex ≡ address_of (split b':' hex)
unfolding parse_hex_addr4
split_parts hex = refl

-- What the kernel prints for `a.b.c.d` and a port is read as this dotted address and port.
pub parse_hex_addr4_roundtrip :
    (a b c d p : ℕ)
    → a < 256
    → b < 256
    → c < 256
    → d < 256
    → p < 65536
    → parse_hex_addr4 (hex_text 8 (word_of a b c d) ++ b':' ∷ hex_text 4 p) ≡ record {
      address = join (txt ".") (print a ∷ print b ∷ print c ∷ print d ∷ []);
      port = whole p;
    }
parse_hex_addr4_roundtrip a b c d p ha hb hc hd hp =
    let n = word_of a b c d in
    let s = hex_text 8 n in
    let t = hex_text 4 p in
    split_parts _
    ∙ ap address_of
        (split-two b':' s t (Hex-Without s (hex_text-Hex 8 n)) (Hex-Without t (hex_text-Hex 4 p)))
    ∙ read_parts s t n p (parse_hex-hex_text 7 n (omega arith))
        (parse_hex-hex_text 3 p (omega arith))
    ∙ (λ i. record { address = dotted_word a b c d ha hb hc hd i; port = whole p })
