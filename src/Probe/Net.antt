-- ===== src/Probe/Net.antt =====
-- src/probe/procnet.ts: the readers of /proc/net. The four files are arguments, none where a file
-- cannot be read.
pub mod Hex
pub mod Connections
pub mod Counts
mod Tests
use kube_diagnostics_mcp.Common.{
  ℕ, ◌+◌, ◌-◌, ◌*◌, ◌/◌, ◌%◌, ◌^◌, Bool, true, false, not, ◌&&◌, ◌||◌, Option, none, some, List, [],
  ◌∷◌, ◌++◌, map, Text, txt, Map, get, put, same, is_empty, or_else, if◌then◌else◌, ◌==◌, ltb, leb,
  length, take, drop, any, add_to, sort_by, descending, Number, nan, infinity, minus_infinity, plus,
  minus, whole, million, print,
}
use kube_diagnostics_mcp.Regex.{
  Regex, char, rep, group, start, finish, ahead, lit, seqs, many1, Captures, Hit, capture, exec,
  replace_once,
}
use kube_diagnostics_mcp.Regex.Classes.{is_digit, is_hex, is_letter, one_of}
use kube_diagnostics_mcp.Strings.{trim, split, split_space, join, lower_case, slice_from, slice_to}

abbrev pub hex_value : ℕ → ℕ
hex_value c = if is_digit c then c - b'0' else if leb b'a' c then c - b'a' + 10 else c - b'A' + 10

abbrev pub hex_prefix : Text → Text
hex_prefix [] = []
hex_prefix (c ∷ s) = if is_hex c then c ∷ hex_prefix s else []

unfoldable pub hex_digits_value : ℕ → Text → ℕ
hex_digits_value acc [] = acc
hex_digits_value acc (c ∷ s) = hex_digits_value (acc * 16 + hex_value c) s

abbrev pub skip_0x : Text → Text
skip_0x (c ∷ d ∷ s) = if c == b'0' && (d == b'x' || d == b'X') then s else c ∷ d ∷ s
skip_0x s = s

abbrev pub hex_number : Text → Number
hex_number [] = nan
hex_number (c ∷ s) = whole (hex_digits_value 0 (c ∷ s))

-- A negative zero is zero.
abbrev pub negated : Number → Number
negated (plus n) = if n == 0 then plus 0 else minus (n - 1)
negated n = n

-- `Number.parseInt(s, 16)`, of a text that begins with no white space
unfoldable pub parse_hex : Text → Number
unfolding hex_digits_value
parse_hex [] = nan
parse_hex (c ∷ s) =
    if c == b'-'
    then negated (hex_number (hex_prefix (skip_0x s)))
    else hex_number (hex_prefix (skip_0x (if c == b'+' then s else c ∷ s)))

-- A missing part is `undefined`, which `parseInt` reads as the text "undefined", that is no number.
abbrev pub parse_hex? : Option Text → Number
parse_hex? none = nan
parse_hex? (some s) = parse_hex s

-- The 32 bits on which `&` and `>>>` work.
abbrev pub to_uint32 : Number → ℕ
to_uint32 (plus n) = n / million % 2 ^ 32
to_uint32 (minus n) = (2 ^ 32 - (n + 1) / million % 2 ^ 32) % 2 ^ 32
to_uint32 _ = 0

-- `(n >>> k) & 0xff`, for a shift by `k` of 8, 16 or 24
abbrev pub byte_at : ℕ → ℕ → ℕ
byte_at k n = n / 2 ^ k % 256

pub record Address : Type 0 where
  pub address : Text
  pub port : Number

abbrev pub second : List Text → Option Text
second (a ∷ b ∷ l) = some b
second _ = none

abbrev pub first : List Text → Text
first [] = []
first (a ∷ l) = a

unfoldable pub dotted : ℕ → Text
unfolding print join txt
dotted n =
    join (txt ".")
      (print (byte_at 0 n) ∷ print (byte_at 8 n) ∷ print (byte_at 16 n) ∷ print (byte_at 24 n) ∷ [])

unfoldable pub parse_hex_addr4 : Text → Address
unfolding parse_hex dotted split
parse_hex_addr4 hex =
    let parts = split b':' hex in
    record {
      address = dotted (to_uint32 (parse_hex (first parts)));
      port = parse_hex? (second parts);
    }

-- `s.slice(a, b)`
abbrev pub slice : ℕ → ℕ → Text → Text
slice a b s = take (b - a) (drop a s)

-- The two groups of one little-endian word of eight hexadecimal digits.
abbrev pub word_groups : Text → List Text
word_groups w = (slice 6 8 w ++ slice 4 6 w) ∷ (slice 2 4 w ++ slice 0 2 w) ∷ []

-- `/^0+(?=.)/`
abbrev pub leading_zeros : Regex
leading_zeros = seqs (
    start
    ∷ many1 (λ c. c == b'0')
    ∷ ahead true (char (λ c. not (one_of (10 ∷ 13 ∷ 8232 ∷ 8233 ∷ []) c)))
    ∷ [])

abbrev no_text : Text → Captures → Text
no_text m cs = []

unfoldable pub group_text : Text → Text
unfolding replace_once
group_text g = lower_case (replace_once leading_zeros no_text g)

abbrev pub is_low_hex : ℕ → Bool
is_low_hex c = is_digit c || leb b'a' c && leb c b'f'

-- `/^0:0:0:0:0:ffff:([0-9a-f]{1,4}):([0-9a-f]{1,4})$/`
abbrev pub v4_mapped : Regex
unfolding txt
v4_mapped = seqs (
    start
    ∷ lit (txt "0:0:0:0:0:ffff:")
    ∷ group 1 (rep true 1 (some 4) is_low_hex)
    ∷ lit (txt ":")
    ∷ group 2 (rep true 1 (some 4) is_low_hex)
    ∷ finish
    ∷ [])

-- The captures are hexadecimal digits; padding them with zeros leaves their value.
v4_of : Captures → Text
unfolding hex_digits_value capture join print txt
v4_of cs =
    let hi = hex_digits_value 0 (or_else (capture 1 cs) []) in
    let lo = hex_digits_value 0 (or_else (capture 2 cs) []) in
    join (txt ".") (print (hi / 256) ∷ print (hi % 256) ∷ print (lo / 256) ∷ print (lo % 256) ∷ [])

unfoldable pub address6 : Text → Text
unfolding group_text v4_of exec join take drop txt
address6 a =
    let address = join (txt ":") (
      map group_text (
        word_groups (slice 0 8 a)
        ++ (word_groups (slice 8 16 a)
            ++ (word_groups (slice 16 24 a) ++ word_groups (slice 24 32 a))))) in
    elim (exec v4_mapped address) [ none ↦ address | some (m, h) ↦ v4_of h.captures ]

unfoldable pub parse_hex_addr6 : Text → Address
unfolding parse_hex address6 split
parse_hex_addr6 hex =
    let parts = split b':' hex in
    record { address = address6 (first parts); port = parse_hex? (second parts) }

unfoldable pub tcp_states : Map Text
unfolding txt
tcp_states =
    (txt "01", txt "ESTABLISHED")
    ∷ (txt "02", txt "SYN_SENT")
    ∷ (txt "03", txt "SYN_RECV")
    ∷ (txt "04", txt "FIN_WAIT1")
    ∷ (txt "05", txt "FIN_WAIT2")
    ∷ (txt "06", txt "TIME_WAIT")
    ∷ (txt "07", txt "CLOSE")
    ∷ (txt "08", txt "CLOSE_WAIT")
    ∷ (txt "09", txt "LAST_ACK")
    ∷ (txt "0A", txt "LISTEN")
    ∷ (txt "0B", txt "CLOSING")
    ∷ []

pub record SockRow : Type 0 where
  pub local : Address
  pub remote : Address
  pub state : Text

abbrev pub parse_addr : Bool → Text → Address
parse_addr v6 s = if v6 then parse_hex_addr6 s else parse_hex_addr4 s

abbrev pub row_of : Bool → List Text → List SockRow
row_of v6 (sl ∷ local ∷ remote ∷ state ∷ rest) =
    record {
      local = parse_addr v6 local;
      remote = parse_addr v6 remote;
      state = or_else (get state tcp_states) state;
    }
    ∷ []
row_of v6 _ = []

unfoldable pub rows_of : Bool → List Text → List SockRow
unfolding parse_hex_addr4 parse_hex_addr6 tcp_states get split_space trim
rows_of v6 [] = []
rows_of v6 (line ∷ lines) = row_of v6 (split_space (trim line)) ++ rows_of v6 lines

unfoldable pub parse_proc_net_table : Text → Bool → List SockRow
unfolding rows_of split drop
parse_proc_net_table content v6 = rows_of v6 (drop 1 (split b'\n' content))
