-- ===== src/Rum/Routes.antt =====
-- src/probe/rum.ts: the names under which beacons are grouped.
use kube_diagnostics_mcp.Common.{
  ℕ, true, ◌||◌, Option, none, some, [], ◌∷◌, ◌++◌, Text, txt, ◌==◌, is_empty, if◌then◌else◌,
  or_else, same, find,
}
use kube_diagnostics_mcp.Regex.{
  Regex, char, seq, alt, rep, group, finish, boundary, ahead, opt, lit, seqs, many1, Captures,
  capture, replace, replace_once, test,
}
use kube_diagnostics_mcp.Regex.Classes.{is_digit, is_hex, is_letter}
use kube_diagnostics_mcp.Strings.{trim, until, split, slice_to}

-- `(?=\/|$)`
abbrev pub segment_end : Regex
segment_end = ahead true (alt (char (λ c. c == b'/')) finish)

abbrev hexes : ℕ → Regex
hexes n = rep true n (some n) is_hex

abbrev pub uuid_segment : Regex
uuid_segment = seqs (
    lit (b'/' ∷ [])
    ∷ hexes 8
    ∷ lit (b'-' ∷ [])
    ∷ hexes 4
    ∷ lit (b'-' ∷ [])
    ∷ hexes 4
    ∷ lit (b'-' ∷ [])
    ∷ hexes 4
    ∷ lit (b'-' ∷ [])
    ∷ hexes 12
    ∷ segment_end
    ∷ [])

abbrev pub number_segment : Regex
number_segment = seqs (lit (b'/' ∷ []) ∷ many1 is_digit ∷ segment_end ∷ [])

abbrev pub constant : Text → Text → Captures → Text
constant t m cs = t

-- The two replacements that the two normalizers share.
unfoldable pub without_ids : Text → Text
unfolding replace txt
without_ids r =
    replace number_segment (constant (txt "/:id"))
      (replace uuid_segment (constant (txt "/:uuid")) r)

unfoldable pub strip_route : Text → Text
unfolding without_ids until
strip_route route = without_ids (slice_to 200 (until b'#' (until b'?' route)))

abbrev or_slash : Text → Text
or_slash [] = b'/' ∷ []
or_slash (c ∷ r) = c ∷ r

-- `normalizeRoute(route)`; an empty route is falsy, as a missing one
unfoldable pub normalize_route : Option Text → Text
unfolding strip_route txt
normalize_route none = txt "(unknown)"
normalize_route (some []) = txt "(unknown)"
normalize_route (some (c ∷ route)) = or_slash (strip_route (c ∷ route))

-- `new URL(url, "http://local")` of the runtime: the origin and the path, or none if it throws.
abbrev pub UrlParser : Type 0
UrlParser = Text → Option (Text × Text)

-- `/([.-])[0-9a-f]{8,}(\.[a-z]+)$/i`
abbrev pub hashed_name : Regex
hashed_name = seqs (
    group 1 (char (λ c. c == b'.' || c == b'-'))
    ∷ rep true 8 none is_hex
    ∷ group 2 (seq (lit (b'.' ∷ [])) (many1 is_letter))
    ∷ finish
    ∷ [])

hash_mark : Text → Captures → Text
unfolding txt capture
hash_mark m cs = or_else (capture 1 cs) [] ++ (txt "[hash]" ++ or_else (capture 2 cs) [])

unfoldable pub normalize_resource_url : UrlParser → Text → Text
unfolding without_ids replace_once hash_mark same txt until
normalize_resource_url parse url = elim (parse url) [
  | none ↦ slice_to 200 (until b'?' url)
  | some (origin, pathname) ↦
      (if same origin (txt "http://local") then [] else origin)
      ++ replace_once hashed_name hash_mark (without_ids pathname)
]

-- `/\bat\b|@/`
abbrev frame_line : Regex
frame_line = alt (seqs (boundary ∷ lit (b'a' ∷ b't' ∷ []) ∷ boundary ∷ [])) (char (λ c. c == b'@'))

-- `/:\d+:\d+\)?$/`
abbrev position : Regex
position = seqs (
    lit (b':' ∷ [])
    ∷ many1 is_digit
    ∷ lit (b':' ∷ [])
    ∷ many1 is_digit
    ∷ opt (char (λ c. c == b')'))
    ∷ finish
    ∷ [])

first_frame : Option Text → Text
unfolding find split test trim replace_once
first_frame none = []
first_frame (some stack) = elim (find (test frame_line) (split b'\n' stack)) [
  | none ↦ []
  | some l ↦ replace_once position (constant []) (trim l)
]

unfoldable pub error_signature : Text → Option Text → Text
unfolding first_frame replace txt
error_signature message stack =
    let msg = slice_to 120 (replace (many1 is_digit) (constant (b'N' ∷ [])) message) in
    let frame = first_frame stack in
    if is_empty frame then msg else msg ++ (txt " | " ++ slice_to 120 frame)
