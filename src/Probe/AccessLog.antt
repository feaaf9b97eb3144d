-- ===== src/Probe/AccessLog.antt =====
-- src/probe/accesslog.ts: the reader of one line of a proxy's access log. `JSON.parse`, `Number(…)`
-- of a text, `String(…)` and `Date.parse` of the runtime are arguments; what is proved holds for
-- any. `String(v)` of a JSON value is none where it throws, and a line on which it throws is no
-- record, as the source catches it. The fields that the source casts to strings are kept as the
-- JSON values that they are.
pub mod Rounds
pub mod Paths
pub mod Summary
pub mod Files
pub mod Counts
pub mod Thrown
mod Tests
use kube_diagnostics_mcp.Common.{
  ℕ, zero, suc, ◌+◌, ◌*◌, Bool, true, false, not, ◌&&◌, ◌||◌, Option, none, some, List, [], ◌∷◌,
  ◌++◌, Text, txt, same, is_empty, or_else, if◌then◌else◌, ◌==◌, Number, nan, infinity,
  minus_infinity, plus, minus, is_finite, million,
}
use kube_diagnostics_mcp.Json.{Value, undefined, null, bool, num, obj, arr, str, member}
use kube_diagnostics_mcp.Regex.{
  Regex, char, seq, alt, rep, group, start, finish, boundary, ahead, opt, lit, lit_i, any_of, seqs,
  many, many1, Captures, Hit, capture, exec, replace, test,
}
use kube_diagnostics_mcp.Regex.Classes.{is_digit, is_hex, is_space, one_of}
use kube_diagnostics_mcp.Rum.Routes.{without_ids, segment_end, constant}
use kube_diagnostics_mcp.Strings.{trim, until, split, starts_with}

pub record Js : Type 0 where
  pub json_parse : Text → Option Value
  pub number : Text → Number
  pub string : Value → Option Text
  pub number_text : Number → Text
  pub date_parse : Text → Number

pub record AccessRecord : Type 0 where
  pub time : Value
  pub method : Value
  pub path : Option Text
  pub status : Option Number
  pub request_ms : Option Number
  pub upstream_ms : Option Number
  pub upstream : Value
  pub user_agent : Value

-- `a ?? b`
abbrev pub or_value : Value → Value → Value
or_value undefined b = b
or_value null b = b
or_value a b = a

abbrev pub is_truthy : Value → Bool
is_truthy undefined = false
is_truthy null = false
is_truthy (bool b) = b
is_truthy (num nan) = false
is_truthy (num (plus n)) = not (n == 0)
is_truthy (str s) = not (is_empty s)
is_truthy _ = true

-- `v === undefined || v === null || v === "-" || v === ""`
abbrev pub is_blank : Value → Bool
is_blank undefined = true
is_blank null = true
is_blank (str s) = same s (b'-' ∷ []) || is_empty s
is_blank _ = false

abbrev pub finite : Number → Option Number
finite n = if is_finite n then some n else none

-- `rt * 1000`
abbrev pub thousandfold : Number → Number
thousandfold (plus n) = plus (n * 1000)
thousandfold (minus n) = minus (n * 1000 + 999)
thousandfold n = n

abbrev pub in_ms : Option Number → Option Number
in_ms none = none
in_ms (some n) = some (thousandfold n)

abbrev pub optional_str : Option Text → Value
optional_str none = undefined
optional_str (some s) = str s

abbrev pub nth : ℕ → List Text → Text
nth zero (a ∷ l) = a
nth (suc n) (a ∷ l) = nth n l
nth _ [] = []

abbrev not_space : ℕ → Bool
not_space c = not (is_space c)

abbrev quote_free : ℕ → Bool
quote_free c = not (c == b'"')

abbrev numeric : ℕ → Bool
numeric c = is_digit c || c == b'.'

-- `COMBINED`
abbrev pub combined : Regex
unfolding txt one_of
combined = seqs (
    start
    ∷ group 1 (many1 not_space)
    ∷ lit (txt " ")
    ∷ many1 not_space
    ∷ lit (txt " ")
    ∷ many1 not_space
    ∷ lit (txt " [")
    ∷ group 2 (many1 (λ c. not (c == b']')))
    ∷ lit (txt "] \"")
    ∷ group 3 (many1 not_space)
    ∷ lit (txt " ")
    ∷ group 4 (many1 not_space)
    ∷ many quote_free
    ∷ lit (txt "\" ")
    ∷ group 5 (rep true 3 (some 3) is_digit)
    ∷ lit (txt " ")
    ∷ group 6 (alt (many1 is_digit) (lit (txt "-")))
    ∷ opt (
        seqs (
          lit (txt " \"")
          ∷ group 7 (many quote_free)
          ∷ lit (txt "\" \"")
          ∷ group 8 (many quote_free)
          ∷ lit (txt "\"")
          ∷ []))
    ∷ opt (
        seqs (
          lit (txt " ")
          ∷ opt (lit (txt "rt="))
          ∷ group 9 (alt (many1 numeric) (lit (txt "-")))
          ∷ []))
    ∷ opt (
        seqs (
          lit (txt " ")
          ∷ opt (alt (lit (txt "urt=")) (lit (txt "uct=")))
          ∷ group 10 (many1 (λ c. numeric c || one_of (txt ",-") c || is_space c))
          ∷ []))
    ∷ [])

-- The first throw ends the conversion.
infixl 5 ◌>>=◌
abbrev ◌>>=◌ {ℓ} : {A B : Type ℓ} → Option A → (A → Option B) → Option B
none >>= f = none
some a >>= f = f a

module _ (js : Js) where
  -- `num(v)`: of a list of tries only the first counts. The outer option is none where it throws.
  unfoldable pub num_of : Value → Option (Option Number)
  unfolding trim until
  num_of v =
      if is_blank v
      then some none
      else do s ← js.string v; some (finite (js.number (trim (until b',' s))))

  -- `a || String(v)`, where `String(v)` runs only if `a` is empty
  unfoldable pub or_string : Text → Value → Option Text
  or_string [] v = js.string v
  or_string (c ∷ s) v = some (c ∷ s)

  unfoldable pub json_path : Value → Option Text
  unfolding member until split or_string txt
  json_path j = do
    let uri = or_value (member (txt "uri") j) (member (txt "path") j)
    let request = member (txt "request") j
    let at : ℕ = if is_truthy request then 1 else 0
    s ←
        js.string
          (or_value uri (or_value (member (txt "request_uri") j) (or_value request (str []))))
    or_string (nth at (split b' ' (until b'?' s))) (or_value uri (str []))

  unfoldable pub record_of_json : Value → Option AccessRecord
  unfolding json_path num_of member until txt
  record_of_json j = do
    path ← json_path j
    request_time ← num_of (member (txt "request_time") j)
    upstream_time ← num_of (member (txt "upstream_response_time") j)
    status ← num_of (member (txt "status") j)
    some (record {
      time =
          or_value (member (txt "time") j)
            (or_value (member (txt "time_iso8601") j) (member (txt "timestamp") j));
      method = or_value (member (txt "request_method") j) (member (txt "method") j);
      path = some (until b'?' path);
      status = status;
      request_ms = in_ms request_time;
      upstream_ms = in_ms upstream_time;
      upstream = or_value (member (txt "upstream_addr") j) (member (txt "upstream") j);
      user_agent = or_value (member (txt "http_user_agent") j) (member (txt "user_agent") j);
    })

  -- A time of the text format: a missing one, an empty one and "-" are `undefined`.
  abbrev pub time_of : Option Text → Option Text
  time_of none = none
  time_of (some s) = if is_empty s || same s (b'-' ∷ []) then none else some s

  abbrev pub ms_of : Option Text → Option Number
  ms_of none = none
  ms_of (some s) = in_ms (finite (js.number s))

  abbrev first_try : Option Text → Option Text
  first_try none = none
  first_try (some s) = some (until b',' s)

  unfoldable pub record_of_match : Captures → AccessRecord
  unfolding capture until same
  record_of_match m = record {
    time = optional_str (capture 2 m);
    method = optional_str (capture 3 m);
    path = some (until b'?' (or_else (capture 4 m) []));
    status = some (js.number (or_else (capture 5 m) []));
    request_ms = ms_of (time_of (capture 9 m));
    upstream_ms = ms_of (first_try (time_of (capture 10 m)));
    upstream = undefined;
    user_agent = optional_str (capture 8 m);
  }

  unfoldable pub parse_text_line : Text → Option AccessRecord
  unfolding record_of_match exec
  parse_text_line s = elim (exec combined s) [
    | none ↦ none
    | some (m, h) ↦ some (record_of_match h.captures)
  ]

  unfoldable pub parse_json_line : Text → Option AccessRecord
  unfolding record_of_json
  parse_json_line s = elim (js.json_parse s) [ none ↦ none | some j ↦ record_of_json j ]

  unfoldable pub parse_access_line : Text → Option AccessRecord
  unfolding parse_text_line parse_json_line trim starts_with txt
  parse_access_line line =
      let trimmed = trim line in
      if is_empty trimmed
      then none
      else if starts_with (txt "{") trimmed
      then parse_json_line trimmed
      else parse_text_line trimmed
