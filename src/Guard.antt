-- ===== src/Guard.antt =====
-- src/security/guard.ts: the checks on tool arguments. Each pattern is the source's regular
-- expression, term for term.
pub mod Names
pub mod Limits
pub mod Safe
mod Tests
use kube_diagnostics_mcp.Common.{
  ℕ, ◌+◌, ◌*◌, ◌-◌, min, max, Bool, true, false, not, ◌&&◌, ◌||◌, Option, none, some, List, [], ◌∷◌,
  ◌==◌, ltb, if◌then◌else◌, or_else, Text, txt, same, includes, is_empty, length, Number, is_finite,
  is_integer, less, greater, floor, digits_value, Result, ok, err, ensure, ◌>>=◌, ◌>>◌,
}
use kube_diagnostics_mcp.Regex.{
  Regex, empty, char, seq, alt, rep, group, start, finish, test, exec, capture, Captures, Hit,
}
use kube_diagnostics_mcp.Regex.Anchored.{edged, all_of}
use kube_diagnostics_mcp.Regex.Classes.{
  is_lower_alnum, is_alnum, is_digit, is_space, one_of, any_case,
}
use kube_diagnostics_mcp.Strings.{trim, lower_case}

-- One constructor for each message, with the values that stand in it.
pub data GuardError : Type 0 where
  invalid : Text → Text → GuardError
  invalid_port : Number → GuardError
  invalid_window : Text → GuardError
  not_allowed : Text → List Text → GuardError

abbrev pub dash_class : ℕ → Bool
dash_class c = is_lower_alnum c || c == b'-'

abbrev pub name_class : ℕ → Bool
name_class c = is_lower_alnum c || c == b'.' || c == b'-'

abbrev pub host_class : ℕ → Bool
host_class c = is_alnum c || c == b'.' || c == b'-'

abbrev pub selector_class : ℕ → Bool
selector_class c =
    is_alnum c
    || c == b'_'
    || c == b'.'
    || c == b'/'
    || c == b'='
    || c == b','
    || c == b'!'
    || c == b'('
    || c == b')'
    || c == b'-'
    || c == b' '

abbrev pub trace_class : ℕ → Bool
trace_class c = is_alnum c || c == b'-'

abbrev pub dns_label : Regex
dns_label = edged is_lower_alnum dash_class 61

abbrev pub k8s_name : Regex
k8s_name = edged is_lower_alnum name_class 251

abbrev pub label_selector : Regex
label_selector = all_of selector_class 1 512

abbrev pub hostname : Regex
hostname = edged is_alnum host_class 251

abbrev pub trace_id : Regex
trace_id = all_of trace_class 8 64

unfoldable pub assert_namespace : Text → Result GuardError Text
assert_namespace value = ensure (test dns_label value) (invalid (txt "namespace name") value) value

unfoldable pub assert_name : Text → Text → Result GuardError Text
assert_name value what = ensure (test k8s_name value) (invalid what value) value

unfoldable pub assert_container_name : Text → Result GuardError Text
assert_container_name value =
    ensure (test dns_label value) (invalid (txt "container name") value) value

unfoldable pub assert_label_selector : Text → Result GuardError Text
assert_label_selector value =
    ensure (test label_selector value) (invalid (txt "label selector") value) value

unfoldable pub assert_hostname : Text → Result GuardError Text
assert_hostname value = ensure (test hostname value) (invalid (txt "hostname") value) value

unfoldable pub assert_port : Number → Result GuardError Number
assert_port value =
    if not (is_integer value) || less value 1 || greater value 65535
    then err (invalid_port value)
    else ok value

unfoldable pub assert_trace_id : Text → Result GuardError Text
assert_trace_id value = ensure (test trace_id value) (invalid (txt "trace id") value) value

unfoldable pub clamp_limit : Option Number → ℕ → ℕ → ℕ
clamp_limit none fallback most = min fallback most
clamp_limit (some value) fallback most =
    if not (is_finite value) || less value 1 then 1 else min (floor value) most

-- `/^(\d+)\s*(s|m|h|d)?$/i`
abbrev pub unit_letter : ℕ → Regex
unit_letter c = char (any_case (λ d. d == c))

abbrev pub window : Regex
window = seq start (
    seq (group 1 (rep true 1 none is_digit)) (
      seq (rep true 0 none is_space) (
        seq
          (alt
            (group 2 (
              alt (unit_letter b's')
                (alt (unit_letter b'm') (alt (unit_letter b'h') (unit_letter b'd')))))
            empty)
          finish)))

unfoldable pub unit_seconds : Text → ℕ
unit_seconds unit =
    if same unit (txt "d")
    then 86400
    else if same unit (txt "h")
    then 3600
    else if same unit (txt "m")
    then 60
    else 1

-- What the branch behind the match computes from the two groups.
unfoldable pub window_seconds : ℕ → Captures → ℕ
unfolding unit_seconds capture digits_value
window_seconds most groups =
    let n = digits_value 0 (or_else (capture 1 groups) []) in
    let unit = lower_case (or_else (capture 2 groups) (txt "s")) in
    max 1 (min (n * unit_seconds unit) most)

unfoldable pub window_result : Text → ℕ → Option (Text × Hit) → Result GuardError ℕ
unfolding window_seconds
window_result value most none = err (invalid_window value)
window_result value most (some (matched, hit)) = ok (window_seconds most hit.captures)

abbrev pub week_seconds : ℕ
week_seconds = 604800

unfoldable pub parse_window_seconds : Option Text → ℕ → ℕ → Result GuardError ℕ
unfolding window_result
parse_window_seconds none fallback most = ok (min fallback most)
parse_window_seconds (some value) fallback most =
    if is_empty (trim value)
    then ok (min fallback most)
    else window_result value most (exec window (trim value))

-- An empty allow-list allows every namespace.
unfoldable pub assert_namespace_allowed : Text → List Text → Result GuardError Text
unfolding assert_namespace
assert_namespace_allowed namespace allowed = do
  assert_namespace namespace
  if not (length allowed == 0) && not (includes namespace allowed)
      then err (not_allowed namespace allowed)
      else ok namespace
