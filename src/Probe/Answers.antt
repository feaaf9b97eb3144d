-- ===== src/Probe/Answers.antt =====
-- src/probe/server.ts: the token, the body of a request, and the answers of the endpoints.
use kube_diagnostics_mcp.Common.{
  ℕ, ◌+◌, ◌*◌, Bool, true, false, ◌&&◌, ◌||◌, Option, none, some, List, [], ◌∷◌, ◌++◌, Text, txt,
  same, is_some, if◌then◌else◌, ltb, length, Number, nan, plus, whole, Result, ok, err, ◌==◌,
}
use kube_diagnostics_mcp.Config.{ProbeConfig}
use kube_diagnostics_mcp.Config.Summary.{is_set}
use kube_diagnostics_mcp.Json.{Value, undefined, bool, num, str, obj, end, field}
use kube_diagnostics_mcp.Probe.{Effect, Fetched, json, Response}
use kube_diagnostics_mcp.Probe.Actuator.{Thrown, other}
use kube_diagnostics_mcp.Rum.State.{RumAggregator}
use kube_diagnostics_mcp.Sanitize.{sanitize_deep}
use kube_diagnostics_mcp.Strings.{starts_with, slice_from, slice_to}

-- `tokenMatches(header, expected)`
unfoldable pub token_matches : Option Text → Text → Bool
unfolding starts_with same txt
token_matches none expected = false
token_matches (some header) expected =
    starts_with (txt "Bearer ") header && same (slice_from 7 header) expected

abbrev pub append_to : Text → Option Text → Option Text
append_to c none = none
append_to c (some s) = some (c ++ s)

-- `readBody(req, maxBytes)`, none where it rejects; `size` bytes are read so far.
unfoldable pub read_body : ℕ → ℕ → List Text → Option Text
read_body most size [] = some []
read_body most size (c ∷ chunks) =
    let rest = read_body most (size + length c) chunks in
    if ltb most (size + length c) then none else append_to c rest

-- A missing and an empty text are falsy.
abbrev pub truthy : Option Text → Option Text
truthy none = none
truthy (some []) = none
truthy (some (c ∷ s)) = some (c ∷ s)

-- `json(res, status, body)`
unfoldable pub json_response : ℕ → Value → Response
unfolding sanitize_deep
json_response status body = record { status = status; body = json (sanitize_deep body none) }

abbrev pub error_body : Text → Value
unfolding txt
error_body message = obj (field (txt "error") (str message) end)

-- The effects of a case, and what it answers or throws.
abbrev pub Case : Type 0
Case = List Effect × Result Thrown (ℕ × Value)

abbrev pub answer : ℕ → Value → Case
answer status body = ([], ok (status, body))

unfoldable pub unavailable : Text → Case
unfolding txt
unavailable note =
    answer 200 (obj (field (txt "available") (bool false) (field (txt "note") (str note) end)))

abbrev pub answered : Result Text Value → Result Thrown (ℕ × Value)
answered (ok v) = ok (200, v)
answered (err message) = err (other message)

unfoldable pub refusal : Case
unfolding txt
refusal = answer 403 (error_body (txt "active checks disabled (DIAG_ALLOW_ACTIVE_CHECKS)"))

-- `Number(x) || undefined`
abbrev pub truthy_number : Number → Option Number
truthy_number nan = none
truthy_number (plus n) = if n == 0 then none else some (plus n)
truthy_number x = some x

abbrev pub text_or_undefined : Option Text → Value
text_or_undefined none = undefined
text_or_undefined (some s) = str s

abbrev pub probe_protocol_version : ℕ
probe_protocol_version = 1

abbrev pub probe_version : Text
unfolding txt
probe_version = txt "0.1.0"

-- `info`
unfoldable pub info : ProbeConfig → Option RumAggregator → Value
unfolding txt
info c rum = obj (
    field (txt "protocol") (num (whole probe_protocol_version)) (
      field (txt "version") (str probe_version) (
        field (txt "pod") (text_or_undefined c.pod_name) (
          field (txt "namespace") (text_or_undefined c.pod_namespace) (
            field (txt "features")
              (obj (
                field (txt "connections") (bool true) (
                  field (txt "processes") (bool true) (
                    field (txt "dns") (bool c.allow_active_checks) (
                      field (txt "connect") (bool c.allow_active_checks) (
                        field (txt "actuator") (bool (is_set c.actuator_url)) (
                          field (txt "nginxStatus") (bool (is_set c.nginx_status_url)) (
                            field (txt "staticDir") (bool (is_set c.static_dir)) (
                              field (txt "accessLog") (bool (is_set c.access_log_path))
                                (field (txt "rum") (bool (is_some rum)) end))))))))))
              (field (txt "allowActiveChecks") (bool c.allow_active_checks) end))))))

abbrev pub fetched_text : ℕ → Text → Value
unfolding txt
fetched_text status t = obj (
    field (txt "available") (bool true) (
      field (txt "status") (num (whole status)) (
        field (txt "text") (str (slice_to (512 * 1024) t))
          (field (txt "truncated") (bool (ltb (512 * 1024) (length t))) end))))

abbrev pub fetched_json : ℕ → Result Text Value → Result Thrown (ℕ × Value)
unfolding txt
fetched_json status (err message) = err (other message)
fetched_json status (ok body) = ok (
  200,
  obj (
      field (txt "available") (bool true)
        (field (txt "status") (num (whole status)) (field (txt "body") body end))),
)

-- `ct.includes("json")`
unfoldable pub mentions : Text → Text → Bool
unfolding starts_with
mentions t [] = starts_with t []
mentions t (c ∷ s) = starts_with t (c ∷ s) || mentions t s

unfoldable pub fetched : Result Text Fetched → Result Thrown (ℕ × Value)
unfolding mentions txt
fetched (err message) = err (other message)
fetched (ok r) =
    if mentions (txt "json") r.content_type
    then fetched_json r.status r.json
    else ok (200, fetched_text r.status r.text)
