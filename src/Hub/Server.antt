-- ===== src/Hub/Server.antt =====
-- src/hub/context.ts and the runner of src/hub/server.ts: what every tool call goes through.
pub mod Runner
mod Tests
use kube_diagnostics_mcp.Common.{
  ℕ, Bool, true, false, not, Option, none, some, List, [], ◌∷◌, ◌++◌, Text, txt, includes, length,
  ltb, print, take, if◌then◌else◌, Result, ok, err,
}
use kube_diagnostics_mcp.Config.{HubConfig}
use kube_diagnostics_mcp.Json.{Value, undefined, str, Fields, end, field}
use kube_diagnostics_mcp.Sanitize.{sanitize_deep}
use kube_diagnostics_mcp.Sanitize.Rules.{redact_text}
use kube_diagnostics_mcp.Strings.{slice_to}

-- What a tool throws, by the class that decides on the kind in the answer, with its message.
pub data ToolError : Type 0 where
  guard_error kube_failure probe_unavailable plain_error : Text → ToolError

abbrev pub present : Text → Result ToolError Text
unfolding txt
present [] = err (
    guard_error (
      txt
        "namespace is required (no DIAG_DEFAULT_NAMESPACE configured). Call list_namespaces to see what is available."))
present (c ∷ s) = ok (c ∷ s)

-- `nsOf(ctx, namespace)`; an empty namespace is there, and falsy.
unfoldable pub ns_of : HubConfig → Option Text → Result ToolError Text
unfolding present
ns_of c (some namespace) = present namespace
ns_of c none = by_default c.default_namespace
  where
    by_default : Option Text → Result ToolError Text
    by_default none = present []
    by_default (some s) = present s

-- `requireActive(ctx, what)`
unfoldable pub require_active : HubConfig → Text → Result ToolError (Unit {0})
unfolding txt
require_active c what =
    if c.allow_active_checks
    then ok tt
    else err (
        guard_error (
          what
          ++ txt
              " is an active check (it generates traffic) and is disabled. Set DIAG_ALLOW_ACTIVE_CHECKS=true on the hub and the probe to enable it."))

unfoldable pub omitted_args : List Text
unfolding txt
omitted_args = txt "grep" ∷ txt "query" ∷ txt "url" ∷ txt "name" ∷ []

unfoldable pub audited : Text → Value → Value
unfolding omitted_args includes txt
audited k v = if includes k omitted_args then str (txt "<omitted>") else v

-- `auditArgs(args)`
unfoldable pub audit_args : Fields → Fields
unfolding audited
audit_args end = end
audit_args (field k undefined fs) = audit_args fs
audit_args (field k v fs) = field k (audited k v) (audit_args fs)

pub record ToolResult : Type 0 where
  pub text : Text
  pub is_error : Bool

unfoldable pub truncation_note : ℕ → Text
unfolding print txt
truncation_note most =
    txt "\n... [truncated: result exceeded DIAG_MAX_RESULT_BYTES="
    ++ (print most ++ txt "; narrow the query]")

unfoldable pub capped_text : ℕ → Text → Text
unfolding truncation_note take
capped_text most text =
    if ltb most (length text) then slice_to most text ++ truncation_note most else text

unfoldable pub kind_of : ToolError → Text
unfolding txt
kind_of (guard_error message) = txt "invalid-argument"
kind_of (kube_failure message) = txt "kubernetes"
kind_of (probe_unavailable message) = txt "probe"
kind_of (plain_error message) = txt "error"

abbrev pub message_of : ToolError → Text
message_of (guard_error message) = message
message_of (kube_failure message) = message
message_of (probe_unavailable message) = message
message_of (plain_error message) = message

-- `run(toolName, args, fn)`, by what `fn` returns or throws; `stringify` is `JSON.stringify` with an
-- indent of two.
unfoldable pub run_tool : (Value → Text) → HubConfig → Result ToolError Value → ToolResult
unfolding sanitize_deep capped_text kind_of redact_text txt
run_tool stringify c (ok value) = record {
  text = capped_text c.max_result_bytes (stringify (sanitize_deep value none));
  is_error = false;
}
run_tool stringify c (err e) = record {
  text = kind_of e ++ (txt ": " ++ redact_text (message_of e));
  is_error = true;
}
