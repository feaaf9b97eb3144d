-- ===== src/Config/Summary.antt =====
-- src/config.ts: `summarize`, the fields that are logged at the start.
use kube_diagnostics_mcp.Common.{
  ℕ, Bool, false, Option, none, some, List, [], ◌∷◌, Text, is_some, is_empty, not, if◌then◌else◌,
}
use kube_diagnostics_mcp.Config.{Transport, stdio, http, AppConfig, hub, probe}

pub data Auth : Type 0 where
  token_auth no_auth not_applicable : Auth

-- `namespaces.length ? namespaces : "all (RBAC-limited)"`
pub data Scope : Type 0 where
  all_namespaces : Scope
  only : List Text → Scope

pub data Summary : Type 0 where
  probe_summary :
      (port : ℕ) (auth : Auth) (active actuator nginx static access_log rum : Bool) → Summary
  hub_summary :
      (transport : Transport) (port : Option ℕ) (auth : Auth) (namespaces : Scope)
      (default_namespace : Option Text) (active prometheus datadog splunk : Bool)
      → Summary

-- `Boolean(setting)`: a missing and an empty text are false.
abbrev pub is_set : Option Text → Bool
is_set none = false
is_set (some s) = not (is_empty s)

-- `setting ? "token" : "NONE"`
abbrev pub auth_of : Option Text → Auth
auth_of token = if is_set token then token_auth else no_auth

abbrev pub scope_of : List Text → Scope
scope_of [] = all_namespaces
scope_of (ns ∷ l) = only (ns ∷ l)

abbrev pub shown_port : Transport → ℕ → Option ℕ
shown_port stdio port = none
shown_port http port = some port

abbrev pub shown_auth : Transport → Option Text → Auth
shown_auth stdio token = not_applicable
shown_auth http token = auth_of token

unfoldable pub summarize : AppConfig → Summary
summarize (probe c) =
    probe_summary c.port (auth_of c.token) c.allow_active_checks (is_set c.actuator_url)
      (is_set c.nginx_status_url) (is_set c.static_dir) (is_set c.access_log_path) c.rum_enabled
summarize (hub c) =
    hub_summary c.transport (shown_port c.transport c.http_port)
      (shown_auth c.transport c.http_token) (scope_of c.namespaces) c.default_namespace
      c.allow_active_checks (is_set c.providers.prometheus_url) (is_some c.providers.datadog)
      (is_some c.providers.splunk)
