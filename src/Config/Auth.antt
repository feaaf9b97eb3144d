-- ===== src/Config/Auth.antt =====
-- src/config.ts: what the settings that `loadConfig` returns have in common.
use kube_diagnostics_mcp.Common.{◌≤◌, ◌≡◌, true, not, ◌||◌, Option, none, some, is_some}
use kube_diagnostics_mcp.Config.{DatadogConfig, SplunkConfig, AppConfig, hub, probe}
use kube_diagnostics_mcp.Config.Load.{default_listed, is_http}

-- Requests are open only where the settings say so.
unfoldable pub HasAuth : AppConfig → Type 0
HasAuth (probe c) = (is_some c.token || c.allow_unauthenticated) ≡ true
HasAuth (hub c) =
    (not (is_http c.transport) || is_some c.http_token || c.allow_unauthenticated) ≡ true

-- The timeouts of the providers that are set up are not 0.
abbrev pub DatadogPositive : Option DatadogConfig → Type 0
DatadogPositive none = Unit {0}
DatadogPositive (some d) = 1 ≤ d.timeout_ms

abbrev pub SplunkPositive : Option SplunkConfig → Type 0
SplunkPositive none = Unit {0}
SplunkPositive (some s) = 1 ≤ s.timeout_ms

-- No limit, port, timeout or retention is 0.
unfoldable pub IsPositive : AppConfig → Type 0
IsPositive (probe c) = (1 ≤ c.port) × (1 ≤ c.rum_max_body_bytes) × (1 ≤ c.rum_retention_minutes)
IsPositive (hub c) =
    (1 ≤ c.http_port)
    × (1 ≤ c.log_max_lines)
    × (1 ≤ c.log_max_bytes)
    × (1 ≤ c.max_result_bytes)
    × (1 ≤ c.probe_port)
    × (1 ≤ c.probe_timeout_ms)
    × (1 ≤ c.k8s_timeout_ms)
    × DatadogPositive c.providers.datadog
    × SplunkPositive c.providers.splunk

-- The default namespace is one that the guard lets through.
unfoldable pub HasListedDefault : AppConfig → Type 0
HasListedDefault (probe c) = Unit {0}
HasListedDefault (hub c) = default_listed c.default_namespace c.namespaces ≡ true

unfoldable pub IsValid : AppConfig → Type 0
IsValid c = HasAuth c × IsPositive c × HasListedDefault c
