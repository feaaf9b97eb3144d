-- ===== src/Config/Load.antt =====
-- src/config.ts: `loadConfig`, the settings in the order in which the source reads them.
use kube_diagnostics_mcp.Common.{
  ℕ, Bool, true, false, not, ◌&&◌, ◌||◌, Option, none, some, List, [], ◌∷◌, Text, txt, same,
  includes, is_some, if◌then◌else◌, or_else, Result, ok, err, ◌>>=◌, ◌>>◌, ensure,
}
use kube_diagnostics_mcp.Config.{
  ConfigError, unknown_mode, probe_token_missing, unknown_transport, http_token_missing,
  default_namespace_not_listed, Env, Transport, stdio, http, HubConfig, ProbeConfig, AppConfig, hub,
  probe,
}
use kube_diagnostics_mcp.Config.Parse.{
  parse_positive_int, parse_bool, parse_list, optional, secret, var,
}
use kube_diagnostics_mcp.Config.Providers.{setting, stripped, strip_slashes, parse_providers}
use kube_diagnostics_mcp.Strings.{lower_case}

abbrev pub int_setting : Env → Text → ℕ → Result ConfigError ℕ
int_setting env name fallback = parse_positive_int name (var env name) fallback

abbrev pub bool_setting : Env → Text → Result ConfigError Bool
bool_setting env name = parse_bool (var env name) false

-- `if (…) throw …`
abbrev pub require : Bool → ConfigError → Result ConfigError (Unit {0})
require b e = ensure b e tt

unfoldable pub probe_config : Env → Result ConfigError ProbeConfig
unfolding parse_positive_int parse_bool secret optional strip_slashes txt
probe_config env = do
  unauthenticated ← bool_setting env (txt "DIAG_PROBE_ALLOW_UNAUTHENTICATED")
  token ← secret env (txt "DIAG_PROBE_TOKEN")
  require (is_some token || unauthenticated) probe_token_missing
  port ← int_setting env (txt "DIAG_PROBE_PORT") 9911
  active ← bool_setting env (txt "DIAG_ALLOW_ACTIVE_CHECKS")
  rum ← bool_setting env (txt "DIAG_PROBE_RUM_ENABLED")
  body ← int_setting env (txt "DIAG_PROBE_RUM_MAX_BODY_BYTES") 8192
  minutes ← int_setting env (txt "DIAG_PROBE_RUM_RETENTION_MINUTES") 360
  ok (record {
    host = or_else (setting env (txt "DIAG_PROBE_HOST")) (txt "0.0.0.0");
    port = port;
    token = token;
    allow_unauthenticated = unauthenticated;
    allow_active_checks = active;
    actuator_url = stripped (setting env (txt "DIAG_PROBE_ACTUATOR_URL"));
    nginx_status_url = setting env (txt "DIAG_PROBE_NGINX_STATUS_URL");
    static_dir = setting env (txt "DIAG_PROBE_STATIC_DIR");
    access_log_path = setting env (txt "DIAG_PROBE_ACCESS_LOG_PATH");
    rum_enabled = rum;
    rum_max_body_bytes = body;
    rum_retention_minutes = minutes;
    pod_name = setting env (txt "DIAG_POD_NAME");
    pod_namespace = setting env (txt "DIAG_POD_NAMESPACE");
  })

abbrev pub transport_of : Text → Result ConfigError Transport
transport_of t =
    if same t (txt "stdio")
    then ok stdio
    else if same t (txt "http")
    then ok http
    else err (unknown_transport t)

abbrev pub is_http : Transport → Bool
is_http stdio = false
is_http http = true

-- The explicit default, else the only namespace of the allow-list.
unfoldable pub default_of : Option Text → List Text → Option Text
default_of (some ns) namespaces = some ns
default_of none (ns ∷ []) = some ns
default_of none _ = none

abbrev pub default_listed : Option Text → List Text → Bool
default_listed none namespaces = true
default_listed (some ns) [] = true
default_listed (some ns) (a ∷ l) = includes ns (a ∷ l)

unfoldable pub hub_config : Env → Result ConfigError HubConfig
unfolding parse_positive_int parse_bool parse_list secret optional parse_providers default_of
    includes same txt
hub_config env = do
  transport ← transport_of (lower_case (or_else (setting env (txt "DIAG_TRANSPORT")) (txt "stdio")))
  unauthenticated ← bool_setting env (txt "DIAG_HTTP_ALLOW_UNAUTHENTICATED")
  token ← secret env (txt "DIAG_HTTP_TOKEN")
  require (not (is_http transport) || is_some token || unauthenticated) http_token_missing
  let namespaces = parse_list (var env (txt "DIAG_NAMESPACES"))
  let default_namespace = default_of (setting env (txt "DIAG_DEFAULT_NAMESPACE")) namespaces
  require (default_listed default_namespace namespaces)
      (default_namespace_not_listed (or_else default_namespace []))
  http_port ← int_setting env (txt "DIAG_HTTP_PORT") 8090
  active ← bool_setting env (txt "DIAG_ALLOW_ACTIVE_CHECKS")
  log_lines ← int_setting env (txt "DIAG_LOG_MAX_LINES") 500
  log_bytes ← int_setting env (txt "DIAG_LOG_MAX_BYTES") 262144
  result_bytes ← int_setting env (txt "DIAG_MAX_RESULT_BYTES") 204800
  probe_port ← int_setting env (txt "DIAG_PROBE_PORT") 9911
  probe_token ← secret env (txt "DIAG_PROBE_TOKEN")
  probe_timeout ← int_setting env (txt "DIAG_PROBE_TIMEOUT_MS") 5000
  k8s_timeout ← int_setting env (txt "DIAG_K8S_TIMEOUT_MS") 15000
  providers ← parse_providers env
  ok (record {
    transport = transport;
    http_host = or_else (setting env (txt "DIAG_HTTP_HOST")) (txt "0.0.0.0");
    http_port = http_port;
    http_token = token;
    allow_unauthenticated = unauthenticated;
    namespaces = namespaces;
    default_namespace = default_namespace;
    allow_active_checks = active;
    log_max_lines = log_lines;
    log_max_bytes = log_bytes;
    max_result_bytes = result_bytes;
    probe_container_name =
        or_else (setting env (txt "DIAG_PROBE_CONTAINER_NAME")) (txt "diag-probe");
    probe_port = probe_port;
    probe_token = probe_token;
    probe_timeout_ms = probe_timeout;
    k8s_timeout_ms = k8s_timeout;
    providers = providers;
  })

unfoldable pub load_config : Env → Result ConfigError AppConfig
unfolding hub_config probe_config optional same txt
load_config env =
    let mode = lower_case (or_else (setting env (txt "DIAG_MODE")) (txt "hub")) in
    if not (same mode (txt "hub")) && not (same mode (txt "probe"))
    then err (unknown_mode mode)
    else if same mode (txt "probe")
    then (do c ← probe_config env; ok (probe c))
    else (do c ← hub_config env; ok (hub c))
