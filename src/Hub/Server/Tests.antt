-- ===== src/Hub/Server/Tests.antt =====
-- Runs of the runner, and the theorems at concrete calls.
use kube_diagnostics_mcp.Common.{
  ◌+◌, ◌≤◌, ◌≡◌, refl, false, none, some, [], Text, txt, length, ok, same,
}
use kube_diagnostics_mcp.Config.{HubConfig, stdio}
use kube_diagnostics_mcp.Hub.Server.{audit_args, ns_of, run_tool, truncation_note}
use kube_diagnostics_mcp.Hub.Server.Runner.{run_tool-length}
use kube_diagnostics_mcp.Json.{Value, Fields, str, undefined, field, end}

abbrev tiny_config : HubConfig
unfolding txt
tiny_config = record {
  transport = stdio;
  http_host = txt "0.0.0.0";
  http_port = 8090;
  http_token = none;
  allow_unauthenticated = false;
  namespaces = [];
  default_namespace = some (txt "dev");
  allow_active_checks = false;
  log_max_lines = 500;
  log_max_bytes = 262144;
  max_result_bytes = 4;
  probe_container_name = txt "diag-probe";
  probe_port = 9911;
  probe_token = none;
  probe_timeout_ms = 5000;
  k8s_timeout_ms = 15000;
  providers = record { prometheus_url = none; datadog = none; splunk = none };
}

abbrev arguments : Fields
unfolding txt
arguments = field (txt "grep") (str (txt "alice")) (field (txt "tail") undefined end)

audit_run : audit_args arguments ≡ field (txt "grep") (str (txt "<omitted>")) end
unfolding audit_args txt same
audit_run = refl

namespace_run :
    (ns_of tiny_config none ≡ ok (txt "dev"))
    × (ns_of tiny_config (some (txt "prod")) ≡ ok (txt "prod"))
unfolding ns_of txt
namespace_run = (refl, refl)

-- Every value is written as eight characters.
abbrev eight : Value → Text
unfolding txt
eight v = txt "abcdefgh"

run_tool-length_example :
    length (run_tool eight tiny_config (ok undefined)).text ≤ 4 + length (truncation_note 4)
unfolding truncation_note tiny_config
run_tool-length_example = run_tool-length eight tiny_config undefined
