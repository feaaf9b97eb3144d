-- ===== src/Hub/Network/Tests.antt =====
-- Runs of the tools of network.ts, and the theorems at concrete objects.
use kube_diagnostics_mcp.Common.{
  plus, Result, ◌≡◌, refl, ◌↔◌, true, false, none, some, List, [], ◌∷◌, arith, Text, txt, Map, Any,
  Result, ok, print,
}
use kube_diagnostics_mcp.Config.{HubConfig, stdio}
use kube_diagnostics_mcp.Hub.Model.{Lists, Pod, ResolvedWorkload, Service, service}
use kube_diagnostics_mcp.Hub.Model.Workload.{of_pods, resolve_workload, pods_of}
use kube_diagnostics_mcp.Hub.Network.{Policy}
use kube_diagnostics_mcp.Hub.Network.Policies.{
  PolicyAnswer, workload_labels, no_default_deny, open_egress, policy_findings, target_findings,
  get_network_policies,
}
use kube_diagnostics_mcp.Hub.Network.Covered.{IsDefaultDeny, Restricts, get_network_policies_clean}
use kube_diagnostics_mcp.Hub.Network.Asked.{Shows, get_open_connections_asks}
use kube_diagnostics_mcp.Hub.Network.Open.{OpenAnswer, many_to, open_answer, get_open_connections}
use kube_diagnostics_mcp.Hub.Probes.{Unavailable}
use kube_diagnostics_mcp.Probe.Net.Connections.{ConnectionSummary}
use kube_diagnostics_mcp.Hub.Network.Private.{ServiceIp, is_private, known_name, resolved_remote}
use kube_diagnostics_mcp.Hub.Network.Ranges.{IsPrivateRange, resolved_remote_external_iff}
use kube_diagnostics_mcp.Hub.Server.{ns_of}
use kube_diagnostics_mcp.Kube.{ClientError}
use kube_diagnostics_mcp.Regex.{test}
use kube_diagnostics_mcp.Strings.{join}

abbrev tiny_config : HubConfig
unfolding txt
tiny_config = record {
  transport = stdio;
  http_host = txt "0.0.0.0";
  http_port = 8090;
  http_token = none;
  allow_unauthenticated = false;
  namespaces = [];
  default_namespace = some (txt "dev");
  allow_active_checks = false;
  log_max_lines = 500;
  log_max_bytes = 262144;
  max_result_bytes = 4;
  probe_container_name = txt "diag-probe";
  probe_port = 9911;
  probe_token = none;
  probe_timeout_ms = 5000;
  k8s_timeout_ms = 15000;
  providers = record { prometheus_url = none; datadog = none; splunk = none };
}

abbrev web_labels : Map Text
unfolding txt
web_labels = (txt "app", txt "web") ∷ []

abbrev web_pod : Pod
unfolding txt
web_pod = record {
  name = some (txt "web-1");
  namespace = some (txt "dev");
  labels = some web_labels;
  created = none;
  deleted = none;
  owners = [];
  node_name = none;
  service_account = none;
  init_containers = [];
  containers = [];
  phase = some (txt "Running");
  reason = none;
  pod_ip = some (txt "10.0.0.7");
  init_statuses = [];
  statuses = [];
  conditions = [];
}

abbrev web_service : Service
unfolding txt
web_service = record { name = some (txt "web"); selector = some web_labels }

abbrev one_service : Lists
one_service = record {
  pods = λ space. ok (web_pod ∷ []);
  deployments = λ space. ok [];
  stateful_sets = λ space. ok [];
  daemon_sets = λ space. ok [];
  services = λ space. ok (web_service ∷ []);
}

abbrev web_workload : ResolvedWorkload
unfolding txt of_pods pods_of
web_workload =
    of_pods (txt "dev") (txt "web") (service web_service) (some web_labels)
      (pods_of (some web_labels) (web_pod ∷ []))

web_resolves : resolve_workload one_service (txt "dev") (txt "web") ≡ ok web_workload
unfolding resolve_workload web_workload txt test
web_resolves = refl

-- A default deny of ingress alone, and with an egress policy for the workload.
abbrev deny_all : Policy
unfolding txt
deny_all = record {
  name = some (txt "deny");
  spec = some (record {
    pod_selector = some (record { match_labels = none });
    policy_types = none;
    ingress = none;
    egress = none;
  });
}

abbrev web_egress : Policy
unfolding txt
web_egress = record {
  name = some (txt "egress");
  spec = some (record {
    pod_selector = some (record { match_labels = some web_labels });
    policy_types = some (txt "Egress" ∷ []);
    ingress = none;
    egress = some [];
  });
}

abbrev policies_of : Text → Result ClientError (List Policy)
policies_of ns = ok (deny_all ∷ web_egress ∷ [])

abbrev no_json : Map Text → Text
no_json m = []

findings_run :
    (target_findings (deny_all ∷ web_egress ∷ []) web_workload ≡ [])
    × (target_findings (deny_all ∷ []) web_workload ≡ open_egress (txt "web") ∷ [])
    × (policy_findings (txt "dev") (web_egress ∷ []) ≡ no_default_deny ∷ [])
unfolding target_findings policy_findings web_workload txt
findings_run = (refl, refl, refl)

get_network_policies_clean_example :
    (a : PolicyAnswer) × (get_network_policies no_json one_service policies_of tiny_config none
        (some (txt "web"))
      ≡ ok a)
    × ((a.findings ≡ []) ↔ (
        Any IsDefaultDeny (deny_all ∷ web_egress ∷ [])
        × Any
            (Restricts (txt "Egress") (workload_labels web_workload))
            (deny_all ∷ web_egress ∷ [])))
unfolding ns_of txt
get_network_policies_clean_example =
    get_network_policies_clean no_json one_service policies_of tiny_config none (txt "dev") 119
      (101 ∷ 98 ∷ []) (deny_all ∷ web_egress ∷ []) web_workload refl refl web_resolves

private_run :
    (is_private (txt "100.64.3.1") ≡ true)
    × (is_private (txt "100.128.3.1") ≡ false)
    × (is_private (txt "172.32.0.1") ≡ false)
    × (is_private (txt "FE80:0:0:0:0:0:0:1") ≡ true)
    × (is_private (txt "0:0:0:0:0:0:0:1") ≡ false)
unfolding is_private test txt
private_run = (refl, refl, refl, refl, refl)

resolved_remote_external_iff_example :
    let remote = join (txt ".") (print 8 ∷ print 8 ∷ print 4 ∷ print 4 ∷ []) in
    (resolved_remote web_labels [] remote ≡ some (txt "EXTERNAL"))
    ↔ ((known_name remote web_labels ≡ none) × (known_name remote [] ≡ none) × ¬ IsPrivateRange 8 8)
resolved_remote_external_iff_example =
    resolved_remote_external_iff web_labels [] 8 8 4 4 (omega arith) (omega arith)

abbrev one_connection : ConnectionSummary
unfolding txt
one_connection = record {
  established = record { remote = txt "10.0.0.7"; port = plus 0; count = 51 } ∷ [];
  states = (txt "ESTABLISHED", 51) ∷ [];
  listening = [];
  tcp_total = 51;
  udp_total = 0;
  available = true;
  note = none;
}

abbrev pod_named : Text → Text → Result ClientError Pod
pod_named ns name = ok web_pod

abbrev no_services : Text → Result ClientError (List ServiceIp)
no_services ns = ok []

abbrev one_probe : Pod → Result Unavailable ConnectionSummary
one_probe p = ok one_connection

abbrev web_answer : OpenAnswer
unfolding open_answer txt
web_answer = open_answer (txt "dev") web_pod one_connection [] (web_pod ∷ [])

open_run :
    get_open_connections one_service pod_named no_services one_probe tiny_config none none
      (some (txt "web"))
    ≡ ok web_answer
unfolding get_open_connections resolve_workload web_answer txt test
open_run = refl

open_findings_run : web_answer.findings ≡ many_to 51 (txt "web-1") (plus 0) ∷ []
unfolding web_answer txt
open_findings_run = refl

get_open_connections_asks_example : Shows one_service one_probe (txt "web") web_answer
unfolding txt
get_open_connections_asks_example =
    get_open_connections_asks one_service pod_named no_services one_probe tiny_config none 119
      (101 ∷ 98 ∷ []) web_answer open_run
