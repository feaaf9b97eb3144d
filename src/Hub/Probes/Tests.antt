-- ===== src/Hub/Probes/Tests.antt =====
-- Runs of the probe client, and the theorems at a concrete pod.
use kube_diagnostics_mcp.Common.{◌≡◌, refl, true, false, none, some, [], ◌∷◌, txt, All, ok, get}
use kube_diagnostics_mcp.Config.{HubConfig, http}
use kube_diagnostics_mcp.Hub.Model.{Pod, Container}
use kube_diagnostics_mcp.Hub.Probes.{
  ProbeRequest, Answer, threw, base_url, host_of, fetch_from_probe,
}
use kube_diagnostics_mcp.Hub.Probes.Cache.{
  Allowed, Held, fetch_from_probe-Allowed, fetch_from_probe-Held,
}

abbrev small_config : HubConfig
unfolding txt
small_config = record {
  transport = http;
  http_host = txt "0.0.0.0";
  http_port = 8090;
  http_token = none;
  allow_unauthenticated = true;
  namespaces = [];
  default_namespace = none;
  allow_active_checks = false;
  log_max_lines = 500;
  log_max_bytes = 262144;
  max_result_bytes = 204800;
  probe_container_name = txt "diag-probe";
  probe_port = 9911;
  probe_token = some (txt "t0ken");
  probe_timeout_ms = 5000;
  k8s_timeout_ms = 15000;
  providers = record { prometheus_url = none; datadog = none; splunk = none };
}

abbrev probe_container : Container
unfolding txt
probe_container = record {
  name = txt "diag-probe";
  image = none;
  restart_policy = none;
  ports = [];
}

abbrev probed_pod : Pod
unfolding txt
probed_pod = record {
  name = some (txt "web-1");
  namespace = some (txt "dev");
  labels = none;
  created = none;
  deleted = none;
  owners = [];
  node_name = none;
  service_account = none;
  init_containers = [];
  containers = probe_container ∷ [];
  phase = some (txt "Running");
  reason = none;
  pod_ip = some (txt "10.0.0.7");
  init_statuses = [];
  statuses = [];
  conditions = [];
}

abbrev down : ProbeRequest → Answer
unfolding txt
down r = threw (txt "connect ECONNREFUSED")

base_runs :
    (base_url small_config probed_pod ≡ ok (txt "http://10.0.0.7:9911"))
    × (host_of (txt "fd00::7") ≡ txt "[fd00::7]")
unfolding base_url host_of txt
base_runs = (refl, refl)

fetch_from_probe-Allowed_example :
    All
      (Allowed small_config 1000 [] probed_pod)
      (fetch_from_probe small_config down 1000 1500 [] probed_pod (txt "/info") []).requests
fetch_from_probe-Allowed_example =
    fetch_from_probe-Allowed small_config down 1000 1500 [] probed_pod (txt "/info") []

fetch_from_probe-Held_example :
    let failed =
      (fetch_from_probe small_config down 1000 1500 [] probed_pod (txt "/info") []).cache in
    Held failed
      (txt "http://10.0.0.7:9911")
      (fetch_from_probe small_config down 3000 3500 failed probed_pod (txt "/processes") [])
unfolding down txt get
fetch_from_probe-Held_example =
    fetch_from_probe-Held small_config down down 1000 1500 3000 3500 [] probed_pod probed_pod
      (txt "/info") (txt "/processes") [] [] (txt "http://10.0.0.7:9911")
      (txt "connect ECONNREFUSED") base_runs.0 base_runs.0 refl (λ r. refl) refl
