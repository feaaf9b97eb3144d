-- ===== src/Hub/Model/Tests.antt =====
-- Runs of the workload model, and the theorems at concrete objects.
use kube_diagnostics_mcp.Common.{
  ◌≡◌, refl, inl, true, none, some, List, [], ◌∷◌, ◌++◌, Text, txt, Map, includes, ok,
}
use kube_diagnostics_mcp.Guard.Safe.{IsStep}
use kube_diagnostics_mcp.Hub.Model.{
  Pod, Container, Terminated, ContainerStatus, Controller, Lists, ResolvedWorkload, deployment,
}
use kube_diagnostics_mcp.Hub.Model.Problems.{pod_problems_oom_killed}
use kube_diagnostics_mcp.Hub.Model.Resolve.{HasPods, resolve_workload-HasPods}
use kube_diagnostics_mcp.Hub.Model.Summary.{Clock, human_duration}
use kube_diagnostics_mcp.Hub.Model.Pods.{pod_problems}
use kube_diagnostics_mcp.Hub.Model.Workload.{of_controller, resolve_workload}
use kube_diagnostics_mcp.Regex.{test}

abbrev web_labels : Map Text
unfolding txt
web_labels = (txt "app", txt "web") ∷ []

abbrev frozen_clock : Clock
frozen_clock = record { parse = λ s. none; iso = λ s. s; now = 0 }

abbrev web_container : Container
unfolding txt
web_container = record { name = txt "web"; image = none; restart_policy = none; ports = [] }

abbrev killed_before : Terminated
unfolding txt
killed_before = record {
  reason = some (txt "OOMKilled");
  message = none;
  exit_code = 137;
  finished_at = none;
}

abbrev killed_status : ContainerStatus
unfolding txt
killed_status = record {
  name = txt "web";
  ready = true;
  restart_count = some 1;
  state = record { running = some none; waiting = none; terminated = none };
  last_terminated = some killed_before;
}

abbrev web_pod : Pod
unfolding txt
web_pod = record {
  name = some (txt "web-1");
  namespace = some (txt "dev");
  labels = some web_labels;
  created = none;
  deleted = none;
  owners = [];
  node_name = none;
  service_account = none;
  init_containers = [];
  containers = web_container ∷ [];
  phase = some (txt "Running");
  reason = none;
  pod_ip = none;
  init_statuses = [];
  statuses = killed_status ∷ [];
  conditions = [];
}

abbrev web_deployment : Controller
unfolding txt
web_deployment = record {
  name = some (txt "web");
  match_labels = some web_labels;
  replicas = none;
  ready_replicas = some 1;
  updated_replicas = none;
  available_replicas = none;
  template = record {
    containers = web_container ∷ [];
    init_containers = [];
    meta = none;
    service_account = none;
  };
}

abbrev one_deployment : Lists
one_deployment = record {
  pods = λ space. ok (web_pod ∷ []);
  deployments = λ space. ok (web_deployment ∷ []);
  stateful_sets = λ space. ok [];
  daemon_sets = λ space. ok [];
  services = λ space. ok [];
}

abbrev web_workload : ResolvedWorkload
unfolding txt of_controller
web_workload =
    of_controller (txt "dev") (txt "web") (web_pod ∷ []) (deployment web_deployment) web_deployment

duration_runs :
    (human_duration (some 59) ≡ some (txt "59s"))
    × (human_duration (some 7260) ≡ some (txt "2h1m"))
    × (human_duration (some 180000) ≡ some (txt "2d2h"))
unfolding human_duration txt
duration_runs = (refl, refl, refl)

web_resolves : resolve_workload one_deployment (txt "dev") (txt "web") ≡ ok web_workload
unfolding resolve_workload web_workload txt test
web_resolves = refl

resolve_workload-HasPods_example :
    IsStep (txt "web")
    × ((pods : List Pod) × (one_deployment.pods (txt "dev") ≡ ok pods)
        × (web_workload.name ≡ txt "web")
        × (web_workload.namespace ≡ txt "dev")
        × HasPods one_deployment (txt "dev") (txt "web") pods web_workload)
resolve_workload-HasPods_example =
    resolve_workload-HasPods one_deployment (txt "dev") (txt "web") web_workload web_resolves

pod_problems_oom_killed_example :
    includes
      (txt "web" ++ txt ": previous container was OOMKilled")
      (pod_problems frozen_clock web_pod)
    ≡ true
unfolding txt
pod_problems_oom_killed_example =
    pod_problems_oom_killed frozen_clock web_pod (txt "web") (inl refl)
      (inl (refl, (killed_before, refl, refl)))
