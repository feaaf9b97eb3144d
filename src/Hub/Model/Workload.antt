-- ===== src/Hub/Model/Workload.antt =====
-- src/hub/model.ts: selectors and `resolveWorkload`.
use kube_diagnostics_mcp.Common.{
  ℕ, Bool, false, Option, none, some, List, [], ◌∷◌, ◌++◌, map, filter, find, all, Text, txt, Map,
  get, same, or_else, Result, ok, err, ◌>>=◌, map_err,
}
use kube_diagnostics_mcp.Guard.{assert_name}
use kube_diagnostics_mcp.Hub.Model.{
  Container, Pod, Controller, DaemonSet, Service, Lists, Origin, deployment, stateful_set,
  daemon_set, service, single_pod, ResolvedWorkload, ResolveError, bad_name, client_error,
  unknown_workload,
}
use kube_diagnostics_mcp.Kube.{ClientError}
use kube_diagnostics_mcp.Strings.{join}

unfoldable pub selector_to_string : Option (Map Text) → Option Text
unfolding join txt
selector_to_string none = none
selector_to_string (some []) = none
selector_to_string (some (e ∷ m)) =
    some (join (txt ",") (map (λ e. e.0 ++ (txt "=" ++ e.1)) (e ∷ m)))

-- `labels[k] === v`
abbrev pub holds_text : Option Text → Text → Bool
holds_text none v = false
holds_text (some w) v = same w v

unfoldable pub labels_match : Option (Map Text) → Option (Map Text) → Bool
unfolding get all same
labels_match labels none = false
labels_match labels (some []) = false
labels_match none (some (e ∷ m)) = false
labels_match (some labels) (some (e ∷ m)) = all (λ e. holds_text (get e.0 labels) e.1) (e ∷ m)

-- `metadata?.name === name`
abbrev pub is_named : Text → Option Text → Bool
is_named name o = holds_text o name

unfoldable pub pods_of : Option (Map Text) → List Pod → List Pod
unfolding labels_match filter
pods_of selector pods = filter (λ p. labels_match p.labels selector) pods

abbrev pub or_zero : Option ℕ → Option ℕ
or_zero n = some (or_else n 0)

unfoldable pub of_controller : Text → Text → List Pod → Origin → Controller → ResolvedWorkload
unfolding pods_of
of_controller namespace name pods origin c = record {
  origin = origin;
  name = name;
  namespace = namespace;
  selector = c.match_labels;
  pods = pods_of c.match_labels pods;
  desired_replicas = some (or_else c.replicas 1);
  ready_replicas = or_zero c.ready_replicas;
  updated_replicas = or_zero c.updated_replicas;
  available_replicas = or_zero c.available_replicas;
  containers = c.template.containers;
  init_containers = c.template.init_containers;
  template_meta = c.template.meta;
  service_account = c.template.service_account;
}

unfoldable pub of_daemon_set : Text → Text → List Pod → DaemonSet → ResolvedWorkload
unfolding pods_of
of_daemon_set namespace name pods d = record {
  origin = daemon_set d;
  name = name;
  namespace = namespace;
  selector = d.match_labels;
  pods = pods_of d.match_labels pods;
  desired_replicas = d.desired_number;
  ready_replicas = or_zero d.number_ready;
  updated_replicas = or_zero d.updated_number;
  available_replicas = or_zero d.number_available;
  containers = d.template.containers;
  init_containers = d.template.init_containers;
  template_meta = d.template.meta;
  service_account = d.template.service_account;
}

-- What a workload without a template shows is its first pod's.
abbrev pub first_containers : List Pod → List Container
first_containers [] = []
first_containers (p ∷ ps) = p.containers

abbrev pub first_init_containers : List Pod → List Container
first_init_containers [] = []
first_init_containers (p ∷ ps) = p.init_containers

abbrev pub first_account : List Pod → Option Text
first_account [] = none
first_account (p ∷ ps) = p.service_account

unfoldable pub of_pods : Text → Text → Origin → Option (Map Text) → List Pod → ResolvedWorkload
of_pods namespace name origin selector pods = record {
  origin = origin;
  name = name;
  namespace = namespace;
  selector = selector;
  pods = pods;
  desired_replicas = none;
  ready_replicas = none;
  updated_replicas = none;
  available_replicas = none;
  containers = first_containers pods;
  init_containers = first_init_containers pods;
  template_meta = none;
  service_account = first_account pods;
}

-- `${metadata?.name}`
abbrev pub shown_name : Text → Option Text → Text
unfolding txt
shown_name kind none = kind ++ txt "/undefined"
shown_name kind (some n) = kind ++ (txt "/" ++ n)

unfoldable pub known_names :
    List Controller → List Controller → List DaemonSet → List Service → List Text
unfolding txt
known_names ds ss es vs =
    map (λ (d : Controller). shown_name (txt "Deployment") d.name) ds
    ++ (map (λ (s : Controller). shown_name (txt "StatefulSet") s.name) ss
        ++ (map (λ (e : DaemonSet). shown_name (txt "DaemonSet") e.name) es
            ++ map (λ (v : Service). shown_name (txt "Service") v.name) vs))

abbrev pub Resolved : Type 0
Resolved = Result ResolveError ResolvedWorkload

abbrev pub listed_by : {A : Type 0} → Result ClientError A → Result ResolveError A
listed_by r = map_err client_error r

module _ (k : Lists) (namespace name : Text) where
  unfoldable pub pick_pod : List Pod → List Text → Option Pod → Resolved
  unfolding of_pods
  pick_pod pods known (some p) = ok (of_pods namespace name single_pod none (p ∷ []))
  pick_pod pods known none = err (unknown_workload name namespace known)

  unfoldable pub pick_service : List Pod → List Text → Option Service → Resolved
  unfolding of_pods pick_pod find same pods_of
  pick_service pods known (some v) =
      ok (of_pods namespace name (service v) v.selector (pods_of v.selector pods))
  pick_service pods known none = pick_pod pods known (find (λ (p : Pod). is_named name p.name) pods)

  unfoldable pub pick_daemon_set :
      List Pod → List Controller → List Controller → List DaemonSet → Option DaemonSet → Resolved
  unfolding of_daemon_set pick_service known_names find same
  pick_daemon_set pods ds ss es (some e) = ok (of_daemon_set namespace name pods e)
  pick_daemon_set pods ds ss es none = do
    vs ← listed_by (k.services namespace)
    pick_service pods (known_names ds ss es vs) (find (λ (v : Service). is_named name v.name) vs)

  unfoldable pub pick_stateful_set :
      List Pod → List Controller → List Controller → Option Controller → Resolved
  unfolding of_controller pick_daemon_set find same
  pick_stateful_set pods ds ss (some s) = ok (of_controller namespace name pods (stateful_set s) s)
  pick_stateful_set pods ds ss none = do
    es ← listed_by (k.daemon_sets namespace)
    pick_daemon_set pods ds ss es (find (λ (e : DaemonSet). is_named name e.name) es)

  unfoldable pub pick_deployment : List Pod → List Controller → Option Controller → Resolved
  unfolding of_controller pick_stateful_set find same
  pick_deployment pods ds (some d) = ok (of_controller namespace name pods (deployment d) d)
  pick_deployment pods ds none = do
    ss ← listed_by (k.stateful_sets namespace)
    pick_stateful_set pods ds ss (find (λ (s : Controller). is_named name s.name) ss)

  unfoldable pub resolve_workload : Resolved
  unfolding assert_name pick_deployment find same txt
  resolve_workload = do
    named ← map_err bad_name (assert_name name (txt "service/workload name"))
    pods ← listed_by (k.pods namespace)
    ds ← listed_by (k.deployments namespace)
    pick_deployment pods ds (find (λ (d : Controller). is_named name d.name) ds)
