-- ===== src/Kube/Methods.antt =====
-- src/k8s/client.ts: the methods of `ReadOnlyKubeClient`.
use kube_diagnostics_mcp.Common.{
  Bool, ◌||◌, none, some, List, [], ◌∷◌, ◌++◌, Text, txt, includes, or_else, if◌then◌else◌, ◌==◌,
  Result, ok, err, ◌>>=◌,
}
use kube_diagnostics_mcp.Guard.{
  GuardError, assert_namespace_allowed, assert_name, assert_container_name,
}
use kube_diagnostics_mcp.Json.{
  Value, undefined, member, arr, obj, Items, nil, cons, field, end, as_text,
}
use kube_diagnostics_mcp.Kube.{
  Resource, pods, deployments, replica_sets, stateful_sets, daemon_sets, jobs, cron_jobs, hpas,
  pdbs, services, endpoint_slices, network_policies, ingresses, config_maps, resource_quotas,
  service_accounts, roles, role_bindings, events, namespaces, nodes, cluster_roles,
  cluster_role_bindings, ListOpts, LogOpts, Api, get_version, list_cluster, list_everywhere,
  read_namespaced, read_log, get_pod_metrics, get_node_metrics, ClientError, kube_error, Kube, Run,
}
use kube_diagnostics_mcp.Kube.Client.{
  call, ns, checked, list_args, space_args, items_of, across_namespaces,
}

abbrev whole_value : Value → Value
whole_value v = v

module _ (k : Kube) where
  unfoldable pub list_pods : Text → ListOpts → Run
  unfolding call list_args items_of txt
  list_pods namespace opts =
      call k (txt "list pods in " ++ namespace) items_of (list_args k pods namespace opts)

  unfoldable pub list_deployments : Text → ListOpts → Run
  unfolding call list_args items_of txt
  list_deployments namespace opts =
      call k (txt "list deployments in " ++ namespace) items_of
        (list_args k deployments namespace opts)

  unfoldable pub list_replica_sets : Text → ListOpts → Run
  unfolding call list_args items_of txt
  list_replica_sets namespace opts =
      call k (txt "list replicasets in " ++ namespace) items_of
        (list_args k replica_sets namespace opts)

  unfoldable pub list_stateful_sets : Text → ListOpts → Run
  unfolding call list_args items_of txt
  list_stateful_sets namespace opts =
      call k (txt "list statefulsets in " ++ namespace) items_of
        (list_args k stateful_sets namespace opts)

  unfoldable pub list_daemon_sets : Text → ListOpts → Run
  unfolding call list_args items_of txt
  list_daemon_sets namespace opts =
      call k (txt "list daemonsets in " ++ namespace) items_of
        (list_args k daemon_sets namespace opts)

  unfoldable pub list_jobs : Text → ListOpts → Run
  unfolding call list_args items_of txt
  list_jobs namespace opts =
      call k (txt "list jobs in " ++ namespace) items_of (list_args k jobs namespace opts)

  unfoldable pub list_cron_jobs : Text → ListOpts → Run
  unfolding call list_args items_of txt
  list_cron_jobs namespace opts =
      call k (txt "list cronjobs in " ++ namespace) items_of (list_args k cron_jobs namespace opts)

  unfoldable pub list_services : Text → ListOpts → Run
  unfolding call list_args items_of txt
  list_services namespace opts =
      call k (txt "list services in " ++ namespace) items_of (list_args k services namespace opts)

  unfoldable pub list_endpoint_slices : Text → ListOpts → Run
  unfolding call list_args items_of txt
  list_endpoint_slices namespace opts =
      call k (txt "list endpointslices in " ++ namespace) items_of
        (list_args k endpoint_slices namespace opts)

  unfoldable pub list_events : Text → ListOpts → Run
  unfolding call list_args items_of txt
  list_events namespace opts =
      call k (txt "list events in " ++ namespace) items_of (list_args k events namespace opts)

  unfoldable pub list_hpas : Text → Run
  unfolding call space_args items_of txt
  list_hpas namespace =
      call k (txt "list hpas in " ++ namespace) items_of (space_args k hpas namespace)

  unfoldable pub list_pdbs : Text → Run
  unfolding call space_args items_of txt
  list_pdbs namespace =
      call k (txt "list pdbs in " ++ namespace) items_of (space_args k pdbs namespace)

  unfoldable pub list_network_policies : Text → Run
  unfolding call space_args items_of txt
  list_network_policies namespace =
      call k (txt "list networkpolicies in " ++ namespace) items_of
        (space_args k network_policies namespace)

  unfoldable pub list_ingresses : Text → Run
  unfolding call space_args items_of txt
  list_ingresses namespace =
      call k (txt "list ingresses in " ++ namespace) items_of (space_args k ingresses namespace)

  unfoldable pub list_config_maps : Text → Run
  unfolding call space_args items_of txt
  list_config_maps namespace =
      call k (txt "list configmaps in " ++ namespace) items_of (space_args k config_maps namespace)

  unfoldable pub list_resource_quotas : Text → Run
  unfolding call space_args items_of txt
  list_resource_quotas namespace =
      call k (txt "list resourcequotas in " ++ namespace) items_of
        (space_args k resource_quotas namespace)

  unfoldable pub list_service_accounts : Text → Run
  unfolding call space_args items_of txt
  list_service_accounts namespace =
      call k (txt "list serviceaccounts in " ++ namespace) items_of
        (space_args k service_accounts namespace)

  unfoldable pub list_roles : Text → Run
  unfolding call space_args items_of txt
  list_roles namespace =
      call k (txt "list roles in " ++ namespace) items_of (space_args k roles namespace)

  unfoldable pub list_role_bindings : Text → Run
  unfolding call space_args items_of txt
  list_role_bindings namespace =
      call k (txt "list rolebindings in " ++ namespace) items_of
        (space_args k role_bindings namespace)

  unfoldable pub list_pods_all : ListOpts → Run
  unfolding across_namespaces list_args txt
  list_pods_all opts =
      across_namespaces k (txt "list pods")
        (list_everywhere pods opts.label_selector opts.field_selector)
        (λ space. list_args k pods space opts)

  unfoldable pub list_deployments_all : Run
  unfolding across_namespaces space_args txt
  list_deployments_all =
      across_namespaces k (txt "list deployments") (list_everywhere deployments none none)
        (λ space. space_args k deployments space)

  abbrev pub read_args : Resource → Text → Text → Text → Result GuardError Api
  read_args resource namespace name what = do
    space ← ns k namespace
    named ← assert_name name what
    ok (read_namespaced resource space named)

  unfoldable pub get_pod : Text → Text → Run
  unfolding call assert_namespace_allowed assert_name txt
  get_pod namespace name =
      call k (txt "get pod " ++ (namespace ++ (txt "/" ++ name))) whole_value
        (read_args pods namespace name (txt "pod name"))

  unfoldable pub get_config_map : Text → Text → Run
  unfolding call assert_namespace_allowed assert_name txt
  get_config_map namespace name =
      call k (txt "get configmap " ++ (namespace ++ (txt "/" ++ name))) whole_value
        (read_args config_maps namespace name (txt "configmap name"))

  unfoldable pub log_args : Text → Text → LogOpts → Result GuardError Api
  unfolding assert_namespace_allowed assert_name checked assert_container_name txt
  log_args namespace pod opts = do
    space ← ns k namespace
    named ← assert_name pod (txt "pod name")
    container ← checked assert_container_name opts.container
    ok (read_log space named (record opts { container = container }))

  unfoldable pub read_pod_log : Text → Text → LogOpts → Run
  unfolding call log_args txt
  read_pod_log namespace pod opts =
      call k (txt "read logs of " ++ (namespace ++ (txt "/" ++ pod))) whole_value
        (log_args namespace pod opts)

  -- The two fields of the version that are passed on.
  unfoldable pub version_of : Value → Value
  unfolding member txt
  version_of v = obj (
      field (txt "gitVersion") (member (txt "gitVersion") v)
        (field (txt "platform") (member (txt "platform") v) end))

  unfoldable pub server_version : Run
  unfolding call version_of txt
  server_version = call k (txt "get server version") version_of (ok get_version)

  unfoldable pub is_listed : Value → Bool
  unfolding member includes txt
  is_listed v =
      includes (or_else (as_text (member (txt "name") (member (txt "metadata") v))) []) k.namespaces

  unfoldable pub listed_items : Items → Items
  unfolding is_listed
  listed_items nil = nil
  listed_items (cons v xs) = let rest = listed_items xs in if is_listed v then cons v rest else rest

  unfoldable pub only_listed : List Text → Value → Value
  unfolding listed_items
  only_listed (a ∷ l) (arr xs) = arr (listed_items xs)
  only_listed _ v = v

  unfoldable pub list_namespaces : Run
  unfolding call only_listed items_of txt
  list_namespaces =
      call k (txt "list namespaces") (λ v. only_listed k.namespaces (items_of v))
        (ok (list_cluster namespaces))

  unfoldable pub list_nodes : Run
  unfolding call items_of txt
  list_nodes = call k (txt "list nodes") items_of (ok (list_cluster nodes))

  unfoldable pub list_cluster_roles : Run
  unfolding call items_of txt
  list_cluster_roles = call k (txt "list clusterroles") items_of (ok (list_cluster cluster_roles))

  unfoldable pub list_cluster_role_bindings : Run
  unfolding call items_of txt
  list_cluster_role_bindings =
      call k (txt "list clusterrolebindings") items_of (ok (list_cluster cluster_role_bindings))

  -- A missing or unavailable metrics server is no error.
  unfoldable pub without_metrics : Result ClientError Value → Result ClientError Value
  without_metrics (err (kube_error message (some status))) =
      if status == 404 || status == 503
      then ok undefined
      else err (kube_error message (some status))
  without_metrics r = r

  abbrev pub tolerant : Run → Run
  tolerant r = record { requests = r.requests; result = without_metrics r.result }

  abbrev pub pod_metrics_args : Text → Result GuardError Api
  pod_metrics_args namespace = do space ← ns k namespace; ok (get_pod_metrics space)

  unfoldable pub pod_metrics : Text → Run
  unfolding call assert_namespace_allowed without_metrics txt
  pod_metrics namespace =
      tolerant
        (call k (txt "pod metrics in " ++ namespace) whole_value (pod_metrics_args namespace))

  unfoldable pub node_metrics : Run
  unfolding call without_metrics txt
  node_metrics = tolerant (call k (txt "node metrics") whole_value (ok get_node_metrics))
