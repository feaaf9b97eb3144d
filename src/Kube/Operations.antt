-- ===== src/Kube/Operations.antt =====
-- src/k8s/client.ts: every method of the client, and the reach of its requests.
use kube_diagnostics_mcp.Common.{refl, none, ◌++◌, Text, txt, All}
use kube_diagnostics_mcp.Kube.{
  pods, deployments, replica_sets, stateful_sets, daemon_sets, jobs, cron_jobs, hpas, pdbs,
  services, endpoint_slices, network_policies, ingresses, config_maps, resource_quotas,
  service_accounts, roles, role_bindings, events, ListOpts, LogOpts, list_everywhere, Kube, Run,
}
use kube_diagnostics_mcp.Kube.Client.{call, list_args, space_args, items_of}
use kube_diagnostics_mcp.Kube.Methods.{
  read_args, log_args, pod_metrics_args, list_pods, list_deployments, list_replica_sets,
  list_stateful_sets, list_daemon_sets, list_jobs, list_cron_jobs, list_services,
  list_endpoint_slices, list_events, list_hpas, list_pdbs, list_network_policies, list_ingresses,
  list_config_maps, list_resource_quotas, list_service_accounts, list_roles, list_role_bindings,
  list_pods_all, list_deployments_all, get_pod, get_config_map, read_pod_log, pod_metrics,
  server_version, list_namespaces, list_nodes, list_cluster_roles, list_cluster_role_bindings,
  node_metrics,
}
use kube_diagnostics_mcp.Kube.Scope.{
  IsScoped, Good, is_cluster_kind, is_everywhere_kind, list_args-Good, space_args-Good, call-Scoped,
  read_args-Good, log_args-Good, pod_metrics_args-Good, across-Scoped,
}

-- The methods that take a namespace and options, and those that take only a namespace.
pub data Listing : Type 0 where
  on_pods on_deployments on_replica_sets on_stateful_sets on_daemon_sets on_jobs on_cron_jobs
        on_services on_endpoint_slices on_events :
      Listing

pub data Plain : Type 0 where
  on_hpas on_pdbs on_network_policies on_ingresses on_config_maps on_resource_quotas
        on_service_accounts on_roles on_role_bindings :
      Plain

-- A call of a method of the client.
pub data Operation : Type 0 where
  in_namespace : Listing → Text → ListOpts → Operation
  of_namespace : Plain → Text → Operation
  all_pods : ListOpts → Operation
  all_deployments : Operation
  one_pod one_config_map : Text → Text → Operation
  pod_log : Text → Text → LogOpts → Operation
  metrics_of_pods : Text → Operation
  version all_namespaces all_nodes all_cluster_roles all_cluster_role_bindings metrics_of_nodes :
      Operation

unfoldable pub run_listing : Kube → Listing → Text → ListOpts → Run
run_listing k on_pods = list_pods k
run_listing k on_deployments = list_deployments k
run_listing k on_replica_sets = list_replica_sets k
run_listing k on_stateful_sets = list_stateful_sets k
run_listing k on_daemon_sets = list_daemon_sets k
run_listing k on_jobs = list_jobs k
run_listing k on_cron_jobs = list_cron_jobs k
run_listing k on_services = list_services k
run_listing k on_endpoint_slices = list_endpoint_slices k
run_listing k on_events = list_events k

unfoldable pub run_plain : Kube → Plain → Text → Run
run_plain k on_hpas = list_hpas k
run_plain k on_pdbs = list_pdbs k
run_plain k on_network_policies = list_network_policies k
run_plain k on_ingresses = list_ingresses k
run_plain k on_config_maps = list_config_maps k
run_plain k on_resource_quotas = list_resource_quotas k
run_plain k on_service_accounts = list_service_accounts k
run_plain k on_roles = list_roles k
run_plain k on_role_bindings = list_role_bindings k

unfoldable pub run : Kube → Operation → Run
unfolding run_listing run_plain
run k (in_namespace m space opts) = run_listing k m space opts
run k (of_namespace m space) = run_plain k m space
run k (all_pods opts) = list_pods_all k opts
run k all_deployments = list_deployments_all k
run k (one_pod space name) = get_pod k space name
run k (one_config_map space name) = get_config_map k space name
run k (pod_log space pod opts) = read_pod_log k space pod opts
run k (metrics_of_pods space) = pod_metrics k space
run k version = server_version k
run k all_namespaces = list_namespaces k
run k all_nodes = list_nodes k
run k all_cluster_roles = list_cluster_roles k
run k all_cluster_role_bindings = list_cluster_role_bindings k
run k metrics_of_nodes = node_metrics k

run_listing-Scoped :
    (k : Kube) (m : Listing) (space : Text) (opts : ListOpts)
    → All (IsScoped k) (run_listing k m space opts).requests
unfolding run_listing txt list_pods list_deployments list_replica_sets list_stateful_sets
    list_daemon_sets list_jobs list_cron_jobs list_services list_endpoint_slices list_events
run_listing-Scoped k on_pods space opts =
    call-Scoped k (txt "list pods in " ++ space) items_of (list_args k pods space opts)
      (list_args-Good k pods space opts)
run_listing-Scoped k on_deployments space opts =
    call-Scoped k (txt "list deployments in " ++ space) items_of
      (list_args k deployments space opts) (list_args-Good k deployments space opts)
run_listing-Scoped k on_replica_sets space opts =
    call-Scoped k (txt "list replicasets in " ++ space) items_of
      (list_args k replica_sets space opts) (list_args-Good k replica_sets space opts)
run_listing-Scoped k on_stateful_sets space opts =
    call-Scoped k (txt "list statefulsets in " ++ space) items_of
      (list_args k stateful_sets space opts) (list_args-Good k stateful_sets space opts)
run_listing-Scoped k on_daemon_sets space opts =
    call-Scoped k (txt "list daemonsets in " ++ space) items_of (list_args k daemon_sets space opts)
      (list_args-Good k daemon_sets space opts)
run_listing-Scoped k on_jobs space opts =
    call-Scoped k (txt "list jobs in " ++ space) items_of (list_args k jobs space opts)
      (list_args-Good k jobs space opts)
run_listing-Scoped k on_cron_jobs space opts =
    call-Scoped k (txt "list cronjobs in " ++ space) items_of (list_args k cron_jobs space opts)
      (list_args-Good k cron_jobs space opts)
run_listing-Scoped k on_services space opts =
    call-Scoped k (txt "list services in " ++ space) items_of (list_args k services space opts)
      (list_args-Good k services space opts)
run_listing-Scoped k on_endpoint_slices space opts =
    call-Scoped k (txt "list endpointslices in " ++ space) items_of
      (list_args k endpoint_slices space opts) (list_args-Good k endpoint_slices space opts)
run_listing-Scoped k on_events space opts =
    call-Scoped k (txt "list events in " ++ space) items_of (list_args k events space opts)
      (list_args-Good k events space opts)

run_plain-Scoped :
    (k : Kube) (m : Plain) (space : Text) → All (IsScoped k) (run_plain k m space).requests
unfolding run_plain txt list_hpas list_pdbs list_network_policies list_ingresses list_config_maps
    list_resource_quotas list_service_accounts list_roles list_role_bindings
run_plain-Scoped k on_hpas space =
    call-Scoped k (txt "list hpas in " ++ space) items_of (space_args k hpas space)
      (space_args-Good k hpas space)
run_plain-Scoped k on_pdbs space =
    call-Scoped k (txt "list pdbs in " ++ space) items_of (space_args k pdbs space)
      (space_args-Good k pdbs space)
run_plain-Scoped k on_network_policies space =
    call-Scoped k (txt "list networkpolicies in " ++ space) items_of
      (space_args k network_policies space) (space_args-Good k network_policies space)
run_plain-Scoped k on_ingresses space =
    call-Scoped k (txt "list ingresses in " ++ space) items_of (space_args k ingresses space)
      (space_args-Good k ingresses space)
run_plain-Scoped k on_config_maps space =
    call-Scoped k (txt "list configmaps in " ++ space) items_of (space_args k config_maps space)
      (space_args-Good k config_maps space)
run_plain-Scoped k on_resource_quotas space =
    call-Scoped k (txt "list resourcequotas in " ++ space) items_of
      (space_args k resource_quotas space) (space_args-Good k resource_quotas space)
run_plain-Scoped k on_service_accounts space =
    call-Scoped k (txt "list serviceaccounts in " ++ space) items_of
      (space_args k service_accounts space) (space_args-Good k service_accounts space)
run_plain-Scoped k on_roles space =
    call-Scoped k (txt "list roles in " ++ space) items_of (space_args k roles space)
      (space_args-Good k roles space)
run_plain-Scoped k on_role_bindings space =
    call-Scoped k (txt "list rolebindings in " ++ space) items_of (space_args k role_bindings space)
      (space_args-Good k role_bindings space)

-- Whatever method is called with whatever arguments, and whatever the API answers, each request to
-- the API is in scope. It reads one namespace that is a DNS label and, if there is an
-- allow-list, one of it; the names in it are single plain steps, and the label selectors there are
-- of the guard's alphabet. Or it asks for the version of the cluster, the metrics of its nodes, or
-- the list of its namespaces, nodes, cluster roles or their bindings. Or, where there is no
-- allow-list, it lists the pods or the deployments of all namespaces, by any selector.
pub run-Scoped : (k : Kube) (o : Operation) → All (IsScoped k) (run k o).requests
unfolding run txt IsScoped Good is_everywhere_kind list_pods_all list_deployments_all get_pod
    get_config_map read_pod_log pod_metrics server_version list_namespaces list_nodes
    list_cluster_roles list_cluster_role_bindings node_metrics call is_cluster_kind
run-Scoped k (in_namespace m space opts) = run_listing-Scoped k m space opts
run-Scoped k (of_namespace m space) = run_plain-Scoped k m space
run-Scoped k (all_pods opts) =
    across-Scoped k (txt "list pods") (list_everywhere pods opts.label_selector opts.field_selector)
      (λ s. list_args k pods s opts) (λ e. (e, refl)) (λ s. list_args-Good k pods s opts)
run-Scoped k all_deployments =
    across-Scoped k (txt "list deployments") (list_everywhere deployments none none)
      (λ s. space_args k deployments s) (λ e. (e, refl)) (λ s. space_args-Good k deployments s)
run-Scoped k (one_pod space name) =
    call-Scoped k (txt "get pod " ++ (space ++ (txt "/" ++ name))) (λ v. v)
      (read_args k pods space name (txt "pod name"))
      (read_args-Good k pods space name (txt "pod name"))
run-Scoped k (one_config_map space name) =
    call-Scoped k (txt "get configmap " ++ (space ++ (txt "/" ++ name))) (λ v. v)
      (read_args k config_maps space name (txt "configmap name"))
      (read_args-Good k config_maps space name (txt "configmap name"))
run-Scoped k (pod_log space pod opts) =
    call-Scoped k (txt "read logs of " ++ (space ++ (txt "/" ++ pod))) (λ v. v)
      (log_args k space pod opts) (log_args-Good k space pod opts)
run-Scoped k (metrics_of_pods space) =
    call-Scoped k (txt "pod metrics in " ++ space) (λ v. v) (pod_metrics_args k space)
      (pod_metrics_args-Good k space)
run-Scoped k version = (tt, tt)
run-Scoped k all_namespaces = (refl, tt)
run-Scoped k all_nodes = (refl, tt)
run-Scoped k all_cluster_roles = (refl, tt)
run-Scoped k all_cluster_role_bindings = (refl, tt)
run-Scoped k metrics_of_nodes = (tt, tt)
