-- ===== src/Kube.antt =====
-- src/k8s/client.ts: the read-only client. What it asks of the Kubernetes API is a value of `Api`,
-- with one constructor for each kind of request that the wrapper makes; a run lists its requests in
-- order. The API client library and the cluster behind it are an argument.
pub mod Client
pub mod Methods
pub mod Scope
pub mod Operations
mod Tests
use kube_diagnostics_mcp.Common.{ℕ, Bool, Option, List, Text, Result}
use kube_diagnostics_mcp.Guard.{GuardError}
use kube_diagnostics_mcp.Json.{Value}

pub data Resource : Type 0 where
  pods deployments replica_sets stateful_sets daemon_sets jobs cron_jobs hpas pdbs : Resource
  services endpoint_slices network_policies ingresses config_maps resource_quotas : Resource
  service_accounts roles role_bindings events namespaces nodes cluster_roles : Resource
  cluster_role_bindings : Resource

pub record ListOpts : Type 0 where
  pub label_selector : Option Text
  pub field_selector : Option Text
  pub limit : Option ℕ

pub record LogOpts : Type 0 where
  pub container : Option Text
  pub tail_lines : Option ℕ
  pub since_seconds : Option ℕ
  pub previous : Bool
  pub limit_bytes : Option ℕ
  pub timestamps : Bool

pub data Api : Type 0 where
  get_version : Api
  list_cluster : Resource → Api
  list_everywhere : Resource → (label_selector field_selector : Option Text) → Api
  list_namespaced : Resource → Text → ListOpts → Api
  read_namespaced : Resource → Text → Text → Api
  read_log : Text → Text → LogOpts → Api
  get_pod_metrics : Text → Api
  get_node_metrics : Api

-- Why a request brings back no value: an `ApiException` with its code and the reason found in its
-- body, another error, or the client's own timeout.
pub data Failure : Type 0 where
  api_exception : ℕ → Text → Failure
  other_error : Text → Failure
  late : Failure

pub data ClientError : Type 0 where
  refused : GuardError → ClientError
  kube_error : Text → Option ℕ → ClientError

pub record Kube : Type 0 where
  pub answers : Api → Result Failure Value
  pub namespaces : List Text
  pub timeout_ms : ℕ

pub record Run : Type 0 where
  pub requests : List Api
  pub result : Result ClientError Value
