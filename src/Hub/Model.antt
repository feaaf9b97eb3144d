-- ===== src/Hub/Model.antt =====
-- src/hub/model.ts: workloads and pods. The objects of the Kubernetes API are records of the fields
-- that the source reads; a missing list is read as an empty one.
pub mod Workload
pub mod Labels
pub mod Resolve
pub mod Summary
pub mod Pods
pub mod Problems
mod Tests
use kube_diagnostics_mcp.Common.{ℕ, Bool, Option, List, Text, Map, Result}
use kube_diagnostics_mcp.Guard.{GuardError}
use kube_diagnostics_mcp.Json.{Value}
use kube_diagnostics_mcp.Kube.{ClientError}

pub record Port : Type 0 where
  pub port_name : Option Text
  pub container_port : ℕ

pub record Container : Type 0 where
  pub name : Text
  pub image : Option Text
  pub restart_policy : Option Text
  pub ports : List Port

pub record Waiting : Type 0 where
  pub reason : Option Text
  pub message : Option Text

pub record Terminated : Type 0 where
  pub reason : Option Text
  pub message : Option Text
  pub exit_code : ℕ
  pub finished_at : Option Text

pub record ContainerState : Type 0 where
  pub running : Option (Option Text)
  pub waiting : Option Waiting
  pub terminated : Option Terminated

pub record ContainerStatus : Type 0 where
  pub name : Text
  pub ready : Bool
  pub restart_count : Option ℕ
  pub state : ContainerState
  pub last_terminated : Option Terminated

pub record Condition : Type 0 where
  pub type : Text
  pub status : Text
  pub reason : Option Text
  pub message : Option Text

pub record Owner : Type 0 where
  pub kind : Text
  pub name : Text

pub record Pod : Type 0 where
  pub name : Option Text
  pub namespace : Option Text
  pub labels : Option (Map Text)
  pub created : Option Text
  pub deleted : Option Text
  pub owners : List Owner
  pub node_name : Option Text
  pub service_account : Option Text
  pub init_containers : List Container
  pub containers : List Container
  pub phase : Option Text
  pub reason : Option Text
  pub pod_ip : Option Text
  pub init_statuses : List ContainerStatus
  pub statuses : List ContainerStatus
  pub conditions : List Condition

-- The template of a controller.
pub record Template : Type 0 where
  pub containers : List Container
  pub init_containers : List Container
  pub meta : Option Value
  pub service_account : Option Text

-- A Deployment or a StatefulSet.
pub record Controller : Type 0 where
  pub name : Option Text
  pub match_labels : Option (Map Text)
  pub replicas : Option ℕ
  pub ready_replicas : Option ℕ
  pub updated_replicas : Option ℕ
  pub available_replicas : Option ℕ
  pub template : Template

pub record DaemonSet : Type 0 where
  pub name : Option Text
  pub match_labels : Option (Map Text)
  pub desired_number : Option ℕ
  pub number_ready : Option ℕ
  pub updated_number : Option ℕ
  pub number_available : Option ℕ
  pub template : Template

pub record Service : Type 0 where
  pub name : Option Text
  pub selector : Option (Map Text)

-- The lists of the client that are read here.
pub record Lists : Type 0 where
  pub pods : Text → Result ClientError (List Pod)
  pub deployments : Text → Result ClientError (List Controller)
  pub stateful_sets : Text → Result ClientError (List Controller)
  pub daemon_sets : Text → Result ClientError (List DaemonSet)
  pub services : Text → Result ClientError (List Service)

pub data Origin : Type 0 where
  deployment stateful_set : Controller → Origin
  daemon_set : DaemonSet → Origin
  service : Service → Origin
  single_pod : Origin

pub record ResolvedWorkload : Type 0 where
  pub origin : Origin
  pub name : Text
  pub namespace : Text
  pub selector : Option (Map Text)
  pub pods : List Pod
  pub desired_replicas : Option ℕ
  pub ready_replicas : Option ℕ
  pub updated_replicas : Option ℕ
  pub available_replicas : Option ℕ
  pub containers : List Container
  pub init_containers : List Container
  pub template_meta : Option Value
  pub service_account : Option Text

-- What resolving throws: the guard's error, the client's, or the list of the names that are known.
pub data ResolveError : Type 0 where
  bad_name : GuardError → ResolveError
  client_error : ClientError → ResolveError
  unknown_workload : Text → Text → List Text → ResolveError
