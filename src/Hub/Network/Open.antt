-- ===== src/Hub/Network/Open.antt =====
-- src/hub/tools/network.ts: which pod a tool asks, and `getOpenConnections`. Of requests that run at
-- once the first in order that fails decides on the error.
use kube_diagnostics_mcp.Common.{
  ℕ, Bool, Option, none, some, List, [], ◌∷◌, ◌++◌, map, find, Text, txt, Map, get, same, or_else,
  if◌then◌else◌, ltb, Number, Result, ok, err, ◌>>=◌, map_err,
}
use kube_diagnostics_mcp.Config.{HubConfig}
use kube_diagnostics_mcp.Hub.Model.{Pod, Lists, ResolvedWorkload, ResolveError}
use kube_diagnostics_mcp.Hub.Model.Workload.{holds_text, resolve_workload}
use kube_diagnostics_mcp.Hub.Network.Policies.{kind_text}
use kube_diagnostics_mcp.Hub.Network.Private.{ServiceIp, service_by_ip, pod_by_ip, resolved_remote}
use kube_diagnostics_mcp.Hub.Probes.{Unavailable}
use kube_diagnostics_mcp.Hub.Server.{ToolError, ns_of}
use kube_diagnostics_mcp.Kube.{ClientError}
use kube_diagnostics_mcp.Probe.Net.Connections.{ConnectionSummary, Established, Listener}

pub data OpenError : Type 0 where
  no_namespace : ToolError → OpenError
  not_read : ClientError → OpenError
  not_resolved : ResolveError → OpenError
  no_pods : Text → Text → OpenError
  nothing_named : OpenError
  not_answered : Unavailable → OpenError

abbrev pub is_running : Pod → Bool
unfolding txt
is_running p = holds_text p.phase (txt "Running")

-- `w.pods.find((p) => p.status?.phase === "Running") ?? w.pods[0]`
abbrev pub first_pod : List Pod → Option Pod
first_pod [] = none
first_pod (p ∷ ps) = some p

unfoldable pub preferred : List Pod → Option Pod
unfolding find same txt
preferred pods = elim (find is_running pods) [ some p ↦ some p | none ↦ first_pod pods ]

unfoldable pub pod_of : ResolvedWorkload → Result OpenError Pod
unfolding preferred txt
pod_of w = elim (preferred w.pods) [
  | some p ↦ ok p
  | none ↦ err (no_pods (kind_text w.origin) w.name)
]

-- A finding, by its message.
pub data OpenFinding : Type 0 where
  time_wait close_wait : ℕ → OpenFinding
  many_to : ℕ → Text → Number → OpenFinding

-- `svcByIp.get(e.remote) ?? podByIp.get(e.remote) ?? e.remote`
abbrev pub name_of : Map Text → Map Text → Text → Text
unfolding get
name_of services pods remote = or_else (get remote services) (or_else (get remote pods) remote)

unfoldable pub peer_findings : Map Text → Map Text → List Established → List OpenFinding
unfolding get
peer_findings services pods [] = []
peer_findings services pods (e ∷ l) =
    (if ltb 50 e.count then many_to e.count (name_of services pods e.remote) e.port ∷ [] else [])
    ++ peer_findings services pods l

abbrev pub state_count : Text → ConnectionSummary → ℕ
unfolding get
state_count state s = or_else (get state s.states) 0

unfoldable pub open_findings : Map Text → Map Text → ConnectionSummary → List OpenFinding
unfolding peer_findings get txt
open_findings services pods s =
    let tw = state_count (txt "TIME_WAIT") s in
    let cw = state_count (txt "CLOSE_WAIT") s in
    (if ltb 1000 tw then time_wait tw ∷ [] else [])
    ++ ((if ltb 50 cw then close_wait cw ∷ [] else []) ++ peer_findings services pods s.established)

pub record EstablishedRow : Type 0 where
  pub established : Established
  pub resolved : Option Text

pub record OpenAnswer : Type 0 where
  pub pod : Option Text
  pub namespace : Text
  pub available : Bool
  pub note : Option Text
  pub states : Map ℕ
  pub established : List EstablishedRow
  pub listening : List Listener
  pub tcp_total : ℕ
  pub udp_total : ℕ
  pub established_total : ℕ
  pub findings : List OpenFinding

unfoldable pub open_answer : Text → Pod → ConnectionSummary → List ServiceIp → List Pod → OpenAnswer
unfolding service_by_ip pod_by_ip resolved_remote open_findings get txt
open_answer ns pod s services pods =
    let by_service = service_by_ip [] services in
    let by_pod = pod_by_ip [] pods in
    record {
      pod = pod.name;
      namespace = ns;
      available = s.available;
      note = s.note;
      states = s.states;
      established =
          map
            (λ (e : Established). record {
              established = e;
              resolved = resolved_remote by_service by_pod e.remote;
            })
            s.established;
      listening = s.listening;
      tcp_total = s.tcp_total;
      udp_total = s.udp_total;
      established_total = state_count (txt "ESTABLISHED") s;
      findings = open_findings by_service by_pod s;
    }

-- `get_pod` and `services_of` are methods of the client, `connections` one of the probe's client.
module _ (k : Lists) (get_pod : Text → Text → Result ClientError Pod)
    (services_of : Text → Result ClientError (List ServiceIp))
    (connections : Pod → Result Unavailable ConnectionSummary) (c : HubConfig) where
  -- `podArg(ctx, ns, args)`
  unfoldable pub pod_arg : Text → Option Text → Option Text → Result OpenError Pod
  unfolding resolve_workload pod_of
  pod_arg ns (some (b ∷ pod)) name = map_err not_read (get_pod ns (b ∷ pod))
  pod_arg ns _ (some (b ∷ name)) =
      map_err not_resolved (resolve_workload k ns (b ∷ name)) >>= pod_of
  pod_arg ns _ _ = err nothing_named

  unfoldable pub read_connections : Text → Pod → Result OpenError OpenAnswer
  unfolding open_answer
  read_connections ns pod = do
    s ← map_err not_answered (connections pod)
    services ← map_err not_read (services_of ns)
    pods ← map_err not_read (k.pods ns)
    ok (open_answer ns pod s services pods)

  -- `getOpenConnections(ctx, args)`
  unfoldable pub get_open_connections :
      Option Text → Option Text → Option Text → Result OpenError OpenAnswer
  unfolding ns_of pod_arg read_connections
  get_open_connections namespace pod_name name = do
    ns ← map_err no_namespace (ns_of c namespace)
    pod ← pod_arg ns pod_name name
    read_connections ns pod
