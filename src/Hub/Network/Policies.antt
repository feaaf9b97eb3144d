-- ===== src/Hub/Network/Policies.antt =====
-- src/hub/tools/network.ts: `getNetworkPolicies`, which policies select a workload, and what it finds.
use kube_diagnostics_mcp.Common.{
  Bool, ◌||◌, Option, none, some, List, [], ◌∷◌, ◌++◌, map, filter, any, Text, txt, Map,
  if◌then◌else◌, Result, ok, ◌>>=◌, map_err,
}
use kube_diagnostics_mcp.Config.{HubConfig}
use kube_diagnostics_mcp.Hub.Model.{
  Lists, Pod, ResolvedWorkload, ResolveError, Origin, deployment, stateful_set, daemon_set, service,
  single_pod,
}
use kube_diagnostics_mcp.Hub.Model.Workload.{labels_match, resolve_workload}
use kube_diagnostics_mcp.Hub.Server.{ToolError, ns_of}
use kube_diagnostics_mcp.Json.{Value, str, obj, Fields, end, field, member}
use kube_diagnostics_mcp.Kube.{ClientError}
use kube_diagnostics_mcp.Hub.Network.{
  Policy, PolicyRow, has_no_keys, labels_of, selector_of, has_type, is_default_deny,
  describe_policy,
}

-- The policies that select a pod of these labels.
unfoldable pub selects : Option (Map Text) → Policy → Bool
unfolding labels_match
selects labels p =
    has_no_keys (labels_of (selector_of p))
    || labels_match labels (elim (selector_of p) [ none ↦ none | some s ↦ s.match_labels ])

unfoldable pub applying : Option (Map Text) → List Policy → List Policy
unfolding selects filter
applying labels policies = filter (selects labels) policies

-- `applying.some((p) => types.includes(type))`
unfoldable pub is_covered : Text → Option (Map Text) → List Policy → Bool
unfolding applying has_type any
is_covered type labels policies = any (has_type type) (applying labels policies)

-- The labels are strings.
abbrev text_fields : Fields → Map Text
text_fields end = []
text_fields (field k (str s) fs) = (k, s) ∷ text_fields fs
text_fields (field k v fs) = text_fields fs

abbrev meta_labels : Option Value → Option (Map Text)
unfolding member txt
meta_labels none = none
meta_labels (some v) = elim (member (txt "labels") v) [ obj fs ↦ some (text_fields fs) | _ ↦ none ]

abbrev first_labels : List Pod → Option (Map Text)
first_labels [] = none
first_labels (p ∷ ps) = p.labels

-- `w.templateMeta?.labels ?? w.pods[0]?.metadata?.labels`
unfoldable pub workload_labels : ResolvedWorkload → Option (Map Text)
unfolding member txt
workload_labels w = elim (meta_labels w.template_meta) [
  | some m ↦ some m
  | none ↦ first_labels w.pods
]

pub record PolicyTarget : Type 0 where
  pub workload : Text
  pub labels : Option (Map Text)
  pub policies_applying : List (Option Text)
  pub ingress_restricted : Bool
  pub egress_restricted : Bool

abbrev pub kind_text : Origin → Text
unfolding txt
kind_text (deployment c) = txt "Deployment"
kind_text (stateful_set c) = txt "StatefulSet"
kind_text (daemon_set c) = txt "DaemonSet"
kind_text (service s) = txt "Service"
kind_text single_pod = txt "Pod"

unfoldable pub target_of : List Policy → ResolvedWorkload → PolicyTarget
unfolding workload_labels applying is_covered txt
target_of policies w =
    let labels = workload_labels w in
    record {
      workload = kind_text w.origin ++ (txt "/" ++ w.name);
      labels = labels;
      policies_applying = map (λ (p : Policy). p.name) (applying labels policies);
      ingress_restricted = is_covered (txt "Ingress") labels policies;
      egress_restricted = is_covered (txt "Egress") labels policies;
    }

-- A finding, by its message.
pub data PolicyFinding : Type 0 where
  no_policy : Text → PolicyFinding
  no_default_deny : PolicyFinding
  open_ingress open_egress : Text → PolicyFinding

unfoldable pub policy_findings : Text → List Policy → List PolicyFinding
unfolding is_default_deny any
policy_findings ns [] = no_policy ns ∷ []
policy_findings ns (p ∷ ps) = if any is_default_deny (p ∷ ps) then [] else no_default_deny ∷ []

unfoldable pub target_findings : List Policy → ResolvedWorkload → List PolicyFinding
unfolding workload_labels is_covered txt
target_findings policies w =
    let labels = workload_labels w in
    (if is_covered (txt "Ingress") labels policies then [] else open_ingress w.name ∷ [])
    ++ (if is_covered (txt "Egress") labels policies then [] else open_egress w.name ∷ [])

pub record PolicyAnswer : Type 0 where
  pub namespace : Text
  pub policies : List PolicyRow
  pub target : Option PolicyTarget
  pub findings : List PolicyFinding

pub data PolicyError : Type 0 where
  no_namespace : ToolError → PolicyError
  not_listed : ClientError → PolicyError
  not_resolved : ResolveError → PolicyError

abbrev pub PolicyResult : Type 0
PolicyResult = Result PolicyError PolicyAnswer

-- `list_policies` is `listNetworkPolicies` of the client.
module _ (stringify : Map Text → Text) (k : Lists)
    (list_policies : Text → Result ClientError (List Policy)) (c : HubConfig) where
  unfoldable pub full_answer : Text → List Policy → ResolvedWorkload → PolicyAnswer
  unfolding describe_policy policy_findings target_findings target_of
  full_answer ns policies w = record {
    namespace = ns;
    policies = map (describe_policy stringify) policies;
    target = some (target_of policies w);
    findings = policy_findings ns policies ++ target_findings policies w;
  }

  unfoldable pub with_target : Text → List Policy → Option Text → PolicyResult
  unfolding describe_policy policy_findings full_answer resolve_workload
  with_target ns policies (some (b ∷ name)) = do
    w ← map_err not_resolved (resolve_workload k ns (b ∷ name))
    ok (full_answer ns policies w)
  with_target ns policies _ = ok (record {
    namespace = ns;
    policies = map (describe_policy stringify) policies;
    target = none;
    findings = policy_findings ns policies;
  })

  -- `getNetworkPolicies(ctx, args)`
  unfoldable pub get_network_policies : Option Text → Option Text → PolicyResult
  unfolding ns_of with_target
  get_network_policies namespace name = do
    ns ← map_err no_namespace (ns_of c namespace)
    policies ← map_err not_listed (list_policies ns)
    with_target ns policies name
