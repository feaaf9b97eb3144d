-- ===== src/Hub/Network.antt =====
-- src/hub/tools/network.ts: network policies, and how `describePolicy` describes one.
-- The objects of the Kubernetes API are records of the fields that the source reads.
pub mod Open
pub mod Asked
pub mod Private
pub mod Policies
pub mod Covered
pub mod Ranges
mod Tests
use kube_diagnostics_mcp.Common.{
  ℕ, Bool, true, false, not, ◌&&◌, ◌||◌, Option, none, some, List, [], ◌∷◌, ◌++◌, map, filter, any,
  Text, txt, Map, includes, is_some, or_else, if◌then◌else◌, print, Result, ok, err, ◌>>=◌, map_err,
}
use kube_diagnostics_mcp.Config.{HubConfig}
use kube_diagnostics_mcp.Hub.Model.{
  Lists, Pod, ResolvedWorkload, ResolveError, Origin, deployment, stateful_set, daemon_set, service,
  single_pod,
}
use kube_diagnostics_mcp.Hub.Model.Workload.{labels_match, resolve_workload}
use kube_diagnostics_mcp.Hub.Server.{ToolError, ns_of}
use kube_diagnostics_mcp.Json.{Value, str, obj, Fields, end, field, member}
use kube_diagnostics_mcp.Kube.{ClientError}
use kube_diagnostics_mcp.Strings.{join}

-- A port is a number or the name of one.
pub data PortRef : Type 0 where
  number : ℕ → PortRef
  named : Text → PortRef

pub record PolicyPort : Type 0 where
  pub port : Option PortRef
  pub protocol : Option Text

pub record IpBlock : Type 0 where
  pub cidr : Option Text
  pub except : Option (List Text)

pub record Selector : Type 0 where
  pub match_labels : Option (Map Text)

pub record Peer : Type 0 where
  pub pod_selector : Option Selector
  pub namespace_selector : Option Selector
  pub ip_block : Option IpBlock

-- An ingress or an egress rule; the peers of the first are `_from`, of the second `to`.
pub record Rule : Type 0 where
  pub peers : Option (List Peer)
  pub ports : Option (List PolicyPort)

pub record PolicySpec : Type 0 where
  pub pod_selector : Option Selector
  pub policy_types : Option (List Text)
  pub ingress : Option (List Rule)
  pub egress : Option (List Rule)

pub record Policy : Type 0 where
  pub name : Option Text
  pub spec : Option PolicySpec

pub record RuleRow : Type 0 where
  pub peers : Text
  pub ports : List Text

-- `applies_to` is none for "ALL pods in namespace".
pub record PolicyRow : Type 0 where
  pub name : Option Text
  pub applies_to : Option (Map Text)
  pub policy_types : List Text
  pub ingress : Option (List RuleRow)
  pub egress : Option (List RuleRow)
  pub is_default_deny : Bool

abbrev pub has_no_keys : Map Text → Bool
has_no_keys [] = true
has_no_keys (e ∷ m) = false

abbrev pub of_spec : {A : Type 0} → (PolicySpec → Option A) → Policy → Option A
of_spec f p = elim p.spec [ none ↦ none | some s ↦ f s ]

-- `x?.matchLabels ?? {}`
abbrev pub labels_of : Option Selector → Map Text
labels_of none = []
labels_of (some s) = or_else s.match_labels []

abbrev pub selector_of : Policy → Option Selector
selector_of p = of_spec (λ s. s.pod_selector) p

-- `p.spec?.policyTypes ?? ["Ingress"]`
unfoldable pub types_of : Policy → List Text
unfolding txt
types_of p = or_else (of_spec (λ s. s.policy_types) p) (txt "Ingress" ∷ [])

-- `types.includes(type)`
unfoldable pub has_type : Text → Policy → Bool
unfolding types_of includes
has_type type p = includes type (types_of p)

abbrev excepted : Option (List Text) → Text
unfolding join txt
excepted none = []
excepted (some []) = []
excepted (some (e ∷ l)) = txt " except " ++ join (txt ",") (e ∷ l)

-- A template shows `undefined` for a missing value.
abbrev shown : Option Text → Text
unfolding txt
shown o = or_else o (txt "undefined")

abbrev port_text : PortRef → Text
unfolding print
port_text (number n) = print n
port_text (named s) = s

unfoldable pub port_row : PolicyPort → Text
unfolding txt print
port_row p =
    elim p.port [ none ↦ txt "*" | some r ↦ port_text r ]
    ++ (txt "/" ++ or_else p.protocol (txt "TCP"))

-- `a || "ANY"`
abbrev or_any : Text → Text
unfolding txt
or_any [] = txt "ANY"
or_any (c ∷ s) = c ∷ s

abbrev pub rules_of : Option (List Rule) → List Rule
rules_of rules = or_else rules []

abbrev pub no_rules : Option (List Rule) → Bool
no_rules none = true
no_rules (some []) = true
no_rules (some (r ∷ l)) = false

-- `isDefaultDeny` of `describePolicy(p)`
unfoldable pub is_default_deny : Policy → Bool
unfolding has_type txt
is_default_deny p =
    is_some (selector_of p)
    && (has_no_keys (labels_of (selector_of p))
        && (no_rules (of_spec (λ s. s.ingress) p) && has_type (txt "Ingress") p))

-- `appliesTo` of `describePolicy(p)`
abbrev applies_to : Map Text → Option (Map Text)
applies_to [] = none
applies_to (e ∷ m) = some (e ∷ m)

-- `stringify` is `JSON.stringify` of an object of strings.
module _ (stringify : Map Text → Text) where
  unfoldable pub peer_row : Peer → Text
  unfolding txt join
  peer_row x = elim x.ip_block [
    | some b ↦ txt "cidr " ++ (shown b.cidr ++ excepted b.except)
    | none ↦
        elim x.namespace_selector [
          | none ↦ txt "same-ns"
          | some s ↦ txt "ns" ++ stringify (or_else s.match_labels [])
        ]
        ++ (txt " pods" ++ stringify (labels_of x.pod_selector))
  ]

  unfoldable pub rule_row : Rule → RuleRow
  unfolding peer_row port_row join txt
  rule_row r = record {
    peers = or_any (join (txt " | ") (map peer_row (or_else r.peers [])));
    ports = map port_row (or_else r.ports []);
  }

  -- `describePolicy(p)`
  unfoldable pub describe_policy : Policy → PolicyRow
  unfolding types_of has_type rule_row is_default_deny txt
  describe_policy p = record {
    name = p.name;
    applies_to = applies_to (labels_of (selector_of p));
    policy_types = types_of p;
    ingress =
        if has_type (txt "Ingress") p
        then some (map rule_row (rules_of (of_spec (λ s. s.ingress) p)))
        else none;
    egress =
        if has_type (txt "Egress") p
        then some (map rule_row (rules_of (of_spec (λ s. s.egress) p)))
        else none;
    is_default_deny = is_default_deny p;
  }
