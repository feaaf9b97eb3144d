-- ===== src/Hub/Network/Covered.antt =====
-- src/hub/tools/network.ts: which policies select a workload, and when the tool finds nothing.
use kube_diagnostics_mcp.Common.{
  ℕ, ◌≡◌, refl, sym, ◌∙◌, ◌↔◌, Bool, true, false, ◌&&◌, ◌||◌, Option, none, some, List, [], ◌∷◌,
  ◌++◌, Text, txt, Map, get, or_else, is_some, includes_iff, any, any_iff, any-filter, Any, Any-map,
  All, if◌then◌else◌, Result, ok, and-true,
}
use kube_diagnostics_mcp.Config.{HubConfig}
use kube_diagnostics_mcp.Hub.Model.{Lists, ResolvedWorkload}
use kube_diagnostics_mcp.Hub.Model.Labels.{all_iff}
use kube_diagnostics_mcp.Hub.Model.Workload.{labels_match, resolve_workload}
use kube_diagnostics_mcp.Hub.Network.{
  Rule, Selector, Policy, has_no_keys, of_spec, labels_of, selector_of, types_of, has_type,
  rules_of, no_rules, is_default_deny,
}
use kube_diagnostics_mcp.Hub.Network.Policies.{
  PolicyAnswer, PolicyFinding, selects, applying, is_covered, workload_labels, policy_findings,
  target_findings, no_default_deny, open_egress, full_answer, with_target, get_network_policies,
}
use kube_diagnostics_mcp.Hub.Server.{ns_of}
use kube_diagnostics_mcp.Kube.{ClientError}

-- A policy selects the pods that have each of its labels; so one without labels selects them all.
abbrev pub Selects : Option (Map Text) → Policy → Type 0
Selects labels p = All (λ e. get e.0 (or_else labels []) ≡ some e.1) (labels_of (selector_of p))

abbrev pub IsOfType : Text → Policy → Type 0
IsOfType type p = Any (λ t. t ≡ type) (types_of p)

-- A policy of the ingress type with a selector that is empty, and no rule.
pub record IsDefaultDeny (p : Policy) : Type 0 where
  pub selector : is_some (selector_of p) ≡ true
  pub all_pods : labels_of (selector_of p) ≡ []
  pub no_ingress : rules_of (of_spec (λ s. s.ingress) p) ≡ []
  pub type : IsOfType (txt "Ingress") p

selects_labels :
    (labels m : Option (Map Text))
    → ((has_no_keys (or_else m []) || labels_match labels m) ≡ true)
      ↔ All (λ e. get e.0 (or_else labels []) ≡ some e.1) (or_else m [])
unfolding labels_match get
selects_labels labels none = (λ h. tt, λ h. refl)
selects_labels labels (some []) = (λ h. tt, λ h. refl)
selects_labels none (some (e ∷ m)) = (λ h. cc, λ h. cc)
selects_labels (some l) (some (e ∷ m)) = all_iff l (e ∷ m)

selects_by :
    (labels : Option (Map Text)) (o : Option Selector)
    → ((has_no_keys (labels_of o)
          || labels_match labels (elim o [ none ↦ none | some s ↦ s.match_labels ]))
        ≡ true)
      ↔ All (λ e. get e.0 (or_else labels []) ≡ some e.1) (labels_of o)
selects_by labels none = (λ h. tt, λ h. refl)
selects_by labels (some s) = selects_labels labels s.match_labels

selects_iff :
    (labels : Option (Map Text)) (p : Policy) → (selects labels p ≡ true) ↔ Selects labels p
unfolding selects
selects_iff labels p = selects_by labels (selector_of p)

has_type_iff : (type : Text) (p : Policy) → (has_type type p ≡ true) ↔ IsOfType type p
unfolding has_type
has_type_iff type p = includes_iff type (types_of p)

no_keys_iff : (m : Map Text) → (has_no_keys m ≡ true) ↔ (m ≡ [])
no_keys_iff [] = (λ h. refl, λ h. refl)
no_keys_iff (e ∷ m) = (λ h. cc, λ h. cc)

no_rules_iff : (o : Option (List Rule)) → (no_rules o ≡ true) ↔ (rules_of o ≡ [])
no_rules_iff none = (λ h. refl, λ h. refl)
no_rules_iff (some []) = (λ h. refl, λ h. refl)
no_rules_iff (some (r ∷ l)) = (λ h. cc, λ h. cc)

is_default_deny_iff : (p : Policy) → (is_default_deny p ≡ true) ↔ IsDefaultDeny p
unfolding is_default_deny
is_default_deny_iff p = (
  λ h.
      let (s, h1) = and-true _ _ h in
      let (a, h2) = and-true _ _ h1 in
      let (n, t) = and-true _ _ h2 in
      record {
        selector = s;
        all_pods = (no_keys_iff _).0 a;
        no_ingress = (no_rules_iff (of_spec (λ s. s.ingress) p)).0 n;
        type = (has_type_iff _ p).0 t;
      },
  λ d.
      let a = (no_keys_iff _).1 d.all_pods in
      let n = (no_rules_iff (of_spec (λ s. s.ingress) p)).1 d.no_ingress in
      let t = (has_type_iff _ p).1 d.type in rw (d.selector, a, n, t) refl,
)

-- Some policy of the type selects the pods.
abbrev pub Restricts : Text → Option (Map Text) → Policy → Type 0
Restricts type labels p = Selects labels p × IsOfType type p

is_covered_iff :
    (type : Text) (labels : Option (Map Text)) (policies : List Policy)
    → (is_covered type labels policies ≡ true) ↔ Any (Restricts type labels) policies
unfolding is_covered applying
is_covered_iff type labels policies =
    let found = any_iff (λ p. selects labels p && has_type type p) both_iff policies in
    (
      λ h. found.0 (sym (any-filter (selects labels) (has_type type) policies) ∙ h),
      λ h. any-filter (selects labels) (has_type type) policies ∙ found.1 h,
    )
  where
    both_iff :
        (p : Policy) → ((selects labels p && has_type type p) ≡ true) ↔ Restricts type labels p
    both_iff p = (
      λ h.
          let (s, t) = and-true (selects labels p) (has_type type p) h in
          ((selects_iff labels p).0 s, (has_type_iff type p).0 t),
      λ h. rw ((selects_iff labels p).1 h.0, (has_type_iff type p).1 h.1) refl,
    )

-- A policy that denies by default restricts every workload's ingress.
IsDefaultDeny-Restricts :
    (labels : Option (Map Text)) (p : Policy) → IsDefaultDeny p → Restricts (txt "Ingress") labels p
IsDefaultDeny-Restricts labels p d = (rw d.all_pods tt, d.type)

IsDefaultDeny-covered :
    (labels : Option (Map Text)) (policies : List Policy)
    → any is_default_deny policies ≡ true
    → is_covered (txt "Ingress") labels policies ≡ true
IsDefaultDeny-covered labels policies h = (is_covered_iff (txt "Ingress") labels policies).1 (
    Any-map (IsDefaultDeny-Restricts labels) policies
      ((any_iff is_default_deny is_default_deny_iff policies).0 h))

if_none : (b : Bool) (f : PolicyFinding) → ((if b then [] else f ∷ []) ≡ []) ↔ (b ≡ true)
if_none true f = (λ h. refl, λ h. refl)
if_none false f = (λ h. cc, λ h. cc)

policy_findings-none :
    (ns : Text) (policies : List Policy)
    → (policy_findings ns policies ≡ []) ↔ (any is_default_deny policies ≡ true)
unfolding policy_findings any
policy_findings-none ns [] = (λ h. cc, λ h. cc)
policy_findings-none ns (p ∷ ps) = if_none (any is_default_deny (p ∷ ps)) no_default_deny

-- With a policy that denies by default, only an open egress is left to find.
findings-none :
    (ns : Text) (policies : List Policy) (w : ResolvedWorkload)
    → (policy_findings ns policies ++ target_findings policies w ≡ []) ↔ (
        (any is_default_deny policies ≡ true)
        × (is_covered (txt "Egress") (workload_labels w) policies ≡ true))
unfolding target_findings
findings-none ns policies w = (
  λ h.
      let (none_here, h1) = append-empty _ _ h in
      let denies = (policy_findings-none ns policies).0 none_here in
      let (_, egress) = append-empty _ _ h1 in (denies, (if_none _ (open_egress w.name)).0 egress),
  λ h.
      let found = (policy_findings-none ns policies).1 h.0 in
      let ingress = IsDefaultDeny-covered (workload_labels w) policies h.0 in
      rw (found, ingress, h.1) refl,
)
  where
    append-empty : (l m : List PolicyFinding) → l ++ m ≡ [] → (l ≡ []) × (m ≡ [])
    append-empty [] m h = (refl, h)
    append-empty (f ∷ l) m h = cc

module _ (stringify : Map Text → Text) (k : Lists)
    (list_policies : Text → Result ClientError (List Policy)) (c : HubConfig) where
  answered :
      (namespace : Option Text) (ns : Text) (b : ℕ) (name : Text) (policies : List Policy)
      (w : ResolvedWorkload)
      → ns_of c namespace ≡ ok ns
      → list_policies ns ≡ ok policies
      → resolve_workload k ns (b ∷ name) ≡ ok w
      → get_network_policies stringify k list_policies c namespace (some (b ∷ name))
        ≡ ok (full_answer stringify k list_policies c ns policies w)
  unfolding get_network_policies with_target
  answered namespace ns b name policies w n l r = rw (n, l, r) refl

  -- Asked about a workload that there is, the tool answers; and it finds nothing exactly if a policy
  -- of the namespace denies ingress by default and a policy of the egress type selects the workload.
  pub get_network_policies_clean :
      (namespace : Option Text) (ns : Text) (b : ℕ) (name : Text) (policies : List Policy)
      (w : ResolvedWorkload)
      → ns_of c namespace ≡ ok ns
      → list_policies ns ≡ ok policies
      → resolve_workload k ns (b ∷ name) ≡ ok w
      → (a : PolicyAnswer) × (get_network_policies stringify k list_policies c namespace
            (some (b ∷ name))
          ≡ ok a)
        × ((a.findings ≡ []) ↔ (
            Any IsDefaultDeny policies
            × Any (Restricts (txt "Egress") (workload_labels w)) policies))
  unfolding full_answer
  get_network_policies_clean namespace ns b name policies w n l r =
      let clean = findings-none ns policies w in
      let denies = any_iff is_default_deny is_default_deny_iff policies in
      let egress = is_covered_iff (txt "Egress") (workload_labels w) policies in
      (
        _,
        answered namespace ns b name policies w n l r,
        (
          λ h. let (d, e) = clean.0 h in (denies.0 d, egress.0 e),
          λ h. clean.1 (denies.1 h.0, egress.1 h.1),
        ),
      )
