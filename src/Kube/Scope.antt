-- ===== src/Kube/Scope.antt =====
-- src/k8s/client.ts: what the methods of the client can ask the cluster for.
use mathlib.Core.Path.{subst}
use kube_diagnostics_mcp.Common.{
  ◌≡◌, refl, ◌⊎◌, inl, inr, Bool, true, false, Option, none, some, List, [], ◌∷◌, Text, txt,
  includes, All, Result, ok, err, >>=-steps, ok-injective,
}
use kube_diagnostics_mcp.Guard.{
  GuardError, selector_class, assert_name, assert_container_name, assert_label_selector,
}
use kube_diagnostics_mcp.Guard.Names.{IsDnsLabel, class_checks_iff}
use kube_diagnostics_mcp.Guard.Safe.{
  IsStep, accepted-IsStep, assert_namespace_allowed_iff, assert_namespace_allowed-same,
  assert_label_selector-same,
}
use kube_diagnostics_mcp.Json.{Value}
use kube_diagnostics_mcp.Kube.{
  Resource, pods, deployments, namespaces, nodes, cluster_roles, cluster_role_bindings, ListOpts,
  LogOpts, Api, get_version, list_cluster, list_everywhere, list_namespaced, read_namespaced,
  read_log, get_pod_metrics, get_node_metrics, Kube, Run,
}
use kube_diagnostics_mcp.Kube.Client.{
  call, ns, checked, list_args, space_args, across_namespaces, per_namespace, one, across_list,
}
use kube_diagnostics_mcp.Kube.Methods.{read_args, log_args, pod_metrics_args}

-- The kinds of which a list belongs to the cluster and not to a namespace.
unfoldable pub is_cluster_kind : Resource → Bool
is_cluster_kind namespaces = true
is_cluster_kind nodes = true
is_cluster_kind cluster_roles = true
is_cluster_kind cluster_role_bindings = true
is_cluster_kind _ = false

-- The kinds that are listed in all namespaces at once.
unfoldable pub is_everywhere_kind : Resource → Bool
is_everywhere_kind pods = true
is_everywhere_kind deployments = true
is_everywhere_kind _ = false

-- A DNS label that the allow-list, if it is not empty, names.
abbrev pub IsAllowed : Kube → Text → Type 0
IsAllowed k s = IsDnsLabel s × ((k.namespaces ≡ []) ⊎ (includes s k.namespaces ≡ true))

abbrev pub OptionAll : (Text → Type 0) → Option Text → Type 0
OptionAll P none = Unit {0}
OptionAll P (some s) = P s

-- The reach of a request: one namespace that is allowed, objects named by one plain step; the
-- cluster for its version, the metrics of its nodes and the kinds that have no namespace, and for
-- pods and deployments where there is no allow-list.
unfoldable pub IsScoped : Kube → Api → Type 0
IsScoped k get_version = Unit {0}
IsScoped k (list_cluster kind) = is_cluster_kind kind ≡ true
IsScoped k (list_everywhere kind labels fields) =
    (k.namespaces ≡ []) × (is_everywhere_kind kind ≡ true)
IsScoped k (list_namespaced kind space opts) =
    IsAllowed k space × OptionAll (λ s. All (λ c. selector_class c ≡ true) s) opts.label_selector
IsScoped k (read_namespaced kind space name) = IsAllowed k space × IsStep name
IsScoped k (read_log space pod opts) =
    IsAllowed k space × IsStep pod × OptionAll IsStep opts.container
IsScoped k (get_pod_metrics space) = IsAllowed k space
IsScoped k get_node_metrics = Unit {0}

ns-IsAllowed : (k : Kube) (s t : Text) → ns k s ≡ ok t → IsAllowed k t
ns-IsAllowed k s t h =
    let (e, g) = assert_namespace_allowed-same s t k.namespaces h in
    subst (IsAllowed k) e ((assert_namespace_allowed_iff s k.namespaces).0 g)

selector_All : (s t : Text) → assert_label_selector s ≡ ok t → All (λ c. selector_class c ≡ true) t
selector_All s t h =
    let (e, g) = assert_label_selector-same s t h in
    subst (λ x. All (λ c. selector_class c ≡ true) x) e ((class_checks_iff s).0.0 g).0

checked-All :
    (P : Text → Type 0) (check : Text → Result GuardError Text) (o t : Option Text)
    → ((s u : Text) → check s ≡ ok u → P u)
    → checked check o ≡ ok t
    → OptionAll P t
unfolding checked
checked-All P check none t f h = rw (ok-injective h) tt
checked-All P check (some []) t f h = rw (ok-injective h) tt
checked-All P check (some (c ∷ s)) t f h =
    >>=-steps (check (c ∷ s)) _ h λ u e g. rw (ok-injective g) (f (c ∷ s) u e)

module _ (k : Kube) where
  unfoldable pub Good : Result GuardError Api → Type 0
  Good r = (api : Api) → r ≡ ok api → IsScoped k api

  pub list_args-Good :
      (kind : Resource) (space : Text) (opts : ListOpts) → Good (list_args k kind space opts)
  unfolding list_args IsScoped Good
  list_args-Good kind space opts api h = >>=-steps (ns k space) _ h λ s e0 h0.
      >>=-steps (checked assert_label_selector opts.label_selector) _ h0 λ l e1 h1.
        rw (ok-injective h1) (
          ns-IsAllowed k space s e0,
          checked-All (λ s. All (λ c. selector_class c ≡ true) s) assert_label_selector
              opts.label_selector l selector_All e1,
        )

  pub space_args-Good : (kind : Resource) (space : Text) → Good (space_args k kind space)
  unfolding space_args IsScoped Good
  space_args-Good kind space api h =
      >>=-steps (ns k space) _ h λ s e0 h0. rw (ok-injective h0) (ns-IsAllowed k space s e0, tt)

  pub call-Scoped :
      (what : Text) (f : Value → Value) (r : Result GuardError Api)
      → Good r
      → All (IsScoped k) (call k what f r).requests
  unfolding call Good
  call-Scoped what f (err e) g = tt
  call-Scoped what f (ok api) g = (g api refl, tt)

  pub read_args-Good :
      (kind : Resource) (space name what : Text) → Good (read_args k kind space name what)
  unfolding IsScoped Good
  read_args-Good kind space name what api h = >>=-steps (ns k space) _ h λ s e0 h0.
      >>=-steps (assert_name name what) _ h0 λ n e1 h1.
        rw (ok-injective h1)
          (ns-IsAllowed k space s e0, accepted-IsStep name n what (inr (inr (inl e1))))

  container_IsStep : (s t : Text) → assert_container_name s ≡ ok t → IsStep t
  container_IsStep s t h = accepted-IsStep s t [] (inr (inl h))

  pub log_args-Good : (space pod : Text) (opts : LogOpts) → Good (log_args k space pod opts)
  unfolding log_args IsScoped Good txt
  log_args-Good space pod opts api h = >>=-steps (ns k space) _ h λ s e0 h0.
      >>=-steps (assert_name pod (txt "pod name")) _ h0 λ n e1 h1.
        >>=-steps (checked assert_container_name opts.container) _ h1 λ t e2 h2.
          rw (ok-injective h2) (
            ns-IsAllowed k space s e0,
            accepted-IsStep pod n (txt "pod name") (inr (inr (inl e1))),
            checked-All IsStep assert_container_name opts.container t container_IsStep e2,
          )

  pub pod_metrics_args-Good : (space : Text) → Good (pod_metrics_args k space)
  unfolding IsScoped Good
  pod_metrics_args-Good space api h =
      >>=-steps (ns k space) _ h λ s e0 h0. rw (ok-injective h0) (ns-IsAllowed k space s e0)

  one-Scoped :
      (what : Text) (r : Result GuardError Api) (rest : Run)
      → Good r
      → All (IsScoped k) rest.requests
      → All (IsScoped k) (one k what r rest).requests
  unfolding one Good
  one-Scoped what (err e) rest g h = tt
  one-Scoped what (ok api) rest g h = (g api refl, h)

  per_namespace-Scoped :
      (what : Text) (args : Text → Result GuardError Api)
      → ((s : Text) → Good (args s))
      → (spaces : List Text) → All (IsScoped k) (per_namespace k what args spaces).requests
  unfolding per_namespace
  per_namespace-Scoped what args g [] = tt
  per_namespace-Scoped what args g (s ∷ spaces) =
      one-Scoped what (args s) (per_namespace k what args spaces) (g s)
        (per_namespace-Scoped what args g spaces)

  module _ (what : Text) (all : Api) (args : Text → Result GuardError Api) where
    across_list-Scoped :
        (l : List Text)
        → k.namespaces ≡ l
        → ((k.namespaces ≡ []) → IsScoped k all)
        → ((s : Text) → Good (args s))
        → All (IsScoped k) (across_list k what all args l).requests
    unfolding across_list call
    across_list-Scoped [] e f g = (f e, tt)
    across_list-Scoped (a ∷ l) e f g = per_namespace-Scoped what args g (a ∷ l)

    pub across-Scoped :
        ((k.namespaces ≡ []) → IsScoped k all)
        → ((s : Text) → Good (args s))
        → All (IsScoped k) (across_namespaces k what all args).requests
    unfolding across_namespaces
    across-Scoped f g = across_list-Scoped k.namespaces refl f g
