-- ===== src/Hub/Model/Resolve.antt =====
-- src/hub/model.ts: which pods a resolved workload has.
use mathlib.Core.Path.{subst}
use kube_diagnostics_mcp.Common.{
  ◌≡◌, refl, sym, ◌↔◌, inl, inr, true, Bool, Option, none, some, List, [], ◌∷◌, find, find-true,
  Any, Any-find, filter, Text, txt, Result, ok, err, ◌>>=◌, map_err, >>=-steps, ok-injective,
  map_err-eq-ok,
}
use kube_diagnostics_mcp.Guard.{assert_name}
use kube_diagnostics_mcp.Guard.Safe.{IsStep, accepted-IsStep, returns_its_argument}
use kube_diagnostics_mcp.Hub.Model.{
  Pod, Controller, DaemonSet, Service, Lists, single_pod, ResolvedWorkload, service, deployment,
  stateful_set, daemon_set, ResolveError, bad_name, client_error,
}
use kube_diagnostics_mcp.Hub.Model.Labels.{Selects, holds_text_iff, labels_match_iff}
use kube_diagnostics_mcp.Hub.Model.Workload.{
  is_named, pods_of, of_controller, of_daemon_set, of_pods, Resolved, listed_by, pick_pod,
  pick_service, pick_daemon_set, pick_stateful_set, pick_deployment, resolve_workload, known_names,
}
use kube_diagnostics_mcp.Kube.{ClientError}

wrong :
    {C : Type 0} {e : ResolveError} {w : ResolvedWorkload} → ◌≡◌ {A = Resolved} (err e) (ok w) → C
wrong h = cc

-- An object of the namespace's lists with this name gave the workload its origin and its selector.
pub data HasSource (k : Lists) (namespace name : Text) (w : ResolvedWorkload) : Type 0 where
  from_deployment :
      {ds : List Controller}
      → k.deployments namespace ≡ ok ds
      → Any
          (λ (d : Controller).
            (d.name ≡ some name) × (w.origin ≡ deployment d) × (w.selector ≡ d.match_labels))
          ds
      → HasSource k namespace name w
  from_stateful_set :
      {ss : List Controller}
      → k.stateful_sets namespace ≡ ok ss
      → Any
          (λ (s : Controller).
            (s.name ≡ some name) × (w.origin ≡ stateful_set s) × (w.selector ≡ s.match_labels))
          ss
      → HasSource k namespace name w
  from_daemon_set :
      {es : List DaemonSet}
      → k.daemon_sets namespace ≡ ok es
      → Any
          (λ (e : DaemonSet).
            (e.name ≡ some name) × (w.origin ≡ daemon_set e) × (w.selector ≡ e.match_labels))
          es
      → HasSource k namespace name w
  from_service :
      {vs : List Service}
      → k.services namespace ≡ ok vs
      → Any
          (λ (v : Service).
            (v.name ≡ some name) × (w.origin ≡ service v) × (w.selector ≡ v.selector))
          vs
      → HasSource k namespace name w

-- The pods of a workload: those that belong to the selector of an object of that name, or the one
-- pod of that name.
pub data HasPods (k : Lists) (namespace name : Text) (pods : List Pod) (w : ResolvedWorkload)
    : Type 0 where
  by_selector :
      {belongs : Pod → Bool}
      → HasSource k namespace name w
      → ((p : Pod) → (belongs p ≡ true) ↔ Selects w.selector p.labels)
      → w.pods ≡ filter belongs pods
      → HasPods k namespace name pods w
  by_name :
      {p : Pod}
      → w.origin ≡ single_pod
      → Any (λ (q : Pod). (q ≡ p) × (q.name ≡ some name)) pods
      → w.pods ≡ p ∷ []
      → HasPods k namespace name pods w

module _ (k : Lists) (namespace name : Text) (pods : List Pod) where
  unfoldable Good : Resolved → Type 0
  Good r =
      (w : ResolvedWorkload)
      → r ≡ ok w
      → (w.name ≡ name) × (w.namespace ≡ namespace) × HasPods k namespace name pods w

  Good-ok :
      (w : ResolvedWorkload)
      → w.name ≡ name
      → w.namespace ≡ namespace
      → HasPods k namespace name pods w
      → Good (ok w)
  unfolding Good
  Good-ok w n s h v e =
      subst (λ x. (x.name ≡ name) × (x.namespace ≡ namespace) × HasPods k namespace name pods x)
        (sym (ok-injective e)) (n, s, h)

  Good-listed :
      {A : Type 0} (r : Result ClientError A) (f : A → Resolved)
      → ((a : A) → r ≡ ok a → Good (f a))
      → Good (listed_by r >>= f)
  unfolding Good
  Good-listed (ok a) f g w e = g a refl w e
  Good-listed (err x) f g w e = cc

  -- The source's test of the pods, for a workload that took its selector from a source.
  Good-selected :
      (w : ResolvedWorkload)
      → w.name ≡ name
      → w.namespace ≡ namespace
      → HasSource k namespace name w
      → w.pods ≡ pods_of w.selector pods
      → Good (ok w)
  unfolding pods_of Selects
  Good-selected w n s source e =
      Good-ok w n s (by_selector source (λ p. labels_match_iff p.labels w.selector) e)

  -- An object that `find` gave has the name.
  named :
      {A : Type 0} (name_of : A → Option Text) (l : List A) {a : A}
      → find (λ x. is_named name (name_of x)) l ≡ some a
      → name_of a ≡ some name
  named name_of l {a} h =
      (holds_text_iff (name_of a) name).0 (find-true (λ x. is_named name (name_of x)) l h)

  pick_pod-Good :
      (known : List Text) (o : Option Pod)
      → find (λ (q : Pod). is_named name q.name) pods ≡ o
      → Good (pick_pod k namespace name pods known o)
  unfolding pick_pod of_pods Good
  pick_pod-Good known none e = λ w h. wrong h
  pick_pod-Good known (some p) e =
      Good-ok (of_pods namespace name single_pod none (p ∷ [])) refl refl
        (by_name refl (Any-find _ _ pods e (refl, named (λ (q : Pod). q.name) pods e)) refl)

  pick_service-Good :
      (known : List Text) (vs : List Service)
      → k.services namespace ≡ ok vs
      → (o : Option Service) → find (λ (v : Service). is_named name v.name) vs ≡ o
      → Good (pick_service k namespace name pods known o)
  unfolding pick_service of_pods
  pick_service-Good known vs l (some v) e =
      Good-selected (of_pods namespace name (service v) v.selector (pods_of v.selector pods)) refl
        refl (from_service l (Any-find _ _ vs e (named (λ (v : Service). v.name) vs e, refl, refl)))
        refl
  pick_service-Good known vs l none e =
      pick_pod-Good known (find (λ (q : Pod). is_named name q.name) pods) refl

  pick_daemon_set-Good :
      (ds ss : List Controller) (es : List DaemonSet)
      → k.daemon_sets namespace ≡ ok es
      → (o : Option DaemonSet) → find (λ (e : DaemonSet). is_named name e.name) es ≡ o
      → Good (pick_daemon_set k namespace name pods ds ss es o)
  unfolding pick_daemon_set of_daemon_set
  pick_daemon_set-Good ds ss es l (some d) e =
      Good-selected (of_daemon_set namespace name pods d) refl refl
        (from_daemon_set l (Any-find _ _ es e (named (λ (d : DaemonSet). d.name) es e, refl, refl)))
        refl
  pick_daemon_set-Good ds ss es l none e = Good-listed (k.services namespace) _ λ vs m.
      pick_service-Good (known_names ds ss es vs) vs m
        (find (λ (v : Service). is_named name v.name) vs) refl

  pick_stateful_set-Good :
      (ds ss : List Controller)
      → k.stateful_sets namespace ≡ ok ss
      → (o : Option Controller) → find (λ (s : Controller). is_named name s.name) ss ≡ o
      → Good (pick_stateful_set k namespace name pods ds ss o)
  unfolding pick_stateful_set of_controller
  pick_stateful_set-Good ds ss l (some s) e =
      Good-selected (of_controller namespace name pods (stateful_set s) s) refl refl
        (from_stateful_set l
          (Any-find _ _ ss e (named (λ (s : Controller). s.name) ss e, refl, refl)))
        refl
  pick_stateful_set-Good ds ss l none e = Good-listed (k.daemon_sets namespace) _ λ es m.
      pick_daemon_set-Good ds ss es m (find (λ (e : DaemonSet). is_named name e.name) es) refl

  pick_deployment-Good :
      (ds : List Controller)
      → k.deployments namespace ≡ ok ds
      → (o : Option Controller) → find (λ (d : Controller). is_named name d.name) ds ≡ o
      → Good (pick_deployment k namespace name pods ds o)
  unfolding pick_deployment of_controller
  pick_deployment-Good ds l (some d) e =
      Good-selected (of_controller namespace name pods (deployment d) d) refl refl
        (from_deployment l
          (Any-find _ _ ds e (named (λ (d : Controller). d.name) ds e, refl, refl)))
        refl
  pick_deployment-Good ds l none e = Good-listed (k.stateful_sets namespace) _ λ ss m.
      pick_stateful_set-Good ds ss m (find (λ (s : Controller). is_named name s.name) ss) refl

-- A workload that is resolved has the name and the namespace asked for. Either a Deployment,
-- StatefulSet, DaemonSet or Service of that name in the namespace's lists gave its origin and its
-- selector, and its pods are exactly those of the namespace, in their order, whose labels have
-- every entry of a selector that is not empty; or it is the one pod of that name. The name is then
-- one plain step.
pub resolve_workload-HasPods :
    (k : Lists) (namespace name : Text) (w : ResolvedWorkload)
    → resolve_workload k namespace name ≡ ok w
    → IsStep name
      × ((pods : List Pod) × (k.pods namespace ≡ ok pods)
          × (w.name ≡ name)
          × (w.namespace ≡ namespace)
          × HasPods k namespace name pods w)
unfolding resolve_workload txt Good
resolve_workload-HasPods k namespace name w h =
    let what = txt "service/workload name" in
    >>=-steps (map_err bad_name (assert_name name what)) _ h λ named e0 h0.
      >>=-steps (listed_by (k.pods namespace)) _ h0 λ pods e1 h1.
        >>=-steps (listed_by (k.deployments namespace)) _ h1 λ ds e2 h2.
          let checked = map_err-eq-ok bad_name (assert_name name what) e0 in
          let same_name = (returns_its_argument name named what (inr (inr (inl checked)))).0 in
          let good =
            pick_deployment-Good k namespace name pods ds
              (map_err-eq-ok client_error (k.deployments namespace) e2)
              (find (λ (d : Controller). is_named name d.name) ds) refl w h2 in
          (
            subst IsStep (sym same_name)
                (accepted-IsStep name named what (inr (inr (inl checked)))),
            (pods, map_err-eq-ok client_error (k.pods namespace) e1, good.0, good.1, good.2),
          )
