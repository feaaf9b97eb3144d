-- ===== src/Hub/Network/Asked.antt =====
-- src/hub/tools/network.ts: which pod the connections are read from.
use mathlib.Core.Path.{subst}
use kube_diagnostics_mcp.Common.{
  map, ℕ, ◌≡◌, refl, sym, ◌∙◌, ap, inl, inr, Bool, true, false, Option, none, some, List, [], ◌∷◌,
  arith, find, find-true, Any, Text, Result, ok, err, map_err, map_err-eq-ok, >>=-eq-ok, >>=-steps,
  ok-injective, if◌then◌else◌,
}
use kube_diagnostics_mcp.Config.{HubConfig}
use kube_diagnostics_mcp.Hub.Model.{Pod, Lists, ResolvedWorkload}
use kube_diagnostics_mcp.Hub.Model.Workload.{resolve_workload}
use kube_diagnostics_mcp.Hub.Network.Open.{
  EstablishedRow, no_pods, not_resolved, not_answered, not_read, no_namespace, read_connections,
  OpenAnswer, is_running, first_pod, preferred, pod_of, open_answer, pod_arg, get_open_connections,
}
use kube_diagnostics_mcp.Hub.Network.Policies.{kind_text}
use kube_diagnostics_mcp.Hub.Network.Private.{ServiceIp, service_by_ip, pod_by_ip, resolved_remote}
use kube_diagnostics_mcp.Hub.Probes.{Unavailable}
use kube_diagnostics_mcp.Hub.Server.{ns_of}
use kube_diagnostics_mcp.Kube.{ClientError}
use kube_diagnostics_mcp.Probe.Net.Connections.{ConnectionSummary, Established}

same_pod : {p q : Pod} → ◌≡◌ {A = Option Pod} (some q) (some p) → q ≡ p
same_pod h = cc

Any-find : (pods : List Pod) {p : Pod} → find is_running pods ≡ some p → Any (λ q. q ≡ p) pods
unfolding find
Any-find [] h = absurd (ground arith)
Any-find (q ∷ pods) h = by (is_running q) (λ e. Any-find pods e) h
  where
    by :
        (b : Bool) {p : Pod}
        → (find is_running pods ≡ some p → Any (λ q. q ≡ p) pods)
        → (if b then some q else find is_running pods) ≡ some p
        → Any (λ q. q ≡ p) (q ∷ pods)
    by true later e = inl (same_pod e)
    by false later e = inr (later e)

-- One of the pods, and a running one if any of them runs.
pub record IsPreferred (pods : List Pod) (p : Pod) : Type 0 where
  pub is_one : Any (λ q. q ≡ p) pods
  pub runs : Any (λ q. is_running q ≡ true) pods → is_running p ≡ true

none_running :
    (pods : List Pod) → find is_running pods ≡ none → Any (λ q. is_running q ≡ true) pods → ⊥
unfolding find
none_running [] e h = h
none_running (q ∷ pods) e h = by (is_running q) refl (none_running pods) e h
  where
    by :
        (b : Bool)
        → is_running q ≡ b
        → (find is_running pods ≡ none → Any (λ q. is_running q ≡ true) pods → ⊥)
        → (if b then some q else find is_running pods) ≡ none
        → Any (λ q. is_running q ≡ true) (q ∷ pods)
        → ⊥
    by true r later e h = absurd (ground arith)
    by false r later e (inl h) = absurd (ground arith)
    by false r later e (inr h) = later e h

preferred-IsPreferred : (pods : List Pod) {p : Pod} → preferred pods ≡ some p → IsPreferred pods p
unfolding preferred
preferred-IsPreferred pods e = by (find is_running pods) refl e
  where
    is_first : (l : List Pod) {p : Pod} → first_pod l ≡ some p → Any (λ q. q ≡ p) l
    is_first [] h = absurd (ground arith)
    is_first (q ∷ l) h = inl (same_pod h)

    by :
        (o : Option Pod) {p : Pod}
        → find is_running pods ≡ o
        → elim o [ some p ↦ some p | none ↦ first_pod pods ] ≡ some p
        → IsPreferred pods p
    by (some q) f h = record {
      is_one = Any-find pods (f ∙ h);
      runs = λ a. find-true is_running pods (f ∙ h);
    }
    by none f h = record { is_one = is_first pods h; runs = λ a. absurd (none_running pods f a) }

pod_of-IsPreferred : (w : ResolvedWorkload) {p : Pod} → pod_of w ≡ ok p → IsPreferred w.pods p
unfolding pod_of
pod_of-IsPreferred w e = by (preferred w.pods) refl e
  where
    by :
        (o : Option Pod) {p : Pod}
        → preferred w.pods ≡ o
        → elim o [ some p ↦ ok p | none ↦ err (no_pods (kind_text w.origin) w.name) ] ≡ ok p
        → IsPreferred w.pods p
    by (some q) f h = preferred-IsPreferred w.pods (f ∙ ap some (sym (ok-injective h)))
    by none f h = cc

-- The connections of one pod of the workload of this name, as they were answered.
abbrev pub Shows : Lists → (Pod → Result Unavailable ConnectionSummary) → Text → OpenAnswer → Type 0
Shows k connections name a =
    (w : ResolvedWorkload) × (p : Pod) × (s : ConnectionSummary) × (resolve_workload k a.namespace
        name
      ≡ ok w)
    × IsPreferred w.pods p
    × (connections p ≡ ok s)
    × (a.pod ≡ p.name)
    × (a.states ≡ s.states)
    × (map (λ (r : EstablishedRow). r.established) a.established ≡ s.established)

module _ (k : Lists) (get_pod : Text → Text → Result ClientError Pod)
    (services_of : Text → Result ClientError (List ServiceIp))
    (connections : Pod → Result Unavailable ConnectionSummary) (c : HubConfig) where
  pod_arg-IsPreferred :
      (ns : Text) (b : ℕ) (name : Text) {p : Pod}
      → pod_arg k get_pod services_of connections c ns none (some (b ∷ name)) ≡ ok p
      → (w : ResolvedWorkload) × (resolve_workload k ns (b ∷ name) ≡ ok w) × IsPreferred w.pods p
  unfolding pod_arg
  pod_arg-IsPreferred ns b name h =
      let (w, r, q) =
        >>=-eq-ok (map_err not_resolved (resolve_workload k ns (b ∷ name))) pod_of h in
      (w, map_err-eq-ok not_resolved (resolve_workload k ns (b ∷ name)) r, pod_of-IsPreferred w q)

  read_connections-ok :
      (ns : Text) (p : Pod) {a : OpenAnswer}
      → read_connections k get_pod services_of connections c ns p ≡ ok a
      → (s : ConnectionSummary) × (connections p ≡ ok s)
        × (services : List ServiceIp) × (pods : List Pod) × (a ≡ open_answer ns p s services pods)
  unfolding read_connections
  read_connections-ok ns p h = >>=-steps (map_err not_answered (connections p)) _ h λ s r h1.
      >>=-steps (map_err not_read (services_of ns)) _ h1 λ services _ h2.
        >>=-steps (map_err not_read (k.pods ns)) _ h2 λ pods _ h3.
          (s, map_err-eq-ok not_answered (connections p) r, services, pods, ok-injective h3)

  shown :
      (ns name : Text) (p : Pod) (s : ConnectionSummary) (services : List ServiceIp)
      (pods : List Pod) (w : ResolvedWorkload)
      → resolve_workload k ns name ≡ ok w
      → IsPreferred w.pods p
      → connections p ≡ ok s
      → Shows k connections name (open_answer ns p s services pods)
  unfolding open_answer
  shown ns name p s services pods w resolved chosen answered =
      (w, p, s, resolved, chosen, answered, refl, refl, same_rows s.established)
    where
      same_rows :
          (l : List Established)
          → map
              (λ (r : EstablishedRow). r.established)
              (map
                (λ (e : Established). record {
                  established = e;
                  resolved =
                      resolved_remote (service_by_ip [] services) (pod_by_ip [] pods) e.remote;
                })
                l)
            ≡ l
      same_rows [] = refl
      same_rows (e ∷ l) = ap (◌∷◌ e) (same_rows l)

  -- What the answer for a workload shows are the connections of one of its pods, and of a running
  -- one if any of its pods runs.
  pub get_open_connections_asks :
      (namespace : Option Text) (b : ℕ) (name : Text) (a : OpenAnswer)
      → get_open_connections k get_pod services_of connections c namespace none (some (b ∷ name))
        ≡ ok a
      → Shows k connections (b ∷ name) a
  unfolding get_open_connections
  get_open_connections_asks namespace b name a h =
      >>=-steps (map_err no_namespace (ns_of c namespace)) _ h λ ns _ h1.
        >>=-steps (pod_arg k get_pod services_of connections c ns none (some (b ∷ name))) _ h1
          λ p asked h2.
            let (w, resolved, chosen) = pod_arg-IsPreferred ns b name asked in
            let (s, answered, services, pods, e) = read_connections-ok ns p h2 in
            subst (Shows k connections (b ∷ name)) (sym e)
              (shown ns (b ∷ name) p s services pods w resolved chosen answered)
