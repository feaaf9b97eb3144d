-- ===== src/Hub/Model/Problems.antt =====
-- src/hub/model.ts: what the problems of a pod report, and how its counts relate.
use kube_diagnostics_mcp.Common.{
  ap, ◌∙◌, ◌+◌, ◌≤◌, ◌≡◌, refl, true, Bool, Bool-cases, Any, any, inl, inr, ◌||◌, Option, none,
  some, List, [], ◌∷◌, ◌++◌, map, filter, Text, txt, same, same_refl, includes, length,
  length-filter, length-append, arith,
}
use mathlib.Core.Path.{subst}
use kube_diagnostics_mcp.Hub.Model.{Pod, Container, ContainerStatus, Terminated}
use kube_diagnostics_mcp.Hub.Model.Summary.{
  Clock, ContainerStateSummary, last_of, summarize_container, summarize_containers, has_container,
  is_sidecar_init,
}
use kube_diagnostics_mcp.Hub.Model.Pods.{
  container_problems, termination_problems, state_problems, condition_problems, flat_map,
  pod_problems, summarize_pod,
}

includes-append_left :
    (x : Text) (l m : List Text) → includes x l ≡ true → includes x (l ++ m) ≡ true
unfolding includes
includes-append_left x [] m h = cc
includes-append_left x (a ∷ l) m h = ground (arith, includes-append_left x l m)

includes-append_right :
    (x : Text) (l m : List Text) → includes x m ≡ true → includes x (l ++ m) ≡ true
unfolding includes
includes-append_right x [] m h = h
includes-append_right x (a ∷ l) m h = ground (arith, includes-append_right x l m)

includes_self : (x : Text) → includes x (x ∷ []) ≡ true
unfolding includes
includes_self x = rw (same_refl x)

-- A problem of one container is a problem of all.
includes-flat_map :
    (f : ContainerStateSummary → List Text) (x : Text) (l : List ContainerStateSummary)
    → Any (λ c. includes x (f c) ≡ true) l
    → includes x (flat_map f l) ≡ true
includes-flat_map f x [] h = absurd h
includes-flat_map f x (c ∷ l) (inl here) = includes-append_left x (f c) (flat_map f l) here
includes-flat_map f x (c ∷ l) (inr later) =
    includes-append_right x (f c) (flat_map f l) (includes-flat_map f x l later)

-- The text of the problem of a killed container.
abbrev killed_text : Text → Text
unfolding txt
killed_text name = name ++ txt ": previous container was OOMKilled"

-- A status of this container, which was last ended with the reason "OOMKilled".
unfoldable IsKilled : Text → ContainerStatus → Type 0
unfolding txt
IsKilled name s =
    (s.name ≡ name)
    × ((t : Terminated) × (s.last_terminated ≡ some t) × (t.reason ≡ some (txt "OOMKilled")))

same_reason :
    {u t : Terminated} → ◌≡◌ {A = Option Terminated} (some u) (some t) → u.reason ≡ t.reason
same_reason h = cc

killed_termination :
    (clock : Clock) (c : ContainerStateSummary) (o : Option Terminated) (t : Terminated)
    → o ≡ some t
    → t.reason ≡ some (txt "OOMKilled")
    → includes (killed_text c.name) (termination_problems c (last_of clock o)) ≡ true
unfolding termination_problems txt same
killed_termination clock c none t h r = cc
killed_termination clock c (some u) t h r = rw (same_reason h) (rw r (includes_self _))

killed_container :
    (clock : Clock) (p : Pod) (name : Text) (s : ContainerStatus)
    → IsKilled name s
    → includes (killed_text name) (container_problems (summarize_container clock p s)) ≡ true
unfolding IsKilled container_problems summarize_container
killed_container clock p name s (n, (t, e, r)) =
    let c = summarize_container clock p s in
    subst (λ x. includes (killed_text x) (container_problems c) ≡ true) n
      (includes-append_right _ (state_problems c c.state) _ (
        includes-append_left _ (termination_problems c c.last_termination) _
          (killed_termination clock c s.last_terminated t e r)))

or_yes : (a : Bool) → (a || true) ≡ true
or_yes a = ground arith

has_container-Any :
    (name : Text) (cs : List Container)
    → Any (λ (c : Container). c.name ≡ name) cs
    → has_container name cs ≡ true
unfolding any
has_container-Any name [] h = absurd h
has_container-Any name (c ∷ cs) (inl here) = rw here (rw (same_refl name) refl)
has_container-Any name (c ∷ cs) (inr later) =
    rw (has_container-Any name cs later) (or_yes (same c.name name))

-- The test by which the statuses are selected.
abbrev is_shown : Pod → ContainerStatus → Bool
is_shown p s = has_container s.name p.containers || is_sidecar_init p s.name

Any-shown :
    (clock : Clock) (p : Pod) (name : Text) (l : List ContainerStatus)
    → has_container name p.containers ≡ true
    → Any (IsKilled name) l
    → Any
        (λ c. includes (killed_text name) (container_problems c) ≡ true)
        (map (summarize_container clock p) (filter (is_shown p) l))
unfolding filter IsKilled
Any-shown clock p name [] shown h = absurd h
Any-shown clock p name (s ∷ l) shown (inl here) =
    let kept : is_shown p s ≡ true =
      ap (λ b. b || is_sidecar_init p s.name)
        (ap (λ x. has_container x p.containers) here.0 ∙ shown) in
    rw kept (inl (killed_container clock p name s here))
Any-shown clock p name (s ∷ l) shown (inr later) = elim (Bool-cases (is_shown p s)) [
  | inl kept ↦ rw kept (inr (Any-shown clock p name l shown later))
  | inr dropped ↦ rw dropped (Any-shown clock p name l shown later)
]

Any-after : {A : Type 0} (P : A → Type 0) (l m : List A) → Any P m → Any P (l ++ m)
Any-after P [] m h = h
Any-after P (a ∷ l) m h = inr (Any-after P l m h)

-- Where one of a pod's statuses says that one of its containers was last ended with the reason
-- "OOMKilled", the problems of the pod say so of that container.
pub pod_problems_oom_killed :
    (clock : Clock) (p : Pod) (name : Text)
    → Any (λ (c : Container). c.name ≡ name) p.containers
    → Any
        (λ (s : ContainerStatus).
          (s.name ≡ name)
          × ((t : Terminated) × (s.last_terminated ≡ some t) × (t.reason ≡ some (txt "OOMKilled"))))
        p.statuses
    → includes (name ++ txt ": previous container was OOMKilled") (pod_problems clock p) ≡ true
unfolding pod_problems summarize_containers IsKilled txt
pod_problems_oom_killed clock p name own killed =
    let cs = flat_map container_problems (summarize_containers clock p) in
    includes-append_left _ (cs ++ flat_map condition_problems p.conditions) _ (
      includes-append_left _ cs (flat_map condition_problems p.conditions) (
        includes-flat_map container_problems _ (summarize_containers clock p) (
          Any-shown clock p name (p.init_statuses ++ p.statuses)
            (has_container-Any name p.containers own)
            (Any-after _ p.init_statuses p.statuses killed))))

length-map_summary :
    (clock : Clock) (p : Pod) (l : List ContainerStatus)
    → length (map (summarize_container clock p) l) ≡ length l
length-map_summary clock p [] = refl
length-map_summary clock p (s ∷ l) = omega (arith, length-map_summary clock p l)

-- No more containers are counted as ready than are counted, and no more are counted than the pod
-- has statuses.
pub summarize_pod-counts :
    (clock : Clock) (p : Pod) (probe_name : Text)
    → ((summarize_pod clock p probe_name).ready_count
        ≤ (summarize_pod clock p probe_name).container_count)
      × ((summarize_pod clock p probe_name).container_count
          ≤ length p.init_statuses + length p.statuses)
unfolding summarize_pod summarize_containers
summarize_pod-counts clock p probe_name =
    let shown : List ContainerStatus =
      filter
        (λ (s : ContainerStatus). has_container s.name p.containers || is_sidecar_init p s.name)
        (p.init_statuses ++ p.statuses) in
    (
      length-filter (λ (c : ContainerStateSummary). c.ready)
          (map (summarize_container clock p) shown),
      omega (
        arith,
        length-map_summary clock p shown,
        length-filter
            (λ (s : ContainerStatus). has_container s.name p.containers || is_sidecar_init p s.name)
            (p.init_statuses ++ p.statuses),
        length-append p.init_statuses p.statuses,
      ),
    )
