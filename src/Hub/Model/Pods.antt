-- ===== src/Hub/Model/Pods.antt =====
-- src/hub/model.ts: the problems of a pod, and `summarizePod`.
use kube_diagnostics_mcp.Common.{
  ℕ, ◌+◌, Bool, false, not, ◌&&◌, ◌||◌, Option, none, some, List, [], ◌∷◌, ◌++◌, map, filter,
  length, Text, txt, same, print, or_else, ltb, leb, if◌then◌else◌, is_empty, take,
}
use kube_diagnostics_mcp.Hub.Model.{Condition, Owner, Pod}
use kube_diagnostics_mcp.Hub.Model.Summary.{
  Clock, human_duration, age_seconds, Phase, LastTermination, ContainerStateSummary, sliced,
  has_probe_container, summarize_containers, waiting, terminated,
}

-- A text that is there and not empty, in front of which a mark is put.
abbrev pub marked : Text → Option Text → Text
marked mark none = []
marked mark (some []) = []
marked mark (some (c ∷ s)) = mark ++ (c ∷ s)

abbrev pub shown_code : Option ℕ → Text
unfolding print txt
shown_code none = txt "undefined"
shown_code (some n) = print n

-- A reason that is there and not empty.
abbrev pub with_reason : Option Text → (Text → List Text) → List Text
with_reason none f = []
with_reason (some []) f = []
with_reason (some (c ∷ s)) f = f (c ∷ s)

unfoldable pub state_problems : ContainerStateSummary → Phase → List Text
unfolding shown_code same txt
state_problems c waiting =
    with_reason c.reason λ r. (c.name ++ (txt ": " ++ (r ++ marked (txt " - ") c.message))) ∷ []
state_problems c terminated = with_reason c.reason λ r.
    if same r (txt "Completed")
    then []
    else (c.name
        ++ (txt ": terminated (" ++ (r ++ (txt ", exit " ++ (shown_code c.exit_code ++ txt ")")))))
      ∷ []
state_problems c _ = []

unfoldable pub termination_problems : ContainerStateSummary → Option LastTermination → List Text
unfolding print same txt
termination_problems c none = []
termination_problems c (some t) = with_reason t.reason λ r.
    if same r (txt "OOMKilled")
    then (c.name ++ txt ": previous container was OOMKilled") ∷ []
    else if same r (txt "Error") && ltb 0 c.restarts
    then (c.name ++ (txt ": previous container exited with code " ++ print t.exit_code)) ∷ []
    else []

unfoldable pub container_problems : ContainerStateSummary → List Text
unfolding state_problems termination_problems print txt
container_problems c =
    state_problems c c.state
    ++ (termination_problems c c.last_termination
        ++ (if leb 5 c.restarts
            then (c.name ++ (txt ": " ++ (print c.restarts ++ txt " restarts"))) ∷ []
            else []))

abbrev pub watched : Text → Bool
unfolding same txt
watched type =
    same type (txt "PodScheduled") || same type (txt "Ready") || same type (txt "ContainersReady")

abbrev pub unscheduled : Condition → List Text
unfolding same txt
unscheduled c =
    if same c.type (txt "PodScheduled")
    then (txt "Unschedulable" ++ marked (txt ": ") (sliced 200 c.message)) ∷ []
    else []

unfoldable pub reason_problems : Condition → Option Text → List Text
unfolding unscheduled same txt
reason_problems c none = unscheduled c
reason_problems c (some []) = unscheduled c
reason_problems c (some (d ∷ r)) =
    if same (d ∷ r) (txt "ContainersNotReady")
    then unscheduled c
    else (c.type
        ++ (txt "=False (" ++ ((d ∷ r) ++ (marked (txt ": ") (sliced 200 c.message) ++ txt ")"))))
      ∷ []

unfoldable pub condition_problems : Condition → List Text
unfolding reason_problems watched same txt
condition_problems c =
    if not (same c.status (txt "True")) && watched c.type then reason_problems c c.reason else []

abbrev pub flat_map : {A : Type 0} → (A → List Text) → List A → List Text
flat_map f [] = []
flat_map f (a ∷ l) = f a ++ flat_map f l

abbrev pub phase_is : Text → Option Text → Bool
unfolding same
phase_is s none = false
phase_is s (some t) = same t s

abbrev pub is_set_text : Option Text → Bool
is_set_text none = false
is_set_text (some s) = not (is_empty s)

abbrev pub pending_problem : Pod → List Text → List Text
unfolding phase_is txt
pending_problem p [] = if phase_is (txt "Pending") p.phase then txt "Pending" ∷ [] else []
pending_problem p (q ∷ qs) = []

abbrev pub in_brackets : Option Text → Text
unfolding txt
in_brackets none = []
in_brackets (some []) = []
in_brackets (some (c ∷ s)) = txt " (" ++ ((c ∷ s) ++ txt ")")

unfoldable pub pod_problems : Clock → Pod → List Text
unfolding summarize_containers container_problems condition_problems pending_problem in_brackets
    phase_is txt
pod_problems clock p =
    let found =
      flat_map container_problems (summarize_containers clock p)
      ++ flat_map condition_problems p.conditions in
    found
    ++ (pending_problem p found
        ++ ((if phase_is (txt "Failed") p.phase
              then (txt "Failed" ++ in_brackets p.reason) ∷ []
              else [])
            ++ (if is_set_text p.deleted then txt "Terminating" ∷ [] else [])))

pub record PodSummary : Type 0 where
  pub name : Text
  pub namespace : Text
  pub phase : Option Text
  pub ready_count : ℕ
  pub container_count : ℕ
  pub restarts : ℕ
  pub age : Option Text
  pub node : Option Text
  pub pod_ip : Option Text
  pub containers : List ContainerStateSummary
  pub conditions : List Condition
  pub problems : List Text
  pub owner : Option Owner
  pub has_probe : Bool

abbrev pub total_restarts : List ContainerStateSummary → ℕ
total_restarts [] = 0
total_restarts (c ∷ cs) = c.restarts + total_restarts cs

abbrev pub first_owner : List Owner → Option Owner
first_owner [] = none
first_owner (o ∷ os) = some o

-- `summarizePod`; the source writes the two counts as the text "ready/all".
unfoldable pub summarize_pod : Clock → Pod → Text → PodSummary
unfolding pod_problems summarize_containers human_duration age_seconds has_probe_container filter
    take same txt
summarize_pod clock p probe_name =
    let containers = summarize_containers clock p in
    record {
      name = or_else p.name [];
      namespace = or_else p.namespace [];
      phase = p.phase;
      ready_count = length (filter (λ (c : ContainerStateSummary). c.ready) containers);
      container_count = length containers;
      restarts = total_restarts containers;
      age = human_duration (age_seconds clock p.created);
      node = p.node_name;
      pod_ip = p.pod_ip;
      containers = containers;
      conditions =
          map (λ (c : Condition). record c { message = sliced 200 c.message })
            (filter (λ (c : Condition). not (same c.status (txt "True"))) p.conditions);
      problems = pod_problems clock p;
      owner = first_owner p.owners;
      has_probe = has_probe_container p probe_name;
    }
