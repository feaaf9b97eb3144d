-- ===== src/Hub/Model/Summary.antt =====
-- src/hub/model.ts: ages, `summarizePod` and the functions on a pod's containers. The clock and the
-- runtime's dates are an argument.
use kube_diagnostics_mcp.Common.{
  ℕ, ◌+◌, ◌-◌, ◌/◌, ◌%◌, Bool, true, false, not, ◌&&◌, ◌||◌, Option, none, some, List, [], ◌∷◌,
  ◌++◌, map, filter, find, any, length, Text, txt, same, print, or_else, ltb, leb, if◌then◌else◌,
  take,
}
use kube_diagnostics_mcp.Hub.Model.{Container, Waiting, Terminated, ContainerStatus, Pod}
use kube_diagnostics_mcp.Strings.{slice_to}

-- `Date.parse` of a time stamp in milliseconds, none for NaN; `toISOString`; and the time now.
pub record Clock : Type 0 where
  pub parse : Text → Option ℕ
  pub iso : Text → Text
  pub now : ℕ

unfoldable pub human_duration : Option ℕ → Option Text
unfolding print txt
human_duration none = none
human_duration (some s) = some (
    if ltb s 60
    then print s ++ txt "s"
    else if ltb s 3600
    then print (s / 60) ++ txt "m"
    else if ltb s 86400
    then print (s / 3600) ++ (txt "h" ++ (print (s % 3600 / 60) ++ txt "m"))
    else print (s / 86400) ++ (txt "d" ++ (print (s % 86400 / 3600) ++ txt "h")))

abbrev pub seconds_since : ℕ → Option ℕ → Option ℕ
seconds_since now none = none
seconds_since now (some t) = some ((now - t + 500) / 1000)

unfoldable pub age_seconds : Clock → Option Text → Option ℕ
age_seconds clock none = none
age_seconds clock (some []) = none
age_seconds clock (some (c ∷ ts)) = seconds_since clock.now (clock.parse (c ∷ ts))

pub data Phase : Type 0 where
  unknown running waiting terminated : Phase

pub record LastTermination : Type 0 where
  pub reason : Option Text
  pub exit_code : ℕ
  pub finished_at : Option Text
  pub message : Option Text

pub record ContainerStateSummary : Type 0 where
  pub name : Text
  pub ready : Bool
  pub restarts : ℕ
  pub state : Phase
  pub reason : Option Text
  pub message : Option Text
  pub exit_code : Option ℕ
  pub started_at : Option Text
  pub last_termination : Option LastTermination
  pub image : Option Text

abbrev pub sliced : ℕ → Option Text → Option Text
sliced n none = none
sliced n (some s) = some (slice_to n s)

abbrev pub has_container : Text → List Container → Bool
has_container name cs = any (λ (c : Container). same c.name name) cs

unfoldable pub has_probe_container : Pod → Text → Bool
unfolding any same
has_probe_container p name = has_container name p.init_containers || has_container name p.containers

unfoldable pub app_container_name : Pod → Text → Option Text
unfolding find same
app_container_name p probe_name =
    find (λ n. not (same n probe_name)) (map (λ (c : Container). c.name) p.containers)

unfoldable pub truncate : Text → ℕ → Text × Bool
unfolding take
truncate text most = if leb (length text) most then (text, false) else (slice_to most text, true)

unfoldable pub policy_always : Option Text → Bool
unfolding same txt
policy_always none = false
policy_always (some s) = same s (txt "Always")

unfoldable pub is_sidecar_init : Pod → Text → Bool
unfolding any same policy_always
is_sidecar_init p name =
    any (λ (c : Container). same c.name name && policy_always c.restart_policy) p.init_containers

-- An empty time stamp is falsy.
abbrev pub shown_time : Clock → Option Text → Option Text
shown_time clock none = none
shown_time clock (some []) = none
shown_time clock (some (c ∷ s)) = some (clock.iso (c ∷ s))

-- The state, its reason, message, exit code and start, by what is there first.
pub record StateParts : Type 0 where
  pub phase : Phase
  pub reason : Option Text
  pub message : Option Text
  pub exit_code : Option ℕ
  pub started_at : Option Text

unfoldable pub state_parts :
    Clock → Option (Option Text) → Option Waiting → Option Terminated → StateParts
state_parts clock (some started) w t = record {
  phase = running;
  reason = none;
  message = none;
  exit_code = none;
  started_at = shown_time clock started;
}
state_parts clock none (some w) t = record {
  phase = waiting;
  reason = w.reason;
  message = w.message;
  exit_code = none;
  started_at = none;
}
state_parts clock none none (some t) = record {
  phase = terminated;
  reason = t.reason;
  message = t.message;
  exit_code = some t.exit_code;
  started_at = none;
}
state_parts clock none none none = record {
  phase = unknown;
  reason = none;
  message = none;
  exit_code = none;
  started_at = none;
}

abbrev pub last_of : Clock → Option Terminated → Option LastTermination
last_of clock none = none
last_of clock (some t) = some (record {
  reason = t.reason;
  exit_code = t.exit_code;
  finished_at = shown_time clock t.finished_at;
  message = sliced 300 t.message;
})

abbrev pub image_of : Option Container → Option Text
image_of none = none
image_of (some c) = c.image

unfoldable pub summarize_container : Clock → Pod → ContainerStatus → ContainerStateSummary
unfolding state_parts find same take
summarize_container clock p s =
    let parts = state_parts clock s.state.running s.state.waiting s.state.terminated in
    record {
      name = s.name;
      ready = s.ready;
      restarts = or_else s.restart_count 0;
      state = parts.phase;
      reason = parts.reason;
      message = sliced 300 parts.message;
      exit_code = parts.exit_code;
      started_at = parts.started_at;
      last_termination = last_of clock s.last_terminated;
      image =
          image_of
            (find (λ (c : Container). same c.name s.name) (p.init_containers ++ p.containers));
    }

-- The statuses of the regular containers and of the sidecars among the init containers.
unfoldable pub summarize_containers : Clock → Pod → List ContainerStateSummary
unfolding summarize_container is_sidecar_init filter any same
summarize_containers clock p = map (summarize_container clock p) (
    filter (λ (s : ContainerStatus). has_container s.name p.containers || is_sidecar_init p s.name)
      (p.init_statuses ++ p.statuses))
