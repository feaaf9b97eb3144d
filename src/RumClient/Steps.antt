-- ===== src/RumClient/Steps.antt =====
-- rum-client/src/index.ts: what the client does at each callback of the browser.
use kube_diagnostics_mcp.Common.{
  ℕ, ◌+◌, ◌-◌, ◌/◌, Bool, true, false, Option, none, some, List, [], ◌∷◌, ◌++◌, Text, txt, get, put,
  same, or_else, if◌then◌else◌, ◌==◌, ltb, Number, million,
}
use kube_diagnostics_mcp.RumClient.{
  NavPhases, RumEvent, view, resource, error, nav, Client, State, Outcome, flush, push,
}
use kube_diagnostics_mcp.Strings.{slice_to}

-- `m.name`, `m.id` and `m.value`
pub record Metric : Type 0 where
  pub name : Text
  pub id : Text
  pub value : Number

-- An entry of the navigation timeline.
pub record Navigation : Type 0 where
  pub start_time : ℕ
  pub domain_lookup_start : ℕ
  pub domain_lookup_end : ℕ
  pub connect_start : ℕ
  pub connect_end : ℕ
  pub secure_connection_start : ℕ
  pub response_start : ℕ
  pub response_end : ℕ
  pub dom_interactive : ℕ
  pub dom_content_loaded_event_end : ℕ
  pub load_event_end : ℕ

-- An entry of the resource timeline that the filter lets through, with its URL parsed.
pub record ResourceTiming : Type 0 where
  pub origin : Text
  pub pathname : Text
  pub duration : ℕ
  pub response_status : Option ℕ
  pub initiator_type : Text
  pub transfer_size : ℕ

pub data Rejection : Type 0 where
  text : Text → Rejection
  thrown : Option Text → Option Text → Rejection
  nothing : Rejection

pub data Input : Type 0 where
  metric : Metric → Input
  loaded : Option Navigation → Input
  observed : ResourceTiming → Input
  failed : Option Text → Option Text → Input
  rejected : Rejection → Input
  hidden : Bool → Input
  tick destroyed : Input
  route_changed : Text → Option ℕ → ℕ → Input
  reported : Text → Option Text → Input

abbrev pub slice_stack : Option Text → Option Text
slice_stack none = none
slice_stack (some s) = some (slice_to 2000 s)

-- `Math.round(v)`, in milliseconds
abbrev pub round_ms : ℕ → ℕ
round_ms v = (v + 500000) / million

unfoldable pub note_metric : Metric → State → State
unfolding get put
note_metric m s =
    let k = m.name ++ b':' ∷ m.id in
    let prev = get k s.latest in
    record s {
      latest =
          put k
            (record {
              value = m.value;
              route = elim prev [ none ↦ s.current_route | some p ↦ p.route ];
              sent = elim prev [ none ↦ none | some p ↦ p.sent ];
            })
            s.latest;
    }

abbrev pub phases : Navigation → NavPhases
phases n = record {
  dns = n.domain_lookup_end - n.domain_lookup_start;
  connect = n.connect_end - n.connect_start;
  tls = if ltb 0 n.secure_connection_start then n.connect_end - n.secure_connection_start else 0;
  ttfb = n.response_start - n.start_time;
  download = n.response_end - n.response_start;
  dom_interactive = n.dom_interactive - n.start_time;
  dom_content_loaded = n.dom_content_loaded_event_end - n.start_time;
  load = if ltb 0 n.load_event_end then some (n.load_event_end - n.start_time) else none;
}

module _ (here : Text) where
  -- `here` is the origin of the page.
  abbrev pub resource_event : Text → ResourceTiming → RumEvent
  resource_event route r = resource (record {
    url = if same r.origin here then r.pathname else r.origin ++ r.pathname;
    duration_ms = round_ms r.duration;
    status = r.response_status;
    initiator = r.initiator_type;
    bytes = if r.transfer_size == 0 then none else some r.transfer_size;
    route = route;
  })

  abbrev pub error_event : Text → Text → Option Text → RumEvent
  error_event route message stack = error (slice_to 500 message) (slice_stack stack) route

  abbrev pub rejection_event : Text → Rejection → RumEvent
  rejection_event route (text s) = error_event route s none
  rejection_event route (thrown message stack) =
      error_event route (or_else message (txt "unhandledrejection")) stack
  rejection_event route nothing = error_event route (txt "unhandledrejection") none

  module _ (c : Client) where
    -- What an input pushes. The view at the start has reported the entry, so that no later one does.
    unfoldable pub pushed : State → Input → List RumEvent
    unfolding same txt
    pushed s (loaded (some n)) = nav s.current_route (phases n) ∷ []
    pushed s (observed r) = resource_event s.current_route r ∷ []
    pushed s (failed message stack) =
        error_event s.current_route (or_else message (txt "error")) stack ∷ []
    pushed s (rejected r) = rejection_event s.current_route r ∷ []
    pushed s (route_changed pathname duration now) =
        view (c.resolve pathname) (some (or_else duration (round_ms (now - s.route_started_at))))
          false
        ∷ []
    pushed s (reported message stack) = error_event s.current_route message stack ∷ []
    pushed s _ = []

    -- The state in which the event is pushed.
    abbrev pub on_route : State → Input → State
    on_route s (route_changed pathname duration now) = record s {
      current_route = c.resolve pathname;
    }
    on_route s _ = s

    abbrev pub after_route : Input → State → State
    after_route (route_changed pathname duration now) s = record s { route_started_at = now }
    after_route _ s = s

    abbrev pub push_all : Bool → List RumEvent → State → Outcome
    push_all consent [] s = (s, [])
    push_all consent (e ∷ events) s = push c consent e s

    unfoldable pub step : Bool → State → Input → Outcome
    unfolding note_metric pushed push flush
    step consent s (metric m) = (note_metric m s, [])
    step consent s (hidden is_hidden) = if is_hidden then flush c consent s else (s, [])
    step consent s tick = flush c consent s
    step consent s destroyed = flush c consent s
    step consent s i =
        let out = push_all consent (pushed s i) (on_route s i) in (after_route i (out.0), out.1)

    abbrev pub start_state : Text → ℕ → State
    start_state pathname now = record {
      current_route = c.resolve pathname;
      route_started_at = now;
      buffer = [];
      latest = [];
    }

    -- `initRum`: the first view
    unfoldable pub init_rum : Bool → Text → ℕ → Outcome
    unfolding push
    init_rum consent pathname now =
        push c consent (view (c.resolve pathname) none true) (start_state pathname now)

    -- The inputs of a page in their order, each with the answer of `beforeSend`, after the first view.
    unfoldable pub run : List (Bool × Input) → State → Outcome
    unfolding step
    run [] s = (s, [])
    run ((consent, i) ∷ is) s =
        let out = step consent s i in let rest = run is (out.0) in (rest.0, out.1 ++ rest.1)

    unfoldable pub session : Bool → Text → ℕ → List (Bool × Input) → Outcome
    unfolding init_rum run
    session consent pathname now is =
        let out = init_rum consent pathname now in
        let rest = run is (out.0) in (rest.0, out.1 ++ rest.1)
