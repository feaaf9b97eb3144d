-- ===== src/Rum/Ingest.antt =====
-- src/probe/rum.ts: `ingest`. `Number(…)` and `String(…)` of an arbitrary JSON value are arguments,
-- as is the runtime's URL parser; what is proved holds for any. A conversion is none where it throws
-- a TypeError, as for an object whose `toString` is null: this ends `ingest`, with what it had done.
use kube_diagnostics_mcp.Common.{
  ℕ, ◌+◌, ◌-◌, ◌*◌, Bool, not, ◌&&◌, ◌||◌, Option, none, some, List, [], ◌∷◌, ◌++◌, Text, txt, get,
  put, has, length, take, leb, ltb, or_else, if◌then◌else◌, same, includes, ◌==◌, Number, plus,
  is_finite, less, million,
}
use kube_diagnostics_mcp.Json.{Value, member, is_object, as_text, as_array, is_true}
use kube_diagnostics_mcp.Regex.{test}
use kube_diagnostics_mcp.Regex.Anchored.{all_of}
use kube_diagnostics_mcp.Regex.Classes.{is_word}
use kube_diagnostics_mcp.Rum.Routes.{
  UrlParser, normalize_route, normalize_resource_url, error_signature,
}
use kube_diagnostics_mcp.Rum.Samples.{Samples, push_sample}
use kube_diagnostics_mcp.Rum.State.{
  RumAggregator, View, Resource, ErrorEntry, bucket_push, prune, max_routes, max_resources,
  max_errors,
}
use kube_diagnostics_mcp.Sanitize.Rules.{redact_text}
use kube_diagnostics_mcp.Strings.{slice_to}

pub record Runtime : Type 0 where
  pub number : Value → Option Number
  pub string : Value → Option Text
  pub parse_url : UrlParser

abbrev pub vital_names : List Text
vital_names = txt "LCP" ∷ txt "INP" ∷ txt "CLS" ∷ txt "FCP" ∷ txt "TTFB" ∷ []

abbrev pub nav_phases : List Text
nav_phases =
    txt "dns"
    ∷ txt "connect"
    ∷ txt "tls"
    ∷ txt "ttfb"
    ∷ txt "download"
    ∷ txt "domInteractive"
    ∷ txt "domContentLoaded"
    ∷ txt "load"
    ∷ []

abbrev pub device_kinds : List Text
device_kinds = txt "mobile" ∷ txt "desktop" ∷ txt "tablet" ∷ []

-- A measure that is finite and between 0 and 600000, the end included.
abbrev pub up_to_limit : Number → Option ℕ
up_to_limit (plus n) = if ltb (600000 * million) n then none else some n
up_to_limit _ = none

-- A measure that is finite and between 0 and 600000, the end excluded.
abbrev pub below_limit : Number → Option ℕ
below_limit (plus n) = if ltb n (600000 * million) then some n else none
below_limit _ = none

-- `status >= 400`, of a finite number
abbrev pub is_error_status : Number → Bool
is_error_status v = is_finite v && not (less v 400)

-- `set.add(route)` while the set is below 20
unfoldable pub add_route : Text → List Text → List Text
unfolding includes
add_route route routes =
    if ltb (length routes) 20 && not (includes route routes) then routes ++ route ∷ [] else routes

-- How an event ended: passed over, counted, or by an error.
pub data Verdict : Type 0 where
  skipped accepted thrown : Verdict

abbrev pub Outcome : Type 0
Outcome = RumAggregator × Verdict

module _ (js : Runtime) (now : ℕ) where
  unfoldable pub file_vital : RumAggregator → Text → Text → Option ℕ → Outcome
  unfolding bucket_push includes txt
  file_vital a route name none = (a, skipped)
  file_vital a route name (some value) =
      if includes name vital_names
      then (record a { vitals = bucket_push route name value now a.vitals }, accepted)
      else (a, skipped)

  unfoldable pub convert_vital : RumAggregator → Text → Option Text → Option Number → Outcome
  unfolding file_vital
  convert_vital a route (some name) (some value) = file_vital a route name (up_to_limit value)
  convert_vital a route _ _ = (a, thrown)

  unfoldable pub ingest_vital : RumAggregator → Text → Value → Outcome
  unfolding convert_vital txt
  ingest_vital a route e =
      convert_vital a route (js.string (member (txt "name") e)) (js.number (member (txt "value") e))

  abbrev pub push_duration : Option ℕ → Samples → Samples
  push_duration none samples = samples
  push_duration (some d) samples = push_sample d now samples

  -- The entry is counted before its duration is converted: an entry of the map keeps that.
  unfoldable pub file_view : RumAggregator → Text → View → Option Number → Outcome
  unfolding put push_sample get
  file_view a route v none =
      (if has route a.views then record a { views = put route v a.views } else a, thrown)
  file_view a route v (some d) = (
    record a {
      views =
          put route (record v { durations = push_duration (below_limit d) v.durations }) a.views;
    },
    accepted,
  )

  unfoldable pub ingest_view : RumAggregator → Text → Value → Outcome
  unfolding get file_view txt
  ingest_view a route e =
      let v : View =
        or_else (get route a.views) (record { views = 0; entries = 0; durations = [] }) in
      if not (has route a.views) && leb max_routes (length a.views)
      then (a, skipped)
      else file_view a route
          (record {
            views = v.views + 1;
            entries = if is_true (member (txt "entry") e) then v.entries + 1 else v.entries;
            durations = v.durations;
          })
          (js.number (member (txt "durationMs") e))

  -- So is a resource, with its time, before its status is converted.
  unfoldable pub file_timed : RumAggregator → Text → Text → Resource → Option Number → Outcome
  unfolding put get add_route
  file_timed a route key r none =
      (if has key a.resources then record a { resources = put key r a.resources } else a, thrown)
  file_timed a route key r (some status) = (
    record a {
      resources =
          put key
            (record r {
              errors = if is_error_status status then r.errors + 1 else r.errors;
              routes = add_route route r.routes;
            })
            a.resources;
    },
    accepted,
  )

  unfoldable pub count_resource : RumAggregator → Text → Text → ℕ → Option Number → Outcome
  unfolding get put push_sample file_timed
  count_resource a route key d status =
      let r : Resource =
        or_else (get key a.resources) (record { count = 0; times = []; errors = 0; routes = [] }) in
      if not (has key a.resources) && leb max_resources (length a.resources)
      then (a, skipped)
      else file_timed a route key
          (record r { count = r.count + 1; times = push_sample d now r.times }) status

  unfoldable pub time_resource : RumAggregator → Text → Value → Text → Option ℕ → Outcome
  unfolding count_resource txt
  time_resource a route e key none = (a, skipped)
  time_resource a route e key (some d) =
      count_resource a route key d (js.number (member (txt "status") e))

  unfoldable pub convert_resource : RumAggregator → Text → Value → Text → Option Number → Outcome
  unfolding time_resource
  convert_resource a route e key none = (a, thrown)
  convert_resource a route e key (some d) = time_resource a route e key (up_to_limit d)

  unfoldable pub file_resource : RumAggregator → Text → Value → Option Text → Outcome
  unfolding convert_resource normalize_resource_url txt
  file_resource a route e none = (a, skipped)
  file_resource a route e (some url) =
      convert_resource a route e (normalize_resource_url js.parse_url url)
        (js.number (member (txt "durationMs") e))

  unfoldable pub ingest_resource : RumAggregator → Text → Value → Outcome
  unfolding file_resource txt
  ingest_resource a route e = file_resource a route e (as_text (member (txt "url") e))

  unfoldable pub count_error : RumAggregator → Text → Text → Text → Outcome
  unfolding get put add_route
  count_error a route sig message =
      let er : ErrorEntry = or_else (get sig a.errors) (record {
        count = 0;
        first = now;
        last = now;
        routes = [];
        sample = slice_to 200 message;
      }) in
      if not (has sig a.errors) && leb max_errors (length a.errors) then (a, skipped) else (
        record a {
          errors =
              put sig
                (record er { count = er.count + 1; last = now; routes = add_route route er.routes })
                a.errors;
        },
        accepted,
      )

  abbrev pub redacted_stack : Option Text → Option Text
  redacted_stack none = none
  redacted_stack (some s) = some (redact_text (slice_to 2000 s))

  unfoldable pub file_error : RumAggregator → Text → Value → Option Text → Outcome
  unfolding count_error error_signature redact_text txt
  file_error a route e none = (a, skipped)
  file_error a route e (some raw) =
      let message = redact_text (slice_to 500 raw) in
      let stack = redacted_stack (as_text (member (txt "stack") e)) in
      count_error a route (error_signature message stack) message

  unfoldable pub ingest_error : RumAggregator → Text → Value → Outcome
  unfolding file_error txt
  ingest_error a route e = file_error a route e (as_text (member (txt "message") e))

  abbrev pub push_phase : Text → Text → Option ℕ → RumAggregator → RumAggregator
  push_phase route phase none a = a
  push_phase route phase (some v) a = record a { nav = bucket_push route phase v now a.nav }

  unfoldable pub push_phases : Text → Value → List Text → RumAggregator → Outcome
  unfolding bucket_push
  push_phases route e [] a = (a, accepted)
  push_phases route e (phase ∷ phases) a =
      next_phase route phase (λ a'. push_phases route e phases a') a (js.number (member phase e))
    where
      next_phase : Text → Text → (RumAggregator → Outcome) → RumAggregator → Option Number → Outcome
      next_phase route phase rest a none = (a, thrown)
      next_phase route phase rest a (some v) = rest (push_phase route phase (below_limit v) a)

  unfoldable pub ingest_nav : RumAggregator → Text → Value → Outcome
  unfolding push_phases
  ingest_nav a route e = push_phases route e nav_phases a

  -- `switch (e.type)`
  unfoldable pub dispatch : RumAggregator → Text → Value → Option Text → Outcome
  unfolding ingest_vital ingest_view ingest_resource ingest_error ingest_nav same txt
  dispatch a route e none = (a, skipped)
  dispatch a route e (some type) =
      if same type (txt "vital")
      then ingest_vital a route e
      else if same type (txt "view")
      then ingest_view a route e
      else if same type (txt "resource")
      then ingest_resource a route e
      else if same type (txt "error")
      then ingest_error a route e
      else if same type (txt "nav")
      then ingest_nav a route e
      else (a, skipped)

  unfoldable pub ingest_event : Text → RumAggregator → Value → Outcome
  unfolding dispatch normalize_route txt
  ingest_event beacon_route a e =
      if is_object e
      then dispatch a
          (normalize_route (some (or_else (as_text (member (txt "route") e)) beacon_route))) e
          (as_text (member (txt "type") e))
      else (a, skipped)

  -- The new state, and what was returned, if nothing was thrown.
  abbrev pub Ingested : Type 0
  Ingested = RumAggregator × Option ℕ

  unfoldable pub go_on : (RumAggregator → ℕ → Ingested) → ℕ → Outcome → Ingested
  go_on rest n (a, skipped) = rest a n
  go_on rest n (a, accepted) = rest a (n + 1)
  go_on rest n (a, thrown) = (a, none)

  -- The loop over the events, from the number of those accepted.
  unfoldable pub ingest_events : Text → List Value → RumAggregator → ℕ → Ingested
  unfolding ingest_event go_on
  ingest_events beacon_route [] a n = (a, some n)
  ingest_events beacon_route (e ∷ events) a n =
      go_on (λ a' n'. ingest_events beacon_route events a' n') n (ingest_event beacon_route a e)

  abbrev pub session_pattern : Text → Bool
  session_pattern = test (all_of (λ c. is_word c || c == b'-') 4 64)

  abbrev pub device_of : Value → Text
  device_of b = elim (as_text (member (txt "device") b)) [
    | none ↦ txt "unknown"
    | some d ↦ if includes d device_kinds then d else txt "unknown"
  ]

  unfoldable pub note_session : Option Text → RumAggregator → RumAggregator
  unfolding put test
  note_session none a = a
  note_session (some id) a =
      if session_pattern id then record a { sessions = put id now a.sessions } else a

  -- What `ingest` does before its loop: the device count and the session.
  unfoldable pub open_beacon : Value → RumAggregator → RumAggregator
  unfolding get put note_session txt includes
  open_beacon b a =
      let device = device_of b in
      note_session (as_text (member (txt "session") b))
        (record a { devices = put device (or_else (get device a.devices) 0 + 1) a.devices })

  -- `if (now - this.lastPrune > 60_000) this.prune(now)`
  unfoldable pub prune_if_due : RumAggregator → RumAggregator
  unfolding prune
  prune_if_due a = if ltb 60000 (now - a.last_prune) then prune now a else a

  unfoldable pub close_beacon : Ingested → Ingested
  unfolding prune_if_due
  close_beacon (a, none) = (a, none)
  close_beacon (a, some n) = (prune_if_due a, some n)

  unfoldable pub ingest_list : Value → RumAggregator → Option (List Value) → Ingested
  unfolding open_beacon ingest_events close_beacon normalize_route txt take
  ingest_list raw a none = (a, some 0)
  ingest_list raw a (some events) = close_beacon (
      ingest_events (normalize_route (as_text (member (txt "route") raw))) (take 200 events)
        (open_beacon raw a) 0)

  -- `ingest(raw, now)`: the new state, and the number of events accepted.
  unfoldable pub ingest : Value → RumAggregator → Ingested
  unfolding ingest_list txt
  ingest raw a = ingest_list raw a (as_array (member (txt "events") raw))
