-- ===== src/RumClient.antt =====
-- rum-client/src/index.ts: the client that browsers run. What it asks of the browser (times, URLs,
-- storage, the user agent) is an argument, the metrics of `web-vitals` and the entries of the
-- performance timeline are inputs, and what it sends is the list of beacons that a step returns.
-- Times and measured values are millionths; a difference of times that `Math.max(0, …)` cuts off is
-- a difference on the natural numbers.
pub mod Steps
pub mod Queue
pub mod Buffer
mod Tests
use kube_diagnostics_mcp.Common.{
  ℕ, ◌+◌, ◌-◌, ◌*◌, ◌/◌, Bool, true, false, not, ◌&&◌, ◌||◌, Option, none, some, List, [], ◌∷◌,
  ◌++◌, Text, txt, Map, get, put, same, is_empty, or_else, if◌then◌else◌, ◌==◌, leb, ltb, length,
  Number, nan, infinity, minus_infinity, plus, minus, whole, million, Result, ok, err,
}
use kube_diagnostics_mcp.Regex.{alt, any_of, lit_i, test}
use kube_diagnostics_mcp.Rum.Routes.{without_ids}
use kube_diagnostics_mcp.Strings.{until, slice_to}

pub record NavPhases : Type 0 where
  pub dns : ℕ
  pub connect : ℕ
  pub tls : ℕ
  pub ttfb : ℕ
  pub download : ℕ
  pub dom_interactive : ℕ
  pub dom_content_loaded : ℕ
  pub load : Option ℕ

pub record ResourceEvent : Type 0 where
  pub url : Text
  pub duration_ms : ℕ
  pub status : Option ℕ
  pub initiator : Text
  pub bytes : Option ℕ
  pub route : Text

pub data RumEvent : Type 0 where
  vital : Text → Number → Text → RumEvent
  view : Text → Option ℕ → Bool → RumEvent
  resource : ResourceEvent → RumEvent
  error : Text → Option Text → Text → RumEvent
  nav : Text → NavPhases → RumEvent

-- The latest value of a metric, with the route of its first report and the value sent last.
pub record Latest : Type 0 where
  pub value : Number
  pub route : Text
  pub sent : Option Number

-- What is fixed when the client starts.
pub record Client : Type 0 where
  pub app : Option Text
  pub sampled : Bool
  pub batch_size : ℕ
  pub resolve : Text → Text
  pub session : Text
  pub device : Text
  pub connection : Option Text

pub record State : Type 0 where
  pub current_route : Text
  pub route_started_at : ℕ
  pub buffer : List RumEvent
  pub latest : Map Latest

pub record Beacon : Type 0 where
  pub app : Option Text
  pub session : Text
  pub route : Text
  pub device : Text
  pub connection : Option Text
  pub events : List RumEvent

abbrev pub or_slash : Text → Text
or_slash [] = b'/' ∷ []
or_slash (c ∷ s) = c ∷ s

-- `defaultRouteResolver`; its two patterns are those of the aggregator
unfoldable pub default_route_resolver : Text → Text
unfolding without_ids until
default_route_resolver pathname = without_ids (or_slash (until b'#' (until b'?' pathname)))

-- `deviceClass()`, of the user agent
unfoldable pub device_class : Text → Text
unfolding txt test
device_class ua =
    if test (alt (lit_i (txt "ipad")) (lit_i (txt "tablet"))) ua
    then txt "tablet"
    else if test (any_of (lit_i (txt "mobi")) (lit_i (txt "android") ∷ lit_i (txt "iphone") ∷ []))
        ua
    then txt "mobile"
    else if is_empty ua
    then txt "unknown"
    else txt "desktop"

-- `sessionId()`: what the storage holds, or that it throws; and a fresh random name
unfoldable pub session_id : Result (Unit {0}) (Option Text) → Text → Text
unfolding txt
session_id (err e) fresh = txt "nostorage"
session_id (ok none) fresh = fresh
session_id (ok (some [])) fresh = fresh
session_id (ok (some (c ∷ v))) fresh = c ∷ v

-- `v.sent === v.value`
abbrev pub same_number : Number → Number → Bool
same_number (plus n) (plus m) = n == m
same_number (minus n) (minus m) = n == m
same_number infinity infinity = true
same_number minus_infinity minus_infinity = true
same_number _ _ = false

abbrev pub is_sent : Latest → Bool
is_sent v = elim v.sent [ none ↦ false | some n ↦ same_number n v.value ]

-- `drainVitals()`: the events, and the metrics marked as sent
unfoldable pub drained : Map Latest → List RumEvent
unfolding until
drained [] = []
drained ((k, v) ∷ m) =
    let rest = drained m in if is_sent v then rest else vital (until b':' k) v.value v.route ∷ rest

abbrev pub marked : Map Latest → Map Latest
marked [] = []
marked ((k, v) ∷ m) = (k, if is_sent v then v else record v { sent = some v.value }) ∷ marked m

abbrev pub Outcome : Type 0
Outcome = State × List Beacon

module _ (c : Client) where
  abbrev pub beacon : State → List RumEvent → Beacon
  beacon s events = record {
    app = c.app;
    session = c.session;
    route = s.current_route;
    device = c.device;
    connection = c.connection;
    events = events;
  }

  -- With a consent that is asked for only if there is something to send.
  abbrev pub send : Bool → State → List RumEvent → Outcome
  send consent s [] = (s, [])
  send consent s (e ∷ events) =
      (record s { buffer = [] }, if consent then beacon s (e ∷ events) ∷ [] else [])

  unfoldable pub flush : Bool → State → Outcome
  unfolding drained
  flush consent s =
      if c.sampled
      then send consent
          (record s { buffer = s.buffer ++ drained s.latest; latest = marked s.latest })
          (s.buffer ++ drained s.latest)
      else (s, [])

  unfoldable pub push : Bool → RumEvent → State → Outcome
  unfolding flush
  push consent e s =
      let s' : State = record s { buffer = s.buffer ++ e ∷ [] } in
      if c.sampled
      then (if leb c.batch_size (length s'.buffer) then flush consent s' else (s', []))
      else (s, [])
