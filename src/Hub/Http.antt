-- ===== src/Hub/Http.antt =====
-- src/hub/transport/http.ts: the sessions of the hub's HTTP transport. The protocol server of a
-- session and its transport belong to the MCP SDK: an argument says what the transport does with a
-- request. A session is a number of the transport that the SDK's identifier stands for.
pub mod Sessions
mod Tests
use kube_diagnostics_mcp.Common.{
  ℕ, ◌+◌, ◌*◌, Bool, true, false, not, ◌&&◌, ◌||◌, Option, none, some, List, [], ◌∷◌, ◌++◌, Text,
  txt, Map, get, put, has, remove, same, is_empty, is_some, length, ltb, if◌then◌else◌, Result, ok,
  err,
}
use kube_diagnostics_mcp.Config.{HubConfig}
use kube_diagnostics_mcp.Json.{Value, member, as_text, is_object}
use kube_diagnostics_mcp.Probe.Answers.{token_matches, read_body}

-- The header "mcp-session-id" with the first of several values taken.
pub record Request : Type 0 where
  pub path : Text
  pub method : Text
  pub authorization : Option Text
  pub session : Option Text
  pub body : List Text

-- The sessions by identifier, the transport of each, and the number of the next transport.
pub record State : Type 0 where
  pub sessions : Map ℕ
  pub next : ℕ

pub data Reply : Type 0 where
  healthy not_found unauthorized bad_request unknown_session method_not_allowed failed : Reply
  handled : ℕ → Option Value → Reply

-- What a transport reports: a session begins under a new identifier, or the transport closes, with
-- its identifier if it has one.
pub data Event : Type 0 where
  initialized : Text → Event
  closed : Option Text → Event

-- The SDK's transports, by the events in which the transport of a number handles a request, and the
-- runtime's JSON parser.
pub record Sdk : Type 0 where
  pub events : ℕ → Request → Option Value → List Event
  pub parse_json : Text → Option Value

unfoldable pub token_ok : Option Text → Option Text → Bool
unfolding token_matches
token_ok header none = false
token_ok header (some token) = not (is_empty token) && token_matches header token

-- `authorized(req, config)`
unfoldable pub authorized : Request → HubConfig → Bool
unfolding token_ok
authorized r c = c.allow_unauthenticated || token_ok r.authorization c.http_token

-- `onsessioninitialized` and `onclose`
unfoldable pub on_event : ℕ → Event → State → State
unfolding put remove
on_event n (initialized id) s = record s { sessions = put id n s.sessions }
on_event n (closed none) s = s
on_event n (closed (some id)) s =
    if is_empty id then s else record s { sessions = remove id s.sessions }

unfoldable pub on_events : ℕ → List Event → State → State
unfolding on_event
on_events n [] s = s
on_events n (e ∷ es) s = on_events n es (on_event n e s)

-- A missing and an empty header are no session.
abbrev pub sid_of : Option Text → Option Text
sid_of none = none
sid_of (some []) = none
sid_of (some (c ∷ s)) = some (c ∷ s)

-- `sid && sessions.get(sid)`
unfoldable pub session_of : State → Option Text → Option ℕ
unfolding get
session_of s none = none
session_of s (some sid) = get sid s.sessions

abbrev pub max_body_bytes : ℕ
max_body_bytes = 4 * 1024 * 1024

-- Whether the body is an object with the method "initialize".
unfoldable pub is_init : Option Value → Bool
unfolding same txt member
is_init none = false
is_init (some body) = is_object body && is_word (as_text (member (txt "method") body))
  where
    is_word : Option Text → Bool
    is_word none = false
    is_word (some t) = same t (txt "initialize")

-- `readJson(req)`: an empty body is undefined, and what is too large or no JSON is thrown.
unfoldable pub parsed : Sdk → Option Text → Result (Unit {0}) (Option Value)
parsed sdk none = err tt
parsed sdk (some []) = ok none
parsed sdk (some (c ∷ text)) = required (sdk.parse_json (c ∷ text))
  where
    required : Option Value → Result (Unit {0}) (Option Value)
    required none = err tt
    required (some v) = ok (some v)

module _ (sdk : Sdk) (c : HubConfig) where
  -- `transport.handleRequest(req, res, body)`
  unfoldable pub delegate : ℕ → Request → Option Value → State → State × Reply
  unfolding on_events
  delegate n r body s = (on_events n (sdk.events n r body) s, handled n body)

  unfoldable pub start_session : Request → Option Value → State → State × Reply
  unfolding delegate
  start_session r body s = delegate s.next r body (record s { next = s.next + 1 })

  unfoldable pub post_body : State → Request → Option ℕ → Option Value → State × Reply
  unfolding delegate start_session is_init
  post_body s r (some n) body = delegate n r body s
  post_body s r none body =
      if not (is_some (sid_of r.session)) && is_init body
      then start_session r body s
      else (s, bad_request)

  unfoldable pub post : State → Request → Result (Unit {0}) (Option Value) → State × Reply
  unfolding post_body session_of
  post s r (err thrown) = (s, failed)
  post s r (ok body) = post_body s r (session_of s (sid_of r.session)) body

  unfoldable pub follow : State → Request → Option ℕ → State × Reply
  unfolding delegate
  follow s r none = (s, unknown_session)
  follow s r (some n) = delegate n r none s

  -- `handle(req, res)`
  unfoldable pub handle : State → Request → State × Reply
  unfolding authorized post parsed read_body follow session_of same txt
  handle s r =
      if same r.path (txt "/healthz")
      then (s, healthy)
      else if not (same r.path (txt "/mcp"))
      then (s, not_found)
      else if not (authorized r c)
      then (s, unauthorized)
      else if same r.method (txt "POST")
      then post s r (parsed sdk (read_body max_body_bytes 0 r.body))
      else if same r.method (txt "GET") || same r.method (txt "DELETE")
      then follow s r (session_of s (sid_of r.session))
      else (s, method_not_allowed)
