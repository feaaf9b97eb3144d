-- ===== src/Probe.antt =====
-- src/probe/server.ts: what the sidecar's server reads, answers and does. What it asks of the
-- system (sockets, files, the network) is an effect, and a run lists its effects in order.
pub mod Actuator
pub mod Answers
pub mod Server
pub mod Access
pub mod Bodies
pub mod Net
pub mod AccessLog
mod Tests
use kube_diagnostics_mcp.Common.{
  ℕ, Bool, true, false, Option, none, some, List, [], ◌∷◌, ◌++◌, Text, txt, Map, get, map, filter,
  same, Number, Result, if◌then◌else◌,
}
use kube_diagnostics_mcp.Guard.{GuardError}
use kube_diagnostics_mcp.Json.{Value}
use kube_diagnostics_mcp.Rum.Ingest.{Runtime}
use kube_diagnostics_mcp.Rum.State.{RumAggregator}

-- A request with its URL parsed; the body is in the chunks in which it arrives.
pub record Request : Type 0 where
  pub path : Text
  pub method : Text
  pub authorization : Option Text
  pub params : Map Text
  pub body : List Text

-- `url.searchParams.get(name)`
abbrev pub param : Text → Request → Option Text
param name r = get name r.params

-- `url.searchParams.getAll(name)`
unfoldable pub params_all : Text → Map Text → List Text
params_all name [] = []
params_all name ((k, v) ∷ m) = if same k name then v ∷ params_all name m else params_all name m

pub data Effect : Type 0 where
  read_connections read_processes : Effect
  resolve_dns : Text → Effect
  tcp_connect : Text → Number → Effect
  fetch_nginx walk_static : Text → Effect
  read_access_log : Text → Option Number → Effect
  fetch_actuator : Text → Effect

-- What the request to the Actuator brings back; parsing its body as JSON may throw.
pub record Fetched : Type 0 where
  pub status : ℕ
  pub content_type : Text
  pub json : Result Text Value
  pub text : Text

-- The system and the runtime around the server.
pub record World : Type 0 where
  pub run : Effect → Result Text Value
  pub fetch : Text → Result Text Fetched
  pub number : Option Text → Number
  pub encode : Text → Text
  pub parse_json : Text → Option Value
  pub prometheus : RumAggregator → Text
  pub summary : RumAggregator → Option Text → Value
  pub message : GuardError → Text
  pub js : Runtime
  pub now : ℕ

pub data Body : Type 0 where
  no_body : Body
  plain : Text → Body
  json : Value → Body

pub record Response : Type 0 where
  pub status : ℕ
  pub body : Body

pub record Outcome : Type 0 where
  pub response : Response
  pub rum : Option RumAggregator
  pub effects : List Effect
