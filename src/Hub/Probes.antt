-- ===== src/Hub/Probes.antt =====
-- src/probe/client.ts: the hub's client of the sidecars, with its cache of those that did not answer.
pub mod Cache
mod Tests
use kube_diagnostics_mcp.Common.{
  ℕ, ◌+◌, ◌-◌, ◌*◌, ◌/◌, Bool, true, false, not, ◌&&◌, ◌||◌, Option, none, some, List, [], ◌∷◌,
  ◌++◌, map, find, any, Text, txt, same, Map, get, put, remove, or_else, ltb, print, if◌then◌else◌,
  ◌==◌, Result, ok, err, ◌>>=◌,
}
use kube_diagnostics_mcp.Config.{HubConfig}
use kube_diagnostics_mcp.Hub.Model.{Pod, Container, Port}
use kube_diagnostics_mcp.Hub.Model.Summary.{has_probe_container}
use kube_diagnostics_mcp.Json.{Value, member, as_text}

-- `ProbeUnavailable`, by its message.
pub data Unavailable : Type 0 where
  no_sidecar : Text → Text → Unavailable
  no_address : Text → Text → Unavailable
  recently_unreachable : Text → ℕ → ℕ → Unavailable
  refused_by_probe : Text → ℕ → Option Text → Unavailable
  unreachable : Text → Text → Unavailable

-- A parameter of the query: missing, one value, or several.
pub data Param : Type 0 where
  missing_param : Param
  one_param : Text → Param
  many_params : List Text → Param

pub record ProbeRequest : Type 0 where
  pub base : Text
  pub path : Text
  pub query : Map Text
  pub token : Option Text

-- What a request brings back: a status with a body that parses as JSON, or an error.
pub data Answer : Type 0 where
  replied : ℕ → Value → Answer
  threw : Text → Answer

-- `podIP -> time until which we consider the probe unreachable`, by base URL
abbrev pub Cache : Type 0
Cache = Map ℕ

abbrev pub negative_cache_ms : ℕ
negative_cache_ms = 20000

abbrev pub named_port : Option Port → ℕ → ℕ
named_port none fallback = fallback
named_port (some p) fallback = p.container_port

unfoldable pub is_probe_port : Option Text → Bool
unfolding same txt
is_probe_port none = false
is_probe_port (some s) = same s (txt "probe")

unfoldable pub port_of : Option Container → ℕ → ℕ
unfolding is_probe_port find
port_of none fallback = fallback
port_of (some c) fallback =
    named_port (find (λ (p : Port). is_probe_port p.port_name) c.ports) fallback

-- An IPv6 address stands in brackets.
unfoldable pub host_of : Text → Text
unfolding any txt
host_of ip = if any (λ c. c == b':') ip then txt "[" ++ (ip ++ txt "]") else ip

unfoldable pub url_of : HubConfig → Pod → Option Text → Result Unavailable Text
unfolding host_of port_of print find same txt
url_of c p none = err (no_address (or_else p.name (txt "?")) (or_else p.phase (txt "unknown")))
url_of c p (some []) = err (no_address (or_else p.name (txt "?")) (or_else p.phase (txt "unknown")))
url_of c p (some (d ∷ ip)) =
    let container =
      find (λ (k : Container). same k.name c.probe_container_name)
        (p.init_containers ++ p.containers) in
    ok (txt "http://" ++ (host_of (d ∷ ip) ++ (txt ":" ++ print (port_of container c.probe_port))))

unfoldable pub base_url : HubConfig → Pod → Result Unavailable Text
unfolding url_of has_probe_container txt
base_url c p =
    if not (has_probe_container p c.probe_container_name)
    then err (no_sidecar (or_else p.name (txt "?")) c.probe_container_name)
    else url_of c p p.pod_ip

abbrev pub values_of : Text → List Text → Map Text
values_of k [] = []
values_of k (v ∷ vs) = (k, v) ∷ values_of k vs

unfoldable pub query_of : Map Param → Map Text
query_of [] = []
query_of ((k, missing_param) ∷ m) = query_of m
query_of ((k, one_param v) ∷ m) = (k, v) ∷ query_of m
query_of ((k, many_params vs) ∷ m) = values_of k vs ++ query_of m

-- The cache afterwards, the requests made, and what is returned or thrown.
pub record Fetch : Type 0 where
  pub cache : Cache
  pub requests : List ProbeRequest
  pub result : Result Unavailable Value

-- `Math.round(ms / 1000)`
abbrev pub seconds : ℕ → ℕ
seconds ms = (ms + 500) / 1000

abbrev pub is_ok : ℕ → Bool
is_ok status = ltb 199 status && ltb status 300

module _ (c : HubConfig) (answers : ProbeRequest → Answer) (now later : ℕ) where
  -- The `try` block and its `catch`; `later` is the time at which it fails.
  unfoldable pub settled : Cache → ProbeRequest → Answer → Fetch
  unfolding put remove member txt
  settled cache r (replied status body) =
      if is_ok status
      then record { cache = remove r.base cache; requests = r ∷ []; result = ok body }
      else record {
        cache = cache;
        requests = r ∷ [];
        result = err (refused_by_probe r.path status (as_text (member (txt "error") body)));
      }
  settled cache r (threw message) = record {
    cache = put r.base (later + negative_cache_ms) cache;
    requests = r ∷ [];
    result = err (unreachable r.base message);
  }

  unfoldable pub ask : Cache → Text → Text → Map Param → Fetch
  unfolding settled query_of
  ask cache base path params =
      let r : ProbeRequest = record {
        base = base;
        path = path;
        query = query_of params;
        token = c.probe_token;
      } in
      settled cache r (answers r)

  unfoldable pub get_from : Cache → Text → Text → Map Param → Option ℕ → Fetch
  unfolding ask
  get_from cache base path params none = ask cache base path params
  get_from cache base path params (some limit) =
      if ltb now limit
      then record {
        cache = cache;
        requests = [];
        result = err (
            recently_unreachable base (seconds (now + negative_cache_ms - limit))
              (seconds (limit - now)));
      }
      else ask cache base path params

  unfoldable pub get_based : Cache → Text → Map Param → Result Unavailable Text → Fetch
  unfolding get_from get
  get_based cache path params (err e) = record { cache = cache; requests = []; result = err e }
  get_based cache path params (ok base) = get_from cache base path params (get base cache)

  -- `get(pod, path, params)`
  unfoldable pub fetch_from_probe : Cache → Pod → Text → Map Param → Fetch
  unfolding get_based base_url
  fetch_from_probe cache p path params = get_based cache path params (base_url c p)

  unfoldable pub probe_info : Cache → Pod → Fetch
  unfolding fetch_from_probe txt
  probe_info cache p = fetch_from_probe cache p (txt "/info") []

  unfoldable pub probe_connections : Cache → Pod → Fetch
  unfolding fetch_from_probe txt
  probe_connections cache p = fetch_from_probe cache p (txt "/connections") []

  unfoldable pub probe_processes : Cache → Pod → Fetch
  unfolding fetch_from_probe txt
  probe_processes cache p = fetch_from_probe cache p (txt "/processes") []

  unfoldable pub probe_nginx_status : Cache → Pod → Fetch
  unfolding fetch_from_probe txt
  probe_nginx_status cache p = fetch_from_probe cache p (txt "/nginx-status") []

  unfoldable pub probe_static_stats : Cache → Pod → Fetch
  unfolding fetch_from_probe txt
  probe_static_stats cache p = fetch_from_probe cache p (txt "/static-stats") []

  unfoldable pub probe_dns : Cache → Pod → Text → Fetch
  unfolding fetch_from_probe txt
  probe_dns cache p name = fetch_from_probe cache p (txt "/dns") ((txt "name", one_param name) ∷ [])

  unfoldable pub probe_connect : Cache → Pod → Text → ℕ → Fetch
  unfolding fetch_from_probe print txt
  probe_connect cache p host port =
      fetch_from_probe cache p (txt "/connect")
        ((txt "host", one_param host) ∷ (txt "port", one_param (print port)) ∷ [])

  abbrev pub param_of : Option Text → Param
  param_of none = missing_param
  param_of (some s) = one_param s

  -- 0 seconds are no limit.
  abbrev pub since_param : Option ℕ → Param
  unfolding print
  since_param none = missing_param
  since_param (some n) = if n == 0 then missing_param else one_param (print n)

  unfoldable pub probe_access_log : Cache → Pod → Option ℕ → Fetch
  unfolding fetch_from_probe since_param txt
  probe_access_log cache p since =
      fetch_from_probe cache p (txt "/access-log") ((txt "sinceSeconds", since_param since) ∷ [])

  unfoldable pub probe_rum_summary : Cache → Pod → Option Text → Fetch
  unfolding fetch_from_probe txt
  probe_rum_summary cache p route =
      fetch_from_probe cache p (txt "/rum-summary") ((txt "route", param_of route) ∷ [])

  unfoldable pub probe_actuator : Cache → Pod → Text → Option Text → List Text → Fetch
  unfolding fetch_from_probe txt
  probe_actuator cache p endpoint metric tags = fetch_from_probe cache p (txt "/actuator") (
      (txt "endpoint", one_param endpoint)
      ∷ (txt "metric", param_of metric)
      ∷ (txt "tag", many_params tags)
      ∷ [])
