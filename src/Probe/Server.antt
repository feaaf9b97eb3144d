-- ===== src/Probe/Server.antt =====
-- src/probe/server.ts: the request handler of `createProbeServer`.
use kube_diagnostics_mcp.Common.{
  ℕ, Bool, false, not, ◌&&◌, ◌||◌, Option, none, some, [], ◌∷◌, ◌++◌, Text, txt, same, includes,
  is_empty, if◌then◌else◌, or_else, Number, whole, Result, ok, err, get, ◌==◌,
}
use kube_diagnostics_mcp.Config.{ProbeConfig}
use kube_diagnostics_mcp.Guard.{GuardError, assert_hostname, assert_port}
use kube_diagnostics_mcp.Json.{Value, bool, num, str, arr, obj, nil, end, field}
use kube_diagnostics_mcp.Probe.{
  Request, param, params_all, Effect, read_connections, read_processes, resolve_dns, tcp_connect,
  fetch_nginx, walk_static, read_access_log, fetch_actuator, World, no_body, plain, Response,
  Outcome,
}
use kube_diagnostics_mcp.Probe.Actuator.{
  Thrown, guard, invalid_metric_name, other, actuator_allow, trim_slashes, actuator_target,
}
use kube_diagnostics_mcp.Rum.Ingest.{ingest}
use kube_diagnostics_mcp.Rum.State.{RumAggregator}
use kube_diagnostics_mcp.Probe.Answers.{
  token_matches, read_body, truthy, json_response, error_body, Case, answer, unavailable, answered,
  refusal, truthy_number, info, fetched,
}

unfoldable pub token_ok : Option Text → Option Text → Bool
unfolding token_matches
token_ok header none = false
token_ok header (some token) = not (is_empty token) && token_matches header token

abbrev pub authorized : ProbeConfig → Request → Bool
authorized c r = c.allow_unauthenticated || token_ok r.authorization c.token

abbrev pub done : Response → Option RumAggregator → Outcome
done response rum = record { response = response; rum = rum; effects = [] }

abbrev pub bare : ℕ → Response
bare status = record { status = status; body = no_body }

abbrev pub accept : RumAggregator × Option ℕ → Outcome
accept (rum, some accepted) = done (bare (if accepted == 0 then 400 else 204)) (some rum)
accept (rum, none) = done (bare 400) (some rum)

module _ (w : World) where
  abbrev pub perform : Effect → Case
  perform e = (e ∷ [], answered (w.run e))

  abbrev pub dns_case : Result GuardError Text → Case
  dns_case (ok name) = perform (resolve_dns name)
  dns_case (err e) = ([], err (guard e))

  abbrev pub connect_case : Result GuardError Text → Result GuardError Number → Case
  connect_case (ok host) (ok port) = perform (tcp_connect host port)
  connect_case (ok host) (err e) = ([], err (guard e))
  connect_case (err e) port = ([], err (guard e))

  unfoldable pub nginx_case : Option Text → Case
  unfolding txt
  nginx_case none = unavailable (txt "DIAG_PROBE_NGINX_STATUS_URL not set")
  nginx_case (some url) = perform (fetch_nginx url)

  unfoldable pub static_case : Option Text → Case
  unfolding txt
  static_case none = answer 200 (
      obj (
        field (txt "available") (bool false) (
          field (txt "note") (str (txt "DIAG_PROBE_STATIC_DIR not set"))
            (field (txt "largest") (arr nil) end))))
  static_case (some dir) = perform (walk_static dir)

  unfoldable pub access_log_case : Option Text → Number → Case
  unfolding txt
  access_log_case none since = answer 200 (
      obj (
        field (txt "available") (bool false) (
          field (txt "note") (str (txt "DIAG_PROBE_ACCESS_LOG_PATH not set"))
            (field (txt "lines") (num (whole 0)) end))))
  access_log_case (some path) since = perform (read_access_log path (truthy_number since))

  unfoldable pub rum_case : Option RumAggregator → Option Text → Case
  unfolding txt
  rum_case none route = unavailable (txt "DIAG_PROBE_RUM_ENABLED is not true on this probe")
  rum_case (some rum) route = answer 200 (w.summary rum route)

  unfoldable pub fetch_case : Result Thrown Text → Case
  unfolding fetched
  fetch_case (err e) = ([], err e)
  fetch_case (ok target) = (fetch_actuator target ∷ [], fetched (w.fetch target))

  unfoldable pub endpoint_case : Text → Text → Request → Case
  unfolding actuator_target actuator_allow includes params_all get txt
  endpoint_case base endpoint r =
      if includes endpoint actuator_allow
      then fetch_case (
          actuator_target w.encode base endpoint (param (txt "metric") r)
            (params_all (txt "tag") r.params))
      else answer 403
          (error_body (txt "actuator endpoint \"" ++ endpoint ++ txt "\" is not allowed"))

  unfoldable pub actuator_case : Option Text → Request → Case
  unfolding endpoint_case trim_slashes get txt
  actuator_case none r = unavailable (txt "DIAG_PROBE_ACTUATOR_URL not set")
  actuator_case (some base) r =
      endpoint_case base (trim_slashes (or_else (param (txt "endpoint") r) (txt "health"))) r

  -- `switch (path)`
  unfoldable pub cases : ProbeConfig → Option RumAggregator → Request → Case
  unfolding info assert_hostname assert_port get same endpoint_case txt
  cases c rum r =
      let at = same r.path in
      if at (txt "/info")
      then answer 200 (info c rum)
      else if at (txt "/connections")
      then perform read_connections
      else if at (txt "/processes")
      then perform read_processes
      else if at (txt "/dns")
      then if c.allow_active_checks
        then dns_case (assert_hostname (or_else (param (txt "name") r) []))
        else refusal
      else if at (txt "/connect")
      then if c.allow_active_checks
        then connect_case (assert_hostname (or_else (param (txt "host") r) []))
            (assert_port (w.number (param (txt "port") r)))
        else refusal
      else if at (txt "/nginx-status")
      then nginx_case (truthy c.nginx_status_url)
      else if at (txt "/static-stats")
      then static_case (truthy c.static_dir)
      else if at (txt "/access-log")
      then access_log_case (truthy c.access_log_path) (w.number (param (txt "sinceSeconds") r))
      else if at (txt "/rum-summary")
      then rum_case rum (param (txt "route") r)
      else if at (txt "/actuator")
      then actuator_case (truthy c.actuator_url) r
      else answer 404 (error_body (txt "not found"))

  unfoldable pub respond : Result Thrown (ℕ × Value) → Response
  unfolding json_response txt
  respond (ok (status, body)) = json_response status body
  respond (err (guard e)) = json_response 400 (error_body (w.message e))
  respond (err invalid_metric_name) = json_response 400 (error_body (txt "invalid metric name"))
  respond (err (other message)) = json_response 500 (error_body message)

  unfoldable pub run_case : Option RumAggregator → Case → Outcome
  unfolding respond
  run_case rum (effects, result) = record {
    response = respond result;
    rum = rum;
    effects = effects;
  }

  -- What comes behind the open paths.
  unfoldable pub guarded : ProbeConfig → Option RumAggregator → Request → Outcome
  unfolding cases json_response respond token_matches same txt
  guarded c rum r =
      if not (authorized c r)
      then done (json_response 401 (error_body (txt "unauthorized"))) rum
      else if not (same r.method (txt "GET"))
      then done (json_response 405 (error_body (txt "method not allowed"))) rum
      else run_case rum (cases c rum r)

  unfoldable pub metrics_text : Option RumAggregator → Text
  unfolding txt
  metrics_text none = txt "# rum disabled\n"
  metrics_text (some rum) = w.prometheus rum

  unfoldable pub handle_rest : ProbeConfig → Option RumAggregator → Request → Outcome
  unfolding guarded same txt
  handle_rest c rum r =
      if same r.path (txt "/metrics") && same r.method (txt "GET")
      then done (record { status = 200; body = plain (metrics_text rum) }) rum
      else if same r.path (txt "/healthz")
      then done (record { status = 200; body = plain (txt "ok") }) rum
      else guarded c rum r

  unfoldable pub ingest_body : RumAggregator → Option Value → Outcome
  unfolding ingest
  ingest_body rum none = done (bare 400) (some rum)
  ingest_body rum (some raw) = accept (ingest w.js w.now raw rum)

  unfoldable pub post_rum : RumAggregator → Option Text → Outcome
  unfolding ingest_body
  post_rum rum none = done (bare 413) (some rum)
  post_rum rum (some body) = ingest_body rum (w.parse_json body)

  -- `handle(req, res)`: what is answered, the aggregator afterwards, and the effects.
  unfoldable pub handle : ProbeConfig → Option RumAggregator → Request → Outcome
  unfolding handle_rest post_rum read_body same txt
  handle c none r = handle_rest c none r
  handle c (some rum) r =
      if same r.path (txt "/rum") && same r.method (txt "POST")
      then post_rum rum (read_body c.rum_max_body_bytes 0 r.body)
      else handle_rest c (some rum) r
