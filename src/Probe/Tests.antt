-- ===== src/Probe/Tests.antt =====
-- Runs of the sidecar's handler, and the theorems at concrete requests.
use kube_diagnostics_mcp.Common.{
  ◌≡◌, refl, true, false, none, some, [], ◌∷◌, Text, txt, All, nan, ok,
}
use kube_diagnostics_mcp.Config.{ProbeConfig}
use kube_diagnostics_mcp.Json.{null, obj, end}
use kube_diagnostics_mcp.Probe.{Request, fetch_actuator, World}
use kube_diagnostics_mcp.Probe.Access.{Allowed, handle-Allowed}
use kube_diagnostics_mcp.Probe.Actuator.{tag_query}
use kube_diagnostics_mcp.Probe.Server.{handle, run_case, actuator_case, fetch_case, token_ok}
use kube_diagnostics_mcp.Rum.Ingest.{Runtime}

abbrev small_runtime : Runtime
small_runtime = record { number = λ v. some nan; string = λ v. some []; parse_url = λ u. none }

-- Everything answers null, and every body parses as an object without events.
abbrev quiet_world : World
quiet_world = record {
  run = λ e. ok null;
  fetch = λ u.
      ok
        (record { status = 200; content_type = txt "application/json"; json = ok null; text = [] });
  number = λ s. nan;
  encode = λ s. s;
  parse_json = λ s. some (obj end);
  prometheus = λ a. [];
  summary = λ a route. null;
  message = λ e. [];
  js = small_runtime;
  now = 1000;
}

abbrev closed_config : ProbeConfig
closed_config = record {
  host = txt "0.0.0.0";
  port = 9911;
  token = some (txt "t0ken");
  allow_unauthenticated = false;
  allow_active_checks = false;
  actuator_url = some (txt "http://localhost:8081/actuator");
  nginx_status_url = none;
  static_dir = none;
  access_log_path = none;
  rum_enabled = true;
  rum_max_body_bytes = 8192;
  rum_retention_minutes = 360;
  pod_name = none;
  pod_namespace = none;
}

-- A request for one metric of the Actuator, with the configured token.
abbrev metric_request : Text → Request
metric_request metric = record {
  path = txt "/actuator";
  method = txt "GET";
  authorization = some (txt "Bearer t0ken");
  params = (txt "endpoint", txt "/metrics") ∷ (txt "metric", metric) ∷ [];
  body = [];
}

abbrev beacon_request : Request
beacon_request = record {
  path = txt "/rum";
  method = txt "POST";
  authorization = none;
  params = [];
  body = txt "{}" ∷ [];
}

metric_runs :
    (handle quiet_world closed_config none (metric_request (txt "jvm.threads.live"))).effects
    ≡ fetch_actuator (txt "http://localhost:8081/actuator/metrics/jvm.threads.live") ∷ []
unfolding handle txt run_case token_ok actuator_case fetch_case tag_query
metric_runs = refl

-- A metric that consists of dots passes the pattern.
dots_run :
    (handle quiet_world closed_config none (metric_request (txt ".."))).effects
    ≡ fetch_actuator (txt "http://localhost:8081/actuator/metrics/..") ∷ []
unfolding handle txt run_case token_ok actuator_case fetch_case tag_query
dots_run = refl

no_token_run :
    (handle quiet_world closed_config none (record (metric_request (txt "a")) {
      authorization = some (txt "Bearer t0keN");
    })).response.status
    ≡ 401
unfolding handle txt run_case token_ok actuator_case fetch_case tag_query
no_token_run = refl

handle-Allowed_example :
    All
      (Allowed closed_config (metric_request (txt "a")))
      (handle quiet_world closed_config none (metric_request (txt "a"))).effects
handle-Allowed_example = handle-Allowed quiet_world closed_config none (metric_request (txt "a"))
