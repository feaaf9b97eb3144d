-- ===== src/Hub/Http/Tests.antt =====
-- Runs of the transport, and the theorems at concrete requests.
use kube_diagnostics_mcp.Common.{◌≡◌, refl, false, none, some, [], ◌∷◌, txt, drop}
use kube_diagnostics_mcp.Config.{HubConfig, http}
use kube_diagnostics_mcp.Hub.Http.{Request, State, unauthorized, handled, initialized, Sdk, handle}
use kube_diagnostics_mcp.Hub.Http.Sessions.{Routed, handle-Routed}
use kube_diagnostics_mcp.Json.{Value, obj, field, end, str, member}

abbrev init_message : Value
unfolding txt
init_message = obj (field (txt "method") (str (txt "initialize")) end)

-- Every body is an initialize message, and a transport begins the session "s1".
abbrev one_session : Sdk
unfolding txt
one_session = record {
  events = λ n r body. initialized (txt "s1") ∷ [];
  parse_json = λ s. some init_message;
}

abbrev token_config : HubConfig
unfolding txt
token_config = record {
  transport = http;
  http_host = txt "0.0.0.0";
  http_port = 8090;
  http_token = some (txt "t0ken");
  allow_unauthenticated = false;
  namespaces = [];
  default_namespace = none;
  allow_active_checks = false;
  log_max_lines = 500;
  log_max_bytes = 262144;
  max_result_bytes = 204800;
  probe_container_name = txt "diag-probe";
  probe_port = 9911;
  probe_token = none;
  probe_timeout_ms = 5000;
  k8s_timeout_ms = 15000;
  providers = record { prometheus_url = none; datadog = none; splunk = none };
}

abbrev empty_state : State
empty_state = record { sessions = []; next = 0 }

abbrev init_request : Request
unfolding txt
init_request = record {
  path = txt "/mcp";
  method = txt "POST";
  authorization = some (txt "Bearer t0ken");
  session = none;
  body = txt "{}" ∷ [];
}

init_runs :
    handle one_session token_config empty_state init_request
    ≡ (record { sessions = (txt "s1", 0) ∷ []; next = 1 }, handled 0 (some init_message))
unfolding handle txt member drop
init_runs = refl

no_token_run :
    handle one_session token_config empty_state (record init_request { authorization = none })
    ≡ (empty_state, unauthorized)
unfolding handle txt
no_token_run = refl

handle-Routed_example :
    Routed token_config empty_state init_request
      (handle one_session token_config empty_state init_request)
handle-Routed_example = handle-Routed one_session token_config empty_state init_request
