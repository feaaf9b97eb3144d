-- ===== src/Config/Tests.antt =====
-- Runs of the settings, and the theorem at a concrete environment.
use kube_diagnostics_mcp.Common.{
  ◌≡◌, refl, true, false, none, some, [], ◌∷◌, txt, Map, Text, ok, err, get, same,
}
use kube_diagnostics_mcp.Config.{Env, ProbeConfig, probe, http_token_missing, not_positive_int}
use kube_diagnostics_mcp.Config.Load.{load_config}
use kube_diagnostics_mcp.Config.Secrets.{masked, summarize-masked}
use kube_diagnostics_mcp.Config.Summary.{summarize}
use kube_diagnostics_mcp.Config.Parse.{parse_positive_int, parse_bool, parse_list}

-- An environment in which no file can be read.
abbrev env_of : Map Text → Env
env_of vars = record { vars = vars; read_file = λ f. err (txt "ENOENT") }

settings_runs :
    (parse_positive_int (txt "N") (some (txt " 250 ")) 5 ≡ ok 250)
    × (parse_positive_int (txt "N") (some (txt "  ")) 5 ≡ ok 5)
    × (parse_positive_int (txt "N") (some (txt "-4")) 5
        ≡ err (not_positive_int (txt "N") (txt "-4")))
    × (parse_bool (some (txt "YES")) false ≡ ok true)
    × (parse_list (some (txt "a, b,,")) ≡ txt "a" ∷ txt "b" ∷ [])
unfolding parse_positive_int parse_bool parse_list txt same
settings_runs = (refl, refl, refl, refl, refl)

abbrev probe_settings : ProbeConfig
probe_settings = record {
  host = txt "0.0.0.0";
  port = 9911;
  token = some (txt "t0ken");
  allow_unauthenticated = false;
  allow_active_checks = false;
  actuator_url = some (txt "http://localhost:8081/actuator");
  nginx_status_url = none;
  static_dir = none;
  access_log_path = none;
  rum_enabled = true;
  rum_max_body_bytes = 8192;
  rum_retention_minutes = 360;
  pod_name = none;
  pod_namespace = none;
}

abbrev probe_env : Env
probe_env = env_of (
    (txt "DIAG_MODE", txt "Probe")
    ∷ (txt "DIAG_PROBE_TOKEN", txt "t0ken")
    ∷ (txt "DIAG_PROBE_ACTUATOR_URL", txt "http://localhost:8081/actuator//")
    ∷ (txt "DIAG_PROBE_RUM_ENABLED", txt "on")
    ∷ [])

open_hub_refused :
    load_config (env_of ((txt "DIAG_TRANSPORT", txt "http") ∷ [])) ≡ err http_token_missing
unfolding load_config txt get
open_hub_refused = refl

summarize-masked_example :
    summarize (masked (probe probe_settings)) ≡ summarize (probe probe_settings)
summarize-masked_example = summarize-masked (probe probe_settings)
