-- ===== src/Config/Providers.antt =====
-- src/config.ts: `parseProviders`.
use kube_diagnostics_mcp.Common.{
  true, not, ◌&&◌, Option, none, some, [], Text, txt, same, if◌then◌else◌, or_else, Result, ok, err,
  ◌>>=◌, ◌==◌,
}
use kube_diagnostics_mcp.Config.{
  ConfigError, datadog_keys_apart, splunk_keys_apart, splunk_scheme, Env, AuthScheme, bearer_scheme,
  splunk_session, DatadogConfig, SplunkConfig, ProviderConfig,
}
use kube_diagnostics_mcp.Config.Parse.{
  parse_positive_int, parse_bool, parse_list, optional, secret, var,
}
use kube_diagnostics_mcp.Regex.{seq, finish, many1, replace_once}
use kube_diagnostics_mcp.Strings.{lower_case}

-- `s.replace(/\/+$/, "")`
unfoldable pub strip_slashes : Text → Text
unfolding replace_once
strip_slashes = replace_once (seq (many1 (λ c. c == b'/')) finish) (λ m cs. [])

abbrev pub setting : Env → Text → Option Text
setting env name = optional (var env name)

unfoldable pub datadog_config : Env → Text → Text → Result ConfigError (Option DatadogConfig)
unfolding parse_positive_int optional parse_list txt
datadog_config env api app = do
  timeout ←
      parse_positive_int (txt "DIAG_DATADOG_TIMEOUT_MS") (var env (txt "DIAG_DATADOG_TIMEOUT_MS"))
        15000
  ok (
      some (record {
        site = or_else (setting env (txt "DIAG_DATADOG_SITE")) (txt "datadoghq.com");
        api_key = api;
        app_key = app;
        scope = setting env (txt "DIAG_DATADOG_SCOPE");
        apm_operation =
            or_else (setting env (txt "DIAG_DATADOG_APM_OPERATION")) (txt "servlet.request");
        service_tag = or_else (setting env (txt "DIAG_DATADOG_SERVICE_TAG")) (txt "service");
        namespace_tag =
            or_else (setting env (txt "DIAG_DATADOG_NAMESPACE_TAG")) (txt "kube_namespace");
        rum_application = setting env (txt "DIAG_DATADOG_RUM_APPLICATION");
        log_indexes = parse_list (var env (txt "DIAG_DATADOG_LOG_INDEXES"));
        timeout_ms = timeout;
      }))

unfoldable pub datadog_of :
    Env → Option Text → Option Text → Result ConfigError (Option DatadogConfig)
unfolding datadog_config
datadog_of env none none = ok none
datadog_of env (some api) (some app) = datadog_config env api app
datadog_of env _ _ = err datadog_keys_apart

abbrev pub scheme_of : Text → Result ConfigError AuthScheme
scheme_of scheme =
    if not (same scheme (txt "bearer")) && not (same scheme (txt "splunk"))
    then err splunk_scheme
    else ok (if same scheme (txt "splunk") then splunk_session else bearer_scheme)

unfoldable pub splunk_config : Env → Text → Text → Result ConfigError (Option SplunkConfig)
unfolding parse_positive_int parse_bool optional strip_slashes same txt
splunk_config env url token = do
  scheme ←
      scheme_of (lower_case (or_else (setting env (txt "DIAG_SPLUNK_AUTH_SCHEME")) (txt "Bearer")))
  verify ← parse_bool (var env (txt "DIAG_SPLUNK_VERIFY_TLS")) true
  timeout ←
      parse_positive_int (txt "DIAG_SPLUNK_TIMEOUT_MS") (var env (txt "DIAG_SPLUNK_TIMEOUT_MS"))
        30000
  ok (
      some (record {
        url = strip_slashes url;
        token = token;
        auth_scheme = scheme;
        index = setting env (txt "DIAG_SPLUNK_INDEX");
        namespace_field =
            or_else (setting env (txt "DIAG_SPLUNK_NAMESPACE_FIELD")) (txt "namespace");
        service_field =
            or_else (setting env (txt "DIAG_SPLUNK_SERVICE_FIELD")) (txt "container_name");
        request_log_search = setting env (txt "DIAG_SPLUNK_REQUEST_LOG_SEARCH");
        request_fields = record {
          status = or_else (setting env (txt "DIAG_SPLUNK_REQUEST_STATUS_FIELD")) (txt "status");
          duration_seconds =
              or_else (setting env (txt "DIAG_SPLUNK_REQUEST_DURATION_FIELD")) (txt "request_time");
          path = or_else (setting env (txt "DIAG_SPLUNK_REQUEST_PATH_FIELD")) (txt "uri");
          method =
              or_else (setting env (txt "DIAG_SPLUNK_REQUEST_METHOD_FIELD")) (txt "request_method");
        };
        verify_tls = verify;
        timeout_ms = timeout;
      }))

unfoldable pub splunk_of :
    Env → Option Text → Option Text → Result ConfigError (Option SplunkConfig)
unfolding splunk_config
splunk_of env none none = ok none
splunk_of env (some url) (some token) = splunk_config env url token
splunk_of env _ _ = err splunk_keys_apart

abbrev pub stripped : Option Text → Option Text
stripped none = none
stripped (some url) = some (strip_slashes url)

unfoldable pub parse_providers : Env → Result ConfigError ProviderConfig
unfolding datadog_of splunk_of secret optional txt
parse_providers env = do
  api ← secret env (txt "DIAG_DATADOG_API_KEY")
  app ← secret env (txt "DIAG_DATADOG_APP_KEY")
  datadog ← datadog_of env api app
  token ← secret env (txt "DIAG_SPLUNK_TOKEN")
  splunk ← splunk_of env (setting env (txt "DIAG_SPLUNK_URL")) token
  ok (record {
    prometheus_url = stripped (setting env (txt "DIAG_PROMETHEUS_URL"));
    datadog = datadog;
    splunk = splunk;
  })
