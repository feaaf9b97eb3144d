-- ===== src/Config.antt =====
-- src/config.ts: the settings, read from the environment. A thrown `ConfigError` is a constructor
-- with the values that its message interpolates.
pub mod Parse
pub mod Providers
pub mod Load
pub mod Summary
pub mod Auth
pub mod Secrets
mod Tests
use kube_diagnostics_mcp.Common.{ℕ, Bool, Option, List, Text, Result, Map}

pub data ConfigError : Type 0 where
  not_positive_int : Text → Text → ConfigError
  not_boolean : Text → ConfigError
  file_empty : Text → Text → ConfigError
  file_unreadable : Text → Text → Text → ConfigError
  datadog_keys_apart splunk_keys_apart splunk_scheme : ConfigError
  unknown_mode : Text → ConfigError
  probe_token_missing : ConfigError
  unknown_transport : Text → ConfigError
  http_token_missing : ConfigError
  default_namespace_not_listed : Text → ConfigError

-- The environment, and `readFileSync(file, "utf8")`, which returns the text or throws a message.
pub record Env : Type 0 where
  pub vars : Map Text
  pub read_file : Text → Result Text Text

pub data Transport : Type 0 where
  stdio http : Transport

pub data AuthScheme : Type 0 where
  bearer_scheme splunk_session : AuthScheme

pub record DatadogConfig : Type 0 where
  pub site : Text
  pub api_key : Text
  pub app_key : Text
  pub scope : Option Text
  pub apm_operation : Text
  pub service_tag : Text
  pub namespace_tag : Text
  pub rum_application : Option Text
  pub log_indexes : List Text
  pub timeout_ms : ℕ

pub record RequestFields : Type 0 where
  pub status : Text
  pub duration_seconds : Text
  pub path : Text
  pub method : Text

pub record SplunkConfig : Type 0 where
  pub url : Text
  pub token : Text
  pub auth_scheme : AuthScheme
  pub index : Option Text
  pub namespace_field : Text
  pub service_field : Text
  pub request_log_search : Option Text
  pub request_fields : RequestFields
  pub verify_tls : Bool
  pub timeout_ms : ℕ

pub record ProviderConfig : Type 0 where
  pub prometheus_url : Option Text
  pub datadog : Option DatadogConfig
  pub splunk : Option SplunkConfig

pub record HubConfig : Type 0 where
  pub transport : Transport
  pub http_host : Text
  pub http_port : ℕ
  pub http_token : Option Text
  pub allow_unauthenticated : Bool
  pub namespaces : List Text
  pub default_namespace : Option Text
  pub allow_active_checks : Bool
  pub log_max_lines : ℕ
  pub log_max_bytes : ℕ
  pub max_result_bytes : ℕ
  pub probe_container_name : Text
  pub probe_port : ℕ
  pub probe_token : Option Text
  pub probe_timeout_ms : ℕ
  pub k8s_timeout_ms : ℕ
  pub providers : ProviderConfig

pub record ProbeConfig : Type 0 where
  pub host : Text
  pub port : ℕ
  pub token : Option Text
  pub allow_unauthenticated : Bool
  pub allow_active_checks : Bool
  pub actuator_url : Option Text
  pub nginx_status_url : Option Text
  pub static_dir : Option Text
  pub access_log_path : Option Text
  pub rum_enabled : Bool
  pub rum_max_body_bytes : ℕ
  pub rum_retention_minutes : ℕ
  pub pod_name : Option Text
  pub pod_namespace : Option Text

pub data AppConfig : Type 0 where
  hub : HubConfig → AppConfig
  probe : ProbeConfig → AppConfig
