-- ===== src/Sensitive.antt =====
-- src/security/sensitive.ts: finding sensitive data in texts, with masked samples.
pub mod Masks
pub mod Detectors
pub mod Scan
pub mod Luhn
pub mod Findings
mod Tests
use kube_diagnostics_mcp.Common.{ℕ, Bool, Option, List, Text}
use kube_diagnostics_mcp.Regex.{Regex}

pub data SensitiveKind : Type 0 where
  email credit_card us_ssn phone ipv4_private jwt aws_access_key gcp_api_key : SensitiveKind
  github_token slack_token stripe_key bearer_token basic_auth connection_string : SensitiveKind
  private_key credential_assignment : SensitiveKind

pub data Confidence : Type 0 where
  high medium low : Confidence

pub record SensitiveFinding : Type 0 where
  pub kind : SensitiveKind
  pub confidence : Confidence
  pub count : ℕ
  pub sample : Text
  pub locations : List ℕ

pub record Detector : Type 0 where
  pub kind : SensitiveKind
  pub pattern : Regex
  pub confidence : Confidence
  pub validate : Text → Bool
  pub mask : Text → Text
