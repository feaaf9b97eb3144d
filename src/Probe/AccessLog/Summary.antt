-- ===== src/Probe/AccessLog/Summary.antt =====
-- src/probe/accesslog.ts: `summarizeAccessRecords`. Of a record's upstream the source asks for the
-- parts of a string; of a truthy value that is none, this throws.
use kube_diagnostics_mcp.Common.{
  ℕ, ◌+◌, ◌-◌, ◌*◌, ◌/◌, Bool, true, false, Option, none, some, List, [], ◌∷◌, map, Text, Map,
  if◌then◌else◌, ◌==◌, ltb, length, take, sort_by, descending, Number, plus, minus, whole, million,
  get_or, Result, ok, err,
}
use kube_diagnostics_mcp.Json.{Value}
use kube_diagnostics_mcp.Probe.AccessLog.{Js, AccessRecord}
use kube_diagnostics_mcp.Sensitive.{SensitiveKind, SensitiveFinding, phone, ipv4_private}
use kube_diagnostics_mcp.Sensitive.Scan.{scan_for_sensitive_data}
use kube_diagnostics_mcp.Stats.{rank}
use kube_diagnostics_mcp.Probe.AccessLog.Rounds.{
  PathEntry, UpstreamEntry, SuspiciousEntry, Totals, no_totals, TypeError, count_records,
}

-- `(a, b) => a - b`, of finite numbers
abbrev pub number_after : Number → Number → Bool
number_after (plus a) (plus b) = ltb b a
number_after (plus a) (minus b) = true
number_after (minus a) (minus b) = ltb a b
number_after _ _ = false

-- `Math.round(v)`
abbrev pub round_number : Number → Number
round_number (plus n) = whole ((n + million / 2) / million)
round_number (minus n) =
    let up = (n + million / 2) / million in if up == 0 then plus 0 else minus (up * million - 1)
round_number n = n

-- `pct(arr, p)`
unfoldable pub pct : List Number → ℕ → Option Number
unfolding sort_by
pct [] p = none
pct (a ∷ l) p =
    let sorted = sort_by number_after (a ∷ l) in
    some (round_number (get_or sorted (rank (length sorted) p) (plus 0)))

pub record TopPath : Type 0 where
  pub path : Text
  pub count : ℕ
  pub p50_ms : Option Number
  pub p95_ms : Option Number
  pub errors : ℕ

pub record UpstreamRow : Type 0 where
  pub upstream : Text
  pub count : ℕ
  pub p50_ms : Option Number
  pub p95_ms : Option Number
  pub p95_upstream_ms : Option Number
  pub errors5xx : ℕ
  pub timeouts504 : ℕ

pub record SuspiciousRow : Type 0 where
  pub path : Text
  pub count : ℕ
  pub reason : Text

pub record AccessLogSummary : Type 0 where
  pub available : Bool
  pub note : Option Text
  pub lines : ℕ
  pub window_from : Value
  pub window_to : Value
  pub by_status_class : Map ℕ
  pub by_status : Map ℕ
  pub top_paths : List TopPath
  pub by_upstream : List UpstreamRow
  pub client_abandoned499 : ℕ
  pub request_vs_upstream_gap_p95_ms : Option Number
  pub suspicious_paths : List SuspiciousRow
  pub sensitive : List (SensitiveKind × ℕ × Text)

abbrev pub path_row : Text × PathEntry → TopPath
path_row (path, e) = record {
  path = path;
  count = e.count;
  p50_ms = pct e.times 50;
  p95_ms = pct e.times 95;
  errors = e.errors;
}

abbrev pub upstream_row : Text × UpstreamEntry → UpstreamRow
upstream_row (upstream, e) = record {
  upstream = upstream;
  count = e.count;
  p50_ms = pct e.times 50;
  p95_ms = pct e.times 95;
  p95_upstream_ms = pct e.utimes 95;
  errors5xx = e.errors5xx;
  timeouts504 = e.timeouts504;
}

abbrev pub suspicious_row : Text × SuspiciousEntry → SuspiciousRow
suspicious_row (path, e) = record { path = path; count = e.count; reason = e.reason }

abbrev pub scan_lines : List Text → List SensitiveFinding
scan_lines [] = []
scan_lines (l ∷ ls) = scan_for_sensitive_data (l ∷ ls) none (phone ∷ ipv4_private ∷ [])

unfoldable pub summary_of : ℕ → List Text → Totals → AccessLogSummary
unfolding pct take sort_by scan_for_sensitive_data
summary_of lines raw_lines t = record {
  available = true;
  note = none;
  lines = lines;
  window_from = t.from;
  window_to = t.to;
  by_status_class = t.by_status_class;
  by_status = t.by_status;
  top_paths = take 30 (sort_by (descending (λ r. r.count)) (map path_row t.paths));
  by_upstream = sort_by (descending (λ r. r.count)) (map upstream_row t.upstreams);
  client_abandoned499 = t.client_abandoned499;
  request_vs_upstream_gap_p95_ms = pct t.gaps 95;
  suspicious_paths =
      take 20 (sort_by (descending (λ r. r.count)) (map suspicious_row t.suspicious_paths));
  sensitive = map (λ f. (f.kind, f.count, f.sample)) (scan_lines raw_lines);
}

module _ (js : Js) where
  unfoldable pub summarize_access_records :
      List AccessRecord → List Text → Result TypeError AccessLogSummary
  unfolding count_records summary_of
  summarize_access_records records raw_lines = elim (count_records js records no_totals) [
    | err e ↦ err e
    | ok t ↦ ok (summary_of (length records) raw_lines t)
  ]
