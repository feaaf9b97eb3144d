-- ===== src/Probe/AccessLog/Tests.antt =====
-- Runs of the access log's reader, and the theorems at concrete records.
use kube_diagnostics_mcp.Common.{
  ◌/◌, ◌≤◌, ◌≡◌, refl, Option, none, some, [], ◌∷◌, Text, txt, length, all, sum_of, total_of,
  IsDescending, Number, same, nan, whole, Result, ok, err, plus, digits_value, print,
}
use kube_diagnostics_mcp.Json.{Value, undefined, num, str, obj, field, end}
use kube_diagnostics_mcp.Probe.AccessLog.{Js, AccessRecord, parse_access_line}
use kube_diagnostics_mcp.Probe.AccessLog.Counts.{
  is_abandoned, records_with, summarize_access_records_counts,
}
use kube_diagnostics_mcp.Probe.AccessLog.Thrown.{
  is_ok, is_text_upstream, summarize_access_records_ok,
}
use kube_diagnostics_mcp.Probe.AccessLog.Files.{is_old}
use kube_diagnostics_mcp.Probe.AccessLog.Summary.{summary_of, summarize_access_records}
use kube_diagnostics_mcp.Probe.AccessLog.Rounds.{
  TypeError, no_string, count_records, no_totals, Totals,
}
use kube_diagnostics_mcp.Regex.Classes.{one_of}

-- A runtime that reads and prints whole numbers, and parses neither JSON nor dates.
abbrev text_of : Number → Text
text_of (plus n) = print (n / 1000000)
text_of _ = []

abbrev string_of : Value → Option Text
string_of (str s) = some s
string_of (num n) = some (text_of n)
string_of (obj fs) = none
string_of _ = some []

abbrev plain_js : Js
plain_js = record {
  json_parse = λ s. none;
  number = λ s. whole (digits_value 0 s);
  string = string_of;
  number_text = text_of;
  date_parse = λ s. nan;
}

-- A line whose status cannot be converted to a text is no record.
thrown_run :
    parse_access_line
      (record plain_js { json_parse = λ s. some (obj (field (txt "status") (obj end) end)) })
      (txt "{}")
    ≡ none
unfolding parse_access_line txt same
thrown_run = refl

parse_run :
    parse_access_line plain_js
      (txt "10.0.0.1 - - [01/Jan/2026:00:00:01 +0000] \"GET /p/7?q=1 HTTP/1.1\" 499 12")
    ≡ some (record {
      time = str (txt "01/Jan/2026:00:00:01 +0000");
      method = str (txt "GET");
      path = some (txt "/p/7");
      status = some (whole 499);
      request_ms = none;
      upstream_ms = none;
      upstream = undefined;
      user_agent = undefined;
    })
unfolding parse_access_line txt digits_value one_of
parse_run = refl

abbrev abandoned : AccessRecord
unfolding txt
abandoned = record {
  time = undefined;
  method = str (txt "GET");
  path = some (txt "/products/42");
  status = some (whole 499);
  request_ms = some (whole 12);
  upstream_ms = none;
  upstream = str (txt "10.0.0.9:80");
  user_agent = undefined;
}

abbrev misshapen : AccessRecord
misshapen = record abandoned { upstream = num (whole 3) }

abbrev counted : Totals
counted = total (count_records plain_js (abandoned ∷ []) no_totals)
  where
    total : Result TypeError Totals → Totals
    total (ok t) = t
    total (err e) = no_totals

counted_run : summarize_access_records plain_js (abandoned ∷ []) [] ≡ ok (summary_of 1 [] counted)
unfolding summarize_access_records
counted_run = refl

summarize_access_records_counts_example :
    let s = summary_of 1 [] counted in
    (s.lines ≡ length (abandoned ∷ []))
    × (sum_of (λ n. n) s.by_status ≡ length (abandoned ∷ []))
    × (sum_of (λ n. n) s.by_status_class ≡ length (abandoned ∷ []))
    × (length s.top_paths ≤ 30)
    × IsDescending (λ r. r.count) s.top_paths
    × (total_of (λ r. r.count) s.top_paths ≤ length (abandoned ∷ []))
    × (s.client_abandoned499 ≡ records_with is_abandoned (abandoned ∷ []))
summarize_access_records_counts_example =
    summarize_access_records_counts plain_js (abandoned ∷ []) [] counted_run

summarize_access_records_ok_example :
    is_ok (summarize_access_records plain_js (abandoned ∷ misshapen ∷ []) [])
    ≡ all (λ r. is_text_upstream r.upstream) (abandoned ∷ misshapen ∷ [])
summarize_access_records_ok_example =
    summarize_access_records_ok plain_js (abandoned ∷ misshapen ∷ []) []

-- A numeric time throws as soon as a window is asked for.
numeric_time_run : is_old plain_js (some 5000) (num (whole 4000)) ≡ err no_string
unfolding is_old
numeric_time_run = refl
