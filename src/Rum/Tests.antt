-- ===== src/Rum/Tests.antt =====
-- Runs of the aggregator, and the theorems at concrete beacons.
use kube_diagnostics_mcp.Common.{
  map, Option, ℕ, ◌++◌, ◌≤◌, ◌≡◌, refl, none, some, [], ◌∷◌, Text, txt, All, length, Number, nan,
  whole,
}
use kube_diagnostics_mcp.Json.{Value, null, num, str, arr, obj, nil, cons, end, field, member}
use kube_diagnostics_mcp.Rum.Bounds.{IsBounded}
use kube_diagnostics_mcp.Rum.Bounds.Loop.{created, beacon, pruned, Reached-IsBounded}
use kube_diagnostics_mcp.Rum.Ingest.{Runtime, ingest}
use kube_diagnostics_mcp.Rum.Order.{percentiles_ordered}
use kube_diagnostics_mcp.Rum.Privacy.{NoQuery, normalize_route-NoQuery}
use kube_diagnostics_mcp.Rum.Prometheus.{esc, prometheus_text, print_decimal}
use kube_diagnostics_mcp.Rum.Prometheus.Labels.{read_label, read_label-esc}
use kube_diagnostics_mcp.Rum.Routes.{normalize_route, strip_route}
use kube_diagnostics_mcp.Rum.Samples.{Samples, percentiles}
use kube_diagnostics_mcp.Rum.State.{View, RumAggregator, new_aggregator, prune}

-- A runtime that converts only what needs no conversion, throws at objects, and parses no URL.
abbrev number_of : Value → Option Number
number_of (num n) = some n
number_of (obj fs) = none
number_of _ = some nan

abbrev string_of : Value → Option Text
string_of (str s) = some s
string_of (obj fs) = none
string_of _ = some []

abbrev plain_runtime : Runtime
plain_runtime = record { number = number_of; string = string_of; parse_url = λ u. none }

abbrev vital_beacon : Value
unfolding txt
vital_beacon = obj (
    field (txt "route") (str (txt "/products/42?q=1")) (
      field (txt "events")
        (arr (
          cons
            (obj (
              field (txt "type") (str (txt "vital")) (
                field (txt "name") (str (txt "LCP")) (field (txt "value") (num (whole 1200)) end))))
            nil))
        end))

route_runs :
    (normalize_route (some (txt "/products/42?q=1")) ≡ txt "/products/:id")
    × (normalize_route (some (txt "?q")) ≡ txt "/")
    × (normalize_route none ≡ txt "(unknown)")
unfolding normalize_route strip_route txt
route_runs = (refl, refl, refl)

beacon_runs : (ingest plain_runtime 5000 vital_beacon (new_aggregator 60000 0)).1 ≡ some 1
unfolding ingest new_aggregator txt member
beacon_runs = refl

-- The second event throws: the first stays filed, and the third is never read.
abbrev half_beacon : Value
unfolding txt
half_beacon = obj (
    field (txt "events")
      (arr (
        cons (obj (field (txt "type") (str (txt "view")) end)) (
          cons
            (obj (
              field (txt "type") (str (txt "vital"))
                (field (txt "name") (obj (field (txt "toString") null end)) end)))
            (cons (obj (field (txt "type") (str (txt "view")) end)) nil))))
      end)

half_run :
    let s = ingest plain_runtime 5000 half_beacon (new_aggregator 60000 0) in
    (s.1 ≡ none) × (map (λ (v : Text × View). v.1.views) s.0.views ≡ 1 ∷ [])
unfolding ingest new_aggregator txt member
half_run = (refl, refl)

Reached-IsBounded_example :
    IsBounded (prune 9000 (ingest plain_runtime 5000 vital_beacon (new_aggregator 60000 0)).0)
Reached-IsBounded_example =
    Reached-IsBounded plain_runtime (pruned 9000 (beacon 5000 vital_beacon (created 60000 0)))

abbrev two_samples : Samples
two_samples = record { t = 1; v = 3000000 } ∷ record { t = 2; v = 1000000 } ∷ []

percentiles_ordered_example :
    ((percentiles two_samples).count ≡ length two_samples)
    × ((percentiles two_samples).p50 ≤ (percentiles two_samples).p75)
    × ((percentiles two_samples).p75 ≤ (percentiles two_samples).p95)
    × ((percentiles two_samples).p95 ≤ (percentiles two_samples).max)
percentiles_ordered_example = percentiles_ordered two_samples

normalize_route-NoQuery_example : All NoQuery (normalize_route (some (txt "/products/42?q=1")))
normalize_route-NoQuery_example = normalize_route-NoQuery (some (txt "/products/42?q=1"))

abbrev no_time : ℕ → Text
no_time t = []

abbrev with_view : Text → RumAggregator
with_view route = record (new_aggregator 60000 0) {
  views = (route, record { views = 3; entries = 1; durations = [] }) ∷ [];
}

read_label-esc_example :
    read_label (esc (txt "/a\"b") ++ b'"' ∷ txt "} 1") ≡ some (txt "/a\"b", txt "} 1")
unfolding txt
read_label-esc_example = read_label-esc (txt "/a\"b") (txt "} 1") (refl, (refl, (refl, (refl, tt))))

decimal_run : (print_decimal 1200000000 ≡ txt "1200") × (print_decimal 120000 ≡ txt "0.12")
unfolding print_decimal txt
decimal_run = (refl, refl)

-- A route with a line feed breaks its line of the exposition, and writes a line of its own.
split_line_run :
    prometheus_text (with_view (txt "/a\nrum_sessions 999\n"))
    ≡ txt
        "# TYPE rum_web_vital gauge\n# TYPE rum_page_views_total counter\nrum_page_views_total{route=\"/a\nrum_sessions 999\n\"} 3\n# TYPE rum_frontend_errors_total counter\nrum_frontend_errors_total 0\n# TYPE rum_sessions gauge\nrum_sessions 0\n"
unfolding prometheus_text new_aggregator txt
split_line_run = refl
