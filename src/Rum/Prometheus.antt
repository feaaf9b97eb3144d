-- ===== src/Rum/Prometheus.antt =====
-- src/probe/rum.ts: `prometheusText`.
pub mod Labels
use kube_diagnostics_mcp.Common.{
  ℕ, zero, suc, ◌+◌, ◌-◌, ◌*◌, ◌/◌, ◌%◌, Bool, true, false, ◌||◌, Option, none, some, List, [], ◌∷◌,
  ◌++◌, map, Text, txt, Map, if◌then◌else◌, ◌==◌, length, million, print,
}
use kube_diagnostics_mcp.Rum.Samples.{Samples, Percentiles, percentiles}
use kube_diagnostics_mcp.Rum.State.{RumAggregator, View, ErrorEntry, Buckets}
use kube_diagnostics_mcp.Strings.{join}

-- `s.replace(c, …)` that puts a backslash before every `c`
abbrev pub mark : ℕ → Text → Text
mark c [] = []
mark c (d ∷ s) = if d == c then b'\\' ∷ d ∷ mark c s else d ∷ mark c s

unfoldable pub esc : Text → Text
esc s = mark b'"' (mark b'\\' s)

abbrev pub digits_from : ℕ → ℕ → Text
digits_from zero n = []
digits_from (suc k) n = digits_from k (n / 10) ++ (b'0' + n % 10) ∷ []

abbrev pub strip_zeros : Text → Text
strip_zeros [] = []
strip_zeros (c ∷ s) = closed c (strip_zeros s)
  where
    closed : ℕ → Text → Text
    closed c [] = if c == b'0' then [] else c ∷ []
    closed c (d ∷ s) = c ∷ d ∷ s

-- `${v}` of a measure in millionths
unfoldable pub print_decimal : ℕ → Text
unfolding print
print_decimal n =
    if n % million == 0
    then print (n / million)
    else print (n / million) ++ b'.' ∷ strip_zeros (digits_from 6 (n % million))

abbrev pub quantiles : Percentiles → List (Text × ℕ)
quantiles p = (txt "0.5", p.p50) ∷ (txt "0.75", p.p75) ∷ (txt "0.95", p.p95) ∷ []

abbrev pub flat_map {ℓ} : {A : Type ℓ} → (A → List Text) → List A → List Text
flat_map f [] = []
flat_map f (a ∷ l) = f a ++ flat_map f l

abbrev pub vital_label : Text → Text → Text
vital_label route metric =
    txt "{route=\"" ++ (esc route ++ (txt "\",metric=\"" ++ (metric ++ txt "\"")))

abbrev pub quantile_line : Text → Text → Text × ℕ → Text
quantile_line route metric (q, v) =
    txt "rum_web_vital"
    ++ (vital_label route metric ++ (txt ",quantile=\"" ++ (q ++ (txt "\"} " ++ print_decimal v))))

abbrev pub series_lines : Text → Text × Samples → List Text
series_lines route (metric, s) =
    let p = percentiles s in
    map (quantile_line route metric) (quantiles p)
    ++ (txt "rum_web_vital_count" ++ (vital_label route metric ++ (txt "} " ++ print p.count))) ∷ []

abbrev pub vital_lines : Text × Map Samples → List Text
vital_lines (route, m) = flat_map (series_lines route) m

abbrev pub view_line : Text × View → Text
view_line (route, v) =
    txt "rum_page_views_total{route=\"" ++ (esc route ++ (txt "\"} " ++ print v.views))

abbrev pub error_total : Map ErrorEntry → ℕ
error_total [] = 0
error_total ((k, e) ∷ m) = e.count + error_total m

unfoldable pub prometheus_lines : RumAggregator → List Text
unfolding esc print_decimal percentiles print txt
prometheus_lines a =
    (txt "# TYPE rum_web_vital gauge" ∷ flat_map vital_lines a.vitals)
    ++ ((txt "# TYPE rum_page_views_total counter" ∷ map view_line a.views)
        ++ (txt "# TYPE rum_frontend_errors_total counter"
            ∷ (txt "rum_frontend_errors_total " ++ print (error_total a.errors))
            ∷ txt "# TYPE rum_sessions gauge"
            ∷ (txt "rum_sessions " ++ print (length a.sessions))
            ∷ []))

unfoldable pub prometheus_text : RumAggregator → Text
unfolding prometheus_lines join
prometheus_text a = join (b'\n' ∷ []) (prometheus_lines a) ++ b'\n' ∷ []
