-- ===== src/Rum/Report.antt =====
-- src/probe/rum.ts: `summary`. `toISOString` of a time is an argument. The source's objects are maps
-- here: that a property named `__proto__` is not kept and that names of digits come first is not
-- modelled.
use kube_diagnostics_mcp.Common.{
  ℕ, ◌+◌, ◌/◌, Bool, true, false, Option, none, some, List, [], ◌∷◌, map, Text, Map, same, includes,
  length, take, filter, sort_by, descending, million,
}
use kube_diagnostics_mcp.Rum.Routes.{normalize_route}
use kube_diagnostics_mcp.Rum.Samples.{Samples, Percentiles, percentiles}
use kube_diagnostics_mcp.Rum.State.{RumAggregator, View, Resource, ErrorEntry, Buckets}

pub record ViewRow : Type 0 where
  pub route : Text
  pub views : ℕ
  pub entries : ℕ
  pub avg_duration_ms : Option ℕ

pub record ResourceRow : Type 0 where
  pub url : Text
  pub count : ℕ
  pub p50_ms : ℕ
  pub p95_ms : ℕ
  pub errors : ℕ
  pub routes : List Text

pub record ErrorRow : Type 0 where
  pub signature : Text
  pub count : ℕ
  pub first_seen : Text
  pub last_seen : Text
  pub routes : List Text
  pub sample : Text

pub record RumSummary : Type 0 where
  pub available : Bool
  pub since : Text
  pub vitals : Map (Map Percentiles)
  pub nav : Map (Map Percentiles)
  pub views : List ViewRow
  pub resources : List ResourceRow
  pub errors : List ErrorRow
  pub devices : Map ℕ
  pub sessions : ℕ

-- `Math.round(v)` of a measure, in whole milliseconds
abbrev pub round_ms : ℕ → ℕ
round_ms v = (v + 500000) / million

-- An empty filter is falsy, as a missing one.
abbrev pub wanted : Option Text → Option Text
wanted none = none
wanted (some []) = none
wanted (some (c ∷ s)) = some (normalize_route (some (c ∷ s)))

abbrev pub matches : Option Text → Text → Bool
matches none route = true
matches (some r) route = same route r

abbrev pub has_route : Option Text → List Text → Bool
has_route none routes = true
has_route (some r) routes = includes r routes

abbrev pub has_samples : Text × Samples → Bool
has_samples (k, []) = false
has_samples (k, s ∷ l) = true

unfoldable pub bucket_rows : Option Text → Buckets → Map (Map Percentiles)
unfolding filter percentiles same
bucket_rows w m =
    map (λ r. (r.0, map (λ s. (s.0, percentiles s.1)) (filter has_samples r.1)))
      (filter (λ r. matches w r.0) m)

abbrev pub median_ms : Samples → Option ℕ
median_ms [] = none
median_ms (s ∷ l) = some (round_ms (percentiles (s ∷ l)).p50)

abbrev pub view_row : Text × View → ViewRow
view_row (route, v) = record {
  route = route;
  views = v.views;
  entries = v.entries;
  avg_duration_ms = median_ms v.durations;
}

abbrev pub resource_row : Text × Resource → ResourceRow
resource_row (url, r) =
    let p = percentiles r.times in
    record {
      url = url;
      count = r.count;
      p50_ms = round_ms p.p50;
      p95_ms = round_ms p.p95;
      errors = r.errors;
      routes = r.routes;
    }

abbrev pub error_row : (ℕ → Text) → Text × ErrorEntry → ErrorRow
error_row iso (signature, e) = record {
  signature = signature;
  count = e.count;
  first_seen = iso e.first;
  last_seen = iso e.last;
  routes = e.routes;
  sample = e.sample;
}

unfoldable pub view_rows : Option Text → Map View → List ViewRow
unfolding filter sort_by percentiles same
view_rows w m = sort_by (descending (λ v. v.views)) (map view_row (filter (λ v. matches w v.0) m))

unfoldable pub resource_rows : Option Text → Map Resource → List ResourceRow
unfolding filter sort_by take percentiles includes
resource_rows w m = take 50 (
    sort_by (descending (λ r. r.p95_ms))
      (map resource_row (filter (λ r. has_route w r.1.routes) m)))

unfoldable pub error_rows : (ℕ → Text) → Option Text → Map ErrorEntry → List ErrorRow
unfolding filter sort_by take includes
error_rows iso w m = take 50 (
    sort_by (descending (λ e. e.count))
      (map (error_row iso) (filter (λ e. has_route w e.1.routes) m)))

unfoldable pub summary : (ℕ → Text) → Option Text → RumAggregator → RumSummary
unfolding bucket_rows view_rows resource_rows error_rows normalize_route
summary iso route_filter a =
    let w = wanted route_filter in
    record {
      available = true;
      since = iso a.started_at;
      vitals = bucket_rows w a.vitals;
      nav = bucket_rows w a.nav;
      views = view_rows w a.views;
      resources = resource_rows w a.resources;
      errors = error_rows iso w a.errors;
      devices = a.devices;
      sessions = length a.sessions;
    }
