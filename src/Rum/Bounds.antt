-- ===== src/Rum/Bounds.antt =====
-- The bounds of the aggregator's tables; of the sessions there is none.
pub mod Filing
pub mod Beacons
pub mod Events
pub mod Loop
use kube_diagnostics_mcp.Common.{
  ℕ, ◌+◌, ◌≤◌, ◌≡◌, Bool, true, false, List, [], ◌∷◌, Text, txt, Map, Each, has, length, missing,
  if◌then◌else◌,
}
use kube_diagnostics_mcp.Rum.Ingest.{vital_names, nav_phases}
use kube_diagnostics_mcp.Rum.Samples.{Samples}
use kube_diagnostics_mcp.Rum.State.{RumAggregator, Buckets, View, Resource, ErrorEntry}

abbrev pub SamplesOk : Samples → Type 0
SamplesOk s = length s ≤ 2000

-- At most one series for each of the listed metrics.
pub record MetricsOk (names : List Text) (m : Map Samples) : Type 0 where
  pub series : Each SamplesOk m
  pub listed : length m + missing names m ≤ length names

-- At most 200 routes, and one more for the overflow.
pub record BucketsOk (names : List Text) (b : Buckets) : Type 0 where
  pub routes : length b ≤ 200 + (if has (txt "(other)") b then 1 else 0)
  pub metrics : Each (MetricsOk names) b

abbrev pub ViewOk : View → Type 0
ViewOk v = SamplesOk v.durations

pub record ResourceOk (r : Resource) : Type 0 where
  pub samples : SamplesOk r.times
  pub routes : length r.routes ≤ 20

abbrev pub ErrorOk : ErrorEntry → Type 0
ErrorOk e = length e.routes ≤ 20

-- The kinds of device that are counted.
abbrev pub device_names : List Text
unfolding txt
device_names = txt "mobile" ∷ txt "desktop" ∷ txt "tablet" ∷ txt "unknown" ∷ []

-- Everything but the sessions, of which the class keeps as many as come in between two prunings.
pub record IsBounded (a : RumAggregator) : Type 0 where
  pub vitals : BucketsOk vital_names a.vitals
  pub nav : BucketsOk nav_phases a.nav
  pub view_count : length a.views ≤ 200
  pub views : Each ViewOk a.views
  pub resource_count : length a.resources ≤ 300
  pub resources : Each ResourceOk a.resources
  pub error_count : length a.errors ≤ 200
  pub errors : Each ErrorOk a.errors
  pub devices : length a.devices + missing device_names a.devices ≤ 4
