-- ===== src/Rum/Bounds/Loop.antt =====
-- The states of the aggregator that beacons and prunings lead to.
use kube_diagnostics_mcp.Common.{ℕ, missing-empty, arith, txt, get}
use kube_diagnostics_mcp.Json.{Value}
use kube_diagnostics_mcp.Rum.Bounds.{IsBounded, device_names}
use kube_diagnostics_mcp.Rum.Ingest.{Runtime, ingest}
use kube_diagnostics_mcp.Rum.State.{RumAggregator, prune, new_aggregator}
use kube_diagnostics_mcp.Rum.Bounds.Events.{prune-IsBounded, ingest-IsBounded}

new_aggregator-IsBounded : (retention now : ℕ) → IsBounded (new_aggregator retention now)
unfolding new_aggregator txt get
new_aggregator-IsBounded retention now = record {
  vitals = record { routes = omega arith; metrics = tt };
  nav = record { routes = omega arith; metrics = tt };
  view_count = omega arith;
  views = tt;
  resource_count = omega arith;
  resources = tt;
  error_count = omega arith;
  errors = tt;
  devices = omega (arith, missing-empty ℕ device_names);
}

-- The states that a sequence of beacons and prunings, at any times, can lead to.
pub data Reached (js : Runtime) : RumAggregator → Type 0 where
  created : (retention now : ℕ) → Reached js (new_aggregator retention now)
  beacon :
      {a : RumAggregator} (now : ℕ) (raw : Value)
      → Reached js a
      → Reached js (ingest js now raw a).0
  pruned : {a : RumAggregator} (now : ℕ) → Reached js a → Reached js (prune now a)

-- In every state that a new aggregator can reach by beacons and prunings, in any order and at any
-- times, everything but the session table is within its bounds: at most 201 routes with at most
-- five vitals and eight phases each, 200 viewed routes, 300 resources and 200 errors with at most
-- 20 routes each, at most 2000 samples in a series, and four kinds of device.
pub Reached-IsBounded : (js : Runtime) {a : RumAggregator} → Reached js a → IsBounded a
Reached-IsBounded js (created retention now) = new_aggregator-IsBounded retention now
Reached-IsBounded js (beacon now raw r) = ingest-IsBounded js now raw _ (Reached-IsBounded js r)
Reached-IsBounded js (pruned now r) = prune-IsBounded now _ (Reached-IsBounded js r)
