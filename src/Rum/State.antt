-- ===== src/Rum/State.antt =====
-- src/probe/rum.ts: the state of `RumAggregator`, its buckets and `prune`.
use kube_diagnostics_mcp.Common.{
  ℕ, ◌-◌, Option, none, some, List, [], map, Text, txt, Map, get, put, length, filter, leb, or_else,
  if◌then◌else◌,
}
use kube_diagnostics_mcp.Rum.Samples.{Samples, push_sample, prune_samples}

abbrev pub max_routes : ℕ
max_routes = 200

abbrev pub max_resources : ℕ
max_resources = 300

abbrev pub max_errors : ℕ
max_errors = 200

abbrev pub Buckets : Type 0
Buckets = Map (Map Samples)

pub record View : Type 0 where
  pub views : ℕ
  pub entries : ℕ
  pub durations : Samples

pub record Resource : Type 0 where
  pub count : ℕ
  pub times : Samples
  pub errors : ℕ
  pub routes : List Text

pub record ErrorEntry : Type 0 where
  pub count : ℕ
  pub first : ℕ
  pub last : ℕ
  pub routes : List Text
  pub sample : Text

pub record RumAggregator : Type 0 where
  pub vitals : Buckets
  pub nav : Buckets
  pub views : Map View
  pub resources : Map Resource
  pub errors : Map ErrorEntry
  pub devices : Map ℕ
  pub sessions : Map ℕ
  pub started_at : ℕ
  pub last_prune : ℕ
  pub retention_ms : ℕ

-- `new RumAggregator(retentionMs)`, at the time `now`
unfoldable pub new_aggregator : ℕ → ℕ → RumAggregator
new_aggregator retention now = record {
  vitals = [];
  nav = [];
  views = [];
  resources = [];
  errors = [];
  devices = [];
  sessions = [];
  started_at = now;
  last_prune = now;
  retention_ms = retention;
}

-- The route under which `bucket` files a sample, and the metrics that are there.
unfoldable pub bucket_at : Text → Buckets → Option (Map Samples) → Text × Map Samples
unfolding get txt
bucket_at route buckets (some m) = (route, m)
bucket_at route buckets none =
    if leb max_routes (length buckets)
    then (txt "(other)", or_else (get (txt "(other)") buckets) [])
    else (route, [])

abbrev pub bucket_of : Text → Buckets → Text × Map Samples
bucket_of route buckets = bucket_at route buckets (get route buckets)

-- `this.bucket(map, route, key).push(v, now)`
unfoldable pub bucket_push : Text → Text → ℕ → ℕ → Buckets → Buckets
unfolding bucket_at get put push_sample
bucket_push route key v now buckets =
    let (filed, m) = bucket_of route buckets in
    put filed (put key (push_sample v now (or_else (get key m) [])) m) buckets

unfoldable pub prune_buckets : ℕ → Buckets → Buckets
unfolding prune_samples
prune_buckets cutoff = map (λ r. (r.0, map (λ m. (m.0, prune_samples cutoff m.1)) r.1))

unfoldable pub prune : ℕ → RumAggregator → RumAggregator
unfolding prune_buckets prune_samples filter
prune now a =
    let cutoff = now - a.retention_ms in
    record a {
      vitals = prune_buckets cutoff a.vitals;
      nav = prune_buckets cutoff a.nav;
      resources =
          map (λ r. (r.0, record (r.1) { times = prune_samples cutoff r.1.times })) a.resources;
      sessions = filter (λ s. leb cutoff s.1) a.sessions;
      errors = filter (λ e. leb cutoff e.1.last) a.errors;
      last_prune = now;
    }
