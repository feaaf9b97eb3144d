-- ===== src/Rum/Bounds/Beacons.antt =====
-- Every event, every beacon and every pruning keeps the bounds.
use kube_diagnostics_mcp.Common.{
  missing, ◌+◌, Number, ℕ, ◌≤◌, ◌≡◌, refl, inl, inr, false, not, ◌&&◌, Option, none, some, List, [],
  ◌∷◌, arith, Text, txt, Map, Each, Each-get, Each-put, get, put, has, length-put, length,
  length-append, includes, or_else, leb, Bool-cases,
}
use kube_diagnostics_mcp.Json.{Value, member}
use kube_diagnostics_mcp.Rum.Bounds.{
  SamplesOk, BucketsOk, ViewOk, ResourceOk, ErrorOk, IsBounded, device_names,
}
use kube_diagnostics_mcp.Rum.Bounds.Filing.{push_sample-SamplesOk, bucket_push-BucketsOk}
use kube_diagnostics_mcp.Rum.Ingest.{
  Runtime, vital_names, nav_phases, add_route, file_vital, convert_vital, file_view, file_timed,
  convert_resource, push_duration, ingest_view, count_resource, time_resource, file_resource,
  count_error, file_error,
}
use kube_diagnostics_mcp.Rum.Routes.{normalize_resource_url}
use kube_diagnostics_mcp.Rum.Samples.{Samples}
use kube_diagnostics_mcp.Strings.{slice_to}
use kube_diagnostics_mcp.Rum.State.{RumAggregator, Buckets, View, Resource, ErrorEntry}

-- A write to a map with a cap, guarded by the source's test.
pub put_capped {ℓ} :
    {V : Type ℓ} (k : Text) (v : V) (m : Map V) (cap : ℕ)
    → (not (has k m) && leb cap (length m)) ≡ false
    → length m ≤ cap
    → length (put k v m) ≤ cap
put_capped k v m cap g h = ground (arith, length-put k v m)

add_route-le :
    (route : Text) (routes : List Text) → length routes ≤ 20 → length (add_route route routes) ≤ 20
unfolding add_route
add_route-le route routes h = ground (arith, length-append {0} routes (route ∷ []))

Each-or_else {ℓ κ} :
    {V : Type ℓ} (P : V → Type κ) (k : Text) (m : Map V) (d : V) (o : Option V)
    → Each P m
    → P d
    → get k m ≡ o
    → P (or_else o d)
Each-or_else P k m d none h p e = p
Each-or_else P k m d (some v) h p e = Each-get P k m h e

module _ {a : RumAggregator} (h : IsBounded a) where
  pub set_vitals : (b : Buckets) → BucketsOk vital_names b → IsBounded (record a { vitals = b })
  set_vitals b k = record {
    vitals = k;
    nav = h.nav;
    view_count = h.view_count;
    views = h.views;
    resource_count = h.resource_count;
    resources = h.resources;
    error_count = h.error_count;
    errors = h.errors;
    devices = h.devices;
  }

  pub set_nav : (b : Buckets) → BucketsOk nav_phases b → IsBounded (record a { nav = b })
  set_nav b k = record {
    vitals = h.vitals;
    nav = k;
    view_count = h.view_count;
    views = h.views;
    resource_count = h.resource_count;
    resources = h.resources;
    error_count = h.error_count;
    errors = h.errors;
    devices = h.devices;
  }

  pub set_devices :
      (m : Map ℕ) → length m + missing device_names m ≤ 4 → IsBounded (record a { devices = m })
  set_devices m n = record {
    vitals = h.vitals;
    nav = h.nav;
    view_count = h.view_count;
    views = h.views;
    resource_count = h.resource_count;
    resources = h.resources;
    error_count = h.error_count;
    errors = h.errors;
    devices = n;
  }

  pub set_views :
      (m : Map View) → length m ≤ 200 → Each ViewOk m → IsBounded (record a { views = m })
  set_views m n k = record {
    vitals = h.vitals;
    nav = h.nav;
    view_count = n;
    views = k;
    resource_count = h.resource_count;
    resources = h.resources;
    error_count = h.error_count;
    errors = h.errors;
    devices = h.devices;
  }

  pub set_resources :
      (m : Map Resource)
      → length m ≤ 300
      → Each ResourceOk m
      → IsBounded (record a { resources = m })
  set_resources m n k = record {
    vitals = h.vitals;
    nav = h.nav;
    view_count = h.view_count;
    views = h.views;
    resource_count = n;
    resources = k;
    error_count = h.error_count;
    errors = h.errors;
    devices = h.devices;
  }

  pub set_errors :
      (m : Map ErrorEntry) → length m ≤ 200 → Each ErrorOk m → IsBounded (record a { errors = m })
  set_errors m n k = record {
    vitals = h.vitals;
    nav = h.nav;
    view_count = h.view_count;
    views = h.views;
    resource_count = h.resource_count;
    resources = h.resources;
    error_count = n;
    errors = k;
    devices = h.devices;
  }

module _ (js : Runtime) (now : ℕ) where
  pub file_vital-IsBounded :
      (a : RumAggregator) (route name : Text) (o : Option ℕ)
      → IsBounded a
      → IsBounded (file_vital js now a route name o).0
  unfolding file_vital
  file_vital-IsBounded a route name none h = h
  file_vital-IsBounded a route name (some v) h = elim (Bool-cases (includes name vital_names)) [
    | inl listed ↦ rw listed (
        set_vitals h _
          (bucket_push-BucketsOk vital_names route name v now a.vitals listed h.vitals))
    | inr other ↦ rw other h
  ]

  push_duration-SamplesOk :
      (o : Option ℕ) (l : Samples) → SamplesOk l → SamplesOk (push_duration js now o l)
  push_duration-SamplesOk none l h = h
  push_duration-SamplesOk (some d) l h = push_sample-SamplesOk d now l

  pub convert_vital-IsBounded :
      (a : RumAggregator) (route : Text) (name : Option Text) (value : Option Number)
      → IsBounded a
      → IsBounded (convert_vital js now a route name value).0
  unfolding convert_vital
  convert_vital-IsBounded a route (some name) (some v) h = file_vital-IsBounded a route name _ h
  convert_vital-IsBounded a route (some name) none h = h
  convert_vital-IsBounded a route none v h = h

  file_view-IsBounded :
      (a : RumAggregator) (route : Text) (v : View) (d : Option Number)
      → (not (has route a.views) && leb 200 (length a.views)) ≡ false
      → ViewOk v
      → IsBounded a
      → IsBounded (file_view js now a route v d).0
  unfolding file_view
  file_view-IsBounded a route v none space k h = elim (Bool-cases (has route a.views)) [
    | inl old ↦ rw old (
        set_views h _ (put_capped route v a.views 200 space h.view_count)
          (Each-put ViewOk route v a.views h.views k))
    | inr new ↦ rw new h
  ]
  file_view-IsBounded a route v (some d) space k h =
      set_views h _ (put_capped route _ a.views 200 space h.view_count)
        (Each-put ViewOk route _ a.views h.views (push_duration-SamplesOk _ v.durations k))

  pub ingest_view-IsBounded :
      (a : RumAggregator) (route : Text) (e : Value)
      → IsBounded a
      → IsBounded (ingest_view js now a route e).0
  unfolding ingest_view
  ingest_view-IsBounded a route e h =
      elim (Bool-cases (not (has route a.views) && leb 200 (length a.views))) [
        | inl full ↦ rw full h
        | inr space ↦ rw space (
            file_view-IsBounded a route _ _ space
              (Each-or_else ViewOk route a.views (record { views = 0; entries = 0; durations = [] })
                (get route a.views) h.views (omega arith) refl)
              h)
      ]

  file_timed-IsBounded :
      (a : RumAggregator) (route key : Text) (r : Resource) (status : Option Number)
      → (not (has key a.resources) && leb 300 (length a.resources)) ≡ false
      → ResourceOk r
      → IsBounded a
      → IsBounded (file_timed js now a route key r status).0
  unfolding file_timed
  file_timed-IsBounded a route key r none space k h = elim (Bool-cases (has key a.resources)) [
    | inl old ↦ rw old (
        set_resources h _ (put_capped key r a.resources 300 space h.resource_count)
          (Each-put ResourceOk key r a.resources h.resources k))
    | inr new ↦ rw new h
  ]
  file_timed-IsBounded a route key r (some status) space k h =
      set_resources h _ (put_capped key _ a.resources 300 space h.resource_count) (
        Each-put ResourceOk key _ a.resources h.resources
          (record { samples = k.samples; routes = add_route-le route r.routes k.routes }))

  count_resource-IsBounded :
      (a : RumAggregator) (route key : Text) (d : ℕ) (status : Option Number)
      → IsBounded a
      → IsBounded (count_resource js now a route key d status).0
  unfolding count_resource
  count_resource-IsBounded a route key d status h =
      elim (Bool-cases (not (has key a.resources) && leb 300 (length a.resources))) [
        | inl full ↦ rw full h
        | inr space ↦
            let old =
              Each-or_else ResourceOk key a.resources
                (record { count = 0; times = []; errors = 0; routes = [] }) (get key a.resources)
                h.resources (record { samples = omega arith; routes = omega arith }) refl in
            rw space (
              file_timed-IsBounded a route key _ status space
                (record {
                  samples =
                      push_sample-SamplesOk d now
                        (or_else (get key a.resources)
                          (record { count = 0; times = []; errors = 0; routes = [] })).times;
                  routes = old.routes;
                })
                h)
      ]

  count_error-IsBounded :
      (a : RumAggregator) (route sig message : Text)
      → IsBounded a
      → IsBounded (count_error js now a route sig message).0
  unfolding count_error
  count_error-IsBounded a route sig message h =
      elim (Bool-cases (not (has sig a.errors) && leb 200 (length a.errors))) [
        | inl full ↦ rw full h
        | inr space ↦
            let old =
              Each-or_else ErrorOk sig a.errors
                (record {
                  count = 0;
                  first = now;
                  last = now;
                  routes = [];
                  sample = slice_to 200 message;
                })
                (get sig a.errors) h.errors (omega arith) refl in
            rw space (
              set_errors h _ (put_capped sig _ a.errors 200 space h.error_count)
                (Each-put ErrorOk sig _ a.errors h.errors (add_route-le route _ old)))
      ]

  time_resource-IsBounded :
      (a : RumAggregator) (route : Text) (e : Value) (key : Text) (o : Option ℕ)
      → IsBounded a
      → IsBounded (time_resource js now a route e key o).0
  unfolding time_resource
  time_resource-IsBounded a route e key none h = h
  time_resource-IsBounded a route e key (some d) h = count_resource-IsBounded a route key d _ h

  convert_resource-IsBounded :
      (a : RumAggregator) (route : Text) (e : Value) (key : Text) (o : Option Number)
      → IsBounded a
      → IsBounded (convert_resource js now a route e key o).0
  unfolding convert_resource
  convert_resource-IsBounded a route e key none h = h
  convert_resource-IsBounded a route e key (some d) h = time_resource-IsBounded a route e key _ h

  pub file_resource-IsBounded :
      (a : RumAggregator) (route : Text) (e : Value) (o : Option Text)
      → IsBounded a
      → IsBounded (file_resource js now a route e o).0
  unfolding file_resource
  file_resource-IsBounded a route e none h = h
  file_resource-IsBounded a route e (some url) h =
      convert_resource-IsBounded a route e (normalize_resource_url js.parse_url url)
        (js.number (member (txt "durationMs") e)) h

  pub file_error-IsBounded :
      (a : RumAggregator) (route : Text) (e : Value) (o : Option Text)
      → IsBounded a
      → IsBounded (file_error js now a route e o).0
  unfolding file_error
  file_error-IsBounded a route e none h = h
  file_error-IsBounded a route e (some raw) h = count_error-IsBounded a route _ _ h
