-- ===== src/Rum/Bounds/Events.antt =====
-- The loop over the events, the beacon around it and pruning keep the bounds.
use kube_diagnostics_mcp.Common.{
  Option-cases, put_within, if◌then◌else◌, ℕ, ◌+◌, ◌-◌, ◌≡◌, refl, inl, inr, Bool, true, Option,
  none, some, List, [], ◌∷◌, arith, Text, txt, All, length-filter, filter, take, includes, same,
  or_else, ltb, leb, Bool-cases,
}
use kube_diagnostics_mcp.Json.{Value, is_object, member, as_text, as_array}
use kube_diagnostics_mcp.Rum.Bounds.{ResourceOk, ErrorOk, IsBounded, device_names}
use kube_diagnostics_mcp.Rum.Bounds.Filing.{
  prune_samples-SamplesOk, bucket_push-BucketsOk, prune_buckets-BucketsOk, length-map_values,
  Each-map_values,
}
use kube_diagnostics_mcp.Rum.Ingest.{
  Runtime, vital_names, nav_phases, ingest_vital, ingest_resource, ingest_error, push_phase,
  push_phases, below_limit, device_kinds, Outcome, Ingested, go_on, skipped, accepted, thrown,
  close_beacon, ingest_nav, dispatch, ingest_event, ingest_events, device_of, session_pattern,
  note_session, open_beacon, prune_if_due, ingest_list, ingest,
}
use kube_diagnostics_mcp.Rum.Routes.{normalize_route}
use kube_diagnostics_mcp.Rum.Samples.{prune_samples}
use kube_diagnostics_mcp.Rum.State.{RumAggregator, Resource, ErrorEntry, prune}
use kube_diagnostics_mcp.Rum.Bounds.Beacons.{
  set_nav, convert_vital-IsBounded, set_devices, ingest_view-IsBounded, file_resource-IsBounded,
  file_error-IsBounded,
}

All-filter {ℓ κ} :
    {A : Type ℓ} (P : A → Type κ) (p : A → Bool) (l : List A) → All P l → All P (filter p l)
unfolding filter
All-filter P p [] h = tt
All-filter P p (x ∷ l) h = elim (Bool-cases (p x)) [
  | inl kept ↦ rw kept (h.0, All-filter P p l h.1)
  | inr dropped ↦ rw dropped (All-filter P p l h.1)
]

same_bounds :
    {a b : RumAggregator}
    → IsBounded a
    → (b.vitals ≡ a.vitals)
      × (b.nav ≡ a.nav)
      × (b.views ≡ a.views)
      × (b.resources ≡ a.resources)
      × (b.errors ≡ a.errors)
      × (b.devices ≡ a.devices)
    → IsBounded b
same_bounds h (p, q, r, s, t, u) = record {
  vitals = rw p h.vitals;
  nav = rw q h.nav;
  view_count = rw r h.view_count;
  views = rw r h.views;
  resource_count = rw s h.resource_count;
  resources = rw s h.resources;
  error_count = rw t h.error_count;
  errors = rw t h.errors;
  devices = rw u h.devices;
}

pub prune-IsBounded : (now : ℕ) (a : RumAggregator) → IsBounded a → IsBounded (prune now a)
unfolding prune
prune-IsBounded now a h =
    let cutoff = now - a.retention_ms in
    let trim : Resource → Resource = λ r. record r { times = prune_samples cutoff r.times } in
    record {
      vitals = prune_buckets-BucketsOk cutoff vital_names a.vitals h.vitals;
      nav = prune_buckets-BucketsOk cutoff nav_phases a.nav h.nav;
      view_count = h.view_count;
      views = h.views;
      resource_count = rw (length-map_values trim a.resources) h.resource_count;
      resources =
          Each-map_values trim ResourceOk
            (λ r k. record {
              samples = prune_samples-SamplesOk cutoff r.times k.samples;
              routes = k.routes;
            })
            a.resources h.resources;
      error_count =
          let l = length-filter (λ (e : Text × ErrorEntry). leb cutoff e.1.last) a.errors in
          let m = h.error_count in omega arith;
      errors = All-filter (λ (e : Text × ErrorEntry). ErrorOk e.1) _ a.errors h.errors;
      devices = h.devices;
    }

module _ (js : Runtime) (now : ℕ) where
  push_phase-IsBounded :
      (route phase : Text) (o : Option ℕ) (a : RumAggregator)
      → includes phase nav_phases ≡ true
      → IsBounded a
      → IsBounded (push_phase js now route phase o a)
  push_phase-IsBounded route phase none a i h = h
  push_phase-IsBounded route phase (some v) a i h =
      set_nav h _ (bucket_push-BucketsOk nav_phases route phase v now a.nav i h.nav)

  push_phases-IsBounded :
      (route : Text) (e : Value) (phases : List Text) (a : RumAggregator)
      → All (λ p. includes p nav_phases ≡ true) phases
      → IsBounded a
      → IsBounded (push_phases js now route e phases a).0
  unfolding push_phases
  push_phases-IsBounded route e [] a i h = h
  push_phases-IsBounded route e (phase ∷ phases) a i h =
      elim (Option-cases (js.number (member phase e))) [
        | inl failed ↦ rw failed h
        | inr (v, e') ↦ rw e' (
            push_phases-IsBounded route e phases _ i.1
              (push_phase-IsBounded route phase (below_limit v) a i.0 h))
      ]

  ingest_nav-IsBounded :
      (a : RumAggregator) (route : Text) (e : Value)
      → IsBounded a
      → IsBounded (ingest_nav js now a route e).0
  unfolding ingest_nav includes same txt
  ingest_nav-IsBounded a route e h =
      push_phases-IsBounded route e nav_phases a
        (refl, (refl, (refl, (refl, (refl, (refl, (refl, (refl, tt)))))))) h

  ingest_vital-IsBounded :
      (a : RumAggregator) (route : Text) (e : Value)
      → IsBounded a
      → IsBounded (ingest_vital js now a route e).0
  unfolding ingest_vital
  ingest_vital-IsBounded a route e h =
      convert_vital-IsBounded js now a route (js.string (member (txt "name") e))
        (js.number (member (txt "value") e)) h

  ingest_resource-IsBounded :
      (a : RumAggregator) (route : Text) (e : Value)
      → IsBounded a
      → IsBounded (ingest_resource js now a route e).0
  unfolding ingest_resource
  ingest_resource-IsBounded a route e h =
      file_resource-IsBounded js now a route e (as_text (member (txt "url") e)) h

  ingest_error-IsBounded :
      (a : RumAggregator) (route : Text) (e : Value)
      → IsBounded a
      → IsBounded (ingest_error js now a route e).0
  unfolding ingest_error
  ingest_error-IsBounded a route e h =
      file_error-IsBounded js now a route e (as_text (member (txt "message") e)) h

  dispatch-IsBounded :
      (a : RumAggregator) (route : Text) (e : Value) (o : Option Text)
      → IsBounded a
      → IsBounded (dispatch js now a route e o).0
  unfolding dispatch
  dispatch-IsBounded a route e none h = h
  dispatch-IsBounded a route e (some type) h = elim (Bool-cases (same type (txt "vital"))) [
    | inl is_vital ↦ rw is_vital (ingest_vital-IsBounded a route e h)
    | inr no_vital ↦ rw no_vital (elim (Bool-cases (same type (txt "view"))) [
      | inl is_view ↦ rw is_view (ingest_view-IsBounded js now a route e h)
      | inr no_view ↦ rw no_view (elim (Bool-cases (same type (txt "resource"))) [
        | inl is_resource ↦ rw is_resource (ingest_resource-IsBounded a route e h)
        | inr no_resource ↦ rw no_resource (elim (Bool-cases (same type (txt "error"))) [
          | inl is_error ↦ rw is_error (ingest_error-IsBounded a route e h)
          | inr no_error ↦ rw no_error (elim (Bool-cases (same type (txt "nav"))) [
            | inl is_nav ↦ rw is_nav (ingest_nav-IsBounded a route e h)
            | inr no_nav ↦ rw no_nav h
          ])
        ])
      ])
    ])
  ]

  ingest_event-IsBounded :
      (beacon_route : Text) (a : RumAggregator) (e : Value)
      → IsBounded a
      → IsBounded (ingest_event js now beacon_route a e).0
  unfolding ingest_event
  ingest_event-IsBounded beacon_route a e h = elim (Bool-cases (is_object e)) [
    | inl object ↦ rw object (
        dispatch-IsBounded a
          (normalize_route (some (or_else (as_text (member (txt "route") e)) beacon_route))) e
          (as_text (member (txt "type") e)) h)
    | inr other ↦ rw other h
  ]

  go_on-IsBounded :
      (rest : RumAggregator → ℕ → Ingested js now) (n : ℕ) (o : Outcome)
      → ((a : RumAggregator) (n : ℕ) → IsBounded a → IsBounded (rest a n).0)
      → IsBounded o.0
      → IsBounded (go_on js now rest n o).0
  unfolding go_on
  go_on-IsBounded rest n (a, skipped) f h = f a n h
  go_on-IsBounded rest n (a, accepted) f h = f a (n + 1) h
  go_on-IsBounded rest n (a, thrown) f h = h

  ingest_events-IsBounded :
      (beacon_route : Text) (events : List Value) (a : RumAggregator) (n : ℕ)
      → IsBounded a
      → IsBounded (ingest_events js now beacon_route events a n).0
  unfolding ingest_events
  ingest_events-IsBounded beacon_route [] a n h = h
  ingest_events-IsBounded beacon_route (e ∷ events) a n h =
      go_on-IsBounded (λ a' n'. ingest_events js now beacon_route events a' n') n
        (ingest_event js now beacon_route a e)
        (λ a' n' h'. ingest_events-IsBounded beacon_route events a' n' h')
        (ingest_event-IsBounded beacon_route a e h)

  note_session-IsBounded :
      (o : Option Text) (a : RumAggregator) → IsBounded a → IsBounded (note_session js now o a)
  unfolding note_session
  note_session-IsBounded none a h = h
  note_session-IsBounded (some id) a h = elim (Bool-cases (session_pattern js now id)) [
    | inl fits ↦ rw fits (same_bounds h (refl, refl, refl, refl, refl, refl))
    | inr other ↦ rw other h
  ]

  prune_if_due-IsBounded : (a : RumAggregator) → IsBounded a → IsBounded (prune_if_due js now a)
  unfolding prune_if_due
  prune_if_due-IsBounded a h = elim (Bool-cases (ltb 60000 (now - a.last_prune))) [
    | inl due ↦ rw due (prune-IsBounded now a h)
    | inr early ↦ rw early h
  ]

  device_of-listed : (raw : Value) → includes (device_of js now raw) device_names ≡ true
  unfolding includes txt same
  device_of-listed raw = by (as_text (member (txt "device") raw))
    where
      by :
          (o : Option Text)
          → includes
              (elim o [
                | none ↦ txt "unknown"
                | some d ↦ if includes d device_kinds then d else txt "unknown"
              ])
              device_names
            ≡ true
      by none = refl
      by (some d) = elim (Bool-cases (includes d device_kinds)) [
        | inl listed ↦ rw listed (ground (arith, listed))
        | inr other ↦ rw other refl
      ]

  open_beacon-IsBounded :
      (raw : Value) (a : RumAggregator) → IsBounded a → IsBounded (open_beacon js now raw a)
  unfolding open_beacon
  open_beacon-IsBounded raw a h = note_session-IsBounded (as_text (member (txt "session") raw)) _ (
      set_devices h _ (
        put_within device_names (device_of js now raw) _ a.devices (device_of-listed raw)
          h.devices))

  close_beacon-IsBounded :
      (s : Ingested js now) → IsBounded s.0 → IsBounded (close_beacon js now s).0
  unfolding close_beacon
  close_beacon-IsBounded (a, none) h = h
  close_beacon-IsBounded (a, some n) h = prune_if_due-IsBounded a h

  ingest_list-IsBounded :
      (raw : Value) (a : RumAggregator) (o : Option (List Value))
      → IsBounded a
      → IsBounded (ingest_list js now raw a o).0
  unfolding ingest_list
  ingest_list-IsBounded raw a none h = h
  ingest_list-IsBounded raw a (some events) h =
      let route = normalize_route (as_text (member (txt "route") raw)) in
      close_beacon-IsBounded
        (ingest_events js now route (take 200 events) (open_beacon js now raw a) 0)
        (ingest_events-IsBounded route (take 200 events) (open_beacon js now raw a) 0
          (open_beacon-IsBounded raw a h))

  -- Whatever a beacon holds, and whatever the runtime's conversions and its URL parser return
  -- or throw, ingesting it at any time keeps the aggregator bounded: at most 201 routes with at most five
  -- vitals and eight phases each, 200 viewed routes, 300 resources and 200 errors with at most 20
  -- routes each, at most 2000 samples in a series, and four kinds of device.
  pub ingest-IsBounded :
      (raw : Value) (a : RumAggregator) → IsBounded a → IsBounded (ingest js now raw a).0
  unfolding ingest
  ingest-IsBounded raw a h = ingest_list-IsBounded raw a (as_array (member (txt "events") raw)) h
