-- ===== src/Rum/Bounds/Filing.antt =====
-- The bounds of a bucket map, through a write and through pruning.
use kube_diagnostics_mcp.Common.{
  ℕ, ◌+◌, ◌-◌, ◌≤◌, ◌≡◌, refl, ◌⊎◌, inl, inr, true, false, Option, none, some, List, [], ◌∷◌, ◌++◌,
  map, arith, Text, txt, Map, Each, Each-get, Each-put, get, put, has, has-put, length-put, length,
  length-drop, length-filter, missing, missing-empty, put_within, includes, same_iff, if◌then◌else◌,
  or_else, leb, Bool-cases,
}
use kube_diagnostics_mcp.Rum.Bounds.{SamplesOk, MetricsOk, BucketsOk}
use kube_diagnostics_mcp.Rum.Samples.{Sample, Samples, capped, push_sample, prune_samples}
use kube_diagnostics_mcp.Rum.State.{Buckets, bucket_at, bucket_push, prune_buckets}

capped-SamplesOk : (l : Samples) → SamplesOk (capped l)
unfolding capped
capped-SamplesOk l = ground (arith, length-drop (length l - 2000) l)

-- A series never exceeds its cap, whatever it was before.
pub push_sample-SamplesOk : (v t : ℕ) (l : Samples) → SamplesOk (push_sample v t l)
unfolding push_sample
push_sample-SamplesOk v t l = capped-SamplesOk (l ++ record { t = t; v = v } ∷ [])

pub prune_samples-SamplesOk :
    (cutoff : ℕ) (l : Samples) → SamplesOk l → SamplesOk (prune_samples cutoff l)
unfolding prune_samples
prune_samples-SamplesOk cutoff l h = omega (arith, length-filter (λ (s : Sample). leb cutoff s.t) l)

MetricsOk-empty : (names : List Text) → MetricsOk names []
MetricsOk-empty names = record { series = tt; listed = omega (arith, missing-empty Samples names) }

MetricsOk-push :
    (names : List Text) (key : Text) (v now : ℕ) (m : Map Samples)
    → includes key names ≡ true
    → MetricsOk names m
    → MetricsOk names (put key (push_sample v now (or_else (get key m) [])) m)
MetricsOk-push names key v now m i h = record {
  series = Each-put SamplesOk key _ m h.series (push_sample-SamplesOk v now _);
  listed = put_within names key _ m i h.listed;
}

or_else-MetricsOk :
    (names : List Text) (k : Text) (b : Buckets) (o : Option (Map Samples))
    → Each (MetricsOk names) b
    → get k b ≡ o
    → MetricsOk names (or_else o [])
or_else-MetricsOk names k b none h e = MetricsOk-empty names
or_else-MetricsOk names k b (some m) h e = Each-get (MetricsOk names) k b h e

bucket_at-MetricsOk :
    (names : List Text) (route : Text) (b : Buckets) (o : Option (Map Samples))
    → Each (MetricsOk names) b
    → get route b ≡ o
    → MetricsOk names (bucket_at route b o).1
unfolding bucket_at
bucket_at-MetricsOk names route b (some m) h e = Each-get (MetricsOk names) route b h e
bucket_at-MetricsOk names route b none h e = elim (Bool-cases (leb 200 (length b))) [
  | inl full ↦ rw full (or_else-MetricsOk names (txt "(other)") b (get (txt "(other)") b) h refl)
  | inr space ↦ rw space (MetricsOk-empty names)
]

abbrev overflow : Buckets → ℕ
overflow b = if has (txt "(other)") b then 1 else 0

put-routes :
    (route : Text) (m : Map Samples) (b : Buckets)
    → (has route b ≡ true) ⊎ (leb 200 (length b) ≡ false) ⊎ (route ≡ txt "(other)")
    → length b ≤ 200 + overflow b
    → length (put route m b) ≤ 200 + overflow (put route m b)
put-routes route m b (inl old) h =
    ground (arith, length-put route m b, has-put route (txt "(other)") m b)
put-routes route m b (inr (inl space)) h =
    ground (arith, length-put route m b, has-put route (txt "(other)") m b)
put-routes route m b (inr (inr e)) h = ground (
  arith,
  length-put route m b,
  has-put route (txt "(other)") m b,
  same_iff route (txt "(other)"),
  e,
)

bucket_at_place :
    (route : Text) (b : Buckets) (o : Option (Map Samples))
    → get route b ≡ o
    → (has (bucket_at route b o).0 b ≡ true)
      ⊎ (leb 200 (length b) ≡ false)
      ⊎ ((bucket_at route b o).0 ≡ txt "(other)")
unfolding bucket_at
bucket_at_place route b (some m) e = inl (rw e)
bucket_at_place route b none e = elim (Bool-cases (leb 200 (length b))) [
  | inl full ↦ rw full (inr (inr refl))
  | inr space ↦ inr (inl space)
]

-- A write under one of the listed metrics keeps the bounds of a bucket map.
pub bucket_push-BucketsOk :
    (names : List Text) (route key : Text) (v now : ℕ) (b : Buckets)
    → includes key names ≡ true
    → BucketsOk names b
    → BucketsOk names (bucket_push route key v now b)
unfolding bucket_push
bucket_push-BucketsOk names route key v now b i h =
    let m = bucket_at-MetricsOk names route b (get route b) h.metrics refl in
    record {
      routes = put-routes _ _ b (bucket_at_place route b (get route b) refl) h.routes;
      metrics = Each-put (MetricsOk names) _ _ b h.metrics (MetricsOk-push names key v now _ i m);
    }

module _ {ℓ} {V : Type ℓ} (f : V → V) where
  -- Changing the values of a map keeps its keys.
  pub get-map_values : (k : Text) (m : Map V) → has k (map (λ e. (e.0, f e.1)) m) ≡ has k m
  unfolding get
  get-map_values k [] = refl
  get-map_values k ((j, v) ∷ m) = ground (arith, get-map_values k m)

  pub length-map_values : (m : Map V) → length {A = Text × V} (map (λ e. (e.0, f e.1)) m) ≡ length m
  length-map_values [] = refl
  length-map_values ((j, v) ∷ m) = omega (arith, length-map_values m)

  pub missing-map_values :
      (names : List Text) (m : Map V) → missing names (map (λ e. (e.0, f e.1)) m) ≡ missing names m
  unfolding missing
  missing-map_values [] m = refl
  missing-map_values (k ∷ names) m = rw (get-map_values k m, missing-map_values names m)

  pub Each-map_values {κ} :
      (P : V → Type κ)
      → ((v : V) → P v → P (f v))
      → (m : Map V) → Each P m
      → Each P (map (λ e. (e.0, f e.1)) m)
  Each-map_values P g [] h = tt
  Each-map_values P g ((j, v) ∷ m) h = (g v h.0, Each-map_values P g m h.1)

prune_metrics-MetricsOk :
    (cutoff : ℕ) (names : List Text) (m : Map Samples)
    → MetricsOk names m
    → MetricsOk names (map (λ e. (e.0, prune_samples cutoff e.1)) m)
prune_metrics-MetricsOk cutoff names m h = record {
  series =
      Each-map_values (prune_samples cutoff) SamplesOk (prune_samples-SamplesOk cutoff) m h.series;
  listed =
      rw
        (
          length-map_values (prune_samples cutoff) m,
          missing-map_values (prune_samples cutoff) names m,
        )
        h.listed;
}

pub prune_buckets-BucketsOk :
    (cutoff : ℕ) (names : List Text) (b : Buckets)
    → BucketsOk names b
    → BucketsOk names (prune_buckets cutoff b)
unfolding prune_buckets
prune_buckets-BucketsOk cutoff names b h =
    let prune_one : Map Samples → Map Samples = map (λ m. (m.0, prune_samples cutoff m.1)) in
    record {
      routes =
          rw (length-map_values prune_one b, get-map_values prune_one (txt "(other)") b) h.routes;
      metrics =
          Each-map_values prune_one (MetricsOk names) (prune_metrics-MetricsOk cutoff names) b
            h.metrics;
    }
