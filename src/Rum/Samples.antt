-- ===== src/Rum/Samples.antt =====
-- src/probe/rum.ts: `RollingSamples`.
use kube_diagnostics_mcp.Common.{
  ℕ, ◌+◌, ◌-◌, ◌*◌, ◌/◌, List, [], ◌∷◌, ◌++◌, map, length, drop, filter, leb, ltb, sort_by,
  ascending, last_or, if◌then◌else◌,
}
use kube_diagnostics_mcp.Stats.{percentile}

abbrev pub max_samples_per_key : ℕ
max_samples_per_key = 2000

pub record Sample : Type 0 where
  pub t : ℕ
  pub v : ℕ

abbrev pub Samples : Type 0
Samples = List Sample

-- `splice(0, n - max)` drops the oldest.
unfoldable pub capped : Samples → Samples
unfolding drop
capped l = if ltb max_samples_per_key (length l) then drop (length l - max_samples_per_key) l else l

unfoldable pub push_sample : ℕ → ℕ → Samples → Samples
unfolding capped
push_sample v t samples = capped (samples ++ record { t = t; v = v } ∷ [])

unfoldable pub prune_samples : ℕ → Samples → Samples
unfolding filter
prune_samples cutoff samples = filter (λ s. leb cutoff s.t) samples

pub record Percentiles : Type 0 where
  pub count : ℕ
  pub p50 : ℕ
  pub p75 : ℕ
  pub p95 : ℕ
  pub max : ℕ

-- `Math.round(x * 1000) / 1000`, in millionths
abbrev pub round_thousandths : ℕ → ℕ
round_thousandths x = (x + 500) / 1000 * 1000

unfoldable pub percentiles : Samples → Percentiles
unfolding sort_by percentile
percentiles samples =
    let sorted = sort_by ascending (map (λ s. s.v) samples) in
    record {
      count = length sorted;
      p50 = round_thousandths (percentile sorted 50);
      p75 = round_thousandths (percentile sorted 75);
      p95 = round_thousandths (percentile sorted 95);
      max = round_thousandths (last_or sorted 0);
    }
