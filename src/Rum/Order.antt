-- ===== src/Rum/Order.antt =====
-- The summary of a series is in order.
use kube_diagnostics_mcp.Common.{
  ℕ, ◌≤◌, ◌≡◌, refl, ◌∙◌, List, [], ◌∷◌, map, arith, length, sort_by, ascending, length-sort_by,
  sort_by-IsSorted,
}
use kube_diagnostics_mcp.Rum.Samples.{Sample, Samples, percentiles, round_thousandths}
use kube_diagnostics_mcp.Stats.{percentile_mono, percentile-le-last_or}

round_mono : (a b : ℕ) → a ≤ b → round_thousandths a ≤ round_thousandths b
round_mono a b h = omega arith

length-map_values_of : (l : Samples) → length (map (λ (s : Sample). s.v) l) ≡ length l
length-map_values_of [] = refl
length-map_values_of (s ∷ l) = omega (arith, length-map_values_of l)

-- The median is at most the 75th percentile, that at most the 95th, and that at most the maximum,
-- each rounded to thousandths, and the count is the number of samples.
pub percentiles_ordered :
    (l : Samples)
    → ((percentiles l).count ≡ length l)
      × ((percentiles l).p50 ≤ (percentiles l).p75)
      × ((percentiles l).p75 ≤ (percentiles l).p95)
      × ((percentiles l).p95 ≤ (percentiles l).max)
unfolding percentiles
percentiles_ordered l =
    let values : List ℕ = map (λ (s : Sample). s.v) l in
    let sorted = sort_by-IsSorted values in
    (
      length-sort_by ascending values ∙ length-map_values_of l,
      round_mono _ _ (percentile_mono (sort_by ascending values) 50 75 sorted (omega arith)),
      round_mono _ _ (percentile_mono (sort_by ascending values) 75 95 sorted (omega arith)),
      round_mono _ _ (percentile-le-last_or (sort_by ascending values) 95 sorted),
    )
