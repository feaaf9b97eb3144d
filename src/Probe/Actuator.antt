-- ===== src/Probe/Actuator.antt =====
-- src/probe/server.ts: the URL that the "/actuator" case fetches.
use kube_diagnostics_mcp.Common.{
  ℕ, Bool, ◌||◌, Option, none, some, List, [], ◌∷◌, ◌++◌, map, filter, Text, txt, same,
  if◌then◌else◌, ◌==◌, Result, ok, err,
}
use kube_diagnostics_mcp.Guard.{GuardError}
use kube_diagnostics_mcp.Regex.{seq, alt, start, finish, many1, test, replace}
use kube_diagnostics_mcp.Regex.Anchored.{all_of}
use kube_diagnostics_mcp.Regex.Classes.{is_alnum}
use kube_diagnostics_mcp.Rum.Routes.{constant}
use kube_diagnostics_mcp.Strings.{join}

-- What a case of the switch throws: a `GuardError` of the guard, one of its own, or another error.
pub data Thrown : Type 0 where
  guard : GuardError → Thrown
  invalid_metric_name : Thrown
  other : Text → Thrown

unfoldable pub actuator_allow : List Text
unfolding txt
actuator_allow =
    txt "health"
    ∷ txt "health/liveness"
    ∷ txt "health/readiness"
    ∷ txt "info"
    ∷ txt "metrics"
    ∷ txt "prometheus"
    ∷ txt "threaddump"
    ∷ txt "loggers"
    ∷ txt "caches"
    ∷ txt "scheduledtasks"
    ∷ txt "conditions"
    ∷ txt "configprops"
    ∷ txt "beans"
    ∷ txt "mappings"
    ∷ []

abbrev pub metric_class : ℕ → Bool
metric_class c = is_alnum c || c == b'_' || c == b'.'

abbrev pub tag_class : ℕ → Bool
tag_class c =
    is_alnum c
    || c == b'_'
    || c == b'.'
    || c == b':'
    || c == b'/'
    || c == b'{'
    || c == b'}'
    || c == b'-'
    || c == b'*'
    || c == b','

abbrev pub actuator_metric_name : Text → Bool
actuator_metric_name = test (all_of metric_class 1 120)

abbrev pub actuator_tag : Text → Bool
actuator_tag = test (all_of tag_class 1 200)

abbrev pub is_slash : ℕ → Bool
is_slash c = c == b'/'

-- `endpoint.replace(/^\/+|\/+$/g, "")`
unfoldable pub trim_slashes : Text → Text
unfolding replace
trim_slashes =
    replace (alt (seq start (many1 is_slash)) (seq (many1 is_slash) finish)) (constant [])

module _ (encode : Text → Text) where
  unfoldable pub tag_query : List Text → Text
  unfolding txt join
  tag_query [] = []
  tag_query (t ∷ tags) = txt "?" ++ join (txt "&") (map (λ t. txt "tag=" ++ encode t) (t ∷ tags))

  unfoldable pub metric_target : Text → Text → List Text → Result Thrown Text
  unfolding test txt filter
  metric_target target metric tags =
      if actuator_metric_name metric
      then ok (target ++ (txt "/" ++ metric) ++ tag_query (filter actuator_tag tags))
      else err invalid_metric_name

  -- An empty metric is falsy, as a missing one.
  unfoldable pub actuator_target : Text → Text → Option Text → List Text → Result Thrown Text
  unfolding metric_target same txt
  actuator_target base endpoint none tags = ok (base ++ (txt "/" ++ endpoint))
  actuator_target base endpoint (some []) tags = ok (base ++ (txt "/" ++ endpoint))
  actuator_target base endpoint (some (c ∷ metric)) tags =
      if same endpoint (txt "metrics")
      then metric_target (base ++ (txt "/" ++ endpoint)) (c ∷ metric) tags
      else ok (base ++ (txt "/" ++ endpoint))
