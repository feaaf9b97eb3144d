-- ===== src/Guard/Tests.antt =====
-- Runs of the argument checks, and the theorems at concrete inputs.
use kube_diagnostics_mcp.Common.{
  ◌≡◌, refl, ◌↔◌, inl, ◌⊎◌, true, some, [], ◌∷◌, txt, includes, same, ok, err,
}
use kube_diagnostics_mcp.Guard.{
  invalid, not_allowed, invalid_window, assert_namespace, assert_name, assert_container_name,
  assert_hostname, parse_window_seconds, week_seconds, assert_namespace_allowed,
}
use kube_diagnostics_mcp.Guard.Names.{IsDnsLabel, IsK8sName, IsHostname, name_checks_iff}
use kube_diagnostics_mcp.Guard.Safe.{IsStep, accepted-IsStep, assert_namespace_allowed_iff}
use kube_diagnostics_mcp.Regex.{test, exec}
use kube_diagnostics_mcp.Strings.{trim}

namespace_runs :
    (assert_namespace (txt "faultlab") ≡ ok (txt "faultlab"))
    × (assert_namespace (txt "../kube") ≡ err (invalid (txt "namespace name") (txt "../kube")))
    × (assert_namespace_allowed (txt "prod") (txt "dev" ∷ [])
        ≡ err (not_allowed (txt "prod") (txt "dev" ∷ [])))
unfolding assert_namespace assert_namespace_allowed test txt includes same
namespace_runs = (refl, refl, refl)

window_runs :
    (parse_window_seconds (some (txt " 15m ")) 900 week_seconds ≡ ok 900)
    × (parse_window_seconds (some (txt "2 H")) 900 week_seconds ≡ ok 7200)
    × (parse_window_seconds (some (txt "99d")) 900 week_seconds ≡ ok 604800)
    × (parse_window_seconds (some (txt "1w")) 900 week_seconds ≡ err (invalid_window (txt "1w")))
unfolding parse_window_seconds exec trim txt same
window_runs = (refl, refl, refl, refl)

name_checks_iff_example :
    ((assert_namespace (txt "faultlab") ≡ ok (txt "faultlab")) ↔ IsDnsLabel (txt "faultlab"))
    × ((assert_container_name (txt "faultlab") ≡ ok (txt "faultlab")) ↔ IsDnsLabel (txt "faultlab"))
    × ((assert_name (txt "faultlab") (txt "pod name") ≡ ok (txt "faultlab"))
        ↔ IsK8sName (txt "faultlab"))
    × ((assert_hostname (txt "faultlab") ≡ ok (txt "faultlab")) ↔ IsHostname (txt "faultlab"))
name_checks_iff_example = name_checks_iff (txt "faultlab") (txt "pod name")

accepted-IsStep_example : IsStep (txt "faultlab")
accepted-IsStep_example =
    accepted-IsStep (txt "faultlab") (txt "faultlab") [] (inl namespace_runs.0)

assert_namespace_allowed_iff_example :
    (assert_namespace_allowed (txt "dev") (txt "dev" ∷ []) ≡ ok (txt "dev")) ↔ (
      IsDnsLabel (txt "dev")
      × ((txt "dev" ∷ [] ≡ []) ⊎ (includes (txt "dev") (txt "dev" ∷ []) ≡ true)))
assert_namespace_allowed_iff_example = assert_namespace_allowed_iff (txt "dev") (txt "dev" ∷ [])
