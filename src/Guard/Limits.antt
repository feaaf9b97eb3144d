-- ===== src/Guard/Limits.antt =====
-- The numbers that the checks let through.
use kube_diagnostics_mcp.Common.{
  ℕ, ◌/◌, ◌≤◌, ◌≡◌, refl, ap, ◌↔◌, Bool, true, false, not, ◌||◌, Option, none, some, arith,
  if◌then◌else◌, Text, Number, nan, infinity, minus_infinity, plus, minus, whole, million,
  is_integer, less, greater, Result, ok, err,
}
use kube_diagnostics_mcp.Guard.{
  GuardError, invalid_port, assert_port, clamp_limit, window, window_seconds, window_result,
  parse_window_seconds,
}
use kube_diagnostics_mcp.Regex.{exec, Hit, Captures}
use kube_diagnostics_mcp.Strings.{trim}

port_cases :
    (b : Bool) (v : Number)
    → ◌≡◌ {A = Result GuardError Number} (if b then err (invalid_port v) else ok v) (ok v)
    → b ≡ false
port_cases true v h = cc
port_cases false v h = refl

port_number :
    (v : Number)
    → (not (is_integer v) || less v 1 || greater v 65535) ≡ false
    → (n : ℕ) × (v ≡ whole n) × (1 ≤ n) × (n ≤ 65535)
port_number nan h = cc
port_number infinity h = cc
port_number minus_infinity h = cc
port_number (plus n) h = (n / million, ap plus (ground arith), ground arith, ground arith)
port_number (minus n) h = absurd (ground arith)

port_passes :
    (n : ℕ)
    → 1 ≤ n
    → n ≤ 65535
    → (not (is_integer (whole n)) || less (whole n) 1 || greater (whole n) 65535) ≡ false
port_passes n h k = ground arith

-- A port is accepted exactly if it is one of the integers 1 to 65535.
pub assert_port_iff :
    (v : Number) → (assert_port v ≡ ok v) ↔ ((n : ℕ) × (v ≡ whole n) × (1 ≤ n) × (n ≤ 65535))
unfolding assert_port
assert_port_iff v = (λ h. port_number v (port_cases _ v h), λ h. rw (h.1, port_passes h.0 h.2 h.3))

-- A limit stays between 1 and its maximum, whatever number is asked for, when the fallback and the
-- maximum are at least 1.
pub clamp_limit_bounds :
    (v : Option Number) (fallback most : ℕ)
    → 1 ≤ fallback
    → 1 ≤ most
    → (1 ≤ clamp_limit v fallback most) × (clamp_limit v fallback most ≤ most)
unfolding clamp_limit
clamp_limit_bounds none fallback most f m = omega arith
clamp_limit_bounds (some (plus n)) fallback most f m = ground arith
clamp_limit_bounds (some _) fallback most f m = omega arith

window_seconds_bounds :
    (most : ℕ) (groups : Captures)
    → 1 ≤ most
    → (1 ≤ window_seconds most groups) × (window_seconds most groups ≤ most)
unfolding window_seconds
window_seconds_bounds most groups m = omega arith

window_result_bounds :
    (value : Text) (most n : ℕ) (o : Option (Text × Hit))
    → 1 ≤ most
    → window_result value most o ≡ ok n
    → (1 ≤ n) × (n ≤ most)
unfolding window_result
window_result_bounds value most n none m h = cc
window_result_bounds value most n (some (matched, hit)) m h =
    ground (arith, window_seconds_bounds most hit.captures m)

-- A window that is accepted lies between one second and the maximum, when the fallback and the
-- maximum are at least one second.
pub parse_window_seconds_bounds :
    (value : Option Text) (fallback most n : ℕ)
    → 1 ≤ fallback
    → 1 ≤ most
    → parse_window_seconds value fallback most ≡ ok n
    → (1 ≤ n) × (n ≤ most)
unfolding parse_window_seconds
parse_window_seconds_bounds none fallback most n f m h = ground arith
parse_window_seconds_bounds (some value) fallback most n f m h =
    ground (arith, window_result_bounds value most n (exec window (trim value)) m)
