-- ===== src/Common/Numbers.antt =====
-- JavaScript numbers. A finite number is a whole count of millionths, which holds the integers and
-- the measured milliseconds that the program handles; doubles off that grid are not represented.
-- Also the decimal reading and printing of natural numbers.
use Prim.Native.Nat.{ℕ, zero, suc, ◌+◌, ◌-◌, ◌*◌, ◌/◌, ◌%◌, ◌<◌}
use mathlib.Core.Path.{◌≡◌, refl, ap, ◌∙◌}
use native.Mathlib.Omega.{arith}
use mathlib.Core.Bool.{Bool, true, false}
use mathlib.Core.List.{[], ◌∷◌}
use kube_diagnostics_mcp.Common.Tests.{ltb, ◌==◌, if◌then◌else◌}
use kube_diagnostics_mcp.Common.Texts.{Text}

-- `minus n` is the finite number of -(n + 1) millionths.
pub data Number : Type 0 where
  nan infinity minus_infinity : Number
  plus : ℕ → Number
  minus : ℕ → Number

abbrev pub million : ℕ
million = 1_000_000

-- The number with the value of a natural number.
abbrev pub whole : ℕ → Number
whole n = plus (n * million)

-- `Number.isFinite(v)`
abbrev pub is_finite : Number → Bool
is_finite (plus n) = true
is_finite (minus n) = true
is_finite _ = false

-- `Number.isInteger(v)`
abbrev pub is_integer : Number → Bool
is_integer (plus n) = n % million == 0
is_integer (minus n) = (n + 1) % million == 0
is_integer _ = false

-- `v < k`
abbrev pub less : Number → ℕ → Bool
less (plus n) k = ltb n (k * million)
less (minus n) k = true
less minus_infinity k = true
less _ k = false

-- `v > k`
abbrev pub greater : Number → ℕ → Bool
greater (plus n) k = ltb (k * million) n
greater infinity k = true
greater _ k = false

-- `Math.floor(v)` of a number that is at least 0; no other is asked for
abbrev pub floor : Number → ℕ
floor (plus n) = n / million
floor _ = 0

-- `Number(s)` of a text of digits
unfoldable pub digits_value : ℕ → Text → ℕ
digits_value acc [] = acc
digits_value acc (c ∷ s) = digits_value (acc * 10 + (c - b'0')) s

digits_of : ℕ → ℕ → Text → Text
digits_of zero n acc = acc
digits_of (suc fuel) n acc =
    let rest = digits_of fuel (n / 10) ((b'0' + n % 10) ∷ acc) in
    if ltb n 10 then (b'0' + n) ∷ acc else rest

-- `String(n)`; a number has no more digits than its value plus one
unfoldable pub print : ℕ → Text
unfolding digits_of
print n = digits_of (n + 1) n []

-- The digits of a number below 1000.
abbrev pub three_digits : ℕ → Text
three_digits n =
    if ltb n 10
    then (b'0' + n) ∷ []
    else if ltb n 100
    then (b'0' + n / 10) ∷ (b'0' + n % 10) ∷ []
    else (b'0' + n / 100) ∷ (b'0' + n / 10 % 10) ∷ (b'0' + n % 10) ∷ []

digits_of-three : (fuel n : ℕ) → n < 1000 → digits_of (suc (suc (suc fuel))) n [] ≡ three_digits n
unfolding digits_of
digits_of-three fuel n h = ground arith

pub print_small : (n : ℕ) → n < 1000 → print n ≡ three_digits n
unfolding print digits_of
print_small zero h = refl
print_small (suc zero) h = refl
print_small (suc (suc n)) h =
    let fuel : suc (suc n) + 1 ≡ suc (suc (suc n)) = omega arith in
    ap (λ f. digits_of f (suc (suc n)) []) fuel ∙ digits_of-three n (suc (suc n)) h
