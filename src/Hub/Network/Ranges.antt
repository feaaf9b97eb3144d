-- ===== src/Hub/Network/Ranges.antt =====
-- src/hub/tools/network.ts: the address ranges that `isPrivate` accepts, for the dotted addresses
-- that the probe reports.
use kube_diagnostics_mcp.Common.{
  ℕ, Map, Option, none, some, ◌≤◌, ◌<◌, ◌≡◌, refl, sym, ◌∙◌, ◌↔◌, ◌⊎◌, inl, inr, Bool, true, false,
  ◌&&◌, ◌||◌, arith, [], ◌∷◌, ◌++◌, Text, txt, same, same_iff, leb, ◌==◌, Bool-cases, eq_iff,
  leb_iff, and_iff, or_iff, print, print_small, three_digits,
}
use kube_diagnostics_mcp.Hub.Network.Private.{
  begins, class_b, unique_local, carrier_grade, is_private, known_name, named, resolved_remote,
}
use kube_diagnostics_mcp.Regex.{Regex, seq, alt, start, lit_i, match_at, test_from, test}
use kube_diagnostics_mcp.Regex.Anchored.{test-start}
use kube_diagnostics_mcp.Strings.{starts_with, join}

-- The first octet of a dotted address and what follows it.
abbrev pub octet : ℕ → Text → Text
octet a rest = three_digits a ++ b'.' ∷ rest

-- `/^a\./` holds of the addresses with this first octet.
module _ (a : ℕ) (rest : Text) (small : a < 256) where
  octet-10 : test (begins (txt "10.")) (octet a rest) ≡ (a == 10)
  unfolding match_at txt
  octet-10 = test-start _ _ ∙ ground arith

  octet-127 : starts_with (txt "127.") (octet a rest) ≡ (a == 127)
  unfolding starts_with txt
  octet-127 = ground arith

module _ (a b : ℕ) (rest : Text) (small : a < 256) (small_b : b < 256) where
  octets-192 : test (begins (txt "192.168.")) (octet a (octet b rest)) ≡ (a == 192 && b == 168)
  unfolding match_at txt
  octets-192 = test-start _ _ ∙ ground arith

  octets-172 : test class_b (octet a (octet b rest)) ≡ (a == 172 && (leb 16 b && leb b 31))
  unfolding match_at txt
  octets-172 = test-start _ _ ∙ ground arith

  octets-169 : test (begins (txt "169.254.")) (octet a (octet b rest)) ≡ (a == 169 && b == 254)
  unfolding match_at txt
  octets-169 = test-start _ _ ∙ ground arith

hundred :
    (b : ℕ) (rest : Text)
    → b < 256
    → test carrier_grade (octet 100 (octet b rest)) ≡ (leb 64 b && leb b 127)
unfolding match_at txt
hundred b rest small = test-start _ _ ∙ ground arith

not_hundred :
    (a : ℕ) (rest : Text) → a < 256 → (a == 100) ≡ false → test carrier_grade (octet a rest) ≡ false
unfolding match_at txt
not_hundred a rest small other = test-start _ _ ∙ ground arith

octets-100 :
    (a b : ℕ) (rest : Text)
    → a < 256
    → b < 256
    → test carrier_grade (octet a (octet b rest)) ≡ (a == 100 && (leb 64 b && leb b 127))
octets-100 a b rest small small_b = elim (Bool-cases (a == 100)) [
  | inl this ↦ let e = (eq_iff a 100).0 this in rw e (hundred b rest small_b)
  | inr other ↦ rw other (not_hundred a (octet b rest) small other)
]

test_from-alt :
    (x y : Regex) (b s : Text) → test_from (alt x y) b s ≡ (test_from x b s || test_from y b s)
unfolding test_from match_at
test_from-alt x y b [] = ground arith
test_from-alt x y b (c ∷ s) = ground (arith, test_from-alt x y (c ∷ b) s)

test-alt : (x y : Regex) (s : Text) → test (alt x y) s ≡ (test x s || test y s)
unfolding test
test-alt x y s = test_from-alt x y [] s

octet-unique_local : (a : ℕ) (rest : Text) → a < 256 → test unique_local (octet a rest) ≡ false
unfolding match_at txt
octet-unique_local a rest small =
    let s = octet a rest in
    let fd = seq start (lit_i (txt "fd")) in
    let fe80 = seq start (lit_i (txt "fe80")) in
    let fc = seq start (lit_i (txt "fc")) in
    let no_fd : test fd s ≡ false = test-start _ s ∙ ground arith in
    let no_fe80 : test fe80 s ≡ false = test-start _ s ∙ ground arith in
    let no_fc : test fc s ≡ false = test-start _ s ∙ ground arith in
    let first = test-alt fd (alt fe80 fc) s in
    let second = test-alt fe80 fc s in rw (first, second, no_fd, no_fe80, no_fc) refl

same-loopback : (s : Text) → same s (txt "127.0.0.1") ≡ true → starts_with (txt "127.") s ≡ true
unfolding starts_with txt
same-loopback s h = rw ((same_iff s (txt "127.0.0.1")).0 h) refl

octet-loopback6 : (a : ℕ) (rest : Text) → a < 256 → same (octet a rest) (txt "::1") ≡ false
unfolding same txt
octet-loopback6 a rest small = ground arith

-- Loopback, the private ranges of RFC 1918, link-local, and the shared range of RFC 6598.
abbrev pub IsPrivateRange : ℕ → ℕ → Type 0
IsPrivateRange a b =
    (a ≡ 127)
    ⊎ (a ≡ 10)
    ⊎ ((a ≡ 192) × (b ≡ 168))
    ⊎ ((a ≡ 172) × ((16 ≤ b) × (b ≤ 31)))
    ⊎ ((a ≡ 169) × (b ≡ 254))
    ⊎ ((a ≡ 100) × ((64 ≤ b) × (b ≤ 127)))

in_range : ℕ → ℕ → Bool
in_range a b =
    a == 127
    || (a == 10
        || (a == 192 && b == 168
            || (a == 172 && (leb 16 b && leb b 31)
                || (a == 169 && b == 254 || a == 100 && (leb 64 b && leb b 127)))))

in_range_iff : (a b : ℕ) → (in_range a b ≡ true) ↔ IsPrivateRange a b
unfolding in_range
in_range_iff a b = or_iff (eq_iff a 127) (
    or_iff (eq_iff a 10) (
      or_iff (and_iff (eq_iff a 192) (eq_iff b 168)) (
        or_iff (and_iff (eq_iff a 172) (and_iff (leb_iff 16 b) (leb_iff b 31))) (
          or_iff (and_iff (eq_iff a 169) (eq_iff b 254))
            (and_iff (eq_iff a 100) (and_iff (leb_iff 64 b) (leb_iff b 127)))))))

is_private-octets :
    (a b : ℕ) (rest : Text) → a < 256 → b < 256 → is_private (octet a (octet b rest)) ≡ in_range a b
unfolding is_private in_range
is_private-octets a b rest ha hb =
    let s = octet a (octet b rest) in
    let p6 = octet-loopback6 a (octet b rest) ha in
    let p127 = octet-127 a (octet b rest) ha in
    let p10 = octet-10 a (octet b rest) ha in
    let p192 = octets-192 a b rest ha hb in
    let p172 = octets-172 a b rest ha hb in
    let p169 = octets-169 a b rest ha hb in
    let pu = octet-unique_local a (octet b rest) ha in
    let p100 = octets-100 a b rest ha hb in
    rw (p6, p10, p192, p172, p169, pu, p100, p127) (ground (arith, same-loopback s))

-- A dotted address is private exactly if it is in one of these ranges.
is_private_iff :
    (a b c d : ℕ)
    → a < 256
    → b < 256
    → (is_private (join (txt ".") (print a ∷ print b ∷ print c ∷ print d ∷ [])) ≡ true)
      ↔ IsPrivateRange a b
unfolding join txt
is_private_iff a b c d ha hb =
    let rest = print c ++ b'.' ∷ print d in
    rw (print_small a (omega arith), print_small b (omega arith), is_private-octets a b rest ha hb)
      (in_range_iff a b)

resolved_by :
    (services pods : Option Text) (private : Bool)
    → (named services pods private ≡ some (txt "EXTERNAL"))
      ↔ ((services ≡ none) × (pods ≡ none) × (private ≡ false))
unfolding named txt
resolved_by (some s) pods private = (λ h. absurd (ground arith), λ h. absurd (ground arith))
resolved_by none (some p) private = (λ h. absurd (ground arith), λ h. absurd (ground arith))
resolved_by none none true = (λ h. absurd (ground arith), λ h. absurd (ground arith))
resolved_by none none false = (λ h. (refl, refl, refl), λ h. refl)

-- A remote end with a dotted address of version 4 is called external exactly if no service and no
-- pod is known by the address and it is in none of the private ranges.
pub resolved_remote_external_iff :
    (services pods : Map Text) (a b c d : ℕ)
    → a < 256
    → b < 256
    → let remote = join (txt ".") (print a ∷ print b ∷ print c ∷ print d ∷ []) in
      (resolved_remote services pods remote ≡ some (txt "EXTERNAL")) ↔ (
        (known_name remote services ≡ none)
        × (known_name remote pods ≡ none)
        × ¬ IsPrivateRange a b)
unfolding resolved_remote
resolved_remote_external_iff services pods a b c d ha hb =
    let remote = join (txt ".") (print a ∷ print b ∷ print c ∷ print d ∷ []) in
    let by =
      resolved_by (known_name remote services) (known_name remote pods) (is_private remote) in
    let private = is_private_iff a b c d ha hb in
    (
      λ h. let (s, p, f) = by.0 h in (s, p, λ r. true≢false (sym (private.1 r) ∙ f)),
      λ h. let (s, p, n) = h in by.1 (s, p, not_private (is_private remote) private n),
    )
  where
    true≢false : true ≡ false → ⊥
    true≢false h = ground arith

    not_private : {R : Type 0} (p : Bool) → (p ≡ true) ↔ R → ¬ R → p ≡ false
    not_private true i n = absurd (n (i.0 refl))
    not_private false i n = refl
