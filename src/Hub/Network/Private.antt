-- ===== src/Hub/Network/Private.antt =====
-- src/hub/tools/network.ts: `isPrivate`, and the names that `getOpenConnections` gives to the remote
-- ends of the connections of a pod. A Service is read as its name and its cluster IP.
use kube_diagnostics_mcp.Common.{
  ℕ, Bool, ◌&&◌, ◌||◌, Option, none, some, List, [], ◌∷◌, ◌++◌, Text, txt, Map, get, put, same,
  or_else, if◌then◌else◌, leb,
}
use kube_diagnostics_mcp.Hub.Model.{Pod}
use kube_diagnostics_mcp.Regex.{Regex, char, seq, group, start, lit, lit_i, any_of, test}
use kube_diagnostics_mcp.Regex.Classes.{is_digit}
use kube_diagnostics_mcp.Strings.{starts_with}

-- `[lo-hi]`
abbrev pub between : ℕ → ℕ → Regex
between lo hi = char (λ c. leb lo c && leb c hi)

abbrev digit : Regex
digit = char is_digit

-- `/^10\./`, `/^192\.168\./` and `/^169\.254\./`
abbrev pub begins : Text → Regex
begins s = seq start (lit s)

-- `/^172\.(1[6-9]|2\d|3[01])\./`
abbrev pub class_b : Regex
unfolding txt
class_b = seq start (
    seq (lit (txt "172.")) (
      seq
        (group 1 (
          any_of (seq (lit (txt "1")) (between b'6' b'9'))
            (seq (lit (txt "2")) digit ∷ seq (lit (txt "3")) (between b'0' b'1') ∷ [])))
        (lit (txt "."))))

-- `/^fd|^fe80|^fc/i`
abbrev pub unique_local : Regex
unfolding txt
unique_local =
    any_of (seq start (lit_i (txt "fd")))
      (seq start (lit_i (txt "fe80")) ∷ seq start (lit_i (txt "fc")) ∷ [])

-- `/^100\.(6[4-9]|[7-9]\d|1[01]\d|12[0-7])\./`
abbrev pub carrier_grade : Regex
unfolding txt
carrier_grade = seq start (
    seq (lit (txt "100.")) (
      seq
        (group 1 (
          any_of (seq (lit (txt "6")) (between b'4' b'9')) (
            seq (between b'7' b'9') digit
            ∷ seq (lit (txt "1")) (seq (between b'0' b'1') digit)
            ∷ seq (lit (txt "12")) (between b'0' b'7')
            ∷ [])))
        (lit (txt "."))))

unfoldable pub is_private : Text → Bool
unfolding same starts_with test txt
is_private ip =
    same ip (txt "127.0.0.1")
    || (same ip (txt "::1")
        || (starts_with (txt "127.") ip
            || (test (begins (txt "10.")) ip
                || (test (begins (txt "192.168.")) ip
                    || (test class_b ip
                        || (test (begins (txt "169.254.")) ip
                            || (test unique_local ip || test carrier_grade ip)))))))

pub record ServiceIp : Type 0 where
  pub name : Option Text
  pub cluster_ip : Option Text

-- `new Map(services.map((s) => [s.spec?.clusterIP ?? "", s.metadata?.name ?? ""]))`
unfoldable pub service_by_ip : Map Text → List ServiceIp → Map Text
unfolding put
service_by_ip m [] = m
service_by_ip m (s ∷ l) = service_by_ip (put (or_else s.cluster_ip []) (or_else s.name []) m) l

-- `new Map(pods.map((p) => [p.status?.podIP ?? "", p.metadata?.name ?? ""]))`
unfoldable pub pod_by_ip : Map Text → List Pod → Map Text
unfolding put
pod_by_ip m [] = m
pod_by_ip m (p ∷ l) = pod_by_ip (put (or_else p.pod_ip []) (or_else p.name []) m) l

-- `m.get(k) ? … : …`: a missing and an empty name are both falsy.
unfoldable pub known_name : Text → Map Text → Option Text
unfolding get
known_name k m = elim (get k m) [ some (c ∷ s) ↦ some (c ∷ s) | _ ↦ none ]

-- What `resolved` says of a remote address; none for a private one that nobody is known by.
unfoldable pub named : Option Text → Option Text → Bool → Option Text
unfolding txt
named (some s) pod private = some (txt "service/" ++ s)
named none (some p) private = some (txt "pod/" ++ p)
named none none private = if private then none else some (txt "EXTERNAL")

unfoldable pub resolved_remote : Map Text → Map Text → Text → Option Text
unfolding known_name is_private named txt
resolved_remote services pods remote =
    named (known_name remote services) (known_name remote pods) (is_private remote)
