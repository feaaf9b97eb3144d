-- ===== src/Probe/AccessLog/Rounds.antt =====
-- src/probe/accesslog.ts: the loop of `summarizeAccessRecords` over the records.
use kube_diagnostics_mcp.Common.{
  ℕ, ◌+◌, ◌-◌, ◌*◌, ◌/◌, Bool, false, not, ◌&&◌, ◌||◌, Option, none, some, List, [], ◌∷◌, ◌++◌,
  Text, txt, Map, get, put, same, is_empty, or_else, if◌then◌else◌, ◌==◌, find, add_to, Number, nan,
  plus, minus, whole, less, million, Result, ok, err,
}
use kube_diagnostics_mcp.Json.{Value, undefined, str}
use kube_diagnostics_mcp.Probe.AccessLog.{Js, AccessRecord, is_truthy}
use kube_diagnostics_mcp.Probe.AccessLog.Paths.{normalize_path, suspicious}
use kube_diagnostics_mcp.Regex.{test}
use kube_diagnostics_mcp.Strings.{trim, until}

pub record PathEntry : Type 0 where
  pub count : ℕ
  pub times : List Number
  pub errors : ℕ

pub record UpstreamEntry : Type 0 where
  pub count : ℕ
  pub times : List Number
  pub utimes : List Number
  pub errors5xx : ℕ
  pub timeouts504 : ℕ

pub record SuspiciousEntry : Type 0 where
  pub count : ℕ
  pub reason : Text

-- What the loop over the records fills.
pub record Totals : Type 0 where
  pub by_status_class : Map ℕ
  pub by_status : Map ℕ
  pub paths : Map PathEntry
  pub upstreams : Map UpstreamEntry
  pub gaps : List Number
  pub suspicious_paths : Map SuspiciousEntry
  pub client_abandoned499 : ℕ
  pub from : Value
  pub to : Value

abbrev pub no_totals : Totals
no_totals = record {
  by_status_class = [];
  by_status = [];
  paths = [];
  upstreams = [];
  gaps = [];
  suspicious_paths = [];
  client_abandoned499 = 0;
  from = undefined;
  to = undefined;
}

-- `Math.floor(status / 100)`
abbrev pub hundreds : Number → Number
hundreds (plus n) = whole (n / (100 * million))
hundreds (minus n) = minus ((n / (100 * million) + 1) * million - 1)
hundreds n = n

-- `status >= k` and `status === k`
abbrev pub at_least : Number → ℕ → Bool
at_least nan k = false
at_least n k = not (less n k)

abbrev pub equals : Number → ℕ → Bool
equals (plus n) k = n == k * million
equals _ k = false

abbrev pub one_if : Bool → ℕ
one_if b = if b then 1 else 0

abbrev pub with_time : List Number → Option Number → List Number
with_time l none = l
with_time l (some t) = l ++ t ∷ []

-- `Math.max(0, a - b)`, of finite numbers
abbrev pub gap : Number → Number → Number
gap (plus a) (plus b) = plus (a - b)
gap (plus a) (minus b) = plus (a + b + 1)
gap (minus a) (minus b) = plus (b - a)
gap _ _ = plus 0

abbrev pub with_gap : List Number → Option Number → Option Number → List Number
with_gap l (some a) (some b) = l ++ gap a b ∷ []
with_gap l _ _ = l

unfoldable pub count_path : Number → Option Number → Text → Map PathEntry → Map PathEntry
count_path status ms p m =
    let e = or_else (get p m) (record { count = 0; times = []; errors = 0 }) in
    put p
      (record {
        count = e.count + 1;
        times = with_time e.times ms;
        errors = e.errors + one_if (at_least status 500);
      })
      m

unfoldable pub count_upstream : AccessRecord → Number → Text → Map UpstreamEntry → Map UpstreamEntry
unfolding trim until
count_upstream r status upstream m =
    let u = trim (until b',' upstream) in
    let e =
      or_else (get u m)
        (record { count = 0; times = []; utimes = []; errors5xx = 0; timeouts504 = 0 }) in
    put u
      (record {
        count = e.count + 1;
        times = with_time e.times r.request_ms;
        utimes = with_time e.utimes r.upstream_ms;
        errors5xx = e.errors5xx + one_if (at_least status 500);
        timeouts504 = e.timeouts504 + one_if (equals status 504);
      })
      m

-- The first pattern that fits gives the reason; a path keeps the reason that it had first.
unfoldable pub count_suspicious : Text → Text → Map SuspiciousEntry → Map SuspiciousEntry
unfolding suspicious find test
count_suspicious path p m = elim (find (λ s. test s.0 path) suspicious) [
  | none ↦ m
  | some s ↦
      let e = or_else (get p m) (record { count = 0; reason = s.1 }) in
      put p (record e { count = e.count + 1 }) m
]

pub data TypeError : Type 0 where
  no_string : TypeError

abbrev pub note_upstream :
    AccessRecord → Number → Map UpstreamEntry → Result TypeError (Map UpstreamEntry)
note_upstream r status m = elim r.upstream [
  | str s ↦ ok (if is_empty s || same s (b'-' ∷ []) then m else count_upstream r status s m)
  | v ↦ if is_truthy v then err no_string else ok m
]

module _ (js : Js) where
  -- All of a round of the loop but the upstreams.
  unfoldable pub count_record : AccessRecord → Map UpstreamEntry → Totals → Totals
  unfolding count_path count_suspicious normalize_path add_to txt
  count_record r upstreams t =
      let status = or_else r.status (whole 0) in
      let p = normalize_path (or_else r.path (txt "/")) in
      let timed = is_truthy r.time in
      record {
        by_status_class = add_to 1 (js.number_text (hundreds status) ++ txt "xx") t.by_status_class;
        by_status = add_to 1 (js.number_text status) t.by_status;
        paths = count_path status r.request_ms p t.paths;
        upstreams = upstreams;
        gaps = with_gap t.gaps r.request_ms r.upstream_ms;
        suspicious_paths = count_suspicious (or_else r.path []) p t.suspicious_paths;
        client_abandoned499 = t.client_abandoned499 + one_if (equals status 499);
        from = if timed && not (is_truthy t.from) then r.time else t.from;
        to = if timed then r.time else t.to;
      }

  unfoldable pub count_round : AccessRecord → Totals → Result TypeError Totals
  unfolding count_record count_upstream same
  count_round r t = elim (note_upstream r (or_else r.status (whole 0)) t.upstreams) [
    | err e ↦ err e
    | ok upstreams ↦ ok (count_record r upstreams t)
  ]

  unfoldable pub count_records : List AccessRecord → Totals → Result TypeError Totals
  unfolding count_round
  count_records [] t = ok t
  count_records (r ∷ rs) t = elim (count_round r t) [ err e ↦ err e | ok t' ↦ count_records rs t' ]
