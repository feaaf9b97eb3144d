-- ===== src/Probe/Access.antt =====
-- src/probe/server.ts: what a request can make the server do.
use kube_diagnostics_mcp.Common.{
  ℕ, ◌≤◌, ◌≡◌, refl, ◌⊎◌, inl, inr, Bool, true, false, ◌&&◌, ◌||◌, ◌==◌, Option, none, some, List,
  [], ◌∷◌, ◌++◌, Text, txt, same, includes, if◌then◌else◌, Bool-cases, All, length, filter, or_else,
  Number, whole, Result, ok, err, arith, ok-injective, same_iff,
}
use kube_diagnostics_mcp.Config.{ProbeConfig}
use kube_diagnostics_mcp.Guard.{GuardError, assert_hostname, assert_port}
use kube_diagnostics_mcp.Guard.Limits.{assert_port_iff}
use kube_diagnostics_mcp.Guard.Safe.{IsStep, accepted-IsStep}
use kube_diagnostics_mcp.Probe.{
  Request, param, params_all, Effect, read_connections, read_processes, resolve_dns, tcp_connect,
  fetch_nginx, walk_static, read_access_log, fetch_actuator, World,
}
use kube_diagnostics_mcp.Probe.Actuator.{
  Thrown, actuator_allow, metric_class, actuator_tag, actuator_metric_name, tag_query,
  metric_target, actuator_target, trim_slashes,
}
use kube_diagnostics_mcp.Probe.Server.{
  cases, dns_case, connect_case, nginx_case, static_case, access_log_case, rum_case, fetch_case,
  endpoint_case, actuator_case, authorized, guarded, handle_rest, handle, post_rum, ingest_body,
  accept, run_case,
}
use kube_diagnostics_mcp.Probe.Answers.{truthy, Case, refusal, unavailable, read_body}
use kube_diagnostics_mcp.Regex.Classes.{is_alnum}
use kube_diagnostics_mcp.Regex.Anchored.{test-all_of}
use kube_diagnostics_mcp.Rum.Ingest.{ingest}
use kube_diagnostics_mcp.Json.{Value}
use kube_diagnostics_mcp.Rum.State.{RumAggregator}

-- The endpoints of an Actuator that may be read.
abbrev pub readable_endpoints : List Text
unfolding txt
readable_endpoints =
    txt "health"
    ∷ txt "health/liveness"
    ∷ txt "health/readiness"
    ∷ txt "info"
    ∷ txt "metrics"
    ∷ txt "prometheus"
    ∷ txt "threaddump"
    ∷ txt "loggers"
    ∷ txt "caches"
    ∷ txt "scheduledtasks"
    ∷ txt "conditions"
    ∷ txt "configprops"
    ∷ txt "beans"
    ∷ txt "mappings"
    ∷ []

-- Nothing, or what begins a query.
abbrev pub IsQuery : Text → Type 0
IsQuery q = (q ≡ []) ⊎ ((rest : Text) × (q ≡ b'?' ∷ rest))

-- `t` is the endpoint's URL; or below "metrics" one segment of letters, digits, "_" and ".", with
-- a query or none.
abbrev pub IsTarget : Text → Text → Text → Type 0
unfolding txt
IsTarget base endpoint t =
    (t ≡ base ++ (txt "/" ++ endpoint))
    ⊎ ((metric : Text) × (query : Text) × (endpoint ≡ txt "metrics")
        × All (λ c. (is_alnum c || c == b'_' || c == b'.') ≡ true) metric
        × (1 ≤ length metric)
        × (length metric ≤ 120)
        × IsQuery query
        × (t ≡ (base ++ (txt "/" ++ endpoint)) ++ (txt "/" ++ metric) ++ query))

-- What the settings let an authorized request do.
unfoldable pub Permits : ProbeConfig → Effect → Type 0
Permits c read_connections = Unit {0}
Permits c read_processes = Unit {0}
Permits c (resolve_dns name) = (c.allow_active_checks ≡ true) × IsStep name
Permits c (tcp_connect host port) =
    (c.allow_active_checks ≡ true)
    × IsStep host
    × ((n : ℕ) × (port ≡ whole n) × (1 ≤ n) × (n ≤ 65535))
Permits c (fetch_nginx url) = c.nginx_status_url ≡ some url
Permits c (walk_static dir) = c.static_dir ≡ some dir
Permits c (read_access_log path since) = c.access_log_path ≡ some path
Permits c (fetch_actuator t) =
    (base : Text) × (endpoint : Text) × (c.actuator_url ≡ some base)
    × (includes endpoint readable_endpoints ≡ true)
    × IsTarget base endpoint t

-- An effect of a request: the request is authorized, it is a GET, and the settings permit it.
unfoldable pub Allowed : ProbeConfig → Request → Effect → Type 0
unfolding Permits
Allowed c r e = (authorized c r ≡ true) × (same r.method (txt "GET") ≡ true) × Permits c e

truthy-some : (o : Option Text) (s : Text) → truthy o ≡ some s → o ≡ some s
truthy-some none t h = cc
truthy-some (some []) t h = cc
truthy-some (some (c ∷ s)) t h = h

hostname-IsStep : (s t : Text) → assert_hostname s ≡ ok t → IsStep t
hostname-IsStep s t h = accepted-IsStep s t [] (inr (inr (inr h)))

port_same :
    (b : Bool) (e : GuardError) (v t : Number)
    → ◌≡◌ {A = Result GuardError Number} (if b then err e else ok v) (ok t)
    → (v ≡ t) × (◌≡◌ {A = Result GuardError Number} (if b then err e else ok v) (ok v))
port_same true e v t h = cc
port_same false e v t h = (ground arith, refl)

port_range : (v t : Number) → assert_port v ≡ ok t → (n : ℕ) × (t ≡ whole n) × (1 ≤ n) × (n ≤ 65535)
unfolding assert_port
port_range v t h = let (e, k) = port_same _ _ v t h in rw (← e) ((assert_port_iff v).0 k)

wrong : {C : Type 0} {e : Thrown} {t : Text} → ◌≡◌ {A = Result Thrown Text} (err e) (ok t) → C
wrong h = cc

module _ (w : World) (c : ProbeConfig) where
  Fine : Case → Type 0
  Fine k = All (Permits c) k.0

  if-Fine :
      (b : Bool) (x y : Case)
      → (b ≡ true → Fine x)
      → (b ≡ false → Fine y)
      → Fine (if b then x else y)
  if-Fine true x y f g = f refl
  if-Fine false x y f g = g refl

  dns_case-Fine :
      (g : Result GuardError Text)
      → c.allow_active_checks ≡ true
      → ((t : Text) → g ≡ ok t → IsStep t)
      → Fine (dns_case w g)
  unfolding Permits Fine
  dns_case-Fine (ok name) active f = ((active, f name refl), tt)
  dns_case-Fine (err e) active f = tt

  connect_case-Fine :
      (g : Result GuardError Text) (p : Result GuardError Number)
      → c.allow_active_checks ≡ true
      → ((t : Text) → g ≡ ok t → IsStep t)
      → ((v : Number) → p ≡ ok v → (n : ℕ) × (v ≡ whole n) × (1 ≤ n) × (n ≤ 65535))
      → Fine (connect_case w g p)
  unfolding Permits Fine
  connect_case-Fine (ok host) (ok port) active f q = ((active, f host refl, q port refl), tt)
  connect_case-Fine (ok host) (err e) active f q = tt
  connect_case-Fine (err e) p active f q = tt

  nginx_case-Fine :
      (o : Option Text)
      → ((s : Text) → o ≡ some s → c.nginx_status_url ≡ some s)
      → Fine (nginx_case w o)
  unfolding Permits Fine nginx_case unavailable
  nginx_case-Fine none f = tt
  nginx_case-Fine (some url) f = (f _ refl, tt)

  static_case-Fine :
      (o : Option Text) → ((s : Text) → o ≡ some s → c.static_dir ≡ some s) → Fine (static_case w o)
  unfolding Permits Fine static_case unavailable
  static_case-Fine none f = tt
  static_case-Fine (some dir) f = (f _ refl, tt)

  access_log_case-Fine :
      (o : Option Text) (since : Number)
      → ((s : Text) → o ≡ some s → c.access_log_path ≡ some s)
      → Fine (access_log_case w o since)
  unfolding Permits Fine access_log_case unavailable
  access_log_case-Fine none since f = tt
  access_log_case-Fine (some path) since f = (f _ refl, tt)

  rum_case-Fine : (o : Option RumAggregator) (route : Option Text) → Fine (rum_case w o route)
  unfolding Fine rum_case unavailable
  rum_case-Fine none route = tt
  rum_case-Fine (some rum) route = tt

  tag_query-IsQuery : (tags : List Text) → IsQuery (tag_query w.encode tags)
  unfolding tag_query
  tag_query-IsQuery [] = inl refl
  tag_query-IsQuery (t ∷ tags) = inr (_, refl)

  metric_target-IsTarget :
      (base endpoint metric : Text) (tags : List Text) {t : Text}
      → same endpoint (txt "metrics") ≡ true
      → metric_target w.encode (base ++ (txt "/" ++ endpoint)) metric tags ≡ ok t
      → IsTarget base endpoint t
  unfolding metric_target
  metric_target-IsTarget base endpoint metric tags h k =
      elim (Bool-cases (actuator_metric_name metric)) [
        | inl good ↦
            let class = (test-all_of metric_class 1 120 metric).0 good in
            inr (
              metric,
              tag_query w.encode (filter actuator_tag tags),
              (same_iff endpoint (txt "metrics")).0 h,
              class.0,
              class.1,
              class.2,
              tag_query-IsQuery (filter actuator_tag tags),
              ok-injective (rw good at k),
            )
        | inr bad ↦ wrong (rw bad at k)
      ]

  actuator_target-IsTarget :
      (base endpoint : Text) (metric : Option Text) (tags : List Text) {t : Text}
      → actuator_target w.encode base endpoint metric tags ≡ ok t
      → IsTarget base endpoint t
  unfolding actuator_target
  actuator_target-IsTarget base endpoint none tags h = inl (ok-injective h)
  actuator_target-IsTarget base endpoint (some []) tags h = inl (ok-injective h)
  actuator_target-IsTarget base endpoint (some (d ∷ metric)) tags h =
      elim (Bool-cases (same endpoint (txt "metrics"))) [
        | inl e ↦ metric_target-IsTarget base endpoint (d ∷ metric) tags e (rw e at h)
        | inr e ↦ inl (ok-injective (rw e at h))
      ]

  fetch_case-Fine :
      (base endpoint : Text) (g : Result Thrown Text)
      → c.actuator_url ≡ some base
      → includes endpoint actuator_allow ≡ true
      → ((t : Text) → g ≡ ok t → IsTarget base endpoint t)
      → Fine (fetch_case w g)
  unfolding Permits Fine fetch_case actuator_allow
  fetch_case-Fine base endpoint (ok t) u a f = ((base, endpoint, u, a, f t refl), tt)
  fetch_case-Fine base endpoint (err e) u a f = tt

  actuator_case-Fine :
      (o : Option Text) (r : Request)
      → ((s : Text) → o ≡ some s → c.actuator_url ≡ some s)
      → Fine (actuator_case w o r)
  unfolding Fine endpoint_case actuator_case unavailable
  actuator_case-Fine none r f = tt
  actuator_case-Fine (some base) r f =
      let endpoint = trim_slashes (or_else (param (txt "endpoint") r) (txt "health")) in
      if-Fine (includes endpoint actuator_allow) _ _
        (λ a. fetch_case-Fine base endpoint _ (f base refl) a λ t h.
          actuator_target-IsTarget base endpoint (param (txt "metric") r)
            (params_all (txt "tag") r.params) h)
        (λ a. tt)

  cases-Fine : (rum : Option RumAggregator) (r : Request) → Fine (cases w c rum r)
  unfolding cases Fine Permits refusal
  cases-Fine rum r =
      if-Fine (same r.path (txt "/info")) _ _ (λ h. tt)
        λ h.
          if-Fine (same r.path (txt "/connections")) _ _ (λ h. (tt, tt))
            λ h.
              if-Fine (same r.path (txt "/processes")) _ _ (λ h. (tt, tt))
                λ h.
                  if-Fine (same r.path (txt "/dns")) _ _
                    (λ h.
                      if-Fine c.allow_active_checks _ _
                        (λ a.
                          dns_case-Fine _ a (hostname-IsStep (or_else (param (txt "name") r) [])))
                        (λ a. tt))
                    λ h.
                      if-Fine (same r.path (txt "/connect")) _ _
                        (λ h.
                          if-Fine c.allow_active_checks _ _
                            (λ a.
                              connect_case-Fine _ _ a
                                (hostname-IsStep (or_else (param (txt "host") r) []))
                                (port_range (w.number (param (txt "port") r))))
                            (λ a. tt))
                        λ h.
                          if-Fine (same r.path (txt "/nginx-status")) _ _
                            (λ h. nginx_case-Fine _ (truthy-some c.nginx_status_url))
                            λ h.
                              if-Fine (same r.path (txt "/static-stats")) _ _
                                (λ h. static_case-Fine _ (truthy-some c.static_dir))
                                λ h.
                                  if-Fine (same r.path (txt "/access-log")) _ _
                                    (λ h. access_log_case-Fine _ _ (truthy-some c.access_log_path))
                                    λ h.
                                      if-Fine (same r.path (txt "/rum-summary")) _ _
                                        (λ h. rum_case-Fine rum _)
                                        λ h.
                                          if-Fine (same r.path (txt "/actuator")) _ _
                                            (λ h.
                                              actuator_case-Fine _ r (truthy-some c.actuator_url))
                                            λ h. tt

  All-Allowed :
      (r : Request) (es : List Effect)
      → authorized c r ≡ true
      → same r.method (txt "GET") ≡ true
      → All (Permits c) es
      → All (Allowed c r) es
  unfolding Allowed
  All-Allowed r [] a g h = tt
  All-Allowed r (e ∷ es) a g h = ((a, g, h.0), All-Allowed r es a g h.1)

  guarded-Allowed :
      (rum : Option RumAggregator) (r : Request) → All (Allowed c r) (guarded w c rum r).effects
  unfolding guarded run_case Fine
  guarded-Allowed rum r = elim (Bool-cases (authorized c r)) [
    | inr a ↦ rw a tt
    | inl a ↦ elim (Bool-cases (same r.method (txt "GET"))) [
      | inr g ↦ rw (a, g) tt
      | inl g ↦ rw (a, g) (All-Allowed r (cases w c rum r).0 a g (cases-Fine rum r))
    ]
  ]

  handle_rest-Allowed :
      (rum : Option RumAggregator) (r : Request) → All (Allowed c r) (handle_rest w c rum r).effects
  unfolding handle_rest
  handle_rest-Allowed rum r =
      elim (Bool-cases (same r.path (txt "/metrics") && same r.method (txt "GET"))) [
        | inl m ↦ rw m tt
        | inr m ↦ elim (Bool-cases (same r.path (txt "/healthz"))) [
          | inl z ↦ rw (m, z) tt
          | inr z ↦ rw (m, z) (guarded-Allowed rum r)
        ]
      ]

  accept-effects : (s : RumAggregator × Option ℕ) → (accept s).effects ≡ []
  accept-effects (rum, some n) = refl
  accept-effects (rum, none) = refl

  ingest_body-effects :
      (rum : RumAggregator) (v : Option Value) → (ingest_body w rum v).effects ≡ []
  unfolding ingest_body
  ingest_body-effects rum none = refl
  ingest_body-effects rum (some raw) = accept-effects (ingest w.js w.now raw rum)

  post_rum-effects : (rum : RumAggregator) (b : Option Text) → (post_rum w rum b).effects ≡ []
  unfolding post_rum
  post_rum-effects rum none = refl
  post_rum-effects rum (some body) = ingest_body-effects rum (w.parse_json body)

  -- Whatever a request asks for, and whatever the system answers, each effect of handling it has an
  -- authorized request (the settings declare requests open, or its bearer token is the configured
  -- one) with the method GET, and is permitted: names are resolved and connections made only if
  -- active checks are allowed, to a host name that is one plain step and to a port from 1 to 65535;
  -- nginx's status, the static files and the access log are those of the settings; and what is
  -- fetched from the Actuator is an endpoint of the allow-list, or one segment below "metrics" of 1
  -- to 120 letters, digits, "_" and ".", so that it may be "..", with a query or none.
  pub handle-Allowed :
      (rum : Option RumAggregator) (r : Request) → All (Allowed c r) (handle w c rum r).effects
  unfolding handle
  handle-Allowed none r = handle_rest-Allowed none r
  handle-Allowed (some rum) r =
      elim (Bool-cases (same r.path (txt "/rum") && same r.method (txt "POST"))) [
        | inl p ↦ rw p (rw (post_rum-effects rum (read_body c.rum_max_body_bytes 0 r.body)) tt)
        | inr p ↦ rw p (handle_rest-Allowed (some rum) r)
      ]
