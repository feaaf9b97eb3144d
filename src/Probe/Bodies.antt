-- ===== src/Probe/Bodies.antt =====
-- src/probe/server.ts: which requests change the aggregator, and how large a body they may have.
use kube_diagnostics_mcp.Common.{
  ℕ, ◌+◌, ◌≤◌, ◌≡◌, refl, ◌⊎◌, inl, inr, true, ◌&&◌, Option, none, some, List, [], ◌∷◌, ◌++◌, Text,
  txt, same, ltb, Bool-cases, length, length-append, arith,
}
use kube_diagnostics_mcp.Config.{ProbeConfig}
use kube_diagnostics_mcp.Json.{Value}
use kube_diagnostics_mcp.Probe.{Request, World}
use kube_diagnostics_mcp.Probe.Server.{
  handle, handle_rest, guarded, run_case, post_rum, ingest_body, accept, authorized,
}
use kube_diagnostics_mcp.Probe.Answers.{read_body, append_to}
use kube_diagnostics_mcp.Rum.Bounds.{IsBounded}
use kube_diagnostics_mcp.Rum.Bounds.Events.{ingest-IsBounded}
use kube_diagnostics_mcp.Rum.Ingest.{ingest}
use kube_diagnostics_mcp.Rum.State.{RumAggregator}

append_to-some :
    (c : Text) (o : Option Text) {s : Text}
    → append_to c o ≡ some s
    → (t : Text) × (o ≡ some t) × (c ++ t ≡ s)
append_to-some c none h = cc
append_to-some c (some t) h = (t, refl, ground arith)

some_same : {s t : Text} → ◌≡◌ {A = Option Text} (some s) (some t) → s ≡ t
some_same h = cc

nothing : {C : Type 0} {s : Text} → ◌≡◌ {A = Option Text} none (some s) → C
nothing h = cc

-- A body that is read has at most `most` bytes.
read_body-length :
    (most size : ℕ) (chunks : List Text) (s : Text)
    → size ≤ most
    → read_body most size chunks ≡ some s
    → size + length s ≤ most
unfolding read_body
read_body-length most size [] s p h = rw (← some_same h) (omega arith)
read_body-length most size (c ∷ chunks) s p h = elim (Bool-cases (ltb most (size + length c))) [
  | inl big ↦ nothing (rw big at h)
  | inr fits ↦
      let (t, e, k) = append_to-some c (read_body most (size + length c) chunks) (rw fits at h) in
      let ih = read_body-length most (size + length c) chunks t (ground arith) e in
      rw (← k, length-append c t) (omega arith)
]

-- The aggregator, if there is one, is within its bounds.
abbrev OptionBounded : Option RumAggregator → Type 0
OptionBounded none = Unit {0}
OptionBounded (some a) = IsBounded a

module _ (w : World) (c : ProbeConfig) where
  guarded-rum : (rum : Option RumAggregator) (r : Request) → (guarded w c rum r).rum ≡ rum
  unfolding guarded run_case
  guarded-rum rum r = elim (Bool-cases (authorized c r)) [
    | inr a ↦ rw a
    | inl a ↦ elim (Bool-cases (same r.method (txt "GET"))) [
      | inr g ↦ rw (a, g)
      | inl g ↦ rw (a, g)
    ]
  ]

  handle_rest-rum : (rum : Option RumAggregator) (r : Request) → (handle_rest w c rum r).rum ≡ rum
  unfolding handle_rest
  handle_rest-rum rum r =
      elim (Bool-cases (same r.path (txt "/metrics") && same r.method (txt "GET"))) [
        | inl m ↦ rw m
        | inr m ↦ elim (Bool-cases (same r.path (txt "/healthz"))) [
          | inl z ↦ rw (m, z)
          | inr z ↦ rw (m, z) (guarded-rum rum r)
        ]
      ]

  -- A beacon was posted, its body within the limit, and ingested.
  pub record Posted (rum after : Option RumAggregator) (r : Request) : Type 0 where
    pub before : RumAggregator
    pub raw : Value
    pub body : Text
    pub enabled : rum ≡ some before
    pub to_rum : (same r.path (txt "/rum") && same r.method (txt "POST")) ≡ true
    pub read : read_body c.rum_max_body_bytes 0 r.body ≡ some body
    pub short : length body ≤ c.rum_max_body_bytes
    pub parsed : w.parse_json body ≡ some raw
    pub ingested : after ≡ some (ingest w.js w.now raw before).0

  accept-rum : (s : RumAggregator × Option ℕ) → (accept s).rum ≡ some s.0
  accept-rum (rum, some n) = refl
  accept-rum (rum, none) = refl

  -- The aggregator is as it was, or a beacon was posted.
  pub Changes : Option RumAggregator → Option RumAggregator → Request → Type 0
  Changes rum after r = (after ≡ rum) ⊎ Posted rum after r

  module _ (a : RumAggregator) (r : Request)
      (p : (same r.path (txt "/rum") && same r.method (txt "POST")) ≡ true) where
    ingest_body-Changes :
        (body : Text) (v : Option Value)
        → read_body c.rum_max_body_bytes 0 r.body ≡ some body
        → w.parse_json body ≡ v
        → Changes (some a) (ingest_body w a v).rum r
    unfolding ingest_body Changes
    ingest_body-Changes body none h k = inl refl
    ingest_body-Changes body (some raw) h k = inr (record {
      before = a;
      raw = raw;
      body = body;
      enabled = refl;
      to_rum = p;
      read = h;
      short = omega (arith, read_body-length c.rum_max_body_bytes 0 r.body body (omega arith) h);
      parsed = k;
      ingested = accept-rum (ingest w.js w.now raw a);
    })

    post_rum-Changes :
        (o : Option Text)
        → read_body c.rum_max_body_bytes 0 r.body ≡ o
        → Changes (some a) (post_rum w a o).rum r
    unfolding post_rum Changes
    post_rum-Changes none h = inl refl
    post_rum-Changes (some body) h = ingest_body-Changes body (w.parse_json body) h refl

  pub handle-Changes :
      (rum : Option RumAggregator) (r : Request) → Changes rum (handle w c rum r).rum r
  unfolding handle Changes
  handle-Changes none r = inl (handle_rest-rum none r)
  handle-Changes (some a) r =
      elim (Bool-cases (same r.path (txt "/rum") && same r.method (txt "POST"))) [
        | inl p ↦ rw p (post_rum-Changes a r p (read_body c.rum_max_body_bytes 0 r.body) refl)
        | inr p ↦ rw p (inl (handle_rest-rum (some a) r))
      ]

  -- A server that is at any point of its life within the bounds of the aggregator is so after any
  -- request.
  handle-IsBounded :
      (rum : Option RumAggregator) (r : Request)
      → OptionBounded rum
      → OptionBounded (handle w c rum r).rum
  unfolding Changes
  handle-IsBounded rum r h = elim (handle-Changes rum r) [
    | inl unchanged ↦ rw unchanged h
    | inr posted ↦
        rw posted.ingested
          (ingest-IsBounded w.js w.now posted.raw posted.before (rw posted.enabled at h))
  ]
