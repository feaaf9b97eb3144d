-- ===== src/Hub/Http/Sessions.antt =====
-- src/hub/transport/http.ts: who handles a request, and what the session table holds.
use kube_diagnostics_mcp.Common.{
  ℕ, ◌≡◌, refl, ◌⊎◌, inl, inr, Bool, true, false, ◌||◌, Option, none, some, Text, txt, same,
  if◌then◌else◌, Bool-cases, Result, ok, err,
}
use kube_diagnostics_mcp.Config.{HubConfig}
use kube_diagnostics_mcp.Hub.Http.{
  Request, State, Reply, method_not_allowed, handled, Sdk, authorized, sid_of, session_of, is_init,
  parsed, delegate, start_session, post_body, post, follow, handle, max_body_bytes,
}
use kube_diagnostics_mcp.Json.{Value}
use kube_diagnostics_mcp.Probe.Answers.{read_body}

-- The transport `n` is the one that the request's session stands for, or a new one that an
-- initialize request without a session begins.
abbrev pub Chosen : State → Request → ℕ → Option Value → Type 0
Chosen s r n body =
    (session_of s (sid_of r.session) ≡ some n)
    ⊎ ((same r.method (txt "POST") ≡ true)
        × (sid_of r.session ≡ none)
        × (is_init body ≡ true)
        × (n ≡ s.next))

abbrev pub is_handled : Reply → Bool
is_handled (handled n body) = true
is_handled _ = false

-- Either nothing changed and no transport saw the request, or an authorized request to "/mcp" was
-- handed to the transport chosen.
pub data Routed (c : HubConfig) (s : State) (r : Request) : State × Reply → Type 0 where
  rejected : {reply : Reply} → is_handled reply ≡ false → Routed c s r (s, reply)
  routed :
      {after : State} {n : ℕ} {body : Option Value}
      → authorized r c ≡ true
      → same r.path (txt "/mcp") ≡ true
      → Chosen s r n body
      → Routed c s r (after, handled n body)

module _ (sdk : Sdk) (c : HubConfig) where
  module _ (s : State) (r : Request) (a : authorized r c ≡ true)
      (p : same r.path (txt "/mcp") ≡ true) where
    post_body-Routed :
        (sid : Option Text) (n : Option ℕ) (body : Option Value)
        → same r.method (txt "POST") ≡ true
        → sid_of r.session ≡ sid
        → session_of s sid ≡ n
        → Routed c s r (post_body sdk c s r n body)
    unfolding post_body delegate start_session
    post_body-Routed sid (some n) body m e k = routed a p (inl (rw e k))
    post_body-Routed (some id) none body m e k = rw e (rejected refl)
    post_body-Routed none none body m e k = elim (Bool-cases (is_init body)) [
      | inl i ↦ rw (e, i) (started i)
      | inr i ↦ rw (e, i) (rejected refl)
    ]
      where
        started : is_init body ≡ true → Routed c s r (start_session sdk c r body s)
        started i = routed a p (inr (m, e, i, refl))

    post-Routed :
        (o : Result (Unit {0}) (Option Value))
        → same r.method (txt "POST") ≡ true
        → Routed c s r (post sdk c s r o)
    unfolding post
    post-Routed (err thrown) m = rejected refl
    post-Routed (ok body) m = post_body-Routed (sid_of r.session) _ body m refl refl

    follow-Routed :
        (n : Option ℕ) → session_of s (sid_of r.session) ≡ n → Routed c s r (follow sdk c s r n)
    unfolding follow delegate
    follow-Routed none e = rejected refl
    follow-Routed (some n) e = routed a p (inl e)

    admitted-Routed : Routed c s r (
        if same r.method (txt "POST")
        then post sdk c s r (parsed sdk (read_body max_body_bytes 0 r.body))
        else if same r.method (txt "GET") || same r.method (txt "DELETE")
        then follow sdk c s r (session_of s (sid_of r.session))
        else (s, method_not_allowed))
    admitted-Routed = elim (Bool-cases (same r.method (txt "POST"))) [
      | inl m ↦ rw m (post-Routed (parsed sdk (read_body max_body_bytes 0 r.body)) m)
      | inr m ↦ elim (Bool-cases (same r.method (txt "GET") || same r.method (txt "DELETE"))) [
        | inl g ↦ rw (m, g) (follow-Routed (session_of s (sid_of r.session)) refl)
        | inr g ↦ rw (m, g) (rejected refl)
      ]
    ]

  -- Whatever the request, either the session table is as it was and no transport saw the request,
  -- or the request was authorized (the settings declare requests open, or its bearer token is the
  -- configured one), its path is "/mcp", and it was handed to the transport registered under its
  -- session, or, for a POST without a session whose body is an initialize message, to a new one.
  pub handle-Routed : (s : State) (r : Request) → Routed c s r (handle sdk c s r)
  unfolding handle
  handle-Routed s r = elim (Bool-cases (same r.path (txt "/healthz"))) [
    | inl z ↦ rw z (rejected refl)
    | inr z ↦ elim (Bool-cases (same r.path (txt "/mcp"))) [
      | inr p ↦ rw (z, p) (rejected refl)
      | inl p ↦ elim (Bool-cases (authorized r c)) [
        | inr a ↦ rw (z, p, a) (rejected refl)
        | inl a ↦ rw (z, p, a) (admitted-Routed s r a p)
      ]
    ]
  ]
