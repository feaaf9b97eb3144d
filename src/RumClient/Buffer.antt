-- ===== src/RumClient/Buffer.antt =====
-- How long the buffer gets, and what a session that is not sampled sends.
use kube_diagnostics_mcp.Common.{
  ℕ, ◌+◌, ◌≤◌, max, ◌≡◌, refl, sym, ap, ◌∙◌, inl, inr, Bool, true, false, none, some, List, [], ◌∷◌,
  ◌++◌, arith, Text, length, leb, if◌then◌else◌, Bool-cases,
}
use mathlib.Core.Path.{subst}
use kube_diagnostics_mcp.RumClient.{
  RumEvent, view, Client, State, Beacon, Outcome, drained, marked, send, flush, push,
}
use kube_diagnostics_mcp.RumClient.Steps.{
  Input, metric, loaded, observed, failed, rejected, hidden, tick, destroyed, route_changed,
  reported, note_metric, pushed, step, init_rum, run, session, start_state,
}
use kube_diagnostics_mcp.RumClient.Queue.{with_vitals, with_event, flush_sampled, push_sampled}

module _ (c : Client) (here : Text) where
  -- The buffer holds less than a batch.
  abbrev pub IsShort : State → Type 0
  IsShort s = length s.buffer + 1 ≤ max 1 c.batch_size

  send-IsShort :
      (consent : Bool) (s : State) (l : List RumEvent)
      → length (send c consent (record s { buffer = l }) l).0.buffer ≡ 0
  send-IsShort consent s [] = refl
  send-IsShort consent s (e ∷ l) = refl

  flush-IsShort : (consent : Bool) (s : State) → IsShort s → IsShort (flush c consent s).0
  unfolding flush
  flush-IsShort consent s h = elim (Bool-cases c.sampled) [
    | inl sampled ↦ omega (
      arith,
      ap (λ (o : Outcome). length (o.0.buffer)) (flush_sampled c sampled consent s)
          ∙ send-IsShort consent (record s { latest = marked s.latest })
              (s.buffer ++ drained s.latest),
    )
    | inr not_sampled ↦
        subst
          (λ (b : Bool).
            IsShort
              (if b
                then send c consent (with_vitals c s) (s.buffer ++ drained s.latest)
                else (s, [])).0)
          (sym not_sampled) h
  ]

  push-IsShort :
      (consent : Bool) (e : RumEvent) (s : State) → IsShort s → IsShort (push c consent e s).0
  unfolding push
  push-IsShort consent e s h = elim (Bool-cases c.sampled) [
    | inr not_sampled ↦
        subst
          (λ (b : Bool).
            IsShort
              (if b
                then (if leb c.batch_size (length (s.buffer ++ e ∷ []))
                    then flush c consent (with_event c e s)
                    else (with_event c e s, []))
                else (s, [])).0)
          (sym not_sampled) h
    | inl sampled ↦ elim (Bool-cases (leb c.batch_size (length (s.buffer ++ e ∷ [])))) [
      | inl full ↦ omega (
        arith,
        ap (λ (o : Outcome). length (o.0.buffer)) (push_sampled c sampled consent e s full)
            ∙ ap (λ (o : Outcome). length (o.0.buffer))
                (flush_sampled c sampled consent (with_event c e s))
            ∙ send-IsShort consent (record s { latest = marked s.latest })
                ((s.buffer ++ e ∷ []) ++ drained s.latest),
      )
      | inr room ↦ ground (
        arith,
        ap (λ (o : Outcome). length (o.0.buffer)) (push_sampled c sampled consent e s room),
      )
    ]
  ]

  step-IsShort :
      (consent : Bool) (s : State) (i : Input) → IsShort s → IsShort (step here c consent s i).0
  unfolding step pushed note_metric
  step-IsShort consent s (metric m) h = h
  step-IsShort consent s (hidden true) h = flush-IsShort consent s h
  step-IsShort consent s (hidden false) h = h
  step-IsShort consent s tick h = flush-IsShort consent s h
  step-IsShort consent s destroyed h = flush-IsShort consent s h
  step-IsShort consent s (loaded none) h = h
  step-IsShort consent s (loaded (some n)) h = push-IsShort consent _ s h
  step-IsShort consent s (observed r) h = push-IsShort consent _ s h
  step-IsShort consent s (failed message stack) h = push-IsShort consent _ s h
  step-IsShort consent s (rejected r) h = push-IsShort consent _ s h
  step-IsShort consent s (route_changed pathname duration now) h =
      push-IsShort consent _ (record s { current_route = c.resolve pathname }) h
  step-IsShort consent s (reported message stack) h = push-IsShort consent _ s h

  run-IsShort : (is : List (Bool × Input)) (s : State) → IsShort s → IsShort (run here c is s).0
  unfolding run
  run-IsShort [] s h = h
  run-IsShort ((consent, i) ∷ is) s h =
      run-IsShort is (step here c consent s i).0 (step-IsShort consent s i h)

  -- At every moment of a session the buffer holds less than a batch, whatever the inputs and the
  -- answers to the question for consent.
  pub session-IsShort :
      (consent : Bool) (pathname : Text) (now : ℕ) (is : List (Bool × Input))
      → IsShort (session here c consent pathname now is).0
  unfolding session init_rum
  session-IsShort consent pathname now is =
      run-IsShort is (init_rum here c consent pathname now).0 (
        push-IsShort consent (view (c.resolve pathname) none true) (start_state here c pathname now)
          (omega arith))

  -- Nothing leaves a session that is not sampled.
  module _ (not_sampled : c.sampled ≡ false) where
    flush-silent : (consent : Bool) (s : State) → (flush c consent s).1 ≡ []
    unfolding flush
    flush-silent consent s = λ i.
        (if not_sampled i
          then send c consent (with_vitals c s) (s.buffer ++ drained s.latest)
          else (s, [])).1

    push-silent : (consent : Bool) (e : RumEvent) (s : State) → (push c consent e s).1 ≡ []
    unfolding push
    push-silent consent e s = λ i.
        (if not_sampled i
          then (if leb c.batch_size (length (s.buffer ++ e ∷ []))
              then flush c consent (with_event c e s)
              else (with_event c e s, []))
          else (s, [])).1

    step-silent : (consent : Bool) (s : State) (i : Input) → (step here c consent s i).1 ≡ []
    unfolding step pushed note_metric
    step-silent consent s (metric m) = refl
    step-silent consent s (hidden true) = flush-silent consent s
    step-silent consent s (hidden false) = refl
    step-silent consent s tick = flush-silent consent s
    step-silent consent s destroyed = flush-silent consent s
    step-silent consent s (loaded none) = refl
    step-silent consent s (loaded (some n)) = push-silent consent _ s
    step-silent consent s (observed r) = push-silent consent _ s
    step-silent consent s (failed message stack) = push-silent consent _ s
    step-silent consent s (rejected r) = push-silent consent _ s
    step-silent consent s (route_changed pathname duration now) =
        push-silent consent _ (record s { current_route = c.resolve pathname })
    step-silent consent s (reported message stack) = push-silent consent _ s

    run-silent : (is : List (Bool × Input)) (s : State) → (run here c is s).1 ≡ []
    unfolding run
    run-silent [] s = refl
    run-silent ((consent, i) ∷ is) s =
        ap (λ (l : List Beacon). l ++ (run here c is (step here c consent s i).0).1)
          (step-silent consent s i)
        ∙ run-silent is (step here c consent s i).0

    -- A session that is not sampled sends no beacon, whatever the inputs.
    pub session-silent :
        (consent : Bool) (pathname : Text) (now : ℕ) (is : List (Bool × Input))
        → (session here c consent pathname now is).1 ≡ []
    unfolding session init_rum
    session-silent consent pathname now is =
        ap (λ (l : List Beacon). l ++ (run here c is (init_rum here c consent pathname now).0).1)
          (push-silent consent (view (c.resolve pathname) none true)
            (start_state here c pathname now))
        ∙ run-silent is (init_rum here c consent pathname now).0
