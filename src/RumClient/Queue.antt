-- ===== src/RumClient/Queue.antt =====
-- What becomes of the events that the client buffers.
use kube_diagnostics_mcp.Common.{
  ℕ, ◌≡◌, refl, sym, ap, ◌∙◌, inl, inr, Bool, true, false, none, some, List, [], ◌∷◌, ◌++◌, Text,
  Map, length, leb, filter, if◌then◌else◌, Bool-cases,
}
use mathlib.Core.List.{append_assoc, append-nil}
use kube_diagnostics_mcp.RumClient.{
  RumEvent, vital, view, Latest, Client, State, Beacon, Outcome, drained, marked, is_sent, send,
  flush, push,
}
use kube_diagnostics_mcp.RumClient.Steps.{
  Input, metric, loaded, observed, failed, rejected, hidden, tick, destroyed, route_changed,
  reported, note_metric, pushed, step, init_rum, run, session, start_state,
}

abbrev is_queued : RumEvent → Bool
is_queued (vital name v route) = false
is_queued _ = true

-- The events but the vitals, which are kept apart and drained when there is something to send.
abbrev pub queued : List RumEvent → List RumEvent
queued l = filter is_queued l

abbrev pub events_of : List Beacon → List RumEvent
events_of [] = []
events_of (b ∷ l) = b.events ++ events_of l

-- What was sent, and then what waits.
abbrev pub history : Outcome → List RumEvent
history out = queued (events_of out.1) ++ queued (out.0.buffer)

queued-append : (l m : List RumEvent) → queued (l ++ m) ≡ queued l ++ queued m
unfolding filter
queued-append [] m = refl
queued-append (e ∷ l) m = elim (Bool-cases (is_queued e)) [
  | inl yes_queued ↦ rw (yes_queued, queued-append l m) refl
  | inr not_queued ↦ rw (not_queued, queued-append l m) refl
]

queued-drained : (m : Map Latest) → queued (drained m) ≡ []
unfolding drained filter
queued-drained [] = refl
queued-drained ((k, v) ∷ m) = elim (Bool-cases (is_sent v)) [
  | inl old ↦ rw old (queued-drained m)
  | inr new ↦ rw new (queued-drained m)
]

events_of-append : (l m : List Beacon) → events_of (l ++ m) ≡ events_of l ++ events_of m
events_of-append [] m = refl
events_of-append (b ∷ l) m =
    ap (◌++◌ b.events) (events_of-append l m)
    ∙ sym (append_assoc b.events (events_of l) (events_of m))

module _ (c : Client) where
  abbrev pub with_vitals : State → State
  with_vitals s = record s { buffer = s.buffer ++ drained s.latest; latest = marked s.latest }

  abbrev pub with_event : RumEvent → State → State
  with_event e s = record s { buffer = s.buffer ++ e ∷ [] }

  module _ (sampled : c.sampled ≡ true) (consent : Bool) where
    pub flush_sampled :
        (s : State)
        → flush c consent s ≡ send c consent (with_vitals s) (s.buffer ++ drained s.latest)
    unfolding flush
    flush_sampled s = λ i.
        if sampled i then send c consent (with_vitals s) (s.buffer ++ drained s.latest) else (s, [])

    pub push_sampled :
        (e : RumEvent) (s : State) {full : Bool}
        → leb c.batch_size (length (s.buffer ++ e ∷ [])) ≡ full
        → push c consent e s
          ≡ (if full then flush c consent (with_event e s) else (with_event e s, []))
    unfolding push
    push_sampled e s h = λ i.
        if sampled i
        then (if h i then flush c consent (with_event e s) else (with_event e s, []))
        else (s, [])

  send-history :
      (s : State) (l : List RumEvent) → history (send c true (record s { buffer = l }) l) ≡ queued l
  unfolding filter
  send-history s [] = refl
  send-history s (e ∷ l) = append-nil (queued ((e ∷ l) ++ [])) ∙ ap queued (append-nil (e ∷ l))

  module _ (sampled : c.sampled ≡ true) where
    flush-history : (s : State) → history (flush c true s) ≡ queued s.buffer
    flush-history s =
        ap history (flush_sampled sampled true s)
        ∙ send-history (record s { latest = marked s.latest }) (s.buffer ++ drained s.latest)
        ∙ queued-append s.buffer (drained s.latest)
        ∙ ap (◌++◌ (queued s.buffer)) (queued-drained s.latest)
        ∙ append-nil (queued s.buffer)

    push-history :
        (e : RumEvent) (s : State) → history (push c true e s) ≡ queued s.buffer ++ queued (e ∷ [])
    unfolding filter
    push-history e s = elim (Bool-cases (leb c.batch_size (length (s.buffer ++ e ∷ [])))) [
      | inl full ↦
          ap history (push_sampled sampled true e s full)
          ∙ flush-history (with_event e s)
          ∙ queued-append s.buffer (e ∷ [])
      | inr room ↦ ap history (push_sampled sampled true e s room) ∙ queued-append s.buffer (e ∷ [])
    ]

    module _ (here : Text) where
      step-history :
          (s : State) (i : Input)
          → history (step here c true s i) ≡ queued s.buffer ++ queued (pushed here c s i)
      unfolding step pushed note_metric filter
      step-history s (metric m) = sym (append-nil (queued s.buffer))
      step-history s (hidden true) = flush-history s ∙ sym (append-nil (queued s.buffer))
      step-history s (hidden false) = sym (append-nil (queued s.buffer))
      step-history s tick = flush-history s ∙ sym (append-nil (queued s.buffer))
      step-history s destroyed = flush-history s ∙ sym (append-nil (queued s.buffer))
      step-history s (loaded none) = sym (append-nil (queued s.buffer))
      step-history s (loaded (some n)) = push-history _ s
      step-history s (observed r) = push-history _ s
      step-history s (failed message stack) = push-history _ s
      step-history s (rejected r) = push-history _ s
      step-history s (route_changed pathname duration now) =
          push-history _ (record s { current_route = c.resolve pathname })
      step-history s (reported message stack) = push-history _ s

-- With consent to every sending.
abbrev pub always : List Input → List (Bool × Input)
always [] = []
always (i ∷ is) = (true, i) ∷ always is

module _ (c : Client) (here : Text) where
  -- What a list of inputs pushes.
  abbrev pub all_pushed : List Input → State → List RumEvent
  all_pushed [] s = []
  all_pushed (i ∷ is) s = pushed here c s i ++ all_pushed is (step here c true s i).0

  join-history :
      (out rest : Outcome) (l m : List RumEvent)
      → history out ≡ l
      → history rest ≡ queued (out.0.buffer) ++ m
      → history (rest.0, out.1 ++ rest.1) ≡ l ++ m
  join-history out rest l m h k =
      ap (λ (t : List RumEvent). queued t ++ queued (rest.0.buffer)) (events_of-append out.1 rest.1)
      ∙ ap (λ (t : List RumEvent). t ++ queued (rest.0.buffer))
          (queued-append (events_of out.1) (events_of rest.1))
      ∙ append_assoc (queued (events_of out.1)) (queued (events_of rest.1)) (queued (rest.0.buffer))
      ∙ ap (◌++◌ (queued (events_of out.1))) k
      ∙ sym (append_assoc (queued (events_of out.1)) (queued (out.0.buffer)) m)
      ∙ ap (λ (t : List RumEvent). t ++ m) h

  run-history :
      c.sampled ≡ true
      → (is : List Input) (s : State)
      → history (run here c (always is) s) ≡ queued s.buffer ++ queued (all_pushed is s)
  unfolding run filter
  run-history sampled [] s = sym (append-nil (queued s.buffer))
  run-history sampled (i ∷ is) s =
      let out = step here c true s i in
      join-history out (run here c (always is) (out.0))
        (queued s.buffer ++ queued (pushed here c s i)) (queued (all_pushed is (out.0)))
        (step-history c sampled here s i) (run-history sampled is (out.0))
      ∙ append_assoc (queued s.buffer) (queued (pushed here c s i)) (queued (all_pushed is (out.0)))
      ∙ ap (◌++◌ (queued s.buffer))
          (sym (queued-append (pushed here c s i) (all_pushed is (out.0))))

  abbrev pub first_view : Text → RumEvent
  first_view pathname = view (c.resolve pathname) none true

  -- In a sampled session that consents to every sending, the events in the beacons, in their order,
  -- and then those that still wait are the first view and the events of the inputs, vitals left
  -- aside: none is lost, doubled or moved.
  pub session-history :
      c.sampled ≡ true
      → (pathname : Text) (now : ℕ) (is : List Input)
      → history (session here c true pathname now (always is))
        ≡ first_view pathname ∷ queued (all_pushed is (init_rum here c true pathname now).0)
  unfolding session init_rum filter
  session-history sampled pathname now is =
      let out = init_rum here c true pathname now in
      join-history out (run here c (always is) (out.0)) (first_view pathname ∷ [])
        (queued (all_pushed is (out.0)))
        (push-history c sampled (first_view pathname) (start_state here c pathname now))
        (run-history sampled is (out.0))
