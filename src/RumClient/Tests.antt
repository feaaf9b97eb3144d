-- ===== src/RumClient/Tests.antt =====
-- Runs of the browser's client, and the theorems at a concrete session.
use kube_diagnostics_mcp.Common.{
  ℕ, ◌≡◌, refl, Bool, true, false, none, some, List, [], ◌∷◌, Text, txt, whole,
}
use kube_diagnostics_mcp.RumClient.{
  RumEvent, vital, view, error, Client, Beacon, default_route_resolver, device_class,
}
use kube_diagnostics_mcp.RumClient.Buffer.{IsShort, session-IsShort, session-silent}
use kube_diagnostics_mcp.RumClient.Queue.{
  history, queued, always, all_pushed, first_view, session-history,
}
use kube_diagnostics_mcp.RumClient.Steps.{
  Input, metric, tick, route_changed, reported, init_rum, session,
}

abbrev here : Text
unfolding txt
here = txt "http://shop"

abbrev client : Bool → ℕ → Client
unfolding txt
client sampled batch = record {
  app = none;
  sampled = sampled;
  batch_size = batch;
  resolve = default_route_resolver;
  session = txt "abcd1234";
  device = txt "desktop";
  connection = none;
}

abbrev inputs : List Input
unfolding txt
inputs =
    metric (record { name = txt "LCP"; id = txt "v1"; value = whole 1200 })
    ∷ route_changed (txt "/products/42?q=1") none 3000000
    ∷ reported (txt "boom") none
    ∷ tick
    ∷ []

resolver_run :
    (default_route_resolver (txt "/products/42?q=1") ≡ txt "/products/:id")
    × (default_route_resolver (txt "?q") ≡ txt "/")
unfolding default_route_resolver txt
resolver_run = (refl, refl)

device_run : device_class (txt "Mozilla/5.0 (Linux; Android 14)") ≡ txt "mobile"
unfolding device_class txt
device_run = refl

abbrev events : Beacon → List RumEvent
events b = b.events

session_run :
    (session here (client true 2) true (txt "/") 0 (always inputs)).1
    ≡ record {
      app = none;
      session = txt "abcd1234";
      route = txt "/products/:id";
      device = txt "desktop";
      connection = none;
      events =
          view (txt "/") none true
          ∷ view (txt "/products/:id") (some 3) false
          ∷ vital (txt "LCP") (whole 1200) (txt "/")
          ∷ [];
    }
      ∷ record {
        app = none;
        session = txt "abcd1234";
        route = txt "/products/:id";
        device = txt "desktop";
        connection = none;
        events = error (txt "boom") none (txt "/products/:id") ∷ [];
      }
      ∷ []
unfolding session default_route_resolver txt client inputs
session_run = refl

session-history_example :
    history (session here (client true 2) true (txt "/") 0 (always inputs))
    ≡ first_view (client true 2) here (txt "/")
      ∷ queued (
          all_pushed (client true 2) here inputs (init_rum here (client true 2) true (txt "/") 0).0)
unfolding client
session-history_example = session-history (client true 2) here refl (txt "/") 0 inputs

session-IsShort_example :
    IsShort (client true 2) here (session here (client true 2) true (txt "/") 0 (always inputs)).0
session-IsShort_example = session-IsShort (client true 2) here true (txt "/") 0 (always inputs)

session-silent_example : (session here (client false 2) true (txt "/") 0 (always inputs)).1 ≡ []
unfolding client
session-silent_example = session-silent (client false 2) here refl true (txt "/") 0 (always inputs)
