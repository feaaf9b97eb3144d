-- ===== src/Probe/Net/Connections.antt =====
-- src/probe/procnet.ts: `summarizeConnections`.
use kube_diagnostics_mcp.Common.{
  ℕ, ◌+◌, ◌/◌, Bool, true, false, not, ◌&&◌, Option, none, some, List, [], ◌∷◌, ◌++◌, map, Text,
  txt, Map, get, put, same, or_else, if◌then◌else◌, ◌==◌, ltb, length, take, any, add_to, sort_by,
  descending, Number, plus, minus, million, print,
}
use kube_diagnostics_mcp.Probe.Net.{Address, SockRow, parse_proc_net_table}

pub record Established : Type 0 where
  pub remote : Text
  pub port : Number
  pub count : ℕ

pub record Listener : Type 0 where
  pub address : Text
  pub port : Number
  pub proto : Text

pub record ConnectionSummary : Type 0 where
  pub established : List Established
  pub states : Map ℕ
  pub listening : List Listener
  pub tcp_total : ℕ
  pub udp_total : ℕ
  pub available : Bool
  pub note : Option Text

-- What the loop over the TCP rows fills.
pub record Tables : Type 0 where
  pub states : Map ℕ
  pub estab : Map Established
  pub listening : List Listener

-- `${port}`, for the integers that `parseInt` returns
unfoldable pub print_port : Number → Text
unfolding print txt
print_port (plus n) = print (n / million)
print_port (minus n) = b'-' ∷ print ((n + 1) / million)
print_port _ = txt "NaN"

abbrev pub is_zero : Number → Bool
is_zero (plus n) = n == 0
is_zero _ = false

abbrev pub proto_of : Text → Text → Text
proto_of base address = if any (λ c. c == b':') address then base ++ b'6' ∷ [] else base

abbrev pub listener : Text → Address → Listener
listener base a = record { address = a.address; port = a.port; proto = proto_of base a.address }

unfoldable pub count_peer : Address → Map Established → Map Established
unfolding print_port
count_peer a m =
    let key = a.address ++ b':' ∷ print_port a.port in
    let e = or_else (get key m) (record { remote = a.address; port = a.port; count = 0 }) in
    put key (record e { count = e.count + 1 }) m

abbrev pub is_listen : SockRow → Bool
is_listen r = same r.state (txt "LISTEN")

abbrev pub is_established : SockRow → Bool
is_established r = same r.state (txt "ESTABLISHED")

unfoldable pub tcp_row : SockRow → Tables → Tables
unfolding count_peer add_to any txt
tcp_row r t = record {
  states = add_to 1 r.state t.states;
  estab =
      if is_listen r
      then t.estab
      else if is_established r
      then count_peer r.remote t.estab
      else t.estab;
  listening = if is_listen r then t.listening ++ listener (txt "tcp") r.local ∷ [] else t.listening;
}

unfoldable pub tcp_rows : List SockRow → Tables → Tables
unfolding tcp_row
tcp_rows [] t = t
tcp_rows (r ∷ rs) t = tcp_rows rs (tcp_row r t)

-- A bound local port and no remote one.
abbrev pub is_bound : SockRow → Bool
is_bound r = is_zero r.remote.port && not (is_zero r.local.port)

unfoldable pub udp_rows : List SockRow → List Listener → List Listener
unfolding any txt
udp_rows [] l = l
udp_rows (r ∷ rs) l = udp_rows rs (if is_bound r then l ++ listener (txt "udp") r.local ∷ [] else l)

-- `a.port - b.port > 0`; the comparison with NaN is false
abbrev pub port_after : Listener → Listener → Bool
port_after a b = exceeds a.port b.port
  where
    exceeds : Number → Number → Bool
    exceeds (plus n) (plus m) = ltb m n
    exceeds (plus n) (minus m) = true
    exceeds (minus n) (minus m) = ltb n m
    exceeds _ _ = false

unfoldable pub connections : List SockRow → List SockRow → ConnectionSummary
unfolding tcp_rows udp_rows sort_by take
connections tcp udp =
    let t = tcp_rows tcp (record { states = []; estab = []; listening = [] }) in
    record {
      established = take 100 (sort_by (descending (λ e. e.count)) (map (λ e. e.1) t.estab));
      states = t.states;
      listening = sort_by port_after (udp_rows udp t.listening);
      tcp_total = length tcp;
      udp_total = length udp;
      available = true;
      note = none;
    }

abbrev pub table : Option Text → Bool → List SockRow
table none v6 = []
table (some content) v6 = parse_proc_net_table content v6

unfoldable pub not_readable : ConnectionSummary
unfolding txt
not_readable = record {
  established = [];
  states = [];
  listening = [];
  tcp_total = 0;
  udp_total = 0;
  available = false;
  note = some (txt "/proc/net/tcp not readable");
}

unfoldable pub summarize_connections : (tcp4 tcp6 udp4 udp6 : Option Text) → ConnectionSummary
unfolding connections parse_proc_net_table not_readable
summarize_connections none none udp4 udp6 = not_readable
summarize_connections tcp4 tcp6 udp4 udp6 =
    connections (table tcp4 false ++ table tcp6 true) (table udp4 false ++ table udp6 true)
