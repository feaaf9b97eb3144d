-- ===== src/Probe/Net/Counts.antt =====
-- What the numbers of a summary of connections say.
use mathlib.Core.List.{append-nil, append_assoc}
use kube_diagnostics_mcp.Common.{
  sym, ap, any, ◌==◌, ℕ, ◌+◌, ◌≤◌, ◌≡◌, refl, ◌∙◌, inl, inr, true, Bool, List, [], ◌∷◌, ◌++◌, arith,
  map, Text, txt, Map, same, same_iff, length, filter, Bool-cases, if◌then◌else◌, sum_of,
  sum_of-update, sum_of-add_to, total_of, total_of-take, total_of-sort_by, IsDescending,
  sort_by-IsDescending, take-IsDescending, sort_by, length-take, descending,
}
use kube_diagnostics_mcp.Probe.Net.{Address, SockRow}
use kube_diagnostics_mcp.Probe.Net.Connections.{
  Established, Listener, Tables, connections, tcp_row, tcp_rows, udp_rows, count_peer, is_listen,
  is_established, is_bound, port_after,
}

abbrev uses : Established → ℕ
uses e = e.count

count_peer_sum :
    (a : Address) (m : Map Established) → sum_of uses (count_peer a m) ≡ sum_of uses m + 1
unfolding count_peer
count_peer_sum a m =
    sum_of-update uses _ (record { remote = a.address; port = a.port; count = 0 }) _ 1 m refl refl

-- The number of rows that pass a test.
abbrev pub rows_with : (SockRow → Bool) → List SockRow → ℕ
rows_with p l = length (filter p l)

rows_with-cons :
    (p : SockRow → Bool) (r : SockRow) (rs : List SockRow)
    → rows_with p (r ∷ rs) ≡ (if p r then 1 else 0) + rows_with p rs
unfolding filter
rows_with-cons p r rs = elim (Bool-cases (p r)) [
  | inl kept ↦ rw kept (omega arith)
  | inr dropped ↦ rw dropped (omega arith)
]

not_both : (r : SockRow) → is_established r ≡ true → is_listen r ≡ true → ⊥
unfolding same txt
not_both r e l =
    let a = (same_iff r.state (txt "ESTABLISHED")).0 e in
    let b = (same_iff r.state (txt "LISTEN")).0 l in cc

tcp_row_estab :
    (r : SockRow) (t : Tables)
    → sum_of uses (tcp_row r t).estab ≡ sum_of uses t.estab + (if is_established r then 1 else 0)
unfolding tcp_row
tcp_row_estab r t = elim (Bool-cases (is_listen r)) [
  | inl listens ↦ elim (Bool-cases (is_established r)) [
    | inl both ↦ absurd (not_both r both listens)
    | inr other ↦ rw (listens, other) (omega arith)
  ]
  | inr not_listens ↦ elim (Bool-cases (is_established r)) [
    | inl peer ↦ rw (not_listens, peer) (count_peer_sum r.remote t.estab)
    | inr other ↦ rw (not_listens, other) (omega arith)
  ]
]

tcp_rows_estab :
    (rs : List SockRow) (t : Tables)
    → sum_of uses (tcp_rows rs t).estab ≡ sum_of uses t.estab + rows_with is_established rs
unfolding tcp_rows filter
tcp_rows_estab [] t = omega arith
tcp_rows_estab (r ∷ rs) t =
    omega (
      arith,
      tcp_rows_estab rs (tcp_row r t),
      tcp_row_estab r t,
      rows_with-cons is_established r rs,
    )

tcp_rows_states :
    (rs : List SockRow) (t : Tables)
    → sum_of (λ n. n) (tcp_rows rs t).states ≡ sum_of (λ n. n) t.states + length rs
unfolding tcp_rows tcp_row
tcp_rows_states [] t = omega arith
tcp_rows_states (r ∷ rs) t =
    omega (arith, tcp_rows_states rs (tcp_row r t), sum_of-add_to 1 r.state t.states)

-- A row as a listener: its local end, and whether that is an address of version 6.
abbrev pub local_end : Text → SockRow → Listener
local_end base r = record {
  address = r.local.address;
  port = r.local.port;
  proto = if any (λ c. c == b':') r.local.address then base ++ b'6' ∷ [] else base;
}

tcp_rows_listening :
    (rs : List SockRow) (t : Tables)
    → (tcp_rows rs t).listening ≡ t.listening ++ map (local_end (txt "tcp")) (filter is_listen rs)
unfolding tcp_rows tcp_row filter
tcp_rows_listening [] t = sym (append-nil t.listening)
tcp_rows_listening (r ∷ rs) t =
    tcp_rows_listening rs (tcp_row r t) ∙ elim (Bool-cases (is_listen r)) [
      | inl listens ↦ rw listens (append_assoc t.listening (local_end (txt "tcp") r ∷ []) _)
      | inr other ↦ rw other refl
    ]

udp_rows_listening :
    (rs : List SockRow) (l : List Listener)
    → udp_rows rs l ≡ l ++ map (local_end (txt "udp")) (filter is_bound rs)
unfolding udp_rows filter
udp_rows_listening [] l = sym (append-nil l)
udp_rows_listening (r ∷ rs) l = elim (Bool-cases (is_bound r)) [
  | inl bound ↦ rw bound (
      udp_rows_listening rs (l ++ local_end (txt "udp") r ∷ [])
      ∙ append_assoc l (local_end (txt "udp") r ∷ []) _)
  | inr free ↦ rw free (udp_rows_listening rs l)
]

peers_total :
    (m : Map Established) → total_of uses (map (λ (e : Text × Established). e.1) m) ≡ sum_of uses m
peers_total [] = refl
peers_total ((k, e) ∷ m) = omega (arith, peers_total m)

-- The states account for every TCP row. At most 100 peers are shown, the busiest first, with no
-- more connections than there are established ones. The listeners are, by port, the local ends of
-- the listening TCP rows and of the bound UDP rows without a peer.
pub connections_counts :
    (tcp udp : List SockRow)
    → let c = connections tcp udp in
      (sum_of (λ n. n) c.states ≡ length tcp)
      × (length c.established ≤ 100)
      × IsDescending (λ e. e.count) c.established
      × (total_of (λ e. e.count) c.established ≤ rows_with is_established tcp)
      × (c.listening
          ≡ sort_by port_after (
              map (local_end (txt "tcp")) (filter is_listen tcp)
              ++ map (local_end (txt "udp")) (filter is_bound udp)))
unfolding connections filter
connections_counts tcp udp =
    let empty : Tables = record { states = []; estab = []; listening = [] } in
    let t = tcp_rows tcp empty in
    let peers : List Established = map (λ (e : Text × Established). e.1) t.estab in
    let sorted : List Established = sort_by (descending uses) peers in
    (
      tcp_rows_states tcp empty ∙ omega arith,
      omega (arith, length-take 100 sorted),
      take-IsDescending uses 100 sorted (sort_by-IsDescending uses peers),
      omega (
        arith,
        total_of-take uses 100 sorted,
        total_of-sort_by uses (descending uses) peers,
        peers_total t.estab,
        tcp_rows_estab tcp empty,
      ),
      ap (sort_by port_after) (
          udp_rows_listening udp t.listening
          ∙ ap (λ (l : List Listener). l ++ map (local_end (txt "udp")) (filter is_bound udp))
              (tcp_rows_listening tcp empty)),
    )
