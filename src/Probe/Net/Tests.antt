-- ===== src/Probe/Net/Tests.antt =====
-- Runs of the readers of /proc/net, and the theorems at concrete tables.
use kube_diagnostics_mcp.Common.{
  ℕ, ◌≤◌, ◌≡◌, refl, false, none, some, List, [], ◌∷◌, ◌++◌, arith, txt, length, whole, print, same,
  sum_of, total_of, IsDescending, map, sort_by, filter,
}
use kube_diagnostics_mcp.Probe.Net.{
  Address, SockRow, parse_hex_addr4, parse_hex_addr6, parse_proc_net_table,
}
use kube_diagnostics_mcp.Probe.Net.Connections.{
  is_established, is_listen, is_bound, port_after, connections, summarize_connections,
}
use kube_diagnostics_mcp.Probe.Net.Counts.{rows_with, local_end, connections_counts}
use kube_diagnostics_mcp.Probe.Net.Hex.{hex_text, word_of, parse_hex_addr4_roundtrip}
use kube_diagnostics_mcp.Regex.Classes.{one_of}
use kube_diagnostics_mcp.Strings.{join}

addresses_run :
    (parse_hex_addr4 (txt "0100007F:1F90")
      ≡ record { address = txt "127.0.0.1"; port = whole 8080 })
    × (parse_hex_addr6 (txt "0000000000000000FFFF00000100007F:0050")
        ≡ record { address = txt "127.0.0.1"; port = whole 80 })
    × (parse_hex_addr6 (txt "00000000000000000000000001000000:0050")
        ≡ record { address = txt "0:0:0:0:0:0:0:1"; port = whole 80 })
unfolding parse_hex_addr4 parse_hex_addr6 txt one_of
addresses_run = (refl, refl, refl)

parse_hex_addr4_roundtrip_example :
    parse_hex_addr4 (hex_text 8 (word_of 10 0 0 7) ++ b':' ∷ hex_text 4 443) ≡ record {
      address = join (txt ".") (print 10 ∷ print 0 ∷ print 0 ∷ print 7 ∷ []);
      port = whole 443;
    }
parse_hex_addr4_roundtrip_example =
    parse_hex_addr4_roundtrip 10 0 0 7 443 (omega arith) (omega arith) (omega arith) (omega arith)
      (omega arith)

abbrev local_address : ℕ → Address
unfolding txt
local_address p = record { address = txt "10.0.0.5"; port = whole p }

abbrev two_rows : List SockRow
unfolding txt
two_rows =
    record { local = local_address 80; remote = local_address 0; state = txt "LISTEN" }
    ∷ record { local = local_address 80; remote = local_address 999; state = txt "ESTABLISHED" }
    ∷ []

connections_counts_example :
    let c = connections two_rows [] in
    (sum_of (λ n. n) c.states ≡ length two_rows)
    × (length c.established ≤ 100)
    × IsDescending (λ e. e.count) c.established
    × (total_of (λ e. e.count) c.established ≤ rows_with is_established two_rows)
    × (c.listening
        ≡ sort_by port_after (
            map (local_end (txt "tcp")) (filter is_listen two_rows)
            ++ map (local_end (txt "udp")) (filter is_bound [])))
connections_counts_example = connections_counts two_rows []

table_run :
    parse_proc_net_table
      (txt "  sl  local_address\n   0: 0100007F:1F90 00000000:0000 0A 00\n")
      false
    ≡ record {
      local = record { address = txt "127.0.0.1"; port = whole 8080 };
      remote = record { address = txt "0.0.0.0"; port = whole 0 };
      state = txt "LISTEN";
    }
      ∷ []
unfolding parse_proc_net_table txt same
table_run = refl

unreadable_run : (summarize_connections none none (some []) none).available ≡ false
unfolding summarize_connections
unreadable_run = refl
