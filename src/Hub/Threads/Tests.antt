-- ===== src/Hub/Threads/Tests.antt =====
-- Runs of the summary of a thread dump, and the theorems at concrete dumps.
use kube_diagnostics_mcp.Common.{
  ◌≤◌, ◌≡◌, refl, true, none, some, List, [], ◌∷◌, arith, Text, txt, length, leb, any, includes,
  All, sum_of, same, put, IsDescending, get, ◌++◌,
}
use kube_diagnostics_mcp.Regex.Classes.{one_of}
use kube_diagnostics_mcp.Hub.Threads.{ThreadInfo, pool_name}
use kube_diagnostics_mcp.Hub.Threads.Counts.{IsPool, summarize_thread_dump_counts}
use kube_diagnostics_mcp.Hub.Threads.Cycles.{WaitsFor, IsCycle, Distinct, deadlocks-IsCycle}
use kube_diagnostics_mcp.Hub.Threads.Deadlocks.{deadlocks, follow, waits_from, max_chain}
use kube_diagnostics_mcp.Hub.Threads.Findings.{summarize_thread_dump}
use kube_diagnostics_mcp.Hub.Threads.Found.{deadlocks-Reported}
use kube_diagnostics_mcp.Hub.Threads.Walk.{Stopped, follow_terminates}

abbrev blocked : Text → Text → ThreadInfo
unfolding txt
blocked name owner = record {
  thread_name = name;
  thread_state = txt "BLOCKED";
  lock_name = some (txt "java.lang.Object@1");
  lock_owner_name = some owner;
  stack_trace = none;
}

abbrev two_blocked : List ThreadInfo
unfolding txt
two_blocked = blocked (txt "exec-1") (txt "exec-2") ∷ blocked (txt "exec-2") (txt "exec-1") ∷ []

names_run :
    (pool_name (txt "http-nio-8080-exec-12") ≡ txt "http-nio-8080-exec")
    × (pool_name (txt "Catalina[1") ≡ txt "Catalina")
unfolding pool_name txt one_of
names_run = (refl, refl)

deadlock_run : deadlocks two_blocked ≡ (txt "exec-1" ∷ txt "exec-2" ∷ []) ∷ []
unfolding deadlocks txt same put get
deadlock_run = refl

-- A thread that waits for a cycle already reported has it reported again.
reported_twice :
    deadlocks (two_blocked ++ blocked (txt "exec-3") (txt "exec-1") ∷ [])
    ≡ (txt "exec-1" ∷ txt "exec-2" ∷ []) ∷ (txt "exec-1" ∷ txt "exec-2" ∷ []) ∷ []
unfolding deadlocks txt same put get
reported_twice = refl

deadlocks-IsCycle_example :
    All (λ cycle. IsCycle (WaitsFor two_blocked) cycle × Distinct cycle) (deadlocks two_blocked)
deadlocks-IsCycle_example = deadlocks-IsCycle two_blocked

deadlocks-Reported_example : any (includes (txt "exec-2")) (deadlocks two_blocked) ≡ true
unfolding txt waits_from includes get same put
deadlocks-Reported_example =
    deadlocks-Reported two_blocked (txt "exec-2") (txt "exec-1" ∷ []) (refl, refl)
      (refl, (refl, tt)) (omega arith)

follow_terminates_example :
    let walk =
      follow
        (waits_from two_blocked [])
        max_chain
        (txt "exec-1" ∷ [])
        (get (txt "exec-1") (waits_from two_blocked [])) in
    (length (walk.0) ≤ max_chain) × Stopped walk
follow_terminates_example = follow_terminates (waits_from two_blocked []) (txt "exec-1")

summarize_thread_dump_counts_example :
    let s = summarize_thread_dump two_blocked in
    (s.total ≡ length two_blocked)
    × (sum_of (λ n. n) s.by_state ≡ length two_blocked)
    × (length s.pools ≤ 20)
    × IsDescending (λ e. e.1.total) s.pools
    × All (λ e. IsPool e.1 × (leb 2 e.1.total ≡ true)) s.pools
summarize_thread_dump_counts_example = summarize_thread_dump_counts two_blocked
