-- ===== src/Hub/Threads/Findings.antt =====
-- src/hub/tools/java.ts: the findings and the result of `summarizeThreadDump`.
use kube_diagnostics_mcp.Common.{
  ℕ, ◌*◌, Bool, ◌&&◌, Option, none, some, List, [], ◌∷◌, ◌++◌, map, Text, txt, Map, includes,
  length, leb, filter, take, sort_by, descending, print,
}
use kube_diagnostics_mcp.Hub.Threads.{
  ThreadInfo, Pool, Blocked, Signature, Groups, no_groups, count_threads, truthy,
}
use kube_diagnostics_mcp.Hub.Threads.Deadlocks.{deadlocks}
use kube_diagnostics_mcp.Strings.{join}

abbrev first_of : List Text → Text
first_of [] = []
first_of (x ∷ l) = x

abbrev deadlock_finding : List Text → Text
deadlock_finding d = txt "DEADLOCK: " ++ (join (txt " -> ") d ++ (txt " -> " ++ first_of d))

abbrev is_saturated : Pool → Bool
is_saturated p = leb 8 p.total && leb (p.total * 9) (p.busy * 10)

abbrev pool_finding : Text × Pool → Text
pool_finding (name, p) =
    txt "pool \""
    ++ (name
        ++ (txt "\" saturated: "
            ++ (print p.busy
                ++ (txt "/"
                    ++ (print p.total
                        ++ txt
                            " busy - requests queue; raise pool size or fix the slow path below")))))

abbrev held_by : Option Text → Text
held_by none = []
held_by (some owner) = txt " held by " ++ owner

abbrev lock_finding : Text × Blocked → Text
lock_finding (lock, b) =
    print b.count
    ++ (txt " threads BLOCKED on "
        ++ (lock ++ (held_by (truthy b.owner) ++ txt " - lock contention")))

abbrev is_hot : Text × Signature → Bool
is_hot (sig, s) = leb 5 s.count && includes (txt "RUNNABLE") s.states

abbrev hot_finding : Text × Signature → Text
hot_finding (sig, s) = print s.count ++ (txt " threads in " ++ (sig ++ txt " - hot spot"))

-- `[...signatures.entries()].sort(…).slice(0, 10)`
unfoldable pub hot_signatures : Map Signature → List (Text × Signature)
unfolding take sort_by
hot_signatures m = take 10 (sort_by (descending (λ e. e.1.count)) m)

unfoldable pub thread_findings : List (List Text) → Groups → List Text
unfolding hot_signatures filter take print join txt includes
thread_findings cycles g =
    map deadlock_finding cycles
    ++ (map pool_finding (filter (λ e. is_saturated e.1) g.pools)
        ++ (map lock_finding (filter (λ e. leb 5 e.1.count) g.blocked_on)
            ++ map hot_finding (filter is_hot (take 3 (hot_signatures g.signatures)))))

pub record ThreadDumpSummary : Type 0 where
  pub total : ℕ
  pub by_state : Map ℕ
  pub pools : List (Text × Pool)
  pub blocked_on : List (Text × Blocked)
  pub top_stacks : List (Text × Signature)
  pub deadlocks : List (List Text)
  pub findings : List Text

unfoldable pub summarize_groups : ℕ → List (List Text) → Groups → ThreadDumpSummary
unfolding hot_signatures thread_findings filter take sort_by
summarize_groups total cycles g = record {
  total = total;
  by_state = g.by_state;
  pools = take 20 (sort_by (descending (λ e. e.1.total)) (filter (λ e. leb 2 e.1.total) g.pools));
  blocked_on = take 10 (sort_by (descending (λ e. e.1.count)) g.blocked_on);
  top_stacks = hot_signatures g.signatures;
  deadlocks = cycles;
  findings = thread_findings cycles g;
}

unfoldable pub summarize_thread_dump : List ThreadInfo → ThreadDumpSummary
unfolding count_threads deadlocks summarize_groups
summarize_thread_dump threads =
    summarize_groups (length threads) (deadlocks threads) (count_threads threads no_groups)
