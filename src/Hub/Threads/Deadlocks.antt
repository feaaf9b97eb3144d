-- ===== src/Hub/Threads/Deadlocks.antt =====
-- src/hub/tools/java.ts: the deadlocks of `summarizeThreadDump`.
use kube_diagnostics_mcp.Common.{
  ℕ, zero, suc, ◌||◌, Option, none, some, List, [], ◌∷◌, ◌++◌, Text, Map, get, put, same, includes,
  if◌then◌else◌, length, leb,
}
use kube_diagnostics_mcp.Hub.Threads.{ThreadInfo, truthy, is_blocked}

-- A blocked thread waits for the owner of its lock; an owner in the map is never empty.
unfoldable pub note_wait : ThreadInfo → Map Text → Map Text
note_wait t waits = elim (truthy t.lock_owner_name) [
  | none ↦ waits
  | some owner ↦ if is_blocked t then put t.thread_name owner waits else waits
]

unfoldable pub waits_from : List ThreadInfo → Map Text → Map Text
unfolding note_wait
waits_from [] waits = waits
waits_from (t ∷ ts) waits = waits_from ts (note_wait t waits)

abbrev pub max_chain : ℕ
max_chain = 20

-- The `while` loop: the chain so far and the next thread; fuel counts the rounds.
unfoldable pub follow : Map Text → ℕ → List Text → Option Text → List Text × Option Text
follow waits zero chain cur = (chain, cur)
follow waits (suc n) chain none = (chain, none)
follow waits (suc n) chain (some c) =
    let further = follow waits n (chain ++ c ∷ []) (get c waits) in
    if includes c chain || leb max_chain (length chain) then (chain, some c) else further

-- `chain.slice(chain.indexOf(c))`, for a `c` of the chain
unfoldable pub cycle_from : Text → List Text → List Text
cycle_from c [] = []
cycle_from c (d ∷ l) = if same d c then d ∷ l else cycle_from c l

-- The names seen on a cycle, and the cycles.
abbrev pub Search : Type 0
Search = List Text × List (List Text)

unfoldable pub close_cycle : Search → List Text × Option Text → Search
unfolding cycle_from includes
close_cycle (seen, deadlocks) (chain, none) = (seen, deadlocks)
close_cycle (seen, deadlocks) (chain, some c) =
    let cycle = cycle_from c chain in
    if includes c chain then (seen ++ cycle, deadlocks ++ cycle ∷ []) else (seen, deadlocks)

unfoldable pub search_from : Map Text → Text → Search → Search
unfolding follow close_cycle includes
search_from waits start s =
    if includes start s.0
    then s
    else close_cycle s (follow waits max_chain (start ∷ []) (get start waits))

unfoldable pub search_all : Map Text → Map Text → Search → Search
unfolding search_from
search_all waits [] s = s
search_all waits ((name, owner) ∷ rest) s = search_all waits rest (search_from waits name s)

unfoldable pub deadlocks : List ThreadInfo → List (List Text)
unfolding waits_from search_all
deadlocks threads = let waits = waits_from threads [] in (search_all waits waits ([], [])).1
