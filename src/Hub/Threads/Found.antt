-- ===== src/Hub/Threads/Found.antt =====
-- Every deadlock of up to twenty threads is found.
use kube_diagnostics_mcp.Common.{
  ◌≤◌, ◌≡◌, refl, sym, inl, inr, true, Option, none, some, is_some, List, [], ◌∷◌, ◌++◌, arith,
  Text, Map, get, same, same_iff, same_refl, includes, length, any, Bool-cases,
}
use mathlib.Core.Path.{subst}
use kube_diagnostics_mcp.Hub.Threads.{ThreadInfo}
use kube_diagnostics_mcp.Hub.Threads.Cycles.{Linked, Distinct}
use kube_diagnostics_mcp.Hub.Threads.Deadlocks.{
  waits_from, follow, max_chain, cycle_from, Search, close_cycle, search_from, search_all,
  deadlocks,
}
use kube_diagnostics_mcp.Hub.Threads.Walk.{
  Waits, includes-append, any-append, Reported, Linked-get, Linked-rest, follow_round,
}

-- What was seen is reported.
abbrev SeenReported : Search → Type 0
SeenReported s = (x : Text) → includes x s.0 ≡ true → Reported x s.1

close_cycle-SeenReported :
    (s : Search) (walk : List Text × Option Text)
    → SeenReported s
    → SeenReported (close_cycle s walk)
unfolding close_cycle any
close_cycle-SeenReported (seen, found) (chain, none) h = h
close_cycle-SeenReported (seen, found) (chain, some c) h = elim (Bool-cases (includes c chain)) [
  | inr not_back ↦ rw not_back h
  | inl back ↦ rw back (λ x i. joined x i)
]
  where
    joined :
        (x : Text)
        → includes x (seen ++ cycle_from c chain) ≡ true
        → Reported x (found ++ cycle_from c chain ∷ [])
    joined x i = ground (
      arith,
      h x,
      includes-append x seen (cycle_from c chain),
      any-append (includes x) found (cycle_from c chain ∷ []),
    )

close_cycle_keeps :
    (s : Search) (walk : List Text × Option Text) (x : Text)
    → Reported x s.1
    → Reported x (close_cycle s walk).1
unfolding close_cycle
close_cycle_keeps (seen, found) (chain, none) x h = h
close_cycle_keeps (seen, found) (chain, some c) x h = elim (Bool-cases (includes c chain)) [
  | inr not_back ↦ rw not_back h
  | inl back ↦ rw (back, any-append, h) refl
]

module _ (waits : Map Text) where
  search_from-SeenReported :
      (start : Text) (s : Search) → SeenReported s → SeenReported (search_from waits start s)
  unfolding search_from
  search_from-SeenReported start s h = elim (Bool-cases (includes start s.0)) [
    | inl old ↦ rw old h
    | inr new ↦ rw new (close_cycle-SeenReported s _ h)
  ]

  search_from_keeps :
      (start : Text) (s : Search) (x : Text)
      → Reported x s.1
      → Reported x (search_from waits start s).1
  unfolding search_from
  search_from_keeps start s x h = elim (Bool-cases (includes start s.0)) [
    | inl old ↦ rw old h
    | inr new ↦ rw new (close_cycle_keeps s _ x h)
  ]

  search_all_keeps :
      (keys : Map Text) (s : Search) (x : Text)
      → Reported x s.1
      → Reported x (search_all waits keys s).1
  unfolding search_all
  search_all_keeps [] s x h = h
  search_all_keeps ((name, owner) ∷ rest) s x h =
      search_all_keeps rest (search_from waits name s) x (search_from_keeps name s x h)

  module _ (a : Text) (l : List Text) (links : Linked (Waits waits) (a ∷ l) a)
      (distinct : Distinct (a ∷ l)) (short : length (a ∷ l) ≤ max_chain) where
    round : follow waits max_chain (a ∷ []) (get a waits) ≡ (a ∷ l, some a)
    unfolding includes
    round = rw (Linked-get waits a l a links) (
        follow_round waits a max_chain (a ∷ []) l distinct (rw same_refl)
          (Linked-rest waits a l a links) short (omega arith))

    close_round : (s : Search) → Reported a (close_cycle s (a ∷ l, some a)).1
    unfolding close_cycle includes cycle_from any
    close_round (seen, found) = rw (same_refl, any-append) (ground (arith, same_refl a))

    search_from-Reported : (s : Search) → SeenReported s → Reported a (search_from waits a s).1
    unfolding search_from
    search_from-Reported s h = elim (Bool-cases (includes a s.0)) [
      | inl old ↦ rw old (h a old)
      | inr new ↦ rw (new, round) (close_round s)
    ]

    search_all-Reported :
        (keys : Map Text) (s : Search)
        → SeenReported s
        → is_some (get a keys) ≡ true
        → Reported a (search_all waits keys s).1
    unfolding search_all get
    search_all-Reported [] s h k = absurd (ground arith)
    search_all-Reported ((name, owner) ∷ rest) s h k = elim (Bool-cases (same name a)) [
      | inl here ↦ search_all_keeps rest (search_from waits name s) a (
          subst (λ n. Reported a (search_from waits n s).1) (sym ((same_iff name a).0 here))
            (search_from-Reported s h))
      | inr other ↦
          search_all-Reported rest (search_from waits name s) (search_from-SeenReported name s h)
            (rw other at k)
    ]

-- If the threads `a` and then `l` are different, 20 at most, and wait in this order each for the
-- next one and the last for `a`, then `a` stands in a reported deadlock.
pub deadlocks-Reported :
    (threads : List ThreadInfo) (a : Text) (l : List Text)
    → Linked (Waits (waits_from threads [])) (a ∷ l) a
    → Distinct (a ∷ l)
    → length (a ∷ l) ≤ max_chain
    → any (includes a) (deadlocks threads) ≡ true
unfolding deadlocks includes
deadlocks-Reported threads a l links distinct short =
    let waits = waits_from threads [] in
    search_all-Reported waits a l links distinct short waits ([], []) (λ x i. absurd (nothing x i))
      (rw (Linked-get waits a l a links))
  where
    nothing : (x : Text) → includes x [] ≡ true → ⊥
    nothing x i = ground arith
