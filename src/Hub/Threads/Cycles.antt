-- ===== src/Hub/Threads/Cycles.antt =====
-- What a reported deadlock is: a cycle of threads, each blocked on a lock that the next one owns.
use kube_diagnostics_mcp.Common.{
  ℕ, zero, suc, ◌≡◌, refl, sym, ◌∙◌, ◌||◌, ◌⊎◌, inl, inr, true, false, Option, none, some, List, [],
  ◌∷◌, ◌++◌, arith, Text, txt, Map, get, put, get-put, same, same_iff, includes, length, leb, All,
  All-append, Bool-cases, Option-cases, if◌then◌else◌,
}
use mathlib.Core.Path.{subst}
use kube_diagnostics_mcp.Hub.Threads.{ThreadInfo, truthy, is_blocked}
use kube_diagnostics_mcp.Hub.Threads.Deadlocks.{
  note_wait, waits_from, follow, max_chain, cycle_from, Search, close_cycle, search_from,
  search_all, deadlocks,
}

-- The thread `t` is called `a`, and is blocked on a lock that `b` owns.
abbrev pub Blocks : ThreadInfo → Text → Text → Type 0
Blocks t a b = (t.thread_name ≡ a) × (t.thread_state ≡ txt "BLOCKED") × (t.lock_owner_name ≡ some b)

-- Some thread of the dump does so.
abbrev pub WaitsFor : List ThreadInfo → Text → Text → Type 0
WaitsFor [] a b = ⊥
WaitsFor (t ∷ ts) a b = Blocks t a b ⊎ WaitsFor ts a b

module _ (R : Text → Text → Type 0) where
  -- Each name of the list is related to the next one, and the last to `z`.
  abbrev pub Linked : List Text → Text → Type 0
  Linked [] z = Unit
  Linked (a ∷ []) z = R a z
  Linked (a ∷ b ∷ l) z = R a b × Linked (b ∷ l) z

  abbrev pub IsCycle : List Text → Type 0
  IsCycle [] = ⊥
  IsCycle (a ∷ l) = Linked (a ∷ l) a

  Linked-push :
      (a : Text) (l : List Text) (b c : Text)
      → Linked (a ∷ l) b
      → R b c
      → Linked ((a ∷ l) ++ b ∷ []) c
  Linked-push a [] b c h r = (h, r)
  Linked-push a (d ∷ l) b c h r = (h.0, Linked-push d l b c h.1 r)

  -- A chain that comes back to one of its names ends in a cycle.
  cycle_from-IsCycle :
      (l : List Text) (c : Text) → includes c l ≡ true → Linked l c → IsCycle (cycle_from c l)
  unfolding includes cycle_from
  cycle_from-IsCycle [] c i h = absurd (ground arith)
  cycle_from-IsCycle (a ∷ []) c i h = elim (Bool-cases (same a c)) [
    | inl here ↦ rw here (subst (λ z. Linked (a ∷ []) z) (sym ((same_iff a c).0 here)) h)
    | inr later ↦ absurd (ground arith)
  ]
  cycle_from-IsCycle (a ∷ d ∷ l) c i h = elim (Bool-cases (same a c)) [
    | inl here ↦ rw here (subst (λ z. Linked (a ∷ d ∷ l) z) (sym ((same_iff a c).0 here)) h)
    | inr later ↦ rw later (cycle_from-IsCycle (d ∷ l) c (rw later at i) h.1)
  ]

-- No name stands twice.
abbrev pub Distinct : List Text → Type 0
Distinct [] = Unit
Distinct (a ∷ l) = (includes a l ≡ false) × Distinct l

includes-push :
    (x : Text) (l : List Text) (c : Text) → includes x (l ++ c ∷ []) ≡ (includes x l || same c x)
unfolding includes
includes-push x [] c = ground arith
includes-push x (a ∷ l) c = ground (arith, includes-push x l c)

pub Distinct-push :
    (l : List Text) (c : Text) → Distinct l → includes c l ≡ false → Distinct (l ++ c ∷ [])
unfolding includes
Distinct-push [] c h k = (refl, tt)
Distinct-push (a ∷ l) c h k = (
  ground (arith, h.0, includes-push a l c, same_iff a c, same_iff c a),
  Distinct-push l c h.1 (ground arith),
)

cycle_from-Distinct : (c : Text) (l : List Text) → Distinct l → Distinct (cycle_from c l)
unfolding cycle_from
cycle_from-Distinct c [] h = tt
cycle_from-Distinct c (a ∷ l) h = elim (Bool-cases (same a c)) [
  | inl here ↦ rw here h
  | inr later ↦ rw later (cycle_from-Distinct c l h.1)
]

-- A chain of distinct names, each waiting for the next, and the last for the name that is next.
abbrev Chain : (Text → Text → Type 0) → List Text × Option Text → Type 0
Chain R (chain, none) = Distinct chain
Chain R (chain, some c) = Distinct chain × Linked R chain c

module _ (R : Text → Text → Type 0) (waits : Map Text)
    (sound : (a b : Text) → get a waits ≡ some b → R a b) where
  Chain-step :
      (a : Text) (l : List Text) (c : Text) (next : Option Text)
      → Distinct ((a ∷ l) ++ c ∷ [])
      → Linked R (a ∷ l) c
      → get c waits ≡ next
      → Chain R ((a ∷ l) ++ c ∷ [], next)
  Chain-step a l c none d h e = d
  Chain-step a l c (some b) d h e = (d, Linked-push R a l c b h (sound c b e))

  follow-Chain :
      (n : ℕ) (a : Text) (l : List Text) (cur : Option Text)
      → Chain R (a ∷ l, cur)
      → Chain R (follow waits n (a ∷ l) cur)
  unfolding follow
  follow-Chain zero a l cur h = h
  follow-Chain (suc n) a l none h = h
  follow-Chain (suc n) a l (some c) h =
      elim (Bool-cases (includes c (a ∷ l) || leb max_chain (length (a ∷ l)))) [
        | inl ends ↦ rw ends h
        | inr goes_on ↦ rw goes_on (
            follow-Chain n a (l ++ c ∷ []) (get c waits) (
              Chain-step a l c (get c waits) (Distinct-push (a ∷ l) c h.0 (ground arith)) h.1 refl))
      ]

  abbrev IsDeadlock : List Text → Type 0
  IsDeadlock cycle = IsCycle R cycle × Distinct cycle

  close_cycle-IsDeadlock :
      (s : Search) (walk : List Text × Option Text)
      → Chain R walk
      → All IsDeadlock s.1
      → All IsDeadlock (close_cycle s walk).1
  unfolding close_cycle
  close_cycle-IsDeadlock (seen, found) (chain, none) h k = k
  close_cycle-IsDeadlock (seen, found) (chain, some c) h k = elim (Bool-cases (includes c chain)) [
    | inl back ↦ rw back (
        All-append IsDeadlock found (cycle_from c chain ∷ []) k
          ((cycle_from-IsCycle R chain c back h.1, cycle_from-Distinct c chain h.0), tt))
    | inr not_back ↦ rw not_back k
  ]

  search_from-IsDeadlock :
      (start : Text) (s : Search)
      → All IsDeadlock s.1
      → All IsDeadlock (search_from waits start s).1
  unfolding search_from
  search_from-IsDeadlock start s k = elim (Bool-cases (includes start s.0)) [
    | inl old ↦ rw old k
    | inr new ↦ rw new (
        close_cycle-IsDeadlock s _
          (follow-Chain max_chain start [] (get start waits) (first (get start waits) refl)) k)
  ]
    where
      first : (cur : Option Text) → get start waits ≡ cur → Chain R (start ∷ [], cur)
      first none e = (refl, tt)
      first (some b) e = ((refl, tt), sound start b e)

  search_all-IsDeadlock :
      (keys : Map Text) (s : Search)
      → All IsDeadlock s.1
      → All IsDeadlock (search_all waits keys s).1
  unfolding search_all
  search_all-IsDeadlock [] s k = k
  search_all-IsDeadlock ((name, owner) ∷ rest) s k =
      search_all-IsDeadlock rest (search_from waits name s) (search_from-IsDeadlock name s k)

truthy-eq-some : (o : Option Text) {x : Text} → truthy o ≡ some x → o ≡ some x
truthy-eq-some none h = absurd (ground arith)
truthy-eq-some (some []) h = absurd (ground arith)
truthy-eq-some (some (c ∷ s)) h = h

module _ (t : ThreadInfo) (waits : Map Text) where
  note_wait-none : truthy t.lock_owner_name ≡ none → note_wait t waits ≡ waits
  unfolding note_wait
  note_wait-none e = rw (e, note_wait)

  note_wait-some :
      {owner : Text}
      → truthy t.lock_owner_name ≡ some owner
      → note_wait t waits ≡ (if is_blocked t then put t.thread_name owner waits else waits)
  unfolding note_wait
  note_wait-some e = rw (e, note_wait)

note_wait-Blocks :
    (t : ThreadInfo) (waits : Map Text) (a b : Text)
    → get a (note_wait t waits) ≡ some b
    → Blocks t a b ⊎ (get a waits ≡ some b)
note_wait-Blocks t waits a b h = elim (Option-cases (truthy t.lock_owner_name)) [
  | inl nobody ↦ inr (rw (note_wait-none t waits nobody) at h)
  | inr (owner, e) ↦ elim (Bool-cases (is_blocked t)) [
    | inr running ↦ inr (rw (note_wait-some t waits e, running) at h)
    | inl blocked ↦ put_cases owner e blocked (rw (note_wait-some t waits e, blocked, get-put) at h)
  ]
]
  where
    put_cases :
        (owner : Text)
        → truthy t.lock_owner_name ≡ some owner
        → is_blocked t ≡ true
        → (if same t.thread_name a then some owner else get a waits) ≡ some b
        → Blocks t a b ⊎ (get a waits ≡ some b)
    put_cases owner e blocked h = elim (Bool-cases (same t.thread_name a)) [
      | inr other ↦ inr (rw other at h)
      | inl here ↦ inl (
        (same_iff t.thread_name a).0 here,
        (same_iff t.thread_state (txt "BLOCKED")).0 blocked,
        truthy-eq-some t.lock_owner_name e ∙ (rw here at h),
      )
    ]

waits_from-WaitsFor :
    (ts : List ThreadInfo) (waits : Map Text) (a b : Text)
    → get a (waits_from ts waits) ≡ some b
    → WaitsFor ts a b ⊎ (get a waits ≡ some b)
unfolding waits_from
waits_from-WaitsFor [] waits a b h = inr h
waits_from-WaitsFor (t ∷ ts) waits a b h = elim (waits_from-WaitsFor ts (note_wait t waits) a b h) [
  | inl later ↦ inl (inr later)
  | inr w ↦ elim (note_wait-Blocks t waits a b w) [
    | inl here ↦ inl (inl here)
    | inr before ↦ inr before
  ]
]

-- In a reported deadlock no thread stands twice, and each thread of it is blocked on a lock of the
-- next one, the last on a lock of the first.
pub deadlocks-IsCycle :
    (threads : List ThreadInfo)
    → All (λ cycle. IsCycle (WaitsFor threads) cycle × Distinct cycle) (deadlocks threads)
unfolding deadlocks get
deadlocks-IsCycle threads =
    let waits = waits_from threads [] in
    search_all-IsDeadlock (WaitsFor threads) waits sound waits ([], []) tt
  where
    sound : (a b : Text) → get a (waits_from threads []) ≡ some b → WaitsFor threads a b
    sound a b h = elim (waits_from-WaitsFor threads [] a b h) [
      | inl found ↦ found
      | inr none_yet ↦ absurd (ground arith)
    ]
