-- ===== src/Hub/Threads/Walk.antt =====
-- The walk along waiting threads: where it ends, and what it has visited.
use kube_diagnostics_mcp.Common.{
  ℕ, zero, suc, ◌+◌, ◌≤◌, ◌≡◌, refl, ◌⊎◌, inl, inr, ◌||◌, Bool, true, false, Option, none, some,
  List, [], ◌∷◌, ◌++◌, arith, Text, Map, get, same_iff, includes, length, length-append, leb, any,
  Bool-cases,
}
use mathlib.Core.List.{append_assoc, append-nil}
use kube_diagnostics_mcp.Hub.Threads.Cycles.{Linked, Distinct}
use kube_diagnostics_mcp.Hub.Threads.Deadlocks.{follow, max_chain}

abbrev pub Waits : Map Text → Text → Text → Type 0
Waits waits a b = get a waits ≡ some b

-- The walk stops by its own test, and not for lack of rounds.
abbrev pub Stopped : List Text × Option Text → Type 0
Stopped (chain, none) = Unit
Stopped (chain, some c) = (includes c chain ≡ true) ⊎ (max_chain ≤ length chain)

follow-Stopped :
    (waits : Map Text) (n : ℕ) (chain : List Text) (cur : Option Text)
    → max_chain ≤ n + length chain
    → Stopped (follow waits n chain cur)
unfolding follow
follow-Stopped waits zero chain none h = tt
follow-Stopped waits zero chain (some c) h = inr (omega arith)
follow-Stopped waits (suc n) chain none h = tt
follow-Stopped waits (suc n) chain (some c) h =
    elim (Bool-cases (includes c chain || leb max_chain (length chain))) [
      | inl ends ↦ rw ends (elim (Bool-cases (includes c chain)) [
        | inl back ↦ inl back
        | inr fresh ↦ inr (ground arith)
      ])
      | inr goes_on ↦ rw goes_on (
          follow-Stopped waits n (chain ++ c ∷ []) (get c waits)
            (omega (arith, length-append chain (c ∷ []))))
    ]

follow-length :
    (waits : Map Text) (n : ℕ) (chain : List Text) (cur : Option Text)
    → length chain ≤ max_chain
    → length ((follow waits n chain cur).0) ≤ max_chain
unfolding follow
follow-length waits zero chain cur h = h
follow-length waits (suc n) chain none h = h
follow-length waits (suc n) chain (some c) h =
    elim (Bool-cases (includes c chain || leb max_chain (length chain))) [
      | inl ends ↦ rw ends h
      | inr goes_on ↦ rw goes_on (
          follow-length waits n (chain ++ c ∷ []) (get c waits)
            (ground (arith, length-append chain (c ∷ []))))
    ]

-- The walk from any thread visits 20 threads at most, and ends by its own test: at a thread that
-- waits for nobody, at one of the chain, or at the limit. The rounds allowed suffice.
pub follow_terminates :
    (waits : Map Text) (start : Text)
    → let walk = follow waits max_chain (start ∷ []) (get start waits) in
      (length (walk.0) ≤ max_chain) × Stopped walk
follow_terminates waits start = (
  follow-length waits max_chain (start ∷ []) (get start waits) (omega arith),
  follow-Stopped waits max_chain (start ∷ []) (get start waits) (omega arith),
)

pub includes-append :
    (x : Text) (l m : List Text) → includes x (l ++ m) ≡ (includes x l || includes x m)
unfolding includes
includes-append x [] m = refl
includes-append x (a ∷ l) m = ground (arith, includes-append x l m)

pub any-append :
    (p : List Text → Bool) (l m : List (List Text)) → any p (l ++ m) ≡ (any p l || any p m)
unfolding any
any-append p [] m = refl
any-append p (a ∷ l) m = ground (arith, any-append p l m)

Distinct-middle :
    (pre : List Text) (c : Text) (suf : List Text)
    → Distinct (pre ++ c ∷ suf)
    → includes c pre ≡ false
unfolding includes
Distinct-middle [] c suf h = refl
Distinct-middle (a ∷ pre) c suf h =
    let out : includes a (pre ++ c ∷ suf) ≡ false = h.0 in
    ground (
      arith,
      includes-append a pre (c ∷ suf),
      same_iff a c,
      same_iff c a,
      Distinct-middle pre c suf h.1,
    )

abbrev first_or : List Text → Text → Text
first_or [] a = a
first_or (c ∷ l) a = c

abbrev pub Reported : Text → List (List Text) → Type 0
Reported x found = any (includes x) found ≡ true

pub Linked-get :
    (waits : Map Text) (c : Text) (l : List Text) (a : Text)
    → Linked (Waits waits) (c ∷ l) a
    → get c waits ≡ some (first_or l a)
Linked-get waits c [] a h = h
Linked-get waits c (d ∷ l) a h = h.0

pub Linked-rest :
    (waits : Map Text) (c : Text) (l : List Text) (a : Text)
    → Linked (Waits waits) (c ∷ l) a
    → Linked (Waits waits) l a
Linked-rest waits c [] a h = tt
Linked-rest waits c (d ∷ l) a h = h.1

-- The walk goes once round a cycle and stops where it began.
pub follow_round :
    (waits : Map Text) (a : Text) (n : ℕ) (pre suf : List Text)
    → Distinct (pre ++ suf)
    → includes a pre ≡ true
    → Linked (Waits waits) suf a
    → length (pre ++ suf) ≤ max_chain
    → length suf ≤ n
    → follow waits n pre (some (first_or suf a)) ≡ (pre ++ suf, some a)
unfolding follow
follow_round waits a zero pre [] d i h s m = rw append-nil
follow_round waits a (suc n) pre [] d i h s m = rw (i, append-nil)
follow_round waits a zero pre (c ∷ suf) d i h s m = absurd (omega arith)
follow_round waits a (suc n) pre (c ∷ suf) d i h s m =
    let fresh = Distinct-middle pre c suf d in
    let short : leb max_chain (length pre) ≡ false = ground (arith, length-append pre (c ∷ suf)) in
    rw (fresh, short, Linked-get waits c suf a h)
      (rw (append_assoc pre (c ∷ []) suf) at (
        follow_round waits a n (pre ++ c ∷ []) suf (rw (← append_assoc pre (c ∷ []) suf) at d)
          (ground (arith, includes-append a pre (c ∷ []))) (Linked-rest waits c suf a h)
          (rw (← append_assoc pre (c ∷ []) suf) at s) (omega arith)))
